-- ===== src/Outbox/Service.antt =====
-- outbox/outbox.service.ts.
use dead_switch.Common.{
  ℕ, ◌+◌, String, Bool, ◌&&◌, [], ◌∷◌, ◌++◌, Option, none, some, str_eq, count_where, ◌==◌,
}
use dead_switch.Schema.{OutboxEvent, Value, Error, unique_violation}
use dead_switch.World.{Db}
use dead_switch.Effect.{M, pure, throw, ◌>>=◌, ◌>>◌, gets, clock, modify, fresh, require, try_catch}

pub record EnqueueSpec : Type 0 where
  pub queue : String
  pub job_name : String
  pub job_id : String
  pub payload : Value
  pub delay_ms : Option ℕ

unfoldable pub same_job : String → String → OutboxEvent → Bool
same_job queue job_id e = str_eq e.queue_name queue && str_eq e.job_id job_id

unfoldable pub append_outbox : OutboxEvent → Db → Db
append_outbox e db = record db { outbox = db.outbox ++ e ∷ [] }

unfoldable pub available_at : ℕ → Option ℕ → ℕ
available_at now none = now
available_at now (some delay_ms) = now + delay_ms

unfoldable pub event_of : String → ℕ → EnqueueSpec → OutboxEvent
event_of id now spec = record {
  id = id;
  queue_name = spec.queue;
  job_name = spec.job_name;
  job_id = spec.job_id;
  payload = spec.payload;
  available_at = available_at now spec.delay_ms;
  attempts = 0;
  locked_until = none;
  last_error = none;
}

-- outboxEvent.create, under @@unique([queueName, jobId]).
unfoldable pub create_event : EnqueueSpec → M (Unit {0})
create_event spec = do
  n ← gets (λ db. count_where (same_job spec.queue spec.job_id) db.outbox)
  require (n == 0) unique_violation
  now ← clock
  id ← fresh
  modify (append_outbox (event_of id now spec))

-- A duplicate is ignored, and every other error is thrown on.
unfoldable pub ignore_duplicate : Error → M (Unit {0})
ignore_duplicate unique_violation = pure tt
ignore_duplicate e = throw e

unfoldable pub enqueue : EnqueueSpec → M (Unit {0})
enqueue spec = try_catch (create_event spec) ignore_duplicate
