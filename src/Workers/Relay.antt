-- ===== src/Workers/Relay.antt =====
-- workers/outbox-relay.worker.ts: one pass of the loop that hands the rows of the outbox to BullMQ.
use Prim.Native.Nat.{◌%◌}
use dead_switch.Common.{
  ℕ, ◌+◌, ◌-◌, ◌*◌, ◌^◌, min, String, Bool, true, false, not, ◌&&◌, List, [], ◌∷◌, ◌++◌, Option,
  none, some, is_some, leb, ◌==◌, str_eq, template, take, find_first, find_many, count_where,
  update_many, if◌then◌else◌,
}
use dead_switch.Schema.{OutboxEvent, Error, plain}
use dead_switch.World.{Db, Mem, Job}
use dead_switch.Effect.{
  M, pure, throw, ◌>>=◌, ◌>>◌, gets, ask, clock, remember, modify, require, try_catch, for_each,
}
use dead_switch.Safety.Capability.{release_enqueue}
use dead_switch.Safety.Matrix.{PolicyDecision, allow, deny, evaluate, capability_text}
use dead_switch.Safety.Mode.{current, mode_text}
use dead_switch.Attachments.Issuer.{message_of}

-- `Queue.add` of BullMQ: the message of the error with which a job is refused. A job whose id the
-- queue knows is not added again.
abbrev pub Refusals : Type 0
Refusals = Job → Option String

abbrev pub same_queue_job : Job → Job → Bool
same_queue_job j k = str_eq k.queue j.queue && str_eq k.job_id j.job_id

unfoldable pub add_job : Job → Mem → Mem
add_job j mem =
    if is_some (find_first (same_queue_job j) mem.jobs)
    then mem
    else record mem { jobs = mem.jobs ++ j ∷ [] }

abbrev pub refuse_or_add : Option String → Job → M (Unit {0})
refuse_or_add (some message) j = throw (plain message)
refuse_or_add none j = remember (add_job j)

unfoldable pub add : Refusals → Job → M (Unit {0})
add refuses j = refuse_or_add (refuses j) j

abbrev unlocked : ℕ → Option ℕ → Bool
unlocked now none = true
unlocked now (some t) = leb t now

unfoldable pub is_ready : ℕ → OutboxEvent → Bool
is_ready now e = leb e.available_at now && unlocked now e.locked_until

-- ORDER BY "availableAt"
unfoldable pub insert_by_time : OutboxEvent → List OutboxEvent → List OutboxEvent
insert_by_time e [] = e ∷ []
insert_by_time e (f ∷ fs) =
    let rest = insert_by_time e fs in
    if leb e.available_at f.available_at then e ∷ f ∷ fs else f ∷ rest

unfoldable pub sort_by_time : List OutboxEvent → List OutboxEvent
unfolding insert_by_time
sort_by_time [] = []
sort_by_time (e ∷ es) = insert_by_time e (sort_by_time es)

unfoldable pub has_event_id : String → OutboxEvent → Bool
has_event_id id e = str_eq e.id id

unfoldable pub set_outbox : (List OutboxEvent → List OutboxEvent) → Db → Db
set_outbox f db = record db { outbox = f db.outbox }

abbrev pub lock_row : ℕ → OutboxEvent → OutboxEvent
lock_row now e = record e { locked_until = some (now + 30000); attempts = e.attempts + 1 }

-- o.id = ready.id, for one row of the batch after the other.
unfoldable pub lock_rows : ℕ → List OutboxEvent → List OutboxEvent → List OutboxEvent
lock_rows now [] rows = rows
lock_rows now (e ∷ es) rows = lock_rows now es (update_many (has_event_id e.id) (lock_row now) rows)

-- The batch of at most fifty rows, in the order of availableAt.
unfoldable pub claim_batch : M (List OutboxEvent)
unfolding is_ready sort_by_time lock_rows
claim_batch = do
  now ← clock
  batch ← gets (λ db. take 50 (sort_by_time (find_many (is_ready now) db.outbox)))
  modify (set_outbox (lock_rows now batch))
  pure batch

abbrev pub reschedule : ℕ → String → OutboxEvent → OutboxEvent
reschedule at message e = record e {
  locked_until = none;
  available_at = at;
  last_error = some message;
}

-- outboxEvent.update, which throws where the row is gone.
unfoldable pub put_back : String → ℕ → String → M (Unit {0})
put_back id at message = do
  n ← gets (λ db. count_where (has_event_id id) db.outbox)
  require (not (n == 0)) (plain "Record to update not found")
  modify (set_outbox (update_many (has_event_id id) (reschedule at message)))

unfoldable pub without_event : String → List OutboxEvent → List OutboxEvent
without_event id [] = []
without_event id (e ∷ es) =
    let rest = without_event id es in if has_event_id id e then rest else e ∷ rest

unfoldable pub delete_event : String → M (Unit {0})
unfolding without_event
delete_event id = do
  n ← gets (λ db. count_where (has_event_id id) db.outbox)
  require (not (n == 0)) (plain "Record to delete does not exist")
  modify (set_outbox (without_event id))

abbrev pub job_of : ℕ → OutboxEvent → Job
job_of now ev = record {
  queue = ev.queue_name;
  job_name = ev.job_name;
  job_id = ev.job_id;
  payload = ev.payload;
  delay = ev.available_at - now;
}

unfoldable pub hand_over : Refusals → OutboxEvent → M (Unit {0})
hand_over refuses ev = do now ← clock; add refuses (job_of now ev); delete_event ev.id

abbrev pub reason_of : PolicyDecision → String
reason_of allow = ""
reason_of (deny c m) =
    template ("capability '" ∷ capability_text c ∷ "' is denied in mode '" ∷ mode_text m ∷ "'" ∷ [])

abbrev pub is_allow : PolicyDecision → Bool
is_allow allow = true
is_allow (deny c m) = false

-- A `release` job waits while the safety mode does not let it be queued.
unfoldable pub relay_release : Refusals → OutboxEvent → M (Unit {0})
relay_release refuses ev = do
  row ← current
  now ← clock
  let decision = evaluate row.mode release_enqueue
  if is_allow decision
      then hand_over refuses ev
      else put_back ev.id (now + 60000) (template ("safety: " ∷ reason_of decision ∷ []))

unfoldable pub relay_row : Refusals → OutboxEvent → M (Unit {0})
relay_row refuses ev =
    if str_eq ev.queue_name "release" then relay_release refuses ev else hand_over refuses ev

unfoldable pub back_off : OutboxEvent → Error → M (Unit {0})
back_off ev e = do
  now ← clock
  message ← ask (λ env. env.slice (message_of e) 0 500)
  put_back ev.id (now + min (60000 * 2 ^ min 8 (ev.available_at % 8)) 600000) message

-- One pass; an error of `back_off` is logged by the caller, which goes on with the next pass.
unfoldable pub relay_pass : Refusals → M (Unit {0})
relay_pass refuses = do
  claimed ← claim_batch
  for_each claimed (λ ev. try_catch (relay_row refuses ev) (back_off ev))
