-- ===== src/Workers/Progress.antt =====
-- The oldest row of the outbox in a pass of the relay (workers/outbox-relay.worker.ts).
use dead_switch.Common.{
  ◌≡◌, sym, ap, ◌∙◌, subst, true, false, List, [], ◌∷◌, none, is_some, inl, inr, Bool-cases, ◌==◌,
  str_eq, take, find_first, find_many, count_where,
}
use dead_switch.Schema.{OutboxEvent}
use dead_switch.World.{World}
use dead_switch.Effect.{
  M, Outcome, done, fail, final, pure, throw, continue, handle, ◌>>=◌, gets, clock, remember,
  modify, require, try_catch, for_each,
}
use dead_switch.Workers.Relay.{
  Refusals, add_job, add, is_ready, sort_by_time, has_event_id, set_outbox, lock_rows, claim_batch,
  delete_event, job_of, hand_over, relay_row, back_off, relay_pass,
}
use dead_switch.Workers.Treats.{
  job_is, known_itself, add_job_lem, treat, treat-Treats, back_off-Treats,
}

-- The queue knows the job.
abbrev InQueue : OutboxEvent → World → Type 0
InQueue e w = is_some (find_first (job_is e.queue_name e.job_id) w.mem.jobs) ≡ true

deleted-InQueue :
    (e : OutboxEvent) (w : World) → InQueue e w → InQueue e (final (delete_event e.id w))
unfolding delete_event ◌>>=◌ gets require modify set_outbox throw pure
deleted-InQueue e w h = elim (Bool-cases (count_where (has_event_id e.id) w.db.outbox == 0)) [
  | inl y ↦ rw y h
  | inr n ↦ rw n h
]

hand_over-InQueue :
    (refuses : Refusals) (e : OutboxEvent) (w : World)
    → refuses (job_of w.now e) ≡ none
    → InQueue e (final (hand_over refuses e w))
unfolding hand_over add ◌>>=◌ clock throw remember
hand_over-InQueue refuses e w h = rw h (
    deleted-InQueue e (record w { mem = add_job (job_of w.now e) w.mem })
      (ap (λ js. is_some (find_first (job_is e.queue_name e.job_id) js))
          (add_job_lem (job_of w.now e) w.mem)
        ∙ known_itself (job_of w.now e) w.mem.jobs))

treat-InQueue :
    (refuses : Refusals) (e : OutboxEvent) (w : World)
    → str_eq e.queue_name "release" ≡ false
    → refuses (job_of w.now e) ≡ none
    → InQueue e (final (treat refuses e w))
unfolding treat try_catch relay_row
treat-InQueue refuses e w r h =
    rw r (caught (hand_over refuses e w) (hand_over-InQueue refuses e w h))
  where
    caught :
        (o : Outcome (Unit {0})) → InQueue e (final o) → InQueue e (final (handle o (back_off e)))
    caught (done u v) k = k
    caught (fail x v) k = (back_off-Treats e x v).grows e.queue_name e.job_id k

after_row-InQueue :
    (e : OutboxEvent) (rest : M (Unit {0})) (o : Outcome (Unit {0}))
    → ((v : World) → InQueue e v → InQueue e (final (rest v)))
    → InQueue e (final o)
    → InQueue e (final (continue o (λ _. rest)))
after_row-InQueue e rest (done u v) ih k = ih v k
after_row-InQueue e rest (fail x v) ih k = k

batch-InQueue :
    (refuses : Refusals) (evs : List OutboxEvent) (e : OutboxEvent) (w : World)
    → InQueue e w
    → InQueue e (final (for_each evs (treat refuses) w))
unfolding for_each ◌>>=◌ pure
batch-InQueue refuses [] e w h = h
batch-InQueue refuses (f ∷ evs) e w h =
    after_row-InQueue e (for_each evs (treat refuses)) (treat refuses f w)
      (batch-InQueue refuses evs e) ((treat-Treats refuses f w).grows e.queue_name e.job_id h)

-- A pass of the relay makes progress: where the oldest row that is ready is for another queue
-- than `release` and BullMQ accepts its job, the job is in its queue after the pass.
pub relay_pass-progress :
    (refuses : Refusals) (e : OutboxEvent) (es : List OutboxEvent) (w : World)
    → sort_by_time (find_many (is_ready w.now) w.db.outbox) ≡ e ∷ es
    → str_eq e.queue_name "release" ≡ false
    → refuses (job_of w.now e) ≡ none
    → let u = final (relay_pass refuses w) in
      is_some (find_first (job_is e.queue_name e.job_id) u.mem.jobs) ≡ true
unfolding relay_pass claim_batch treat set_outbox ◌>>=◌ clock gets modify pure
relay_pass-progress refuses e es w s r h =
    let locked : World = record w {
      db = record w.db {
        outbox =
            lock_rows w.now (take 50 (sort_by_time (find_many (is_ready w.now) w.db.outbox)))
              w.db.outbox;
      };
    } in
    let rest = take 49 es in
    let first : take 50 (sort_by_time (find_many (is_ready w.now) w.db.outbox)) ≡ e ∷ rest =
      unfold take in ap (take 50) s in
    subst (λ b. InQueue e (final (for_each b (treat refuses) locked))) (sym first)
      (unfold for_each in
        after_row-InQueue e (for_each rest (treat refuses)) (treat refuses e locked)
          (batch-InQueue refuses rest e) (treat-InQueue refuses e locked r h))
