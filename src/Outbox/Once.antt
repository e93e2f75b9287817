-- ===== src/Outbox/Once.antt =====
-- OutboxService.enqueue (outbox/outbox.service.ts) under a key that is taken.
use dead_switch.Common.{
  ℕ, suc, ◌≤◌, ◌≡◌, String, Bool, true, false, List, [], ◌∷◌, ◌++◌, inl, inr, Bool-cases, arith,
  ◌==◌, if◌then◌else◌, count_where, str_eq_refl,
}
use dead_switch.Schema.{OutboxEvent}
use dead_switch.World.{Db, World}
use dead_switch.Effect.{
  done, final, pure, throw, ◌>>=◌, gets, clock, fresh, modify, require, try_catch,
}
use dead_switch.Outbox.Service.{
  EnqueueSpec, same_job, append_outbox, event_of, create_event, ignore_duplicate, enqueue,
}

abbrev pub key_count : String → String → Db → ℕ
key_count q j db = count_where (same_job q j) db.outbox

abbrev stored : EnqueueSpec → World → World
stored spec w = record w {
  db =
      append_outbox (event_of (w.env.uuid w.db.serial) w.now spec)
        (record w.db { serial = suc w.db.serial });
}

enqueue_lem :
    (spec : EnqueueSpec) (w : World)
    → enqueue spec w
      ≡ done tt (if key_count spec.queue spec.job_id w.db == 0 then stored spec w else w)
unfolding enqueue create_event try_catch ignore_duplicate ◌>>=◌ gets require clock fresh modify
    throw pure
enqueue_lem spec w = elim (Bool-cases (key_count spec.queue spec.job_id w.db == 0)) [
  | inl y ↦ rw y
  | inr n ↦ rw n
]

count_where-snoc :
    (p : OutboxEvent → Bool) (es : List OutboxEvent) (e : OutboxEvent)
    → count_where p (es ++ e ∷ []) ≡ (if p e then suc (count_where p es) else count_where p es)
unfolding count_where
count_where-snoc p [] e = ground arith
count_where-snoc p (d ∷ es) e = ground (arith, count_where-snoc p es e)

own_key :
    (spec : EnqueueSpec) (id : String) (now : ℕ)
    → same_job spec.queue spec.job_id (event_of id now spec) ≡ true
unfolding same_job event_of
own_key spec id now = rw (str_eq_refl spec.queue, str_eq_refl spec.job_id)

stored-count :
    (spec : EnqueueSpec) (q j : String) (w : World)
    → key_count q j (stored spec w).db ≡ (
        if same_job q j (event_of (w.env.uuid w.db.serial) w.now spec)
        then suc (key_count q j w.db)
        else key_count q j w.db)
unfolding append_outbox
stored-count spec q j w = count_where-snoc (same_job q j) w.db.outbox _

enqueued-count :
    (spec : EnqueueSpec) (w : World)
    → 1 ≤ key_count spec.queue spec.job_id (final (enqueue spec w)).db
enqueued-count spec w = elim (Bool-cases (key_count spec.queue spec.job_id w.db == 0)) [
  | inl y ↦
      rw
        (
          enqueue_lem spec w,
          y,
          stored-count spec spec.queue spec.job_id w,
          own_key spec (w.env.uuid w.db.serial) w.now,
        )
        (omega arith)
  | inr n ↦ rw (enqueue_lem spec w, n) (ground arith)
]

enqueue-present :
    (spec : EnqueueSpec) (w : World)
    → 1 ≤ key_count spec.queue spec.job_id w.db
    → enqueue spec w ≡ done tt w
enqueue-present spec w h =
    let taken : (key_count spec.queue spec.job_id w.db == 0) ≡ false = ground arith in
    rw (enqueue_lem spec w, taken)

-- After a first `enqueue` of a job, which never throws, there is a row for its queue and id; a
-- second one for the same queue and id, at any instant and with any payload and delay, answers as
-- the first did and changes nothing.
pub enqueue-once :
    (spec again : EnqueueSpec) (w : World)
    → again.queue ≡ spec.queue
    → again.job_id ≡ spec.job_id
    → (t : ℕ)
    → let v = record (final (enqueue spec w)) { now = t } in
      (enqueue spec w ≡ done tt (final (enqueue spec w)))
      × (1 ≤ key_count spec.queue spec.job_id v.db)
      × (enqueue again v ≡ done tt v)
enqueue-once spec again w q j t =
    let v = record (final (enqueue spec w)) { now = t } in
    (
      rw (enqueue_lem spec w),
      enqueued-count spec w,
      enqueue-present again v (rw (q, j) (enqueued-count spec w)),
    )
