-- ===== src/Workers/Kept.antt =====
-- The jobs of the outbox through a pass of the relay (workers/outbox-relay.worker.ts).
use dead_switch.Common.{
  ℕ, ◌≡◌, refl, ◌∙◌, String, Bool, true, ◌||◌, List, [], ◌∷◌, is_some, inl, inr, Bool-cases, leb,
  take, take-All, find_first, find_many, update_many, All,
}
use dead_switch.Schema.{OutboxEvent}
use dead_switch.World.{World}
use dead_switch.Effect.{
  M, Outcome, done, fail, final, pure, continue, ◌>>=◌, gets, clock, modify, for_each,
}
use dead_switch.Outbox.Service.{same_job}
use dead_switch.Workers.Relay.{
  Refusals, is_ready, insert_by_time, sort_by_time, has_event_id, set_outbox, lock_rows, lock_row,
  claim_batch, relay_pass,
}
use dead_switch.Workers.Treats.{
  job_is, is_kept, Named, Relabels, Named-update_many, found-update_many, treat, treat-Treats,
}

-- A whole batch: the rows keep what they stand for, one after the other.
names_after :
    (evs : List OutboxEvent) (rows us : List OutboxEvent)
    → ((f : OutboxEvent) → Named rows f → Named us f)
    → All (Named rows) evs
    → All (Named us) evs
names_after [] rows us k n = tt
names_after (e ∷ evs) rows us k (n, ns) = (k e n, names_after evs rows us k ns)

-- In the world where `o` ended, the job is kept.
abbrev KeptIn : String → String → Outcome (Unit {0}) → Type 0
KeptIn q i o = is_kept q i (final o).db.outbox (final o).mem.jobs ≡ true

after_row :
    (q i : String) (rows : List OutboxEvent) (evs : List OutboxEvent) (rest : M (Unit {0}))
    (o : Outcome (Unit {0}))
    → ((v : World)
        → All (Named v.db.outbox) evs
        → is_kept q i v.db.outbox v.mem.jobs ≡ true
        → KeptIn q i (rest v))
    → All (Named rows) evs
    → ((f : OutboxEvent) → Named rows f → Named (final o).db.outbox f)
    → KeptIn q i o
    → KeptIn q i (continue o (λ _. rest))
after_row q i rows evs rest (done u v) ih ns k g = ih v (names_after evs rows v.db.outbox k ns) g
after_row q i rows evs rest (fail x v) ih ns k g = g

batch-kept :
    (refuses : Refusals) (evs : List OutboxEvent) (q i : String) (w : World)
    → All (Named w.db.outbox) evs
    → is_kept q i w.db.outbox w.mem.jobs ≡ true
    → KeptIn q i (for_each evs (treat refuses) w)
unfolding for_each ◌>>=◌ pure
batch-kept refuses [] q i w n h = h
batch-kept refuses (e ∷ evs) q i w (n, ns) h =
    let t = treat-Treats refuses e w in
    after_row q i w.db.outbox evs (for_each evs (treat refuses)) (treat refuses e w)
      (batch-kept refuses evs q i) ns t.names (t.keeps q i n h)

module _ (P : OutboxEvent → Type 0) where
  find_many-All :
      (p : OutboxEvent → Bool) (es : List OutboxEvent) → All P es → All P (find_many p es)
  unfolding find_many
  find_many-All p [] h = tt
  find_many-All p (e ∷ es) (h, hs) = elim (Bool-cases (p e)) [
    | inl y ↦ rw y (h, find_many-All p es hs)
    | inr n ↦ rw n (find_many-All p es hs)
  ]

  insert_by_time-All :
      (e : OutboxEvent) (es : List OutboxEvent) → P e → All P es → All P (insert_by_time e es)
  unfolding insert_by_time
  insert_by_time-All e [] h hs = (h, tt)
  insert_by_time-All e (f ∷ es) h (k, hs) = elim (Bool-cases (leb e.available_at f.available_at)) [
    | inl y ↦ rw y (h, (k, hs))
    | inr n ↦ rw n (k, insert_by_time-All e es h hs)
  ]

  sort_by_time-All : (es : List OutboxEvent) → All P es → All P (sort_by_time es)
  unfolding sort_by_time
  sort_by_time-All [] h = tt
  sort_by_time-All (e ∷ es) (h, hs) =
      insert_by_time-All e (sort_by_time es) h (sort_by_time-All es hs)

lock_row-Relabels : (now : ℕ) → Relabels (lock_row now)
lock_row-Relabels now = record {
  same_id = λ r. refl;
  same_queue = λ r. refl;
  same_job_id = λ r. refl;
}

lock_rows-found :
    (now : ℕ) (q i : String) (es rows : List OutboxEvent)
    → is_some (find_first (same_job q i) (lock_rows now es rows))
      ≡ is_some (find_first (same_job q i) rows)
unfolding lock_rows
lock_rows-found now q i [] rows = refl
lock_rows-found now q i (e ∷ es) rows =
    lock_rows-found now q i es (update_many (has_event_id e.id) (lock_row now) rows)
    ∙ found-update_many (lock_row now) (lock_row-Relabels now) e.id q i rows

lock_rows-Named :
    (now : ℕ) (es rows : List OutboxEvent) (f : OutboxEvent)
    → Named rows f
    → Named (lock_rows now es rows) f
unfolding lock_rows
lock_rows-Named now [] rows f n = n
lock_rows-Named now (e ∷ es) rows f n =
    lock_rows-Named now es (update_many (has_event_id e.id) (lock_row now) rows) f
      (Named-update_many (lock_row now) (lock_row-Relabels now) e.id rows f n)

-- No job is lost in a pass of the relay, whatever BullMQ refuses and whatever mode the system is in:
-- a job that was in the outbox or in its queue before is in one of the two after, where rows of one
-- identifier stand for one job.
pub relay_pass-kept :
    (refuses : Refusals) (q i : String) (w : World)
    → All (Named w.db.outbox) w.db.outbox
    → is_kept q i w.db.outbox w.mem.jobs ≡ true
    → let u = final (relay_pass refuses w) in is_kept q i u.db.outbox u.mem.jobs ≡ true
unfolding relay_pass claim_batch treat set_outbox ◌>>=◌ clock gets modify pure
relay_pass-kept refuses q i w n h =
    let rows = w.db.outbox in
    let batch = take 50 (sort_by_time (find_many (is_ready w.now) rows)) in
    let locked = lock_rows w.now batch rows in
    let named : All (Named rows) batch =
      take-All (Named rows) 50 _
        (sort_by_time-All (Named rows) _ (find_many-All (Named rows) (is_ready w.now) rows n)) in
    let still : is_kept q i locked w.mem.jobs ≡ true =
      unfold is_kept in
      (λ j. is_some (find_first (job_is q i) w.mem.jobs) || lock_rows-found w.now q i batch rows j)
      ∙ h in
    batch-kept refuses batch q i (record w { db = record w.db { outbox = locked } })
      (names_after batch rows locked (λ f k. lock_rows-Named w.now batch rows f k) named) still
