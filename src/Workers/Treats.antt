-- ===== src/Workers/Treats.antt =====
-- One row of the outbox in the relay (workers/outbox-relay.worker.ts).
use dead_switch.Common.{
  ℕ, ◌+◌, ◌-◌, ◌≡◌, refl, sym, ap, ◌∙◌, subst, String, Bool, true, false, ◌&&◌, ◌||◌, List, [], ◌∷◌,
  ◌++◌, is_some, inl, inr, Option-cases, Bool-cases, arith, ltb, ◌==◌, str_eq, str_eq→≡,
  str_eq_refl, &&-left, &&-right, find_first, count_where, update_many, All, if◌then◌else◌,
  template,
}
use dead_switch.Schema.{OutboxEvent, SafetyMode, Error}
use dead_switch.World.{World, Mem, Job}
use dead_switch.Effect.{
  M, Outcome, done, fail, final, pure, throw, continue, handle, ◌>>=◌, gets, ask, clock, recall,
  remember, modify, require, try_catch, with_option,
}
use dead_switch.Outbox.Service.{same_job}
use dead_switch.Safety.Mode.{set_mode, cache, refresh_ms, seed, fetch, current}
use dead_switch.Safety.Matrix.{evaluate}
use dead_switch.Safety.Capability.{release_enqueue}
use dead_switch.Workers.Relay.{
  Refusals, same_queue_job, add_job, add, has_event_id, set_outbox, reschedule, put_back,
  without_event, delete_event, job_of, hand_over, relay_release, relay_row, back_off, is_allow,
  reason_of,
}

-- The rows of the outbox and the jobs in Redis.
abbrev pub View : Type 0
View = List OutboxEvent × List Job

abbrev pub view : World → View
view w = (w.db.outbox, w.mem.jobs)

unfoldable pub job_is : String → String → Job → Bool
job_is q i j = str_eq j.queue q && str_eq j.job_id i

-- The job waits in the outbox or has been handed over.
unfoldable pub is_kept : String → String → List OutboxEvent → List Job → Bool
is_kept q i rows jobs =
    is_some (find_first (job_is q i) jobs) || is_some (find_first (same_job q i) rows)

-- Rows with the identifier of `ev` stand for its job.
abbrev pub Names : OutboxEvent → OutboxEvent → Type 0
Names ev r = has_event_id ev.id r ≡ true → (r.queue_name ≡ ev.queue_name) × (r.job_id ≡ ev.job_id)

abbrev pub Named : List OutboxEvent → OutboxEvent → Type 0
Named rows ev = All (Names ev) rows

-- What the treatment of one row does.
pub record Treats (ev : OutboxEvent) (v u : View) : Type 0 where
  pub keeps :
      (q i : String)
      → Named (v.0) ev
      → is_kept q i (v.0) (v.1) ≡ true
      → is_kept q i (u.0) (u.1) ≡ true
  pub names : (f : OutboxEvent) → Named (v.0) f → Named (u.0) f
  pub grows :
      (q i : String)
      → is_some (find_first (job_is q i) (v.1)) ≡ true
      → is_some (find_first (job_is q i) (u.1)) ≡ true

Treats-refl : (ev : OutboxEvent) (v : View) → Treats ev v v
Treats-refl ev v = record { keeps = λ q i n h. h; names = λ f n. n; grows = λ q i h. h }

Treats-trans : (ev : OutboxEvent) (a b c : View) → Treats ev a b → Treats ev b c → Treats ev a c
Treats-trans ev a b c x y = record {
  keeps = λ q i n h. y.keeps q i (x.names ev n) (x.keeps q i n h);
  names = λ f n. y.names f (x.names f n);
  grows = λ q i h. y.grows q i (x.grows q i h);
}

-- A change of rows that keeps their identifiers and jobs.
pub record Relabels (g : OutboxEvent → OutboxEvent) : Type 0 where
  pub same_id : (r : OutboxEvent) → (g r).id ≡ r.id
  pub same_queue : (r : OutboxEvent) → (g r).queue_name ≡ r.queue_name
  pub same_job_id : (r : OutboxEvent) → (g r).job_id ≡ r.job_id

module _ (g : OutboxEvent → OutboxEvent) (relabels : Relabels g) (id : String) where
  pub Named-update_many :
      (rows : List OutboxEvent) (f : OutboxEvent)
      → Named rows f
      → Named (update_many (has_event_id id) g rows) f
  unfolding update_many has_event_id
  Named-update_many [] f n = tt
  Named-update_many (r ∷ rows) f (n, ns) = (
    elim (Bool-cases (str_eq r.id id)) [
      | inl y ↦ rw y (λ h.
          let (a, b) = n (ap (λ x. str_eq x f.id) (sym (relabels.same_id r)) ∙ h) in
          (relabels.same_queue r ∙ a, relabels.same_job_id r ∙ b))
      | inr k ↦ rw k n
    ],
    Named-update_many rows f ns,
  )

  pub found-update_many :
      (q i : String) (rows : List OutboxEvent)
      → is_some (find_first (same_job q i) (update_many (has_event_id id) g rows))
        ≡ is_some (find_first (same_job q i) rows)
  unfolding update_many find_first same_job
  found-update_many q i [] = refl
  found-update_many q i (r ∷ rows) =
      ground (arith, found-update_many q i rows, relabels.same_queue r, relabels.same_job_id r)

  Treats-update_many :
      (ev : OutboxEvent) (rows : List OutboxEvent) (jobs : List Job)
      → Treats ev (rows, jobs) (update_many (has_event_id id) g rows, jobs)
  unfolding is_kept
  Treats-update_many ev rows jobs = record {
    keeps = λ q i n h. rw (found-update_many q i rows) h;
    names = λ f n. Named-update_many rows f n;
    grows = λ q i h. h;
  }

module _ (id : String) where
  Named-without_event :
      (rows : List OutboxEvent) (f : OutboxEvent) → Named rows f → Named (without_event id rows) f
  unfolding without_event
  Named-without_event [] f n = tt
  Named-without_event (r ∷ rows) f (n, ns) = elim (Bool-cases (has_event_id id r)) [
    | inl y ↦ rw y (Named-without_event rows f ns)
    | inr k ↦ rw k (n, Named-without_event rows f ns)
  ]

-- A job that is another one than the row's keeps its row; the row's own is known to the queue.
found-without_event :
    (ev : OutboxEvent) (q i : String) (rows : List OutboxEvent)
    → Named rows ev
    → (str_eq ev.queue_name q && str_eq ev.job_id i) ≡ false
    → is_some (find_first (same_job q i) (without_event ev.id rows))
      ≡ is_some (find_first (same_job q i) rows)
unfolding without_event find_first same_job
found-without_event ev q i [] n h = refl
found-without_event ev q i (r ∷ rows) (n, ns) h = elim (Bool-cases (has_event_id ev.id r)) [
  | inl y ↦
      let (a, b) = n y in
      let other : (str_eq r.queue_name q && str_eq r.job_id i) ≡ false =
        (λ j. str_eq (a j) q && str_eq (b j) i) ∙ h in
      rw (y, other) (found-without_event ev q i rows ns h)
  | inr k ↦ elim (Bool-cases (str_eq r.queue_name q && str_eq r.job_id i)) [
    | inl z ↦ rw (k, z) refl
    | inr z ↦ rw (k, z) (found-without_event ev q i rows ns h)
  ]
]

-- After `add`, the queue knows the job, and every job it knew.
unfoldable pub known : (j : Job) (jobs : List Job) → List Job
known j jobs = if is_some (find_first (same_queue_job j) jobs) then jobs else jobs ++ j ∷ []

found-snoc :
    (p : Job → Bool) (j : Job) (jobs : List Job)
    → (is_some (find_first p jobs) || p j) ≡ is_some (find_first p (jobs ++ j ∷ []))
unfolding find_first
found-snoc p j [] = ground arith
found-snoc p j (k ∷ jobs) = ground (arith, found-snoc p j jobs)

known_before :
    (p : Job → Bool) (j : Job) (jobs : List Job)
    → is_some (find_first p jobs) ≡ true
    → is_some (find_first p (known j jobs)) ≡ true
unfolding known
known_before p j jobs h = elim (Bool-cases (is_some (find_first (same_queue_job j) jobs))) [
  | inl y ↦ rw y h
  | inr n ↦ rw (n, sym (found-snoc p j jobs), h) refl
]

job_is_lem : (j : Job) → (λ k. same_queue_job j k) ≡ job_is j.queue j.job_id
unfolding job_is
job_is_lem j = refl

pub known_itself :
    (j : Job) (jobs : List Job)
    → is_some (find_first (job_is j.queue j.job_id) (known j jobs)) ≡ true
unfolding known job_is
known_itself j jobs = elim (Bool-cases (is_some (find_first (same_queue_job j) jobs))) [
  | inl y ↦ rw y y
  | inr n ↦
      rw
        (
          n,
          sym (found-snoc (same_queue_job j) j jobs),
          n,
          str_eq_refl j.queue,
          str_eq_refl j.job_id,
        )
        refl
]

Treats-known :
    (ev : OutboxEvent) (j : Job) (rows : List OutboxEvent) (jobs : List Job)
    → Treats ev (rows, jobs) (rows, known j jobs)
unfolding is_kept
Treats-known ev j rows jobs = record {
  keeps = λ q i n h. elim (Bool-cases (is_some (find_first (job_is q i) jobs))) [
    | inl y ↦ rw (known_before (job_is q i) j jobs y) refl
    | inr k ↦
        let rest : is_some (find_first (same_job q i) rows) ≡ true = (rw k at h) in
        rw rest (ground arith)
  ];
  names = λ f n. n;
  grows = λ q i h. known_before (job_is q i) j jobs h;
}

Treats-without_event :
    (ev : OutboxEvent) (j : Job) (rows : List OutboxEvent) (jobs : List Job)
    → j.queue ≡ ev.queue_name
    → j.job_id ≡ ev.job_id
    → Treats ev (rows, jobs) (without_event ev.id rows, known j jobs)
unfolding is_kept job_is
Treats-without_event ev j rows jobs a b = record {
  keeps = λ q i n h. elim (Bool-cases (str_eq ev.queue_name q && str_eq ev.job_id i)) [
    | inl y ↦
        let qs : j.queue ≡ q = a ∙ str_eq→≡ ev.queue_name q (&&-left _ _ y) in
        let is : j.job_id ≡ i = b ∙ str_eq→≡ ev.job_id i (&&-right _ _ y) in
        let there : is_some (find_first (job_is q i) (known j jobs)) ≡ true =
          subst (λ x. is_some (find_first (job_is x i) (known j jobs)) ≡ true) qs
            (subst (λ x. is_some (find_first (job_is j.queue x) (known j jobs)) ≡ true) is
              (known_itself j jobs)) in
        rw there refl
    | inr k ↦ rw (found-without_event ev q i rows n k) ((Treats-known ev j rows jobs).keeps q i n h)
  ];
  names = λ f n. Named-without_event ev.id rows f n;
  grows = λ q i h. known_before (job_is q i) j jobs h;
}

delete_event-Treats :
    (ev : OutboxEvent) (j : Job) (w : World) (rows : List OutboxEvent) (jobs : List Job)
    → j.queue ≡ ev.queue_name
    → j.job_id ≡ ev.job_id
    → view w ≡ (rows, known j jobs)
    → Treats ev (rows, jobs) (view (final (delete_event ev.id w)))
unfolding delete_event ◌>>=◌ gets require modify set_outbox throw pure
delete_event-Treats ev j w rows jobs a b e =
    elim (Bool-cases (count_where (has_event_id ev.id) w.db.outbox == 0)) [
      | inl y ↦ rw y (subst (Treats ev (rows, jobs)) (sym e) (Treats-known ev j rows jobs))
      | inr n ↦ rw n (
          subst (λ (v : View). Treats ev (rows, jobs) (without_event ev.id (v.0), v.1)) (sym e)
            (Treats-without_event ev j rows jobs a b))
    ]

pub add_job_lem : (j : Job) (mem : Mem) → (add_job j mem).jobs ≡ known j mem.jobs
unfolding add_job known
add_job_lem j mem = elim (Bool-cases (is_some (find_first (same_queue_job j) mem.jobs))) [
  | inl y ↦ simp y
  | inr n ↦ simp n
]

hand_over-Treats :
    (refuses : Refusals) (ev : OutboxEvent) (w : World)
    → Treats ev (view w) (view (final (hand_over refuses ev w)))
unfolding hand_over add ◌>>=◌ clock throw remember
hand_over-Treats refuses ev w = elim (Option-cases (refuses (job_of w.now ev))) [
  | inr (m, e) ↦ rw e (Treats-refl ev (view w))
  | inl n ↦ rw n (
      delete_event-Treats ev (job_of w.now ev) (record w { mem = add_job (job_of w.now ev) w.mem })
        w.db.outbox w.mem.jobs refl refl
        (λ i. (w.db.outbox, add_job_lem (job_of w.now ev) w.mem i)))
]

reschedule-Relabels : (at : ℕ) (message : String) → Relabels (reschedule at message)
reschedule-Relabels at message = record {
  same_id = λ r. refl;
  same_queue = λ r. refl;
  same_job_id = λ r. refl;
}

put_back-Treats :
    (ev : OutboxEvent) (id : String) (at : ℕ) (message : String) (w : World)
    → Treats ev (view w) (view (final (put_back id at message w)))
unfolding put_back ◌>>=◌ gets require modify set_outbox throw pure
put_back-Treats ev id at message w =
    elim (Bool-cases (count_where (has_event_id id) w.db.outbox == 0)) [
      | inl y ↦ rw y (Treats-refl ev (view w))
      | inr n ↦ rw n (
          Treats-update_many (reschedule at message) (reschedule-Relabels at message) id ev
            w.db.outbox w.mem.jobs)
    ]

current-view : (w : World) → view (final (current w)) ≡ view w
unfolding current fetch seed set_mode cache ◌>>=◌ clock recall gets remember modify with_option pure
current-view w = elim (Option-cases w.mem.cached) [
  | inl n ↦ elim (Option-cases w.db.safety_mode) [ inl m ↦ simp (n, m) | inr (r, m) ↦ simp (n, m) ]
  | inr (c, k) ↦ elim (Bool-cases (ltb (w.now - w.mem.last_fetch_at) refresh_ms)) [
    | inl y ↦ simp (k, y)
    | inr n ↦ elim (Option-cases w.db.safety_mode) [
      | inl m ↦ simp (k, n, m)
      | inr (r, m) ↦ simp (k, n, m)
    ]
  ]
]

decide : Refusals → OutboxEvent → SafetyMode → M (Unit {0})
decide refuses ev row = do
  now ← clock
  let decision = evaluate row.mode release_enqueue
  if is_allow decision
      then hand_over refuses ev
      else put_back ev.id (now + 60000) (template ("safety: " ∷ reason_of decision ∷ []))

decide-Treats :
    (refuses : Refusals) (ev : OutboxEvent) (row : SafetyMode) (w : World)
    → Treats ev (view w) (view (final (decide refuses ev row w)))
unfolding decide ◌>>=◌ clock
decide-Treats refuses ev row w = elim (Bool-cases (is_allow (evaluate row.mode release_enqueue))) [
  | inl y ↦ rw y (hand_over-Treats refuses ev w)
  | inr n ↦ rw n (put_back-Treats ev ev.id _ _ w)
]

after_current :
    (refuses : Refusals) (ev : OutboxEvent) (v : View) (o : Outcome SafetyMode)
    → view (final o) ≡ v
    → Treats ev v (view (final (continue o (decide refuses ev))))
after_current refuses ev v (done row w) e =
    subst (λ x. Treats ev x (view (final (decide refuses ev row w)))) e
      (decide-Treats refuses ev row w)
after_current refuses ev v (fail x w) e = subst (Treats ev v) (sym e) (Treats-refl ev v)

relay_release-Treats :
    (refuses : Refusals) (ev : OutboxEvent) (w : World)
    → Treats ev (view w) (view (final (relay_release refuses ev w)))
unfolding relay_release ◌>>=◌ decide
relay_release-Treats refuses ev w = after_current refuses ev (view w) (current w) (current-view w)

relay_row-Treats :
    (refuses : Refusals) (ev : OutboxEvent) (w : World)
    → Treats ev (view w) (view (final (relay_row refuses ev w)))
unfolding relay_row
relay_row-Treats refuses ev w = elim (Bool-cases (str_eq ev.queue_name "release")) [
  | inl y ↦ rw y (relay_release-Treats refuses ev w)
  | inr n ↦ rw n (hand_over-Treats refuses ev w)
]

pub back_off-Treats :
    (ev : OutboxEvent) (e : Error) (w : World) → Treats ev (view w) (view (final (back_off ev e w)))
unfolding back_off ◌>>=◌ clock ask
back_off-Treats ev e w = put_back-Treats ev ev.id _ _ w

unfoldable pub treat : Refusals → OutboxEvent → M (Unit {0})
treat refuses ev = try_catch (relay_row refuses ev) (back_off ev)

handled-Treats :
    (ev : OutboxEvent) (v : View) (o : Outcome (Unit {0}))
    → Treats ev v (view (final o))
    → Treats ev v (view (final (handle o (back_off ev))))
handled-Treats ev v (done u w) t = t
handled-Treats ev v (fail e w) t = Treats-trans ev v (view w) _ t (back_off-Treats ev e w)

pub treat-Treats :
    (refuses : Refusals) (ev : OutboxEvent) (w : World)
    → Treats ev (view w) (view (final (treat refuses ev w)))
unfolding treat try_catch
treat-Treats refuses ev w =
    handled-Treats ev (view w) (relay_row refuses ev w) (relay_row-Treats refuses ev w)
