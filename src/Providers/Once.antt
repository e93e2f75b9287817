-- ===== src/Providers/Once.antt =====
-- ProviderAdapter.send (providers/provider-adapter.ts) under a key that is taken.
use dead_switch.Common.{
  ℕ, ◌≡◌, refl, ◌∙◌, ap, String, Option, none, some, find_first, inl, inr, Bool-cases, Option-cases,
  str_eq, str_eq→≡, true,
}
use dead_switch.Schema.{OutboundDispatch, Error, SafetyMode, ProviderCircuitBreaker, circuit_open}
use dead_switch.World.{World}
use dead_switch.Effect.{
  Outcome, done, fail, final, pure, throw, continue, ◌>>=◌, gets, modify, with_option,
}
use dead_switch.Effect.Steps.{Preorder, Steps, Steps-modify, Steps-pure, Steps-throw, steps_rules}
use dead_switch.Safety.Capability.{Capability}
use dead_switch.Safety.Matrix.{PolicyDecision, allow, deny}
use dead_switch.Safety.Mode.{set_mode, seed, fetch, current, enforce, assert, is_provider_isolated}
use dead_switch.Safety.Breaker.{promote_breakers, probe, assert_closed}
use dead_switch.Providers.Adapter.{
  DispatchSpec, Sent, Backends, has_key, find_dispatch, circuit_to_transient, gate, filled,
  failed_before, reuse, reserve, call_and_settle, send,
}

unfoldable dispatches : Preorder
dispatches = record {
  rel = λ d e. e.dispatches ≡ d.dispatches;
  reflexive = λ d. refl;
  transitive = λ a b c p q. q ∙ p;
  serial_free = λ d n. refl;
}

set_mode-Steps : (row : SafetyMode) → Steps dispatches (modify (set_mode row))
unfolding set_mode dispatches
set_mode-Steps row = Steps-modify _ λ d. refl

promote-Steps : (p : String) (now : ℕ) → Steps dispatches (modify (promote_breakers p now))
unfolding promote_breakers dispatches
promote-Steps p now = Steps-modify _ λ d. refl

seed-Steps : Steps dispatches seed
unfolding seed
seed-Steps = search (steps_rules, set_mode-Steps) depth 8

fetch-Steps : Steps dispatches fetch
unfolding fetch
fetch-Steps = search (steps_rules, seed-Steps) depth 10

current-Steps : Steps dispatches current
unfolding current
current-Steps = search (steps_rules, fetch-Steps) depth 10

enforce-Steps : (d : PolicyDecision) → Steps dispatches (enforce d)
unfolding enforce
enforce-Steps allow = Steps-pure tt
enforce-Steps (deny c m) = Steps-throw _

assert-Steps : (c : Capability) → Steps dispatches (assert c)
unfolding assert
assert-Steps c = search (steps_rules, current-Steps, enforce-Steps) depth 8

probe-Steps : (p : String) (b : ProviderCircuitBreaker) → Steps dispatches (probe p b)
unfolding probe
probe-Steps p b = search (steps_rules, promote-Steps) depth 10

assert_closed-Steps : (p : String) → Steps dispatches (assert_closed p)
unfolding assert_closed is_provider_isolated
assert_closed-Steps p = search (steps_rules, current-Steps, probe-Steps) depth 12

circuit_to_transient-Steps :
    {P : Preorder} (p : String) (e : Error) → Steps P (circuit_to_transient p e)
unfolding circuit_to_transient
circuit_to_transient-Steps p (circuit_open q t) = Steps-throw _
circuit_to_transient-Steps p e = Steps-throw _

gate-Steps : (spec : DispatchSpec) → Steps dispatches (gate spec)
unfolding gate
gate-Steps spec =
    search (steps_rules, assert-Steps, assert_closed-Steps, circuit_to_transient-Steps) depth 10

-- An answer or an error, and no reservation.
abbrev Taken : Outcome (Option Sent) → Type 0
Taken (done none w) = ⊥
Taken (done (some s) w) = Unit {0}
Taken (fail e w) = Unit {0}

failed_before-Taken :
    (key : String) (d : OutboundDispatch) (w : World) → Taken (failed_before key d w)
unfolding failed_before throw
failed_before-Taken key d w = elim (Bool-cases (str_eq d.status "failed")) [
  | inl y ↦ rw y tt
  | inr n ↦ rw n tt
]

reuse-Taken : (key : String) (d : OutboundDispatch) (w : World) → Taken (reuse key d w)
unfolding reuse with_option pure
reuse-Taken key d w = elim (Bool-cases (str_eq d.status "sent")) [
  | inl y ↦ elim (Option-cases (filled d.provider_message_id)) [
    | inl n ↦ rw (y, n) (failed_before-Taken key d w)
    | inr (m, k) ↦ rw (y, k) tt
  ]
  | inr n ↦ rw n (failed_before-Taken key d w)
]

same_rest :
    (b c : Backends) (spec : DispatchSpec) (o : Outcome (Option Sent))
    → Taken o
    → continue o (λ r. with_option r (call_and_settle b spec) pure)
      ≡ continue o (λ r. with_option r (call_and_settle c spec) pure)
unfolding with_option
same_rest b c spec (done none w) t = absurd t
same_rest b c spec (done (some s) w) t = refl
same_rest b c spec (fail e w) t = refl

after_gate :
    (b c : Backends) (spec : DispatchSpec) (d : OutboundDispatch) (w : World)
    (o : Outcome (Unit {0}))
    → (final o).db.dispatches ≡ w.db.dispatches
    → find_dispatch spec.idempotency_key w.db ≡ some d
    → continue o (λ _. reserve spec >>= λ r. with_option r (call_and_settle b spec) pure)
      ≡ continue o (λ _. reserve spec >>= λ r. with_option r (call_and_settle c spec) pure)
unfolding reserve ◌>>=◌ gets find_dispatch with_option
after_gate b c spec d w (fail e v) h k = refl
after_gate b c spec d w (done x v) h k =
    let there : find_dispatch spec.idempotency_key v.db ≡ some d =
      ap (find_first (has_key spec.idempotency_key)) h ∙ k in
    rw there
      (same_rest b c spec (reuse spec.idempotency_key d v) (reuse-Taken spec.idempotency_key d v))

-- What `send` makes of an earlier dispatch: the message of a row that was sent, or an error; no
-- row of the table is written.
abbrev pub Answers : OutboundDispatch → World → Outcome Sent → Type 0
Answers d w (done s v) =
    (d.status ≡ "sent")
    × (d.provider_message_id ≡ some s.provider_message_id)
    × (s.provider ≡ d.provider)
    × (s.reused ≡ true)
    × (v.db.dispatches ≡ w.db.dispatches)
Answers d w (fail e v) = v.db.dispatches ≡ w.db.dispatches

filled-some : (o : Option String) (m : String) → filled o ≡ some m → o ≡ some m
filled-some none m h = cc
filled-some (some t) m h = elim (Bool-cases (str_eq t "")) [
  | inl y ↦ let k = (rw y at h) in cc
  | inr n ↦ rw n at h
]

passed_on : Backends → DispatchSpec → Outcome (Option Sent) → Outcome Sent
unfolding with_option
passed_on b spec o = continue o (λ r. with_option r (call_and_settle b spec) pure)

failed_before-Answers :
    (b : Backends) (spec : DispatchSpec) (key : String) (d : OutboundDispatch) (w v : World)
    → v.db.dispatches ≡ w.db.dispatches
    → Answers d w (passed_on b spec (failed_before key d v))
unfolding failed_before throw passed_on
failed_before-Answers b spec key d w v h = elim (Bool-cases (str_eq d.status "failed")) [
  | inl y ↦ rw y h
  | inr n ↦ rw n h
]

reuse-Answers :
    (b : Backends) (spec : DispatchSpec) (key : String) (d : OutboundDispatch) (w v : World)
    → v.db.dispatches ≡ w.db.dispatches
    → Answers d w (passed_on b spec (reuse key d v))
unfolding reuse with_option pure passed_on
reuse-Answers b spec key d w v h = elim (Bool-cases (str_eq d.status "sent")) [
  | inl y ↦ elim (Option-cases (filled d.provider_message_id)) [
    | inl n ↦ rw (y, n) (failed_before-Answers b spec key d w v h)
    | inr (m, k) ↦
        rw (y, k) (str_eq→≡ d.status "sent" y, filled-some d.provider_message_id m k, refl, refl, h)
  ]
  | inr n ↦ rw n (failed_before-Answers b spec key d w v h)
]

gate-Answers :
    (b : Backends) (spec : DispatchSpec) (d : OutboundDispatch) (w : World) (o : Outcome (Unit {0}))
    → (final o).db.dispatches ≡ w.db.dispatches
    → find_dispatch spec.idempotency_key w.db ≡ some d
    → Answers d w
        (continue o (λ _. reserve spec >>= λ r. with_option r (call_and_settle b spec) pure))
unfolding reserve ◌>>=◌ gets find_dispatch with_option passed_on
gate-Answers b spec d w (fail e v) h k = h
gate-Answers b spec d w (done x v) h k =
    let there : find_dispatch spec.idempotency_key v.db ≡ some d =
      ap (find_first (has_key spec.idempotency_key)) h ∙ k in
    rw there (reuse-Answers b spec spec.idempotency_key d w v h)

-- Under a key that has been dispatched before, whatever became of it, `send` does not depend on
-- the providers: it calls none of them. It answers with the provider and the message id of the
-- earlier dispatch, marked as reused, and only where that was sent; otherwise it throws. In either
-- case the table of dispatches is as before.
pub send-once :
    (b c : Backends) (spec : DispatchSpec) (d : OutboundDispatch) (w : World)
    → find_dispatch spec.idempotency_key w.db ≡ some d
    → (send b spec w ≡ send c spec w) × Answers d w (send b spec w)
unfolding send ◌>>=◌ dispatches
send-once b c spec d w k = (
  after_gate b c spec d w (gate spec w) ((gate-Steps spec).at w) k,
  gate-Answers b spec d w (gate spec w) ((gate-Steps spec).at w) k,
)
