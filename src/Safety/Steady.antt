-- ===== src/Safety/Steady.antt =====
-- What an assertion of a capability leaves alone (safety/safety-mode.service.ts).
use dead_switch.Common.{ℕ, ◌-◌, ◌≡◌, refl, ◌∙◌, inl, inr, Option-cases, Bool-cases, ltb}
use dead_switch.Schema.{SafetyMode}
use dead_switch.World.{Env, World}
use dead_switch.Effect.{
  Outcome, done, fail, final, continue, pure, throw, ◌>>=◌, gets, clock, recall, remember, modify,
  with_option,
}
use dead_switch.Effect.Steps.{Preorder, Steps, Steps-pure, Steps-throw, steps_rules}
use dead_switch.Safety.Capability.{Capability}
use dead_switch.Safety.Matrix.{PolicyDecision, allow, deny, evaluate}
use dead_switch.Safety.Mode.{refresh_ms, set_mode, seed, fetch, current, enforce, assert}

-- A relation on databases that holds across the write of the mode's row holds across an assertion.
module _ (P : Preorder) (sets : (row : SafetyMode) → Steps P (modify (set_mode row))) where
  seed-Steps : Steps P seed
  unfolding seed
  seed-Steps = search (steps_rules, sets) depth 8

  fetch-Steps : Steps P fetch
  unfolding fetch
  fetch-Steps = search (steps_rules, seed-Steps) depth 10

  current-Steps : Steps P current
  unfolding current
  current-Steps = search (steps_rules, fetch-Steps) depth 10

  enforce-Steps : (d : PolicyDecision) → Steps P (enforce d)
  unfolding enforce
  enforce-Steps allow = Steps-pure tt
  enforce-Steps (deny c m) = Steps-throw _

  pub assert-Steps : (c : Capability) → Steps P (assert c)
  unfolding assert
  assert-Steps c = search (steps_rules, current-Steps, enforce-Steps) depth 8

-- The clock and the environment stand still in the assertion, and the clock in the log.
abbrev pub fixed : World → ℕ × Env
fixed w = (w.now, w.env)

current-fixed : (w : World) → fixed (final (current w)) ≡ fixed w
unfolding current fetch seed ◌>>=◌ clock recall gets remember modify with_option pure
current-fixed w = elim (Option-cases w.mem.cached) [
  | inl n ↦ elim (Option-cases w.db.safety_mode) [ inl m ↦ simp (n, m) | inr (r, m) ↦ simp (n, m) ]
  | inr (c, k) ↦ elim (Bool-cases (ltb (w.now - w.mem.last_fetch_at) refresh_ms)) [
    | inl y ↦ simp (k, y)
    | inr n ↦ elim (Option-cases w.db.safety_mode) [
      | inl m ↦ simp (k, n, m)
      | inr (r, m) ↦ simp (k, n, m)
    ]
  ]
]

enforce-fixed : (d : PolicyDecision) (w : World) → fixed (final (enforce d w)) ≡ fixed w
unfolding enforce pure throw
enforce-fixed allow w = refl
enforce-fixed (deny c m) w = refl

pub assert-fixed : (c : Capability) (w : World) → fixed (final (assert c w)) ≡ fixed w
unfolding assert ◌>>=◌
assert-fixed c w = go (current w) (current-fixed w)
  where
    go :
        (o : Outcome SafetyMode)
        → fixed (final o) ≡ fixed w
        → fixed (final (continue o (λ row. enforce (evaluate row.mode c)))) ≡ fixed w
    go (done row v) h = enforce-fixed (evaluate row.mode c) v ∙ h
    go (fail e v) h = h
