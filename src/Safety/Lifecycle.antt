-- ===== src/Safety/Lifecycle.antt =====
-- SafetyModeService (safety/safety-mode.service.ts) against the scenario diagram.
use dead_switch.Common.{refl}
use dead_switch.Schema.{SafetyMode}
use dead_switch.Effect.{modify}
use dead_switch.Effect.Steps.{Preorder, Steps, Steps-pure, Steps-throw, steps_rules}
use dead_switch.Safety.Capability.{Capability}
use dead_switch.Safety.Matrix.{PolicyDecision, allow, deny}
use dead_switch.Safety.Mode.{set_mode, seed, fetch, current, enforce, assert}
use dead_switch.State.Lifecycle.{lifecycle, Steps-frame}

set_mode-Steps : (row : SafetyMode) → Steps lifecycle (modify (set_mode row))
unfolding set_mode
set_mode-Steps row = Steps-frame _ (λ d. refl)

seed-Steps : Steps lifecycle seed
unfolding seed
seed-Steps = search (steps_rules, set_mode-Steps) depth 8

fetch-Steps : Steps lifecycle fetch
unfolding fetch
fetch-Steps = search (steps_rules, seed-Steps) depth 10

pub current-Steps : Steps lifecycle current
unfolding current
current-Steps = search (steps_rules, fetch-Steps) depth 10

enforce-Steps : {P : Preorder} (d : PolicyDecision) → Steps P (enforce d)
unfolding enforce
enforce-Steps allow = Steps-pure tt
enforce-Steps (deny c m) = Steps-throw _

pub assert-Steps : (c : Capability) → Steps lifecycle (assert c)
unfolding assert
assert-Steps c = search (steps_rules, current-Steps, enforce-Steps) depth 8
