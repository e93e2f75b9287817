-- ===== src/Examples/Escalation.antt =====
-- A run of escalation/escalation.service.ts in a freeze.
use dead_switch.Common.{◌≡◌, refl, some, ◌∷◌, []}
use dead_switch.Schema.{ScenarioState, SafetyModeKind, Error}
use dead_switch.World.{World}
use dead_switch.Effect.{fail}
use dead_switch.Safety.Mode.{cache}
use dead_switch.Escalation.Release.{handle_grace_expiry}
use dead_switch.Escalation.Blocked.{IsHeld, handle_grace_expiry-IsHeld}
use dead_switch.Examples.{empty_world, scenario_in, mode_row, world_with, mem}

abbrev frozen : World
frozen = record empty_world {
  db = record (world_with (scenario_in ScenarioState.grace_period)).db {
    safety_mode = some (mode_row SafetyModeKind.emergency_freeze);
  };
  mem = record mem { cached = some (mode_row SafetyModeKind.emergency_freeze); last_fetch_at = 99 };
}

handle_grace_expiry-IsHeld_example :
    (f : Error) × (w' : World) × (handle_grace_expiry "s" frozen ≡ fail f w')
    × IsHeld frozen.db w'.db
unfolding dead_switch.State.Service.find_scenario dead_switch.Common.find_first
    dead_switch.State.Service.has_id dead_switch.Common.str_eq dead_switch.Safety.Mode.current
    dead_switch.Effect.◌>>=◌ dead_switch.Effect.clock dead_switch.Effect.recall
    dead_switch.Effect.with_option dead_switch.Effect.pure dead_switch.Safety.Matrix.is_allowed
handle_grace_expiry-IsHeld_example =
    handle_grace_expiry-IsHeld "s" (scenario_in ScenarioState.grace_period)
      (mode_row SafetyModeKind.emergency_freeze) frozen frozen refl refl refl
