-- ===== src/Examples/State.antt =====
-- Runs of state/state.service.ts.
use dead_switch.Common.{◌≡◌, refl, String, true, false, ◌∷◌, [], some, none}
use dead_switch.Schema.{ScenarioState, Scenario, transition_denied}
use dead_switch.Effect.{done, fail}
use dead_switch.Effect.Steps.{Steps}
use dead_switch.State.Table.{ScenarioTransition, TransitionActor}
use dead_switch.State.Service.{no_extra, assign, transition, find_scenario}
use dead_switch.State.Diagram.{Sources, transition-Sources}
use dead_switch.State.Lifecycle.{lifecycle, transition-Steps}
use dead_switch.State.Outcome.{
  IsCoupled, moved, transition-done, transition-denied, transition-IsCoupled,
}
use dead_switch.World.{World}
use dead_switch.Examples.{scenario_in, world_with}

abbrev missing : ScenarioTransition
missing = record {
  from = ScenarioState.armed ∷ [];
  to = ScenarioState.incident_pending;
  actor = TransitionActor.system;
}

abbrev armed : Scenario
armed = scenario_in ScenarioState.armed

abbrev grace : Scenario
grace = scenario_in ScenarioState.grace_period

transition-done_example :
    (transition "s" "miss_checkin" no_extra (world_with armed)
      ≡ done
          (ScenarioState.armed, ScenarioState.incident_pending)
          (record (world_with armed) { db = moved "s" missing no_extra (world_with armed).db }))
    × (find_scenario "s" (moved "s" missing no_extra (world_with armed).db)
        ≡ some (assign ScenarioState.incident_pending no_extra armed))
unfolding assign dead_switch.State.Table.lookup_transition
    dead_switch.State.Table.scenario_transitions dead_switch.Common.str_eq find_scenario
    dead_switch.Common.find_first dead_switch.State.Service.has_id dead_switch.Common.count_where
    dead_switch.Schema.includes
transition-done_example =
    transition-done "s" "miss_checkin" no_extra missing armed (world_with armed) refl
      (record { found = refl; unique = refl }) refl
      (record { armed = refl; released = refl; aborted = refl })

transition-denied_example :
    transition "s" "miss_checkin" no_extra (world_with grace)
    ≡ fail
        (transition_denied "miss_checkin"
          (ScenarioState.armed ∷ [])
          (some ScenarioState.grace_period))
        (world_with grace)
unfolding dead_switch.State.Table.lookup_transition dead_switch.State.Table.scenario_transitions
    dead_switch.Common.str_eq find_scenario dead_switch.Common.find_first
    dead_switch.State.Service.has_id dead_switch.Common.count_where dead_switch.Schema.includes
transition-denied_example =
    transition-denied "s" "miss_checkin" no_extra missing grace (world_with grace) refl
      (record { found = refl; unique = refl }) refl

abbrev after_missing : World
after_missing = record (world_with armed) { db = moved "s" missing no_extra (world_with armed).db }

transition-IsCoupled_example :
    (s : Scenario) × (find_scenario "s" after_missing.db ≡ some s) × IsCoupled s
unfolding assign dead_switch.State.Table.lookup_transition
    dead_switch.State.Table.scenario_transitions dead_switch.Common.str_eq find_scenario
    dead_switch.Common.find_first dead_switch.State.Service.has_id dead_switch.Common.count_where
    dead_switch.Schema.includes
transition-IsCoupled_example =
    transition-IsCoupled "s" "miss_checkin" no_extra (world_with armed)
      (transition-done "s" "miss_checkin" no_extra missing armed (world_with armed) refl
        (record { found = refl; unique = refl }) refl
        (record { armed = refl; released = refl; aborted = refl })).0

transition-Sources_example : Sources (ScenarioState.armed ∷ []) ScenarioState.incident_pending
unfolding dead_switch.State.Table.lookup_transition dead_switch.State.Table.scenario_transitions
    dead_switch.Common.str_eq
transition-Sources_example = transition-Sources "miss_checkin" missing refl

transition-Steps_example : Steps lifecycle (transition "s" "arm" no_extra)
transition-Steps_example = transition-Steps "s" "arm" no_extra
