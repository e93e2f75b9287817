-- ===== src/State/Table.antt =====
-- state/scenario-states.ts and state/invariants.ts: the transitions and the terminal states.
use dead_switch.Common.{
  String, Bool, false, ◌||◌, List, [], ◌∷◌, Option, none, some, str_eq, if◌then◌else◌,
}
use dead_switch.Schema.{ScenarioState, ReleaseActionState, includes, action_includes}

pub data TransitionActor : Type 0 where
  user system admin : TransitionActor

pub record ScenarioTransition : Type 0 where
  pub from : List ScenarioState
  pub to : ScenarioState
  pub actor : TransitionActor

abbrev edge : List ScenarioState → ScenarioState → TransitionActor → ScenarioTransition
edge from to actor = record { from = from; to = to; actor = actor }

abbrev one : ScenarioState → List ScenarioState
one s = s ∷ []

abbrev expirable : List ScenarioState
expirable =
    ScenarioState.armed ∷ ScenarioState.incident_pending ∷ ScenarioState.escalation_in_progress
    ∷ ScenarioState.grace_period ∷ []

abbrev escalating : List ScenarioState
escalating = ScenarioState.incident_pending ∷ ScenarioState.escalation_in_progress ∷ []

unfoldable pub scenario_transitions : List (String × ScenarioTransition)
scenario_transitions =
    ("arm", edge (one ScenarioState.draft) ScenarioState.armed TransitionActor.user)
    ∷ ("disarm_armed", edge (one ScenarioState.armed) ScenarioState.aborted TransitionActor.user)
    ∷ ("expire", edge expirable ScenarioState.expired TransitionActor.system)
    ∷ (
      "miss_checkin",
      edge (one ScenarioState.armed) ScenarioState.incident_pending TransitionActor.system,
    )
    ∷ (
      "begin_escalation",
      edge (one ScenarioState.incident_pending) ScenarioState.escalation_in_progress
          TransitionActor.system,
    )
    ∷ (
      "recover_incident",
      edge (one ScenarioState.incident_pending) ScenarioState.armed TransitionActor.user,
    )
    ∷ (
      "recover_escalation",
      edge (one ScenarioState.escalation_in_progress) ScenarioState.armed TransitionActor.user,
    )
    ∷ (
      "recover_grace",
      edge (one ScenarioState.grace_period) ScenarioState.armed TransitionActor.user,
    )
    ∷ ("disarm_escalation", edge escalating ScenarioState.aborted TransitionActor.user)
    ∷ (
      "begin_grace",
      edge (one ScenarioState.escalation_in_progress) ScenarioState.grace_period
          TransitionActor.system,
    )
    ∷ (
      "abort_grace",
      edge (one ScenarioState.grace_period) ScenarioState.aborted TransitionActor.user,
    )
    ∷ (
      "begin_release",
      edge (one ScenarioState.grace_period) ScenarioState.release_in_progress
          TransitionActor.system,
    )
    ∷ (
      "complete_release",
      edge (one ScenarioState.release_in_progress) ScenarioState.released TransitionActor.system,
    )
    ∷ (
      "admin_killswitch",
      edge (one ScenarioState.release_in_progress) ScenarioState.aborted TransitionActor.admin,
    )
    ∷ []

unfoldable pub lookup_transition :
    String → List (String × ScenarioTransition) → Option ScenarioTransition
lookup_transition key [] = none
lookup_transition key ((k, t) ∷ rest) = if str_eq k key then some t else lookup_transition key rest

unfoldable pub terminal_scenario_states : List ScenarioState
terminal_scenario_states =
    ScenarioState.released ∷ ScenarioState.aborted ∷ ScenarioState.expired ∷ []

unfoldable pub is_terminal_scenario : ScenarioState → Bool
unfolding terminal_scenario_states includes
is_terminal_scenario s = includes terminal_scenario_states s

unfoldable pub terminal_action_states : List ReleaseActionState
terminal_action_states =
    ReleaseActionState.executed ∷ ReleaseActionState.failed_permanent ∷ ReleaseActionState.aborted
    ∷ ReleaseActionState.suppressed ∷ ReleaseActionState.sent_after_abort ∷ []

unfoldable pub is_terminal_action : ReleaseActionState → Bool
unfolding terminal_action_states action_includes
is_terminal_action s = action_includes terminal_action_states s

-- The loop over t.from that throws on a terminal state.
unfoldable pub any_terminal : List ScenarioState → Bool
unfolding is_terminal_scenario
any_terminal [] = false
any_terminal (s ∷ ss) = is_terminal_scenario s || any_terminal ss
