-- ===== src/State/Service.antt =====
-- state/state.service.ts: `transition` and `isIn`. The two metrics counters are left out.
use dead_switch.Common.{
  ℕ, String, Bool, true, false, not, ◌&&◌, ◌||◌, List, [], ◌∷◌, Option, none, some, is_some, ◌==◌,
  str_eq, template, find_first, count_where, update_many,
}
use dead_switch.Schema.{
  ScenarioState, Scenario, state_eq, includes, plain, transition_denied, invariant_violation,
}
use dead_switch.World.{Db}
use dead_switch.Effect.{M, pure, ◌>>=◌, ◌>>◌, gets, modify, require, with_option, or_throw}
use dead_switch.State.Table.{
  scenario_transitions, lookup_transition, is_terminal_scenario, any_terminal,
}

-- `extra`, the columns that a caller sets beside the state; `none` leaves a column as it is.
pub record Extra : Type 0 where
  pub armed_at : Option ℕ
  pub aborted_at : Option ℕ
  pub released_at : Option ℕ
  pub incident_opened_at : Option ℕ

abbrev pub no_extra : Extra
no_extra = record {
  armed_at = none;
  aborted_at = none;
  released_at = none;
  incident_opened_at = none;
}

abbrev pub or_else : Option ℕ → Option ℕ → Option ℕ
or_else none old = old
or_else (some t) old = some t

unfoldable pub has_id : String → Scenario → Bool
has_id id s = str_eq s.id id

-- data: { state: t.to, ...extra }
unfoldable pub assign : ScenarioState → Extra → Scenario → Scenario
assign to extra s = record s {
  state = to;
  armed_at = or_else extra.armed_at s.armed_at;
  aborted_at = or_else extra.aborted_at s.aborted_at;
  released_at = or_else extra.released_at s.released_at;
  incident_opened_at = or_else extra.incident_opened_at s.incident_opened_at;
}

-- where: { id, state: { in: from } }
unfoldable pub matches : String → List ScenarioState → Scenario → Bool
unfolding has_id
matches id from s = has_id id s && includes from s.state

unfoldable pub set_scenarios : (List Scenario → List Scenario) → Db → Db
set_scenarios f db = record db { scenarios = f db.scenarios }

unfoldable pub find_scenario : String → Db → Option Scenario
find_scenario id db = find_first (has_id id) db.scenarios

-- scenario.updateMany: the number of rows that it changed.
unfoldable pub update_scenarios : String → List ScenarioState → ScenarioState → Extra → M ℕ
update_scenarios id from to extra = do
  n ← gets (λ db. count_where (matches id from) db.scenarios)
  modify (set_scenarios (update_many (matches id from) (assign to extra)))
  pure n

abbrev pub same : Bool → Bool → Bool
same true b = b
same false b = not b

-- The post-checks I6, I7 and I8.
unfoldable pub check_after : Option Scenario → M (Unit {0})
check_after o = do
  after ← or_throw o (invariant_violation "row_missing")
  require (state_eq after.state ScenarioState.draft || is_some after.armed_at)
      (invariant_violation "armedAt_null")
  require (same (state_eq after.state ScenarioState.released) (is_some after.released_at))
      (invariant_violation "releasedAt_coupling")
  require (same (state_eq after.state ScenarioState.aborted) (is_some after.aborted_at))
      (invariant_violation "abortedAt_coupling")

unfoldable pub transition : String → String → Extra → M (ScenarioState × ScenarioState)
transition id key extra = do
  t ←
      or_throw (lookup_transition key scenario_transitions)
        (plain (template ("unknown transition: " ∷ key ∷ [])))
  require (not (any_terminal t.from)) (invariant_violation "terminal_in_from")
  found ← gets (find_scenario id)
  before ← or_throw found (transition_denied key t.from none)
  require (not (is_terminal_scenario before.state))
      (transition_denied key t.from (some before.state))
  n ← update_scenarios id t.from t.to extra
  require (n == 1) (transition_denied key t.from (some before.state))
  after ← gets (find_scenario id)
  check_after after
  pure (before.state, t.to)

unfoldable pub is_in : String → List ScenarioState → M Bool
is_in id states = do
  found ← gets (find_scenario id)
  with_option found (pure false) (λ s. pure (includes states s.state))
