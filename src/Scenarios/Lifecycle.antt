-- ===== src/Scenarios/Lifecycle.antt =====
-- The operations of ScenariosService (scenarios/scenarios.service.ts), deleteDraft excepted, against
-- the scenario diagram.
use dead_switch.Common.{refl, sym, subst, String, ℕ, Option, ◌≡◌, List, [], ◌∷◌, ◌++◌}
use dead_switch.Schema.{ScenarioState, Scenario, AbortCode, Error, transition_denied}
use dead_switch.Effect.{modify}
use dead_switch.Effect.Steps.{Preorder, Steps, Steps-modify, Steps-throw, steps_rules}
use dead_switch.State.Diagram.{◌⟶*◌, here}
use dead_switch.State.Lifecycle.{
  lifecycle, Steps-frame, Evolves, nil, adds, keeps, transition-Steps,
}
use dead_switch.Audit.Lifecycle.{record_event-Steps}
use dead_switch.Outbox.Lifecycle.{enqueue-Steps}
use dead_switch.Safety.Lifecycle.{assert-Steps}
use dead_switch.Scenarios.Service.{
  get, verify_password_proof, CreateInput, draft_of, append_scenario, store_draft, create,
  denied_to_conflict, append_code, create_code, arm_in_transaction, arm, disarm,
}
use dead_switch.Scenarios.Active.{
  perform, checkin_in_transaction, perform_checkin, burn_code, abort_in_transaction, abort,
}

ruleset services = (transition-Steps, record_event-Steps, enqueue-Steps, assert-Steps)

get-Steps : {P : Preorder} (user id : String) → Steps P (get user id)
unfolding get
get-Steps user id = search steps_rules depth 6

verify_password_proof-Steps :
    {P : Preorder} (user password : String) → Steps P (verify_password_proof user password)
unfolding verify_password_proof
verify_password_proof-Steps user password = search steps_rules depth 8

denied_to_conflict-Steps :
    {P : Preorder} {A : Type 0} (e : Error) → Steps P (denied_to_conflict {A = A} e)
unfolding denied_to_conflict
denied_to_conflict-Steps (transition_denied key from actual) = Steps-throw _
denied_to_conflict-Steps e = Steps-throw e

append_code-Steps : (c : AbortCode) → Steps lifecycle (modify (append_code c))
unfolding append_code
append_code-Steps c = Steps-frame _ (λ d. refl)

perform-Steps : (id : String) (now : ℕ) → Steps lifecycle (modify (perform id now))
unfolding perform
perform-Steps id now = Steps-frame _ (λ d. refl)

burn_code-Steps : (id : String) (now : ℕ) → Steps lifecycle (modify (burn_code id now))
unfolding burn_code
burn_code-Steps id now = Steps-frame _ (λ d. refl)

create_code-Steps : (u s h : String) (t : ℕ) → Steps lifecycle (create_code u s h t)
unfolding create_code
create_code-Steps u s h t = search (steps_rules, append_code-Steps) depth 6

arm_in_transaction-Steps :
    (u : String) (s : Scenario) (h : String) → Steps lifecycle (arm_in_transaction u s h)
unfolding arm_in_transaction
arm_in_transaction-Steps u s h =
    search (steps_rules, services, create_code-Steps, denied_to_conflict-Steps) depth 12

pub arm-Steps : (u id p : String) → Steps lifecycle (arm u id p)
unfolding arm
arm-Steps u id p =
    search (steps_rules, services, verify_password_proof-Steps, get-Steps, arm_in_transaction-Steps)
      depth 18

pub disarm-Steps : (u id p : String) → Steps lifecycle (disarm u id p)
unfolding disarm
disarm-Steps u id p =
    search (steps_rules, services, verify_password_proof-Steps, get-Steps, denied_to_conflict-Steps)
      depth 12

checkin_in_transaction-Steps : (s : Scenario) → Steps lifecycle (checkin_in_transaction s)
unfolding checkin_in_transaction
checkin_in_transaction-Steps s = search (steps_rules, services, perform-Steps) depth 12

pub perform_checkin-Steps : (u id : String) → Steps lifecycle (perform_checkin u id)
unfolding perform_checkin
perform_checkin-Steps u id =
    search (steps_rules, services, get-Steps, checkin_in_transaction-Steps) depth 12

abort_in_transaction-Steps :
    (s : Scenario) (code : String) → Steps lifecycle (abort_in_transaction s code)
unfolding abort_in_transaction
abort_in_transaction-Steps s code = search (steps_rules, services, burn_code-Steps) depth 10

pub abort-Steps : (u id code : String) → Steps lifecycle (abort u id code)
unfolding abort
abort-Steps u id code =
    search (steps_rules, services, get-Steps, abort_in_transaction-Steps) depth 12

append-Evolves :
    (s : Scenario) (ss : List Scenario) → s.state ≡ ScenarioState.draft → Evolves ss (ss ++ s ∷ [])
append-Evolves s [] h = adds (subst (λ st. ScenarioState.draft ⟶* st) (sym h) here) nil
append-Evolves s (r ∷ ss) h = keeps refl here (append-Evolves s ss h)

append_draft-Steps :
    (id u : String) (i : CreateInput) (expiry : Option ℕ)
    → Steps lifecycle (modify (append_scenario (draft_of id u i expiry)))
unfolding append_scenario draft_of lifecycle
append_draft-Steps id u i expiry = Steps-modify _ λ d. append-Evolves _ d.scenarios refl

store_draft-Steps : (u : String) (i : CreateInput) → Steps lifecycle (store_draft u i)
unfolding store_draft
store_draft-Steps u i = search (steps_rules, services, append_draft-Steps) depth 10

pub create-Steps : (u : String) (i : CreateInput) → Steps lifecycle (create u i)
unfolding create
create-Steps u i = search (steps_rules, store_draft-Steps) depth 14
