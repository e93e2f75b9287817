-- ===== src/Calls/History.antt =====
-- Histories of the calls of `Calls` against the scenario diagram.
use dead_switch.Common.{ℕ, ◌≡◌, String, true, List, [], ◌∷◌}
use dead_switch.Common.{Any}
use dead_switch.Schema.{ScenarioState}
use dead_switch.World.{World}
use dead_switch.Effect.{final}
use dead_switch.Effect.Steps.{Steps, steps_rules}
use dead_switch.State.Table.{is_terminal_scenario}
use dead_switch.State.Lifecycle.{
  lifecycle, Evolves, Evolves-refl, Evolves-trans, Stands, Evolves-Stands,
}
use dead_switch.Scenarios.Lifecycle.{
  create-Steps, arm-Steps, disarm-Steps, perform_checkin-Steps, abort-Steps,
}
use dead_switch.Escalation.Policy.{Notifier}
use dead_switch.Escalation.Lifecycle.{
  IsQuiet, handle_checkin_due-Steps, run_step-Steps, handle_grace_expiry-Steps,
}
use dead_switch.Releases.Executor.{Collaborators}
use dead_switch.Releases.Keeps.{run-Steps}
use dead_switch.Releases.Finished.{Keeping, lifecycle-Kept}
use dead_switch.Calls.{
  Call, create_call, arm_call, disarm_call, abort_call, checkin_call, checkin_due_job, run_step_job,
  grace_expiry_job, execute_job, serve, history,
}

serve-Steps :
    (n : Notifier)
    → IsQuiet n
    → (c : Collaborators) → Keeping lifecycle c
    → (call : Call) → Steps lifecycle (serve n c call)
unfolding serve
serve-Steps n q c k (create_call user_id input) = search (steps_rules, create-Steps) depth 5
serve-Steps n q c k (arm_call user_id id password) = search (steps_rules, arm-Steps) depth 5
serve-Steps n q c k (disarm_call user_id id password) = disarm-Steps user_id id password
serve-Steps n q c k (abort_call user_id id code) = abort-Steps user_id id code
serve-Steps n q c k (checkin_call user_id id) = search (steps_rules, perform_checkin-Steps) depth 5
serve-Steps n q c k (checkin_due_job id due_at_iso) = handle_checkin_due-Steps id due_at_iso
serve-Steps n q c k (run_step_job input) = run_step-Steps n q input
serve-Steps n q c k (grace_expiry_job id) = handle_grace_expiry-Steps id
serve-Steps n q c k (execute_job a t) = run-Steps lifecycle c (lifecycle-Kept c k) a t

-- Whatever calls are served, in whatever order and at whatever instants, and whether they succeed
-- or throw: a scenario that is there before is there after with its identifier, in a state that
-- the diagram reaches from its state before, or was a draft; a scenario that is new has reached
-- its state from `draft`. What the notifier and the collaborators of the
-- executor change keeps to the diagram too.
pub history-Evolves :
    (n : Notifier)
    → IsQuiet n
    → (c : Collaborators) → Keeping lifecycle c
    → (calls : List (ℕ × Call)) (w : World)
    → Evolves w.db.scenarios (history n c calls w).db.scenarios
unfolding history lifecycle
history-Evolves n q c k [] w = Evolves-refl w.db.scenarios
history-Evolves n q c k ((t, call) ∷ calls) w =
    let w' = record w { now = t } in
    Evolves-trans ((serve-Steps n q c k call).at w')
      (history-Evolves n q c k calls (final (serve n c call w')))

-- A scenario that is released, aborted or expired is there with that state after any history of
-- calls, when what the notifier and the collaborators of the executor change keeps to
-- the diagram.
pub history-Stands :
    (n : Notifier)
    → IsQuiet n
    → (c : Collaborators) → Keeping lifecycle c
    → (id : String) (st : ScenarioState) → is_terminal_scenario st ≡ true
    → (calls : List (ℕ × Call)) (w : World) → Any (Stands id st) w.db.scenarios
    → Any (Stands id st) (history n c calls w).db.scenarios
history-Stands n q c k id st terminal calls w there =
    Evolves-Stands id st terminal (history-Evolves n q c k calls w) there
