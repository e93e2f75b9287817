-- ===== src/Calls.antt =====
-- The requests of users and the jobs of the workers, as one sequence of calls on one world: the
-- operations of ScenariosService and of EscalationService and the runs of ReleaseActionExecutor,
-- each at its instant. What a call throws is answered to its caller.
pub mod History
use dead_switch.Common.{ℕ, String, List, [], ◌∷◌}
use dead_switch.World.{World}
use dead_switch.Effect.{M, pure, ◌>>=◌, final}
use dead_switch.Scenarios.Service.{CreateInput, create, arm, disarm}
use dead_switch.Scenarios.Active.{perform_checkin, abort}
use dead_switch.Escalation.Policy.{Notifier}
use dead_switch.Escalation.Service.{StepInput, handle_checkin_due, run_step}
use dead_switch.Escalation.Release.{handle_grace_expiry}
use dead_switch.Releases.Executor.{Collaborators}
use dead_switch.Releases.Run.{run}

pub data Call : Type 0 where
  create_call : String → CreateInput → Call
  arm_call disarm_call abort_call : String → String → String → Call
  checkin_call : String → String → Call
  checkin_due_job : String → String → Call
  run_step_job : StepInput → Call
  grace_expiry_job : String → Call
  execute_job : String → ℕ → Call

unfoldable pub serve : Notifier → Collaborators → Call → M (Unit {0})
serve n c (create_call user_id input) = create user_id input >>= λ _. pure tt
serve n c (arm_call user_id id password) = arm user_id id password >>= λ _. pure tt
serve n c (disarm_call user_id id password) = disarm user_id id password
serve n c (abort_call user_id id code) = abort user_id id code
serve n c (checkin_call user_id id) = perform_checkin user_id id >>= λ _. pure tt
serve n c (checkin_due_job id due_at_iso) = handle_checkin_due id due_at_iso
serve n c (run_step_job input) = run_step n input
serve n c (grace_expiry_job id) = handle_grace_expiry id
serve n c (execute_job action_id attempt) = run c action_id attempt

unfoldable pub history : Notifier → Collaborators → List (ℕ × Call) → World → World
history n c [] w = w
history n c ((t, call) ∷ calls) w =
    history n c calls (final (serve n c call (record w { now = t })))
