-- ===== src/Releases/Finished.antt =====
-- Whole runs of ReleaseActionExecutor (releases/release-action-executor.service.ts): the actions
-- before and after one.
use dead_switch.Common.{ℕ, ◌≡◌, refl, String, true, List, Any}
use dead_switch.Schema.{
  ReleaseActionState, ReleaseAction, ReleaseState, Scenario, action_includes, AuditEvent,
  SafetyMode,
}
use dead_switch.World.{World}
use dead_switch.Effect.{modify, final}
use dead_switch.Effect.Steps.{Preorder, Steps, Steps-pure, Steps-throw, steps_rules}
use dead_switch.State.Service.{Extra, set_scenarios, update_scenarios, check_after, transition}
use dead_switch.State.Lifecycle.{lifecycle, transition-Steps, Steps-frame}
use dead_switch.Audit.Service.{Entry, append_audit, record_event}
use dead_switch.Audit.Lifecycle.{record_event-Steps}
use dead_switch.Safety.Capability.{Capability}
use dead_switch.Safety.Matrix.{PolicyDecision, allow, deny}
use dead_switch.Safety.Mode.{set_mode, seed, fetch, current, enforce, assert}
use dead_switch.Safety.Lifecycle.{assert-Steps}
use dead_switch.Releases.Executor.{
  Collaborators, finished, update_action, complete_release, set_actions,
}
use dead_switch.Releases.Run.{run}
use dead_switch.Releases.Delivery.{
  delivery, Steps-elsewhere, update_action-Steps, Rests, Delivers-Rests,
}
use dead_switch.Releases.Keeps.{Kept, run-Steps}

append_audit-Steps : (r : AuditEvent) → Steps delivery (modify (append_audit r))
unfolding append_audit
append_audit-Steps r = Steps-elsewhere _ (λ d. refl)

record_event-delivery : (e : Entry) → Steps delivery (record_event e)
unfolding record_event
record_event-delivery e = search (steps_rules, append_audit-Steps) depth 12

set_mode-Steps : (row : SafetyMode) → Steps delivery (modify (set_mode row))
unfolding set_mode
set_mode-Steps row = Steps-elsewhere _ (λ d. refl)

seed-Steps : Steps delivery seed
unfolding seed
seed-Steps = search (steps_rules, set_mode-Steps) depth 8

fetch-Steps : Steps delivery fetch
unfolding fetch
fetch-Steps = search (steps_rules, seed-Steps) depth 10

current-Steps : Steps delivery current
unfolding current
current-Steps = search (steps_rules, fetch-Steps) depth 10

enforce-Steps : (d : PolicyDecision) → Steps delivery (enforce d)
unfolding enforce
enforce-Steps allow = Steps-pure tt
enforce-Steps (deny c m) = Steps-throw _

assert-delivery : (c : Capability) → Steps delivery (assert c)
unfolding assert
assert-delivery c = search (steps_rules, current-Steps, enforce-Steps) depth 8

set_scenarios-Steps :
    (f : List Scenario → List Scenario) → Steps delivery (modify (set_scenarios f))
unfolding set_scenarios
set_scenarios-Steps f = Steps-elsewhere _ (λ d. refl)

transition-delivery : (id key : String) (extra : Extra) → Steps delivery (transition id key extra)
unfolding transition update_scenarios check_after
transition-delivery id key extra = search (steps_rules, set_scenarios-Steps) depth 20

complete_release-delivery :
    (id : String) (s : ReleaseState) (now : ℕ) → Steps delivery (modify (complete_release id s now))
unfolding complete_release
complete_release-delivery id s now = Steps-elsewhere _ (λ d. refl)

complete_release-lifecycle :
    (id : String) (s : ReleaseState) (now : ℕ)
    → Steps lifecycle (modify (complete_release id s now))
unfolding complete_release
complete_release-lifecycle id s now = Steps-frame _ (λ d. refl)

set_actions-lifecycle :
    (f : List ReleaseAction → List ReleaseAction) → Steps lifecycle (modify (set_actions f))
unfolding set_actions
set_actions-lifecycle f = Steps-frame _ (λ d. refl)

update_action-lifecycle :
    (id : String) (from : List ReleaseActionState) (to : ReleaseActionState)
    (f : ReleaseAction → ReleaseAction)
    → Steps lifecycle (update_action id from to f)
unfolding update_action
update_action-lifecycle id from to f = search (steps_rules, set_actions-lifecycle) depth 8

-- What is asked of the collaborators: that what they change, and what other processes change
-- while they are awaited, keeps the relation.
pub record Keeping (P : Preorder) (c : Collaborators) : Type 0 where
  pub opening : (a m : String) → Steps P (c.open_for_action a m)
  pub issuing :
      (r : String) (a : ReleaseAction) (t : String) (s : Scenario)
      → Steps P (c.issue_for_action r a t s)
  pub sending : (k a h t b : String) (ls : List String) → Steps P (c.send k a h t b ls)

delivery-Kept : (c : Collaborators) → Keeping delivery c → Kept delivery c
delivery-Kept c k = record {
  transitions = transition-delivery;
  events = record_event-delivery;
  assertions = assert-delivery;
  completions = complete_release-delivery;
  actions = update_action-Steps;
  opening = k.opening;
  issuing = k.issuing;
  sending = k.sending;
}

pub lifecycle-Kept : (c : Collaborators) → Keeping lifecycle c → Kept lifecycle c
lifecycle-Kept c k = record {
  transitions = transition-Steps;
  events = record_event-Steps;
  assertions = assert-Steps;
  completions = complete_release-lifecycle;
  actions = λ id from to f h. update_action-lifecycle id from to f;
  opening = k.opening;
  issuing = k.issuing;
  sending = k.sending;
}

-- A run for any action and any attempt, whatever other processes do to the actions within their
-- life while a collaborator is awaited: an action that was executed, given up, aborted, suppressed
-- or sent after an abortion is there after the run in that state, also where the run throws.
pub run-Rests :
    (c : Collaborators)
    → Keeping delivery c
    → (id : String) (s : ReleaseActionState) → action_includes finished s ≡ true
    → (action_id : String) (attempt_number : ℕ) (w : World) → Any (Rests id s) w.db.actions
    → Any (Rests id s) (final (run c action_id attempt_number w)).db.actions
unfolding delivery
run-Rests c k id s h action_id n w there =
    Delivers-Rests id s h ((run-Steps delivery c (delivery-Kept c k) action_id n).at w) there
