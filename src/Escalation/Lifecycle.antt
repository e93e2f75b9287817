-- ===== src/Escalation/Lifecycle.antt =====
-- The handlers of EscalationService (escalation/escalation.service.ts) against the scenario diagram.
use dead_switch.Common.{refl, String, ℕ, List, Option}
use dead_switch.Schema.{
  Scenario, User, Checkin, EscalationAttempt, Release, ReleaseAction, ReleaseBundle, BundleMessage,
  Error, transition_denied, safety_blocked,
}
use dead_switch.Effect.{M, modify}
use dead_switch.Effect.Steps.{Preorder, Steps, Steps-pure, Steps-throw, steps_rules}
use dead_switch.State.Lifecycle.{lifecycle, Steps-frame, transition-Steps}
use dead_switch.Audit.Lifecycle.{record_event-Steps}
use dead_switch.Outbox.Lifecycle.{enqueue-Steps}
use dead_switch.Safety.Lifecycle.{assert-Steps}
use dead_switch.Escalation.Policy.{
  StepKind, push, sms, call, contact_alert, EscalationStep, Notifier,
}
use dead_switch.Escalation.Service.{
  StepInput, denied_to_false, unless_denied, append_checkin, upsert_missed, open_incident,
  handle_checkin_due, append_attempt, notify, enter_grace, begin_grace, climb, begin_escalation,
  run_step,
}
use dead_switch.Escalation.Release.{
  append_release, create_release, append_action, create_action, upsert_action, fan_out_message,
  fan_out, begin_release, blocked, handle_grace_expiry,
}

denied_to_false-Steps : {P : Preorder} (e : Error) → Steps P (denied_to_false e)
unfolding denied_to_false
denied_to_false-Steps (transition_denied key from actual) = Steps-pure _
denied_to_false-Steps e = Steps-throw e

unless_denied-Steps : {P : Preorder} (m : M (Unit {0})) → Steps P m → Steps P (unless_denied m)
unfolding unless_denied
unless_denied-Steps m sm = search (steps_rules, denied_to_false-Steps) depth 8

append_checkin-Steps : (c : Checkin) → Steps lifecycle (modify (append_checkin c))
unfolding append_checkin
append_checkin-Steps c = Steps-frame _ (λ d. refl)

append_attempt-Steps : (a : EscalationAttempt) → Steps lifecycle (modify (append_attempt a))
unfolding append_attempt
append_attempt-Steps a = Steps-frame _ (λ d. refl)

append_release-Steps : (r : Release) → Steps lifecycle (modify (append_release r))
unfolding append_release
append_release-Steps r = Steps-frame _ (λ d. refl)

append_action-Steps : (a : ReleaseAction) → Steps lifecycle (modify (append_action a))
unfolding append_action
append_action-Steps a = Steps-frame _ (λ d. refl)

upsert_missed-Steps : (id : String) (due : ℕ) → Steps lifecycle (upsert_missed id due)
unfolding upsert_missed
upsert_missed-Steps id due = search (steps_rules, append_checkin-Steps) depth 10

ruleset services = (
  transition-Steps, record_event-Steps, enqueue-Steps, assert-Steps, unless_denied-Steps,
  denied_to_false-Steps,
)

open_incident-Steps : (id due : String) → Steps lifecycle (open_incident id due)
unfolding open_incident
open_incident-Steps id due = search (steps_rules, services) depth 10

-- A missed check-in opens an incident, or changes no scenario.
pub handle_checkin_due-Steps : (id due : String) → Steps lifecycle (handle_checkin_due id due)
unfolding handle_checkin_due
handle_checkin_due-Steps id due =
    search (steps_rules, services, upsert_missed-Steps, open_incident-Steps) depth 12

enter_grace-Steps : (id : String) (g : ℕ) → Steps lifecycle (enter_grace id g)
unfolding enter_grace
enter_grace-Steps id g = search (steps_rules, services) depth 10

begin_grace-Steps : (id user : String) (g : ℕ) → Steps lifecycle (begin_grace id user g)
unfolding begin_grace
begin_grace-Steps id user g = search (steps_rules, services, enter_grace-Steps) depth 10

begin_escalation-Steps : (id : String) → Steps lifecycle (begin_escalation id)
unfolding begin_escalation
begin_escalation-Steps id = search (steps_rules, services) depth 8

-- What is assumed of the providers: they leave the scenarios to the state machine.
pub record IsQuiet (n : Notifier) : Type 0 where
  pub sms_quiet : (to body key : String) → Steps lifecycle (n.sms_send to body key)
  pub voice_quiet : (to body key : String) → Steps lifecycle (n.voice_call to body key)
  pub email_quiet : (to s body key : String) → Steps lifecycle (n.email_send to s body key)

module _ (n : Notifier) (quiet : IsQuiet n) where
  open quiet use {sms_quiet, voice_quiet, email_quiet}

  notify-Steps :
      (k : StepKind) (s : Scenario) (u : Option User) (i : StepInput)
      → Steps lifecycle (notify n k s u i)
  unfolding notify
  notify-Steps push s u i = Steps-pure tt
  notify-Steps sms s u i = search (steps_rules, sms_quiet) depth 8
  notify-Steps call s u i = search (steps_rules, voice_quiet) depth 8
  notify-Steps contact_alert s u i = search (steps_rules, email_quiet) depth 8

  climb-Steps :
      (i : StepInput) (s : Scenario) (u : Option User) (e : EscalationStep)
      → Steps lifecycle (climb n i s u e)
  unfolding climb
  climb-Steps i s u e =
      search (steps_rules, services, append_attempt-Steps, notify-Steps, begin_grace-Steps) depth 12

  pub run_step-Steps : (i : StepInput) → Steps lifecycle (run_step n i)
  unfolding run_step
  run_step-Steps i =
      search (steps_rules, services, climb-Steps, begin_grace-Steps, begin_escalation-Steps) depth
        12

create_release-Steps : (id : String) → Steps lifecycle (create_release id)
unfolding create_release
create_release-Steps id = search (steps_rules, append_release-Steps) depth 10

create_action-Steps : (r b p m : String) → Steps lifecycle (create_action r b p m)
unfolding create_action
create_action-Steps r b p m = search (steps_rules, append_action-Steps) depth 8

upsert_action-Steps : (r b p m : String) → Steps lifecycle (upsert_action r b p m)
unfolding upsert_action
upsert_action-Steps r b p m = search (steps_rules, create_action-Steps) depth 8

fan_out_message-Steps :
    (r : String) (b : ReleaseBundle) (m : BundleMessage) → Steps lifecycle (fan_out_message r b m)
unfolding fan_out_message
fan_out_message-Steps r b m = search (steps_rules, services, upsert_action-Steps) depth 8

fan_out-Steps : (r : String) (bs : List ReleaseBundle) → Steps lifecycle (fan_out r bs)
unfolding fan_out
fan_out-Steps r bs = search (steps_rules, fan_out_message-Steps) depth 8

begin_release-Steps : (id : String) → Steps lifecycle (begin_release id)
unfolding begin_release
begin_release-Steps id =
    search (steps_rules, services, create_release-Steps, fan_out-Steps) depth 12

blocked-Steps : (id user : String) (e : Error) → Steps lifecycle (blocked id user e)
unfolding blocked
blocked-Steps id user (safety_blocked c m) = search (steps_rules, services) depth 6
blocked-Steps id user e = Steps-throw e

pub handle_grace_expiry-Steps : (id : String) → Steps lifecycle (handle_grace_expiry id)
unfolding handle_grace_expiry
handle_grace_expiry-Steps id =
    search (steps_rules, services, blocked-Steps, begin_release-Steps) depth 12
