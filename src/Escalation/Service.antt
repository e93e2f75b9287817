-- ===== src/Escalation/Service.antt =====
-- escalation/escalation.service.ts: missed check-ins, the rungs of the ladder and the grace period.
-- The two log lines are left out.
use dead_switch.Common.{
  ℕ, ◌+◌, ◌*◌, String, Bool, true, false, not, ◌&&◌, ◌||◌, List, [], ◌∷◌, ◌++◌, Option, none, some,
  is_some, ltb, ◌==◌, length, get_elem?, str_eq, template, find_first, find_many, if◌then◌else◌,
}
use dead_switch.Schema.{
  ScenarioState, state_eq, Scenario, User, Checkin, CheckinResult, EscalationAttempt,
  TrustedContact, AuditActor, Value, integer, text, array, object, end, field, Error,
  transition_denied,
}
use dead_switch.World.{Env, Db}
use dead_switch.Effect.{
  M, pure, throw, ◌>>=◌, ◌>>◌, gets, ask, clock, modify, fresh, when, with_option, for_each,
  try_catch, transaction,
}
use dead_switch.State.Service.{no_extra, find_scenario, transition}
use dead_switch.Audit.Service.{Entry, record_event}
use dead_switch.Outbox.Service.{EnqueueSpec, enqueue}
use dead_switch.Escalation.Policy.{
  StepKind, push, sms, call, contact_alert, EscalationStep, default_escalation, kind_text,
  steps_values, Notifier,
}

-- The payload of a run-step job.
pub record StepInput : Type 0 where
  pub scenario_id : String
  pub step_index : ℕ
  pub due_at_iso : String
  pub steps : List EscalationStep

abbrev pub run_step_job : Env → StepInput → ℕ → Option ℕ → EnqueueSpec
run_step_job env input index delay = record {
  queue = "escalation";
  job_name = "run-step";
  job_id =
      template
        ("esc:" ∷ input.scenario_id ∷ ":" ∷ input.due_at_iso ∷ ":" ∷ env.number_text index ∷ []);
  payload = object (
      field "scenarioId" (text input.scenario_id) (
        field "stepIndex" (integer index) (
          field "dueAtIso" (text input.due_at_iso)
            (field "steps" (array (steps_values input.steps)) end))));
  delay_ms = delay;
}

abbrev pub system_entry : String → String → String → Value → Entry
system_entry user_id scenario_id event_type payload = record {
  user_id = user_id;
  scenario_id = some scenario_id;
  actor = AuditActor.system;
  event_type = event_type;
  payload = payload;
}

-- catch (e) { if (e instanceof StateTransitionDeniedError) return; throw e; }: the scenario has
-- moved on, and the job ends silently. The answer tells whether the transaction was committed.
unfoldable pub denied_to_false : Error → M Bool
denied_to_false (transition_denied key from actual) = pure false
denied_to_false e = throw e

unfoldable pub unless_denied : M (Unit {0}) → M Bool
unless_denied m = try_catch (transaction m >> pure true) denied_to_false

unfoldable pub same_checkin : String → ℕ → Checkin → Bool
same_checkin scenario_id due_at c = str_eq c.scenario_id scenario_id && c.due_at == due_at

unfoldable pub append_checkin : Checkin → Db → Db
append_checkin c db = record db { checkins = db.checkins ++ c ∷ [] }

-- checkin.upsert with an empty update.
unfoldable pub upsert_missed : String → ℕ → M (Unit {0})
upsert_missed scenario_id due_at = do
  found ← gets (λ db. find_first (same_checkin scenario_id due_at) db.checkins)
  when (not (is_some found)) (do
    id ← fresh
    modify (
        append_checkin (record {
          id = id;
          scenario_id = scenario_id;
          due_at = due_at;
          performed_at = none;
          method = none;
          result = CheckinResult.missed;
        })))

unfoldable pub open_incident : String → String → M (Unit {0})
open_incident scenario_id due_at_iso = do
  now ← clock
  transition scenario_id "miss_checkin" (record no_extra { incident_opened_at = some now }) >>= λ _.
      do
        job ← ask (λ env.
            run_step_job env
              (record {
                scenario_id = scenario_id;
                step_index = 0;
                due_at_iso = due_at_iso;
                steps = default_escalation;
              })
              0 none)
        enqueue job

unfoldable pub handle_checkin_due : String → String → M (Unit {0})
handle_checkin_due scenario_id due_at_iso = do
  found ← gets (find_scenario scenario_id)
  with_option found (pure tt) (λ scenario. when (state_eq scenario.state ScenarioState.armed) (do
    due_at ← ask (λ env. env.parse_date due_at_iso)
    upsert_missed scenario_id due_at
    opened ← unless_denied (open_incident scenario_id due_at_iso)
    when opened
        (record_event (system_entry scenario.user_id scenario_id "incident.opened" (object end)))))

unfoldable pub append_attempt : EscalationAttempt → Db → Db
append_attempt a db = record db { attempts = db.attempts ++ a ∷ [] }

unfoldable pub find_user : String → Db → Option User
find_user id db = find_first (λ u. str_eq u.id id) db.users

abbrev phone_of : Option User → Option String
phone_of none = none
phone_of (some u) = u.phone_e164

abbrev name_of : Option User → String
name_of none = ""
name_of (some u) = u.display_name

unfoldable pub verified_contact : String → TrustedContact → Bool
verified_contact user_id c = str_eq c.user_id user_id && is_some c.verified_at

-- One rung: the message that it sends, if there is somebody to send it to.
unfoldable pub notify : Notifier → StepKind → Scenario → Option User → StepInput → M (Unit {0})
notify n push scenario user input = pure tt
notify n sms scenario user input = do
  index ← ask (λ env. env.number_text input.step_index)
  with_option (phone_of user) (pure tt) (λ phone.
      n.sms_send phone "DeadSwitch: please check in now."
        (template ("esc_sms:" ∷ input.scenario_id ∷ ":" ∷ input.due_at_iso ∷ ":" ∷ index ∷ [])))
notify n call scenario user input = do
  index ← ask (λ env. env.number_text input.step_index)
  with_option (phone_of user) (pure tt) (λ phone.
      n.voice_call phone "DeadSwitch check-in. Press 1 to confirm."
        (template ("esc_voice:" ∷ input.scenario_id ∷ ":" ∷ input.due_at_iso ∷ ":" ∷ index ∷ [])))
notify n contact_alert scenario user input = do
  contacts ← gets (λ db. find_many (verified_contact scenario.user_id) db.contacts)
  for_each contacts (λ c. with_option c.email (pure tt) (λ email.
      n.email_send email "DeadSwitch alert"
        (template (name_of user ∷ " is unresponsive. You may request a temporary pause." ∷ []))
        (template ("esc_alert:" ∷ input.scenario_id ∷ ":" ∷ input.due_at_iso ∷ ":" ∷ c.id ∷ []))))

abbrev pub grace_job : Env → String → ℕ → ℕ → EnqueueSpec
grace_job env scenario_id now grace_period_seconds = record {
  queue = "escalation";
  job_name = "grace-expiry";
  job_id = template ("grace:" ∷ scenario_id ∷ ":" ∷ env.to_iso_string now ∷ []);
  payload = object (field "scenarioId" (text scenario_id) end);
  delay_ms = some (grace_period_seconds * 1000);
}

unfoldable pub enter_grace : String → ℕ → M (Unit {0})
enter_grace scenario_id grace_period_seconds =
    transition scenario_id "begin_grace" no_extra >>= λ _. do
      now ← clock
      job ← ask (λ env. grace_job env scenario_id now grace_period_seconds)
      enqueue job

unfoldable pub begin_grace : String → String → ℕ → M (Unit {0})
begin_grace scenario_id user_id grace_period_seconds = do
  entered ← unless_denied (enter_grace scenario_id grace_period_seconds)
  when entered (
      record_event (
        system_entry user_id scenario_id "grace.started"
          (object (field "gracePeriodSeconds" (integer grace_period_seconds) end))))

-- The rung itself, once the state has been settled.
unfoldable pub climb : Notifier → StepInput → Scenario → Option User → EscalationStep → M (Unit {0})
climb n input scenario user step = do
  now ← clock
  modify (
      append_attempt (record {
        scenario_id = input.scenario_id;
        step_index = input.step_index;
        channel = kind_text step.kind;
        status = "sent";
        attempted_at = now;
      }))
  try_catch (notify n step.kind scenario user input) (λ e. pure tt)
  record_event (
      system_entry scenario.user_id input.scenario_id "escalation.step.sent" (
        object (
          field "stepIndex" (integer input.step_index)
            (field "kind" (text (kind_text step.kind)) end))))
  let next_index = input.step_index + 1
  if ltb next_index (length input.steps)
      then (do
        job ← ask (λ env. run_step_job env input next_index (some (step.wait_seconds * 1000)))
        transaction (enqueue job))
      else begin_grace input.scenario_id scenario.user_id scenario.grace_period_seconds

unfoldable pub begin_escalation : String → M (Unit {0})
begin_escalation scenario_id = transition scenario_id "begin_escalation" no_extra >>= λ _. pure tt

unfoldable pub run_step : Notifier → StepInput → M (Unit {0})
run_step n input = do
  found ← gets (find_scenario input.scenario_id)
  with_option found (pure tt) (λ scenario.
      when
        (state_eq scenario.state ScenarioState.incident_pending
          || state_eq scenario.state ScenarioState.escalation_in_progress)
        (do
          user ← gets (find_user scenario.user_id)
          going ←
              (if input.step_index == 0 && state_eq scenario.state ScenarioState.incident_pending
                then unless_denied (begin_escalation input.scenario_id)
                else pure true)
          when going (
              with_option (get_elem? input.steps input.step_index)
                (begin_grace scenario.id scenario.user_id scenario.grace_period_seconds)
                (climb n input scenario user))))
