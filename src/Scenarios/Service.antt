-- ===== src/Scenarios/Service.antt =====
-- scenarios/scenarios.service.ts up to `disarm`, and auth/auth.service.ts verifyPasswordProof.
use dead_switch.Common.{
  ℕ, ◌+◌, ◌*◌, String, Bool, false, not, ◌&&◌, [], ◌∷◌, ◌++◌, Option, none, some, is_some, ltb, leb,
  str_eq, template, find_first, count_where, if◌then◌else◌,
}
use dead_switch.Schema.{
  ScenarioState, Scenario, User, AbortCode, AuditActor, Value, text, object, end, field, Error,
  not_found, bad_request, forbidden, conflict, unauthorized, transition_denied,
}
use dead_switch.World.{Env, Db}
use dead_switch.Effect.{
  M, pure, throw, ◌>>=◌, ◌>>◌, gets, ask, clock, modify, fresh, require, or_throw, try_catch,
  transaction,
}
use dead_switch.State.Service.{no_extra, transition}
use dead_switch.Audit.Service.{Entry, record_event}
use dead_switch.Outbox.Service.{EnqueueSpec, enqueue}
use dead_switch.Safety.Capability.{scenario_arm}
use dead_switch.Safety.Mode.{assert}

abbrev pub user_entry : String → String → String → Value → Entry
user_entry user_id scenario_id event_type payload = record {
  user_id = user_id;
  scenario_id = some scenario_id;
  actor = AuditActor.user;
  event_type = event_type;
  payload = payload;
}

unfoldable pub user_by_id : String → Db → Option User
user_by_id id db = find_first (λ u. str_eq u.id id) db.users

unfoldable pub verify_password_proof : String → String → M (Unit {0})
verify_password_proof user_id password = do
  found ← gets (user_by_id user_id)
  user ← or_throw found (unauthorized "")
  matches ← ask (λ env. env.argon2_verify user.password_hash password)
  require matches (unauthorized "password re-verification failed")

unfoldable pub owned_by : String → String → Scenario → Bool
owned_by user_id id s = str_eq s.id id && str_eq s.user_id user_id

unfoldable pub get : String → String → M Scenario
get user_id id = do
  found ← gets (λ db. find_first (owned_by user_id id) db.scenarios)
  or_throw found not_found

abbrev pub min_checkin_seconds : ℕ
min_checkin_seconds = 900

pub record CreateInput : Type 0 where
  pub name : String
  pub description : Option String
  pub checkin_interval_seconds : ℕ
  pub grace_period_seconds : ℕ
  pub expected_duration_seconds : Option ℕ
  pub auto_expire_at : Option String

abbrev or_default : Option ℕ → ℕ → ℕ
or_default none d = d
or_default (some n) d = n

abbrev parse_expiry : Env → Option String → Option ℕ
parse_expiry env none = none
parse_expiry env (some t) = if str_eq t "" then none else some (env.parse_date t)

unfoldable pub draft_of : String → String → CreateInput → Option ℕ → Scenario
draft_of id user_id input expiry = record {
  id = id;
  user_id = user_id;
  name = input.name;
  description = input.description;
  state = ScenarioState.draft;
  expected_duration_seconds = input.expected_duration_seconds;
  auto_expire_at = expiry;
  checkin_interval_seconds = input.checkin_interval_seconds;
  grace_period_seconds = input.grace_period_seconds;
  armed_at = none;
  aborted_at = none;
  released_at = none;
  incident_opened_at = none;
}

unfoldable pub append_scenario : Scenario → Db → Db
append_scenario s db = record db { scenarios = db.scenarios ++ s ∷ [] }

unfoldable pub store_draft : String → CreateInput → M Scenario
store_draft user_id input = do
  id ← fresh
  expiry ← ask (λ env. parse_expiry env input.auto_expire_at)
  let scenario = draft_of id user_id input expiry
  modify (append_scenario scenario)
  record_event
      (user_entry user_id id "scenario.created" (object (field "name" (text input.name) end)))
  pure scenario

unfoldable pub create : String → CreateInput → M Scenario
create user_id input = do
  found ← gets (user_by_id user_id)
  require (is_some found) not_found
  require (leb min_checkin_seconds input.checkin_interval_seconds)
      (bad_request "check-in interval too short")
  min_grace ← ask (λ env. or_default env.min_grace_period_seconds 21600)
  require (leb min_grace input.grace_period_seconds) (bad_request "grace period too short")
  count ← gets (λ db. count_where (λ (s : Scenario). str_eq s.user_id user_id) db.scenarios)
  max_scenarios ← ask (λ env. or_default env.max_scenarios_per_user 5)
  require (ltb count max_scenarios) (forbidden "scenario limit reached")
  store_draft user_id input

-- if (e instanceof StateTransitionDeniedError) throw new ConflictException(e.message)
unfoldable pub denied_to_conflict : {A : Type 0} → Error → M A
denied_to_conflict (transition_denied key from actual) = throw (conflict key)
denied_to_conflict e = throw e

abbrev pub checkin_job : Env → String → ℕ → ℕ → EnqueueSpec
checkin_job env id due_at delay = record {
  queue = "checkins";
  job_name = "due";
  job_id = template ("checkin:" ∷ id ∷ ":" ∷ env.to_iso_string due_at ∷ []);
  payload =
      object
        (field "scenarioId" (text id) (field "dueAtIso" (text (env.to_iso_string due_at)) end));
  delay_ms = some delay;
}

abbrev cooling : Option ℕ → ℕ → Bool
cooling none now = false
cooling (some until) now = ltb now until

abbrev or_in_thirty_days : Option ℕ → ℕ → ℕ
or_in_thirty_days none now = now + 2592000000
or_in_thirty_days (some t) now = t

unfoldable pub append_code : AbortCode → Db → Db
append_code c db = record db { abort_codes = db.abort_codes ++ c ∷ [] }

unfoldable pub create_code : String → String → String → ℕ → M (Unit {0})
create_code user_id scenario_id code_hash expires_at = do
  id ← fresh
  modify (
      append_code (record {
        id = id;
        user_id = user_id;
        scenario_id = scenario_id;
        code_hash = code_hash;
        used_at = none;
        expires_at = expires_at;
      }))

-- The transaction of `arm`: the code, the transition and the first check-in are one.
unfoldable pub arm_in_transaction : String → Scenario → String → M (Unit {0})
arm_in_transaction user_id scenario code_hash = do
  armed_at ← clock
  create_code user_id scenario.id code_hash (or_in_thirty_days scenario.auto_expire_at armed_at)
  try_catch
      (transition scenario.id "arm" (record no_extra { armed_at = some armed_at }) >>= λ _. pure tt)
      denied_to_conflict
  let delay = scenario.checkin_interval_seconds * 1000
  job ← ask (λ env. checkin_job env scenario.id (armed_at + delay) delay)
  enqueue job

-- Returns the abort code in plain text, once.
unfoldable pub arm : String → String → String → M String
arm user_id id password = do
  assert scenario_arm
  verify_password_proof user_id password
  found ← gets (user_by_id user_id)
  user ← or_throw found not_found
  now ← clock
  require (not (cooling user.cooldown_until now)) (forbidden "account cooldown in effect")
  scenario ← get user_id id
  serial ← gets (λ db. db.serial)
  raw ← ask (λ env. env.random_code serial)
  code_hash ← ask (λ env. env.argon2_hash raw)
  transaction (arm_in_transaction user_id scenario code_hash)
  due ← ask (λ env. env.to_iso_string (now + scenario.checkin_interval_seconds * 1000))
  record_event (user_entry user_id id "scenario.armed" (object (field "nextDueAt" (text due) end)))
  pure raw

abbrev pub state_text : ScenarioState → String
state_text ScenarioState.draft = "draft"
state_text ScenarioState.armed = "armed"
state_text ScenarioState.incident_pending = "incident_pending"
state_text ScenarioState.escalation_in_progress = "escalation_in_progress"
state_text ScenarioState.grace_period = "grace_period"
state_text ScenarioState.release_in_progress = "release_in_progress"
state_text ScenarioState.released = "released"
state_text ScenarioState.aborted = "aborted"
state_text ScenarioState.expired = "expired"

abbrev pub disarm_key : ScenarioState → Option String
disarm_key ScenarioState.armed = some "disarm_armed"
disarm_key ScenarioState.incident_pending = some "disarm_escalation"
disarm_key ScenarioState.escalation_in_progress = some "disarm_escalation"
disarm_key ScenarioState.grace_period = some "abort_grace"
disarm_key _ = none

abbrev from_entry : String → String → String → ScenarioState → Entry
from_entry user_id id event_type state =
    user_entry user_id id event_type (object (field "fromState" (text (state_text state)) end))

unfoldable pub disarm : String → String → String → M (Unit {0})
disarm user_id id password = do
  verify_password_proof user_id password
  scenario ← get user_id id
  key ← or_throw (disarm_key scenario.state) (bad_request "cannot disarm")
  now ← clock
  transaction (
      try_catch (transition id key (record no_extra { aborted_at = some now }) >>= λ _. pure tt)
        denied_to_conflict)
  record_event (from_entry user_id id "scenario.disarmed" scenario.state)
