-- ===== src/Examples.antt =====
-- Concrete worlds, on which the statements of the other modules are run.
mod State
mod Releases
mod Audit
mod Outbox
mod Safety
mod Escalation
mod Calls
mod Scenarios
mod Providers
mod Auth
mod Admin
mod Gate
mod Attachments
mod Workers
mod Recipients
mod Contacts
use dead_switch.Common.{ℕ, zero, suc, String, true, false, none, some, [], ◌∷◌, List, Option}
use dead_switch.Schema.{
  ScenarioState, Scenario, ReleaseActionState, ReleaseAction, ReleaseState, Release, SafetyModeKind,
  SafetyMode,
}
use dead_switch.World.{Crypto, Config, Env, Db, Mem, World}

-- A cipher that hides nothing: the tag holds sixteen zeros, and every tag is accepted.
abbrev zeros : ℕ → List ℕ
zeros zero = []
zeros (suc n) = 0 ∷ zeros n

abbrev crypto : Crypto
crypto = record {
  random_bytes = λ n i k. zeros k;
  random_text = λ n. "r";
  gcm_body = λ k n a p. p;
  gcm_tag = λ k n a p. zeros 16;
  gcm_open = λ k n a b t. some b;
  hkdf = λ i s. s;
  hmac_hex = λ k t. t;
  sha256_hex = λ b. "h";
  utf8 = λ t. [];
  hex_bytes = λ t. [];
}

abbrev config : Config
config = record {
  process_role = "api";
  kms_mode = "mock";
  kms_master_key = [];
  pepper = [];
  account_cooldown_seconds = none;
  jwt_refresh_ttl = none;
  session_cache_ttl = 60;
  attachment_link_ttl_seconds = none;
  attachment_link_max_uses = none;
  max_attachment_bytes = none;
  max_bundles_per_scenario = none;
  max_recipients_per_bundle = none;
  recipient_token_hmac_key = none;
}

-- Hashes are the texts themselves.
abbrev env : Env
env = record {
  to_iso_string = λ t. "2026";
  parse_date = λ s. 0;
  uuid = λ n. "u";
  sha256 = λ s. s;
  json_string = λ s. s;
  number_text = λ n. "1";
  base64 = λ b. "b";
  argon2_verify = λ h p. true;
  random_code = λ n. "c";
  argon2_hash = λ s. s;
  min_grace_period_seconds = none;
  max_scenarios_per_user = none;
  policy_version = "1";
  json_column = λ v. v;
  slice = λ s i j. s;
  jwt_sign = λ u s f. "j";
  code_units = λ s. [];
  of_code_units = λ l. "f";
  crypto = crypto;
  config = config;
}

abbrev empty_db : Db
empty_db = record {
  users = [];
  scenarios = [];
  checkins = [];
  attempts = [];
  contacts = [];
  abort_codes = [];
  bundles = [];
  recipients = [];
  releases = [];
  actions = [];
  outbox = [];
  audit = [];
  safety_mode = none;
  mode_transitions = [];
  breakers = [];
  dispatches = [];
  sessions = [];
  requests = [];
  grants = [];
  attachments = [];
  attachment_tokens = [];
  access_tokens = [];
  vault_items = [];
  exports = [];
  serial = 0;
}

abbrev mem : Mem
mem = record {
  cached = none;
  last_fetch_at = 0;
  in_mem_failures = [];
  in_mem_ambiguous = [];
  session_cache = [];
  jobs = [];
  blobs = [];
}

abbrev empty_world : World
empty_world = record { env = env; now = 100; db = empty_db; mem = mem }

abbrev scenario_in : ScenarioState → Scenario
scenario_in state = record {
  id = "s";
  user_id = "a";
  name = "trip";
  description = none;
  state = state;
  expected_duration_seconds = none;
  auto_expire_at = none;
  checkin_interval_seconds = 900;
  grace_period_seconds = 21600;
  armed_at = some 1;
  aborted_at = none;
  released_at = none;
  incident_opened_at = none;
}

abbrev world_with : Scenario → World
world_with s = record empty_world { db = record empty_db { scenarios = s ∷ [] } }

abbrev action_in_state : ReleaseActionState → ReleaseAction
action_in_state state = record {
  id = "x";
  release_id = "r";
  bundle_id = "b";
  message_id = some "m";
  recipient_id = "t";
  state = state;
  attempts = 0;
  last_attempt_at = none;
  last_error = none;
  provider = none;
  provider_message_id = none;
  provider_status = none;
  provider_status_at = none;
  executed_at = none;
}

abbrev ongoing : Release
ongoing = record {
  id = "r";
  scenario_id = "s";
  state = ReleaseState.executing;
  trigger_reason = "grace_expired";
  completed_at = none;
  canceled_at = none;
  canceled_by = none;
  cancel_reason = none;
}

abbrev world_releasing : ReleaseActionState → World
world_releasing state = record empty_world {
  db = record empty_db {
    scenarios = scenario_in ScenarioState.release_in_progress ∷ [];
    releases = ongoing ∷ [];
    actions = action_in_state state ∷ [];
  };
}

abbrev mode_row : SafetyModeKind → SafetyMode
mode_row mode = record {
  mode = mode;
  isolated_providers = [];
  reason = none;
  entered_by = none;
  entered_at = 0;
  auto_entered = false;
  notes = none;
}

abbrev world_in_mode : SafetyModeKind → World
world_in_mode mode = record empty_world {
  db = record empty_db { safety_mode = some (mode_row mode) };
}
