-- ===== src/Safety/Mode.antt =====
-- safety/safety-mode.service.ts: the current mode, its cache, and the transitions between modes.
use dead_switch.Common.{
  ℕ, ◌-◌, String, Bool, false, not, ◌&&◌, ◌||◌, List, [], ◌∷◌, ◌++◌, Option, none, some, ltb,
  length, str_eq, if◌then◌else◌, ◌==◌,
}
use dead_switch.Schema.{
  SafetyModeKind, SafetyMode, SafetyModeTransition, AuditActor, mode_eq, Fields, text, boolean,
  object, end, field, Error, forbidden, safety_blocked,
}
use dead_switch.World.{Db, Mem}
use dead_switch.Effect.{
  M, pure, throw, ◌>>=◌, ◌>>◌, gets, ask, clock, recall, remember, modify, transaction, require,
  with_option, finally,
}
use dead_switch.Audit.Service.{Entry, record_event}
use dead_switch.Safety.Capability.{Capability}
use dead_switch.Safety.Matrix.{PolicyDecision, allow, deny, evaluate}

abbrev pub system_user_id : String
system_user_id = "00000000-0000-0000-0000-000000000000"

abbrev pub refresh_ms : ℕ
refresh_ms = 5000

-- The row of `create: { id: 'global', mode: 'normal' }`, with the defaults of the schema.
abbrev pub default_mode : ℕ → SafetyMode
default_mode now = record {
  mode = SafetyModeKind.normal;
  isolated_providers = [];
  reason = none;
  entered_by = none;
  entered_at = now;
  auto_entered = false;
  notes = none;
}

unfoldable pub set_mode : SafetyMode → Db → Db
set_mode row db = record db { safety_mode = some row }

-- upsert with an empty update.
unfoldable pub seed : M SafetyMode
seed = do
  found ← gets (λ db. db.safety_mode)
  now ← clock
  with_option found (modify (set_mode (default_mode now)) >> pure (default_mode now)) pure

unfoldable pub cache : SafetyMode → ℕ → Mem → Mem
cache row now mem = record mem { cached = some row; last_fetch_at = now }

unfoldable pub fetch : M SafetyMode
fetch = do
  now ← clock
  found ← gets (λ db. db.safety_mode)
  row ← with_option found seed pure
  remember (cache row now)
  pure row

-- The cached row is served while it is younger than refreshMs.
unfoldable pub current : M SafetyMode
current = do
  now ← clock
  cached ← recall (λ mem. mem.cached)
  last_fetch_at ← recall (λ mem. mem.last_fetch_at)
  with_option cached fetch (λ row. if ltb (now - last_fetch_at) refresh_ms then pure row else fetch)

unfoldable pub clear_cache : Mem → Mem
clear_cache mem = record mem { cached = none; last_fetch_at = 0 }

unfoldable pub refresh : M SafetyMode
refresh = do remember clear_cache; current

-- The decision as an effect: the reason of a denial names the capability and the mode.
unfoldable pub enforce : PolicyDecision → M (Unit {0})
enforce allow = pure tt
enforce (deny capability mode) = throw (safety_blocked capability mode)

unfoldable pub assert : Capability → M (Unit {0})
assert capability = do row ← current; enforce (evaluate row.mode capability)

unfoldable pub includes_text : String → List String → Bool
includes_text p [] = false
includes_text p (q ∷ qs) = str_eq q p || includes_text p qs

unfoldable pub is_provider_isolated : String → M Bool
is_provider_isolated provider_key = do
  row ← current
  pure (includes_text provider_key row.isolated_providers)

unfoldable pub mode_or_normal : Option SafetyMode → SafetyModeKind
mode_or_normal none = SafetyModeKind.normal
mode_or_normal (some row) = row.mode

unfoldable pub forbids_auto : SafetyModeKind → SafetyModeKind → Bool → Bool
forbids_auto from next auto =
    auto
    && ((mode_eq from SafetyModeKind.audit_compromised
          || mode_eq from SafetyModeKind.emergency_freeze)
        && mode_eq next SafetyModeKind.normal)

abbrev pub mode_text : SafetyModeKind → String
mode_text SafetyModeKind.normal = "normal"
mode_text SafetyModeKind.degraded = "degraded"
mode_text SafetyModeKind.release_restricted = "release_restricted"
mode_text SafetyModeKind.audit_compromised = "audit_compromised"
mode_text SafetyModeKind.emergency_freeze = "emergency_freeze"

abbrev transition_entry : SafetyModeKind → SafetyModeKind → String → String → Bool → Entry
transition_entry from to reason actor auto = record {
  user_id = system_user_id;
  scenario_id = none;
  actor = if auto then AuditActor.system else AuditActor.admin;
  event_type = "safety.mode.transition";
  payload = object (
      field "from" (text (mode_text from)) (
        field "to" (text (mode_text to)) (
          field "reason" (text reason)
            (field "auto" (boolean auto) (field "actor" (text actor) end)))));
}

unfoldable pub entered : SafetyModeKind → String → String → Bool → ℕ → SafetyMode → SafetyMode
entered next reason actor auto now row = record row {
  mode = next;
  reason = some reason;
  entered_by = some actor;
  entered_at = now;
  auto_entered = auto;
}

-- safetyMode.update fails on a missing row (P2025).
unfoldable pub append_transition : SafetyModeTransition → Db → Db
append_transition t db = record db { mode_transitions = db.mode_transitions ++ t ∷ [] }

unfoldable pub change_mode : SafetyMode → SafetyModeKind → String → String → Bool → M (Unit {0})
change_mode row next reason actor auto = do
  now ← clock
  version ← ask (λ env. env.policy_version)
  modify (set_mode (entered next reason actor auto now row))
  modify (
      append_transition (record {
        from = row.mode;
        to = next;
        reason = reason;
        actor = actor;
        auto_entered = auto;
        policy_version = version;
      }))
  record_event (transition_entry row.mode next reason actor auto)

unfoldable pub enter_in_transaction : SafetyModeKind → String → String → Bool → M (Unit {0})
enter_in_transaction next reason actor auto = do
  cur ← gets (λ db. db.safety_mode)
  let from = mode_or_normal cur
  if mode_eq from next then pure tt else do
    require (not (forbids_auto from next auto))
        (forbidden "cannot auto-exit: dual-control required")
    with_option cur (throw (Error.plain "Record to update not found"))
        (λ row. change_mode row next reason actor auto)

unfoldable pub enter : SafetyModeKind → String → String → Bool → M (Unit {0})
enter next reason actor auto =
    finally (transaction (enter_in_transaction next reason actor auto)) (refresh >>= λ _. pure tt)

abbrev reason_field : Option String → Fields → Fields
reason_field none fs = fs
reason_field (some r) fs = field "reason" (text r) fs

abbrev pub provider_entry : String → String → Option String → String → Entry
provider_entry event_type provider_key reason actor = record {
  user_id = system_user_id;
  scenario_id = none;
  actor = AuditActor.system;
  event_type = event_type;
  payload = object (
      field "providerKey" (text provider_key)
        (reason_field reason (field "actor" (text actor) end)));
}

unfoldable pub without : String → List String → List String
without p [] = []
without p (q ∷ qs) = let rest = without p qs in if str_eq q p then rest else q ∷ rest

unfoldable pub isolate_provider : String → String → String → M (Unit {0})
isolate_provider provider_key reason actor = do
  transaction (do
    cur ← gets (λ db. db.safety_mode)
    with_option cur (pure tt) (λ row.
        if includes_text provider_key row.isolated_providers then pure tt else do
          modify (
              set_mode
                (record row { isolated_providers = row.isolated_providers ++ provider_key ∷ [] }))
          record_event
              (provider_entry "safety.provider.isolated" provider_key (some reason) actor)))
  refresh >>= λ _. pure tt

unfoldable pub unisolate_provider : String → String → M (Unit {0})
unisolate_provider provider_key actor = do
  transaction (do
    cur ← gets (λ db. db.safety_mode)
    with_option cur (pure tt) (λ row.
        let rest = without provider_key row.isolated_providers in
        if length rest == length row.isolated_providers then pure tt else do
          modify (set_mode (record row { isolated_providers = rest }))
          record_event (provider_entry "safety.provider.unisolated" provider_key none actor)))
  refresh >>= λ _. pure tt
