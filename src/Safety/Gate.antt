-- ===== src/Safety/Gate.antt =====
-- safety/exit-gate.service.ts: the conditions for a return to `normal`.
use Prim.Native.Nat.{Ordering}
use Prim.Native.String.{compare}
use dead_switch.Common.{
  ℕ, ◌+◌, ◌-◌, ◌/◌, max, String, Bool, true, false, ◌&&◌, ◌||◌, List, [], ◌∷◌, ◌++◌, Option, none,
  some, ltb, leb, ◌==◌, str_eq, template, count_where, length, if◌then◌else◌,
}
use dead_switch.Schema.{
  SafetyModeKind, mode_eq, CircuitState, circuit_eq, ReleaseAction, ReleaseActionState, action_eq,
  OutboxEvent, AuditEvent, AuditExport, ProviderCircuitBreaker, Value, Fields, object, boolean, end,
  field, plain,
}
use dead_switch.World.{Env}
use dead_switch.Effect.{M, pure, throw, ◌>>=◌, gets, ask, clock}
use dead_switch.Audit.Service.{Verdict, intact, broken_at, raised, verify_chain}

pub record Check : Type 0 where
  pub check_id : String
  pub passed : Bool
  pub detail : String

pub record ExitReport : Type 0 where
  pub target_mode : SafetyModeKind
  pub safe : Bool
  pub checks : List Check
  pub blockers : List String

-- payloadRedacted: { path: ['ambiguous'], equals: true }
abbrev is_true : Value → Bool
is_true (boolean b) = b
is_true _ = false

unfoldable pub field_is_true : String → Fields → Bool
field_is_true k end = false
field_is_true k (field j v fs) = if str_eq j k then is_true v else field_is_true k fs

abbrev pub is_ambiguous_payload : Value → Bool
is_ambiguous_payload (object fs) = field_is_true "ambiguous" fs
is_ambiguous_payload _ = false

unfoldable pub ambiguous_since : ℕ → ℕ → AuditEvent → Bool
unfolding field_is_true
ambiguous_since now window e =
    str_eq e.event_type "release.action.failed"
    && (leb (now - window) e.occurred_at && is_ambiguous_payload e.payload_redacted)

unfoldable pub event_since : String → ℕ → ℕ → AuditEvent → Bool
event_since event_type now window e =
    str_eq e.event_type event_type && leb (now - window) e.occurred_at

abbrev pub is_open_or_half : ProviderCircuitBreaker → Bool
is_open_or_half b =
    circuit_eq b.state CircuitState.open_circuit || circuit_eq b.state CircuitState.half_open

abbrev pub is_sending : ReleaseAction → Bool
is_sending a = action_eq a.state ReleaseActionState.sending

-- A count that has to be zero.
abbrev zero_check : Env → String → String → ℕ → Check
zero_check env check_id label n = record {
  check_id = check_id;
  passed = n == 0;
  detail = template (label ∷ "=" ∷ env.number_text n ∷ []);
}

unfoldable pub check_ambiguous_sends : M Check
unfolding ambiguous_since
check_ambiguous_sends = do
  now ← clock
  n ← gets (λ db. count_where (ambiguous_since now 600000) db.audit)
  ask (λ env. zero_check env "no_ambiguous_10m" "ambiguous" n)

unfoldable pub check_sent_after_abort : M Check
unfolding event_since
check_sent_after_abort = do
  now ← clock
  n ← gets (λ db. count_where (event_since "release.action.sent_after_abort" now 1800000) db.audit)
  ask (λ env. zero_check env "no_sent_after_abort_30m" "sent_after_abort" n)

unfoldable pub check_open_breakers : M Check
check_open_breakers = do
  n ← gets (λ db. count_where is_open_or_half db.breakers)
  ask (λ env. zero_check env "no_open_breakers" "open_or_half" n)

-- The instant of the first row in the order of availableAt.
abbrev earlier : ℕ → Option ℕ → ℕ
earlier a none = a
earlier a (some b) = if ltb b a then b else a

unfoldable pub oldest_available : List OutboxEvent → Option ℕ
oldest_available [] = none
oldest_available (e ∷ es) = some (earlier e.available_at (oldest_available es))

-- Math.round((now - at) / 1000) as a text; the difference may be negative, and a half goes up.
unfoldable pub age_text : Env → ℕ → ℕ → String
age_text env now at =
    if leb at now
    then env.number_text ((now - at + 500) / 1000)
    else if (at - now + 499) / 1000 == 0
    then env.number_text 0
    else template ("-" ∷ env.number_text ((at - now + 499) / 1000) ∷ [])

abbrev outbox_check : Env → ℕ → Option ℕ → Check
outbox_check env now none = record { check_id = "outbox_lag_ok"; passed = true; detail = "empty" }
outbox_check env now (some at) = record {
  check_id = "outbox_lag_ok";
  passed = ltb ((now - at + 500) / 1000) 60;
  detail = template ("oldest_age_sec=" ∷ age_text env now at ∷ []);
}

unfoldable pub check_outbox_lag : M Check
unfolding oldest_available age_text
check_outbox_lag = do
  now ← clock
  oldest ← gets (λ db. oldest_available db.outbox)
  ask (λ env. outbox_check env now oldest)

-- SELECT DISTINCT "chainScope" … ORDER BY scope
unfoldable pub insert_scope : String → List String → List String
insert_scope s [] = s ∷ []
insert_scope s (t ∷ ts) =
    let rest = insert_scope s ts in
    if str_eq s t then t ∷ ts else elim (compare s t) [ Ordering.gt ↦ t ∷ rest | _ ↦ s ∷ t ∷ ts ]

unfoldable pub scopes_of : List AuditEvent → List String
unfolding insert_scope
scopes_of [] = []
scopes_of (e ∷ es) = insert_scope e.chain_scope (scopes_of es)

abbrev pub add_broken : Env → String → Verdict → List String → M (List String)
add_broken env scope intact broken = pure broken
add_broken env scope (broken_at seq) broken =
    pure (broken ++ template (scope ∷ "@" ∷ env.number_text seq ∷ []) ∷ [])
add_broken env scope raised broken = throw (plain "unserializable payload")

-- The loop stops at the third broken scope.
unfoldable pub broken_scopes : List String → List String → M (List String)
unfolding ◌>>=◌ verify_chain
broken_scopes [] broken = pure broken
broken_scopes (s ∷ ss) broken =
    let rest = broken_scopes ss in
    do
      v ← verify_chain s
      env ← ask (λ env. env)
      found ← add_broken env s v broken
      if leb 3 (length found) then pure found else rest found

abbrev join_or_none : List String → String
join_or_none [] = "none"
join_or_none (s ∷ ss) = template (s ∷ tail ss)
  where
    tail : List String → List String
    tail [] = []
    tail (t ∷ ts) = "," ∷ t ∷ tail ts

abbrev pub is_empty : List String → Bool
is_empty [] = true
is_empty (s ∷ ss) = false

unfoldable pub check_audit_integrity : M Check
unfolding broken_scopes scopes_of
check_audit_integrity = do
  scopes ← gets (λ db. scopes_of db.audit)
  broken ← broken_scopes scopes []
  pure (record {
    check_id = "audit_chain_intact";
    passed = is_empty broken;
    detail = template ("broken=" ∷ join_or_none broken ∷ []);
  })

-- COALESCE(MAX(EXTRACT(EPOCH FROM (NOW() - lastExportedAt))), 0)::int, for stamps of the past.
abbrev lag_of : ℕ → Option ℕ → ℕ
lag_of now none = 0
lag_of now (some t) = (now - t + 500) / 1000

unfoldable pub export_lag : ℕ → List AuditExport → ℕ
export_lag now [] = 0
export_lag now (x ∷ xs) = max (lag_of now x.last_exported_at) (export_lag now xs)

unfoldable pub check_audit_export_lag : M Check
unfolding export_lag
check_audit_export_lag = do
  now ← clock
  sec ← gets (λ db. export_lag now db.exports)
  ask (λ env. record {
    check_id = "audit_export_fresh";
    passed = ltb sec 1800;
    detail = template ("export_lag_sec=" ∷ env.number_text sec ∷ []);
  })

unfoldable pub check_no_in_flight_dispatches : M Check
check_no_in_flight_dispatches = do
  n ← gets (λ db. count_where is_sending db.actions)
  ask (λ env. zero_check env "no_inflight_dispatches" "sending" n)

-- The checks of every return to `normal`, those of a compromised log, and that of a freeze.
unfoldable pub normal_checks : M (List Check)
normal_checks = do
  a ← check_ambiguous_sends
  b ← check_open_breakers
  c ← check_outbox_lag
  d ← check_sent_after_abort
  pure (a ∷ b ∷ c ∷ d ∷ [])

unfoldable pub audit_checks : M (List Check)
audit_checks = do a ← check_audit_integrity; b ← check_audit_export_lag; pure (a ∷ b ∷ [])

unfoldable pub freeze_checks : M (List Check)
freeze_checks = do cs ← audit_checks; c ← check_no_in_flight_dispatches; pure (cs ++ c ∷ [])

unfoldable pub further_checks : SafetyModeKind → M (List Check)
further_checks SafetyModeKind.audit_compromised = audit_checks
further_checks SafetyModeKind.emergency_freeze = freeze_checks
further_checks _ = pure []

unfoldable pub blockers_of : List Check → List String
blockers_of [] = []
blockers_of (c ∷ cs) =
    let rest = blockers_of cs in
    if c.passed then rest else template (c.check_id ∷ ": " ∷ c.detail ∷ []) ∷ rest

unfoldable pub report_of : SafetyModeKind → List Check → ExitReport
report_of target_mode checks = record {
  target_mode = target_mode;
  safe = is_empty (blockers_of checks);
  checks = checks;
  blockers = blockers_of checks;
}

unfoldable pub collect_checks : SafetyModeKind → M (List Check)
collect_checks current_mode = do
  cs ← normal_checks
  ds ← further_checks current_mode
  pure (cs ++ ds)

unfoldable pub evaluate_exit : SafetyModeKind → SafetyModeKind → M ExitReport
evaluate_exit current_mode target_mode = do
  checks ←
      if mode_eq target_mode SafetyModeKind.normal then collect_checks current_mode else pure []
  pure (report_of target_mode checks)
