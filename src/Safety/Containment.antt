-- ===== src/Safety/Containment.antt =====
-- safety/containment.service.ts: the rules that put the system into a protective mode by themselves.
use dead_switch.Common.{
  ℕ, ◌+◌, ◌-◌, ◌/◌, max, min, String, Bool, true, false, ◌&&◌, List, [], ◌∷◌, ◌++◌, Option, none,
  some, ltb, leb, str_eq, template, length, find_first, find_many, count_where, update_many,
  if◌then◌else◌,
}
use dead_switch.Schema.{
  SafetyModeKind, SafetyMode, mode_eq, CircuitState, circuit_eq, ReleaseAction, ReleaseActionState,
  AuditEvent, AuditExport, ProviderCircuitBreaker, Value, Fields, text, object, end, field,
}
use dead_switch.World.{Db}
use dead_switch.Effect.{M, pure, ◌>>=◌, ◌>>◌, gets, ask, clock, modify, when, for_each}
use dead_switch.Safety.Mode.{current, enter}
use dead_switch.Safety.Breaker.{find_breaker}
use dead_switch.Safety.Gate.{ambiguous_since, event_since, oldest_available, scopes_of}
use dead_switch.Releases.Executor.{set_actions, sibling_in, find_action}

pub record TickReport : Type 0 where
  pub mode : SafetyModeKind
  pub fired : List String

-- payload?.actionId
abbrev text_of : Value → Option String
text_of (text t) = some t
text_of _ = none

unfoldable pub text_field : String → Fields → Option String
text_field k end = none
text_field k (field j v fs) = if str_eq j k then text_of v else text_field k fs

abbrev action_id_of : Value → Option String
action_id_of (object fs) = text_field "actionId" fs
action_id_of _ = none

abbrev release_of : Db → Option String → List String
release_of db none = []
release_of db (some id) = the_release (find_action id db)
  where
    the_release : Option ReleaseAction → List String
    the_release none = []
    the_release (some a) = a.release_id ∷ []

-- The releases of the events, which form a set there.
unfoldable pub releases_of : Db → List AuditEvent → List String
unfolding text_field
releases_of db [] = []
releases_of db (e ∷ es) = release_of db (action_id_of e.payload_redacted) ++ releases_of db es

abbrev aborted_sibling : ReleaseAction → ReleaseAction
aborted_sibling a = record a {
  state = ReleaseActionState.aborted;
  last_error = some "containment: sibling sent_after_abort";
}

abbrev is_open_sibling : String → ReleaseAction → Bool
is_open_sibling release_id a =
    sibling_in release_id (ReleaseActionState.pending ∷ ReleaseActionState.failed_temporary ∷ []) a

unfoldable pub abort_siblings : M (Unit {0})
unfolding event_since releases_of
abort_siblings = do
  now ← clock
  ids ← gets (λ db.
      releases_of db
        (find_many (event_since "release.action.sent_after_abort" now 300000) db.audit))
  for_each ids (λ id. modify (set_actions (update_many (is_open_sibling id) aborted_sibling)))

-- A rule that fires enters a mode and is named.
abbrev protect : SafetyModeKind → String → M (Unit {0})
protect mode reason = enter mode reason "system" true

unfoldable pub rule_sent_after_abort : M (List String)
unfolding event_since
rule_sent_after_abort = do
  now ← clock
  n ← gets (λ db. count_where (event_since "release.action.sent_after_abort" now 300000) db.audit)
  number ← ask (λ env. env.number_text n)
  if ltb 0 n
      then (do
        protect SafetyModeKind.release_restricted
            (template ("C1: sent_after_abort=" ∷ number ∷ " in last 5m" ∷ []))
        abort_siblings
        pure ("C1" ∷ []))
      else pure []

unfoldable pub rule_ambiguous : M (List String)
unfolding ambiguous_since
rule_ambiguous = do
  now ← clock
  n ← gets (λ db. count_where (ambiguous_since now 300000) db.audit)
  number ← ask (λ env. env.number_text n)
  if leb 5 n
      then (do
        protect SafetyModeKind.release_restricted
            (template ("C2: ambiguous=" ∷ number ∷ " in last 5m" ∷ []))
        pure ("C2" ∷ []))
      else pure []

abbrev age_of : ℕ → Option ℕ → ℕ
age_of now none = 0
age_of now (some at) = now - at

unfoldable pub rule_outbox_lag : M (List String)
unfolding oldest_available
rule_outbox_lag = do
  now ← clock
  age ← gets (λ db. age_of now (oldest_available db.outbox))
  seconds ← ask (λ env. env.number_text ((age + 500) / 1000))
  if ltb 900000 age
      then (do
        protect SafetyModeKind.degraded (template ("C3: outbox lag " ∷ seconds ∷ "s" ∷ []))
        pure ("C3-hard" ∷ []))
      else pure []

abbrev is_open_breaker : Option ProviderCircuitBreaker → Bool
is_open_breaker none = false
is_open_breaker (some b) = circuit_eq b.state CircuitState.open_circuit

unfoldable pub rule_kms : M (List String)
rule_kms = do
  kms ← gets (find_breaker "kms-decrypt")
  if is_open_breaker kms
      then (do protect SafetyModeKind.release_restricted "C4: KMS breaker open"; pure ("C4" ∷ []))
      else pure []

unfoldable pub max_seq : String → List AuditEvent → ℕ
max_seq scope [] = 0
max_seq scope (e ∷ es) =
    let rest = max_seq scope es in if str_eq e.chain_scope scope then max e.seq rest else rest

abbrev watermark : Option AuditExport → ℕ
watermark none = 0
watermark (some x) = x.exported_up_to_seq

-- Without a stamp, the last export was a hundred years ago.
abbrev exported_long_ago : ℕ → Option ℕ → Bool
exported_long_ago now none = true
exported_long_ago now (some t) = ltb 3600000 (now - t)

abbrev stamp_of : Option AuditExport → Option ℕ
stamp_of none = none
stamp_of (some x) = x.last_exported_at

unfoldable pub is_stale : ℕ → Db → String → Bool
unfolding max_seq
is_stale now db scope =
    let export = find_first (λ (x : AuditExport). str_eq x.chain_scope scope) db.exports in
    ltb (watermark export) (max_seq scope db.audit) && exported_long_ago now (stamp_of export)

-- LIMIT 5
unfoldable pub rule_audit : M (List String)
unfolding is_stale scopes_of
rule_audit = do
  now ← clock
  n ← gets (λ db. min 5 (length (find_many (is_stale now db) (scopes_of db.audit))))
  number ← ask (λ env. env.number_text n)
  if ltb 0 n
      then (do
        protect SafetyModeKind.audit_compromised
            (template ("C5: " ∷ number ∷ " audit scope(s) unexported >1h" ∷ []))
        pure ("C5" ∷ []))
      else pure []

unfoldable pub rule_runaway : M (List String)
unfolding event_since
rule_runaway = do
  now ← clock
  n ← gets (λ db. count_where (event_since "release.triggered" now 60000) db.audit)
  number ← ask (λ env. env.number_text n)
  if ltb 20 n
      then (do
        protect SafetyModeKind.release_restricted
            (template ("C7: release.triggered=" ∷ number ∷ " in last minute" ∷ []))
        pure ("C7" ∷ []))
      else pure []

abbrev is_clean : List String → Bool
is_clean [] = true
is_clean (f ∷ fs) = false

-- The way back to `normal` after a clean time in a mode that was entered automatically.
unfoldable pub auto_recover : SafetyMode → List String → M (Unit {0})
auto_recover row fired = do
  now ← clock
  when
      (mode_eq row.mode SafetyModeKind.release_restricted
        && (row.auto_entered && (is_clean fired && ltb 1800000 (now - row.entered_at))))
      (protect SafetyModeKind.normal "auto-exit: clean 30min")
  when
      (mode_eq row.mode SafetyModeKind.degraded
        && (row.auto_entered && (is_clean fired && ltb 900000 (now - row.entered_at))))
      (protect SafetyModeKind.normal "auto-exit: degraded clean")

unfoldable pub tick : M TickReport
tick = do
  c1 ← rule_sent_after_abort
  c2 ← rule_ambiguous
  c3 ← rule_outbox_lag
  c4 ← rule_kms
  c5 ← rule_audit
  c7 ← rule_runaway
  let fired = c1 ++ (c2 ++ (c3 ++ (c4 ++ (c5 ++ c7))))
  row ← current
  auto_recover row fired
  pure (record { mode = row.mode; fired = fired })
