-- ===== src/Schema/Enums.antt =====
-- The enumerations of apps/api/prisma/schema.prisma that the modelled code reads, with their tests.
use dead_switch.Common.{ℕ, ◌≡◌, Bool, true, false, ◌||◌, List, [], ◌∷◌, arith, ◌==◌}

pub data ScenarioState : Type 0 where
  draft armed incident_pending escalation_in_progress grace_period : ScenarioState
  release_in_progress released aborted expired : ScenarioState

pub data ReleaseActionState : Type 0 where
  pending sending executed failed_temporary failed_permanent : ReleaseActionState
  aborted suppressed sent_after_abort : ReleaseActionState

pub data ReleaseState : Type 0 where
  pending executing completed partially_failed aborted : ReleaseState

pub data AuditActor : Type 0 where
  user system contact release_worker admin : AuditActor

pub data SafetyModeKind : Type 0 where
  normal degraded release_restricted audit_compromised emergency_freeze : SafetyModeKind

pub data CircuitState : Type 0 where
  closed open_circuit half_open : CircuitState

pub data CheckinResult : Type 0 where
  ok missed : CheckinResult

pub data UserStatus : Type 0 where
  active locked closed : UserStatus

pub data AdminRequestKind : Type 0 where
  enter_mode exit_mode pause_provider resume_provider : AdminRequestKind
  pause_queue resume_queue reduce_concurrency : AdminRequestKind
  drain_releases force_unlock_release : AdminRequestKind

pub data AdminRequestStatus : Type 0 where
  pending approved rejected expired executed : AdminRequestStatus

abbrev status_ordinal : AdminRequestStatus → ℕ
status_ordinal AdminRequestStatus.pending = 0
status_ordinal AdminRequestStatus.approved = 1
status_ordinal AdminRequestStatus.rejected = 2
status_ordinal AdminRequestStatus.expired = 3
status_ordinal AdminRequestStatus.executed = 4

unfoldable pub status_eq : AdminRequestStatus → AdminRequestStatus → Bool
status_eq s t = status_ordinal s == status_ordinal t

-- The position of a state in its enumeration, by which states are compared.
abbrev ordinal : ScenarioState → ℕ
ordinal ScenarioState.draft = 0
ordinal ScenarioState.armed = 1
ordinal ScenarioState.incident_pending = 2
ordinal ScenarioState.escalation_in_progress = 3
ordinal ScenarioState.grace_period = 4
ordinal ScenarioState.release_in_progress = 5
ordinal ScenarioState.released = 6
ordinal ScenarioState.aborted = 7
ordinal ScenarioState.expired = 8

unfoldable pub state_eq : ScenarioState → ScenarioState → Bool
state_eq s t = ordinal s == ordinal t

pub state_eq→≡ : (s t : ScenarioState) → state_eq s t ≡ true → s ≡ t
unfolding state_eq
state_eq→≡ s t h = ground arith

unfoldable pub includes : List ScenarioState → ScenarioState → Bool
unfolding state_eq
includes [] s = false
includes (t ∷ ts) s = state_eq t s || includes ts s

abbrev action_ordinal : ReleaseActionState → ℕ
action_ordinal ReleaseActionState.pending = 0
action_ordinal ReleaseActionState.sending = 1
action_ordinal ReleaseActionState.executed = 2
action_ordinal ReleaseActionState.failed_temporary = 3
action_ordinal ReleaseActionState.failed_permanent = 4
action_ordinal ReleaseActionState.aborted = 5
action_ordinal ReleaseActionState.suppressed = 6
action_ordinal ReleaseActionState.sent_after_abort = 7

unfoldable pub action_eq : ReleaseActionState → ReleaseActionState → Bool
action_eq s t = action_ordinal s == action_ordinal t

unfoldable pub action_includes : List ReleaseActionState → ReleaseActionState → Bool
unfolding action_eq
action_includes [] s = false
action_includes (t ∷ ts) s = action_eq t s || action_includes ts s

abbrev mode_ordinal : SafetyModeKind → ℕ
mode_ordinal SafetyModeKind.normal = 0
mode_ordinal SafetyModeKind.degraded = 1
mode_ordinal SafetyModeKind.release_restricted = 2
mode_ordinal SafetyModeKind.audit_compromised = 3
mode_ordinal SafetyModeKind.emergency_freeze = 4

unfoldable pub mode_eq : SafetyModeKind → SafetyModeKind → Bool
mode_eq s t = mode_ordinal s == mode_ordinal t

abbrev circuit_ordinal : CircuitState → ℕ
circuit_ordinal CircuitState.closed = 0
circuit_ordinal CircuitState.open_circuit = 1
circuit_ordinal CircuitState.half_open = 2

unfoldable pub circuit_eq : CircuitState → CircuitState → Bool
circuit_eq s t = circuit_ordinal s == circuit_ordinal t
