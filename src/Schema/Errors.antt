-- ===== src/Schema/Errors.antt =====
-- The errors that the modelled code throws: Nest's HTTP exceptions, the error classes of
-- state/, safety/ and providers/, a unique violation of the database (P2002) and a plain `Error`.
use dead_switch.Common.{ℕ, String, List, Option}
use dead_switch.Schema.Enums.{ScenarioState, SafetyModeKind}
use dead_switch.Safety.Capability.{Capability}

pub data Error : Type 0 where
  not_found : Error
  bad_request forbidden conflict unauthorized gone : String → Error
  transition_denied : String → List ScenarioState → Option ScenarioState → Error
  invariant_violation : String → Error
  safety_blocked : Capability → SafetyModeKind → Error
  circuit_open : String → Option ℕ → Error
  config_error client_error transient_infra ambiguous_outcome : String → Error
  unique_violation : Error
  plain : String → Error
