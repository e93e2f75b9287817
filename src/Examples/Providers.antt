-- ===== src/Examples/Providers.antt =====
-- Runs of providers/provider-adapter.ts and error-classifier.ts.
use dead_switch.Common.{
  ℕ, ◌≤◌, ◌<◌, ◌≢◌, ◌≡◌, refl, Bool, true, false, not, ◌&&◌, ◌||◌, some, none, ◌∷◌, [],
}
use mathlib.Core.Logic.{◌↔◌}
use dead_switch.Schema.{OutboundDispatch, SafetyModeKind, Error, client_error}
use dead_switch.World.{World}
use dead_switch.Effect.{pure, throw}
use dead_switch.Providers.Classify.{Described, other_code, is_provider_error, permanent, classify}
use dead_switch.Providers.Permanent.{classify-permanent}
use dead_switch.Providers.Adapter.{DispatchSpec, email, Backends, send}
use dead_switch.Providers.Once.{Answers, send-once}
use dead_switch.Examples.{world_in_mode}

abbrev too_many : Described
too_many = record { message = "m"; is_interrupted = false; status = some 429; code = other_code }

abbrev rate : ℕ
rate = 429

-- A rate limit is not permanent.
classify-permanent_example :
    (permanent (classify (λ n. "429") (λ e. too_many) (Error.plain "m")) ≡ true)
    ↔ ((400 ≤ rate) × (rate < 500) × (rate ≢ 429))
unfolding is_provider_error
classify-permanent_example =
    classify-permanent (λ n. "429") (λ e. too_many) (Error.plain "m") rate refl refl refl refl

abbrev spec : DispatchSpec
spec = record {
  idempotency_key = "k";
  release_action_id = none;
  channel = email;
  to = "t";
  body = "b";
}

abbrev reserved : OutboundDispatch
reserved = record {
  idempotency_key = "k";
  release_action_id = none;
  provider = "sendgrid";
  provider_message_id = none;
  status = "reserved";
  completed_at = none;
  error_message = none;
}

abbrev working : Backends
working = record {
  call_provider = λ s. pure ("sendgrid", "id");
  describe = λ e. too_many;
  message = λ e. "m";
  number_text = λ n. "1";
  slice = λ n s. s;
}

abbrev refusing : Backends
refusing = record working { call_provider = λ s. throw (client_error "no") }

abbrev crashed : World
crashed = record (world_in_mode SafetyModeKind.normal) {
  db = record (world_in_mode SafetyModeKind.normal).db { dispatches = reserved ∷ [] };
}

send-once_example :
    (send working spec crashed ≡ send refusing spec crashed)
    × Answers reserved crashed (send working spec crashed)
unfolding dead_switch.Providers.Adapter.find_dispatch dead_switch.Common.find_first
    dead_switch.Providers.Adapter.has_key dead_switch.Common.str_eq
send-once_example = send-once working refusing spec reserved crashed refl
