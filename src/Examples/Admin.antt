-- ===== src/Examples/Admin.antt =====
-- A request to drain the releases, which a second operator approves.
use dead_switch.Common.{String, none, some, [], ◌∷◌, false, refl, ◌≡◌}
use dead_switch.Schema.{
  AdminParams, AdminRequest, AdminRequestKind, AdminRequestStatus, SafetyModeKind, conflict, null,
}
use dead_switch.World.{Env, World}
use dead_switch.Effect.{done, fail, final}
use dead_switch.Admin.Service.{approve_and_execute}
use dead_switch.Admin.Control.{IsApproved, approve_and_execute-IsApproved, approve_and_execute-once}
use dead_switch.Examples.{env, empty_world, empty_db, mode_row}

-- A digest that is the same for every text.
abbrev flat_env : Env
flat_env = record env { sha256 = λ s. "h" }

abbrev params : AdminParams
params = record {
  to_mode = none;
  from_mode = none;
  force = false;
  reason = none;
  provider = "";
  queue = "";
  concurrency = "";
  release_id = none;
  rendered = null;
}

abbrev drain : AdminRequest
drain = record {
  id = "q";
  kind = AdminRequestKind.drain_releases;
  params = params;
  requested_by = "alice";
  approved_by = none;
  approved_at = none;
  rejected_by = none;
  rejected_at = none;
  executed_at = none;
  expires_at = 1000;
  status = AdminRequestStatus.pending;
  reason = "incident";
  state_hash = "h";
  policy_version = "1";
  approval_nonce = "n";
}

abbrev world : World
world = record empty_world {
  env = flat_env;
  db = record empty_db {
    safety_mode = some (mode_row SafetyModeKind.normal);
    requests = drain ∷ [];
  };
}

approve_and_execute-IsApproved_example :
    IsApproved "q" "bob" world (final (approve_and_execute "q" "bob" world))
unfolding approve_and_execute dead_switch.Effect.◌>>=◌ dead_switch.Effect.gets
    dead_switch.Effect.or_throw dead_switch.Admin.Service.find_request dead_switch.Common.find_first
    dead_switch.Common.str_eq dead_switch.Admin.Service.approve_found dead_switch.Effect.require
    dead_switch.Schema.status_eq dead_switch.Effect.clock dead_switch.Admin.Service.approve_live
    dead_switch.Admin.Kinds.requires_dual_control dead_switch.Admin.Snapshot.snapshot
    dead_switch.Safety.Mode.current dead_switch.Effect.recall dead_switch.Effect.with_option
    dead_switch.Safety.Mode.fetch dead_switch.Effect.remember dead_switch.Effect.ask
    dead_switch.Effect.when dead_switch.Admin.Service.transaction_of
    dead_switch.Admin.Service.execute_approved dead_switch.Effect.modify
    dead_switch.Common.count_where dead_switch.Admin.Service.execute_in_tx
    dead_switch.Audit.Service.record_event dead_switch.Effect.transaction
    dead_switch.Audit.Service.hash_of dead_switch.Audit.CanonicalJson.canonicalize
    dead_switch.Audit.Service.hash_input
approve_and_execute-IsApproved_example = approve_and_execute-IsApproved "q" "bob" world refl

approve_and_execute-once_example :
    approve_and_execute "q" "carol"
      (record (final (approve_and_execute "q" "bob" world)) { now = 7000 })
    ≡ fail
        (conflict "request is executed")
        (record (final (approve_and_execute "q" "bob" world)) { now = 7000 })
unfolding approve_and_execute dead_switch.Effect.◌>>=◌ dead_switch.Effect.gets
    dead_switch.Effect.or_throw dead_switch.Admin.Service.find_request dead_switch.Common.find_first
    dead_switch.Common.str_eq dead_switch.Admin.Service.approve_found dead_switch.Effect.require
    dead_switch.Schema.status_eq dead_switch.Effect.clock dead_switch.Admin.Service.approve_live
    dead_switch.Admin.Kinds.requires_dual_control dead_switch.Admin.Snapshot.snapshot
    dead_switch.Safety.Mode.current dead_switch.Effect.recall dead_switch.Effect.with_option
    dead_switch.Safety.Mode.fetch dead_switch.Effect.remember dead_switch.Effect.ask
    dead_switch.Effect.when dead_switch.Admin.Service.transaction_of
    dead_switch.Admin.Service.execute_approved dead_switch.Effect.modify
    dead_switch.Common.count_where dead_switch.Admin.Service.execute_in_tx
    dead_switch.Audit.Service.record_event dead_switch.Effect.transaction
    dead_switch.Audit.Service.hash_of dead_switch.Audit.CanonicalJson.canonicalize
    dead_switch.Audit.Service.hash_input
approve_and_execute-once_example = approve_and_execute-once "q" "bob" world refl "carol" 7000
