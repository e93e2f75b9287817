-- ===== src/Examples/Gate.antt =====
-- The exit gate after one event in the log.
use dead_switch.Common.{◌≡◌, refl, All, none, some, true, ℕ, count_where, arith}
use dead_switch.Schema.{AuditActor, AuditEvent, SafetyModeKind, null}
use dead_switch.World.{World}
use dead_switch.Effect.{final}
use dead_switch.Audit.Service.{Entry, record_event}
use dead_switch.Safety.Gate.{is_sending, is_open_or_half, evaluate_exit}
use dead_switch.Safety.Mode.{entered}
use dead_switch.Safety.Containment.{rule_sent_after_abort}
use dead_switch.Safety.Lifted.{reason_at, rule_sent_after_abort-lifts}
use dead_switch.Safety.Ready.{Verifies, evaluate_exit-freeze}
use dead_switch.Examples.{empty_world, mode_row}

abbrev entry : Entry
entry = record {
  user_id = "a";
  scenario_id = none;
  actor = AuditActor.system;
  event_type = "system.started";
  payload = null;
}

abbrev world : World
world = final (record_event entry empty_world)

evaluate_exit-freeze_example :
    (count_where is_sending world.db.actions ≡ 0)
    × (count_where is_open_or_half world.db.breakers ≡ 0)
    × All (λ (x : AuditEvent). Verifies world x.chain_scope) world.db.audit
unfolding evaluate_exit dead_switch.Effect.◌>>=◌ dead_switch.Schema.mode_eq
    dead_switch.Safety.Gate.collect_checks dead_switch.Safety.Gate.normal_checks
    dead_switch.Safety.Gate.check_ambiguous_sends dead_switch.Effect.clock dead_switch.Effect.gets
    dead_switch.Effect.ask dead_switch.Safety.Gate.check_open_breakers
    dead_switch.Safety.Gate.check_outbox_lag dead_switch.Safety.Gate.check_sent_after_abort
    dead_switch.Effect.pure dead_switch.Safety.Gate.further_checks
    dead_switch.Safety.Gate.freeze_checks dead_switch.Safety.Gate.audit_checks
    dead_switch.Safety.Gate.check_audit_integrity dead_switch.Audit.CanonicalJson.canonicalize
    dead_switch.Audit.CanonicalJson.insert_field dead_switch.Audit.CanonicalJson.normalize
    dead_switch.Audit.CanonicalJson.sort_fields dead_switch.Audit.CanonicalJson.stringify
    dead_switch.Audit.Service.entry_of dead_switch.Audit.Service.hash_input
    dead_switch.Audit.Service.hash_of dead_switch.Audit.Service.in_scope
    dead_switch.Audit.Service.insert_by_seq dead_switch.Audit.Service.row_verifies
    dead_switch.Audit.Service.sort_by_seq dead_switch.Audit.Service.verify_chain
    dead_switch.Audit.Service.verify_rows count_where dead_switch.Common.find_many
    dead_switch.Common.str_eq dead_switch.Common.template dead_switch.Effect.throw
    dead_switch.Safety.Gate.age_text dead_switch.Safety.Gate.ambiguous_since
    dead_switch.Safety.Gate.blockers_of dead_switch.Safety.Gate.broken_scopes
    dead_switch.Safety.Gate.check_audit_export_lag
    dead_switch.Safety.Gate.check_no_in_flight_dispatches dead_switch.Safety.Gate.event_since
    dead_switch.Safety.Gate.export_lag dead_switch.Safety.Gate.field_is_true
    dead_switch.Safety.Gate.insert_scope dead_switch.Safety.Gate.oldest_available
    dead_switch.Safety.Gate.report_of dead_switch.Safety.Gate.scopes_of dead_switch.Schema.action_eq
    dead_switch.Schema.circuit_eq record_event dead_switch.Effect.transaction
    dead_switch.Effect.or_throw dead_switch.Effect.modify dead_switch.Audit.Service.append_audit
    dead_switch.Audit.Service.event_row dead_switch.Audit.Service.chain_scope_for
    dead_switch.Audit.Service.hash_after dead_switch.Audit.Service.last_event
evaluate_exit-freeze_example = evaluate_exit-freeze world refl refl

abbrev late : Entry
late = record entry { event_type = "release.action.sent_after_abort" }

-- The log holds a message sent after an abortion, and the system is frozen.
abbrev frozen : World
frozen = record (final (record_event late empty_world)) {
  db = record (final (record_event late empty_world)).db {
    safety_mode = some (mode_row SafetyModeKind.emergency_freeze);
  };
}

rule_sent_after_abort-lifts_example :
    (final (rule_sent_after_abort frozen)).db.safety_mode
    ≡ some (
        entered SafetyModeKind.release_restricted
          (reason_at frozen)
          "system"
          true
          100
          (mode_row SafetyModeKind.emergency_freeze))
unfolding dead_switch.Schema.mode_eq count_where record_event dead_switch.Effect.transaction
    dead_switch.Effect.◌>>=◌ dead_switch.Effect.gets dead_switch.Effect.ask
    dead_switch.Effect.or_throw dead_switch.Audit.Service.hash_of
    dead_switch.Audit.CanonicalJson.canonicalize dead_switch.Audit.Service.hash_input
    dead_switch.Effect.clock dead_switch.Effect.modify dead_switch.Audit.Service.append_audit
    dead_switch.Safety.Gate.event_since dead_switch.Common.str_eq
    dead_switch.Audit.Service.event_row dead_switch.Audit.CanonicalJson.insert_field
    dead_switch.Audit.CanonicalJson.normalize dead_switch.Audit.CanonicalJson.sort_fields
    dead_switch.Audit.CanonicalJson.stringify dead_switch.Audit.Service.chain_scope_for
    dead_switch.Audit.Service.hash_after dead_switch.Audit.Service.in_scope
    dead_switch.Audit.Service.last_event dead_switch.Audit.Service.seq_after
    dead_switch.Common.find_many dead_switch.Common.template dead_switch.Effect.pure
    dead_switch.Effect.throw rule_sent_after_abort dead_switch.Safety.Mode.enter
    dead_switch.Effect.finally dead_switch.Safety.Mode.enter_in_transaction
    dead_switch.Safety.Mode.mode_or_normal dead_switch.Effect.require
    dead_switch.Safety.Mode.forbids_auto dead_switch.Effect.with_option
    dead_switch.Safety.Mode.change_mode dead_switch.Safety.Mode.refresh dead_switch.Effect.remember
    dead_switch.Safety.Mode.current dead_switch.Effect.recall dead_switch.Safety.Mode.clear_cache
    dead_switch.Safety.Mode.fetch dead_switch.Safety.Mode.append_transition
    dead_switch.Safety.Mode.set_mode dead_switch.Common.find_first dead_switch.Common.update_many
    dead_switch.Effect.for_each dead_switch.Releases.Executor.find_action
    dead_switch.Releases.Executor.is_action dead_switch.Releases.Executor.set_actions
    dead_switch.Safety.Containment.abort_siblings dead_switch.Safety.Containment.releases_of
    dead_switch.Safety.Containment.text_field dead_switch.Safety.Mode.cache entered
    dead_switch.Safety.Mode.seed dead_switch.Schema.action_eq dead_switch.Schema.action_includes
rule_sent_after_abort-lifts_example =
    rule_sent_after_abort-lifts (mode_row SafetyModeKind.emergency_freeze) frozen refl refl
      (omega arith) refl
