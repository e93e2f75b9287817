-- ===== src/Examples/Safety.antt =====
-- Runs of safety/safety-mode.service.ts, circuit-breaker.service.ts and capability-matrix.ts.
use dead_switch.Common.{ℕ, ◌≡◌, ◌≤◌, refl, true, false, none, some, inr, arith, [], ◌∷◌}
use dead_switch.Schema.{SafetyModeKind, SafetyMode, forbidden, circuit_open}
use dead_switch.World.{World}
use dead_switch.Effect.{done, fail, final}
use dead_switch.Safety.Capability.{release_begin, vault_decrypt, audit_mutation, scenario_arm}
use dead_switch.Safety.Matrix.{is_allowed}
use dead_switch.Safety.Severity.{
  is_override, is_allowed-severity, is_allowed-pipeline, is_allowed-freeze,
}
use dead_switch.Safety.Mode.{enter, entered, cache}
use dead_switch.Safety.Exit.{IsEntered, enter-refused, enter-done}
use dead_switch.Safety.Breaker.{config_for, next_cooldown, new_breaker, open_breaker, assert_closed}
use dead_switch.Safety.Isolation.{open_breaker-refuses, next_cooldown-bounds}
use dead_switch.Examples.{world_in_mode, mode_row}

abbrev frozen : World
frozen = world_in_mode SafetyModeKind.emergency_freeze

enter-refused_example :
    enter SafetyModeKind.normal "calm" "system" true frozen
    ≡ fail
        (forbidden "cannot auto-exit: dual-control required")
        (record frozen { mem = cache (mode_row SafetyModeKind.emergency_freeze) 100 frozen.mem })
unfolding dead_switch.Safety.Mode.forbids_auto dead_switch.Schema.mode_eq
enter-refused_example =
    enter-refused (mode_row SafetyModeKind.emergency_freeze) "calm" "system" frozen refl (inr refl)

abbrev normal_world : World
normal_world = world_in_mode SafetyModeKind.normal

abbrev after_enter : World
after_enter = final (enter SafetyModeKind.degraded "spike" "system" true normal_world)

enter-done_example :
    (m : SafetyMode) × (after_enter.db.safety_mode ≡ some m)
    × (after_enter.mem.cached ≡ some m)
    × IsEntered SafetyModeKind.degraded "spike" "system" true 100 m
    × (m.isolated_providers ≡ (mode_row SafetyModeKind.normal).isolated_providers)
unfolding dead_switch.Schema.mode_eq dead_switch.Safety.Mode.forbids_auto enter
    dead_switch.Effect.finally dead_switch.Effect.transaction
    dead_switch.Safety.Mode.enter_in_transaction dead_switch.Effect.◌>>=◌ dead_switch.Effect.gets
    dead_switch.Safety.Mode.mode_or_normal dead_switch.Effect.require dead_switch.Effect.with_option
    dead_switch.Safety.Mode.change_mode dead_switch.Effect.clock dead_switch.Effect.ask
    dead_switch.Effect.modify dead_switch.Audit.Service.record_event dead_switch.Effect.or_throw
    dead_switch.Audit.CanonicalJson.canonicalize dead_switch.Audit.CanonicalJson.insert_field
    dead_switch.Audit.CanonicalJson.normalize dead_switch.Audit.CanonicalJson.sort_fields
    dead_switch.Audit.CanonicalJson.stringify dead_switch.Audit.Service.append_audit
    dead_switch.Audit.Service.chain_scope_for dead_switch.Audit.Service.event_row
    dead_switch.Audit.Service.hash_after dead_switch.Audit.Service.hash_input
    dead_switch.Audit.Service.hash_of dead_switch.Audit.Service.in_scope
    dead_switch.Audit.Service.last_event dead_switch.Audit.Service.seq_after
    dead_switch.Common.find_many dead_switch.Common.str_eq dead_switch.Common.template
    dead_switch.Effect.pure dead_switch.Effect.recall dead_switch.Effect.remember
    dead_switch.Effect.throw dead_switch.Safety.Mode.append_transition cache
    dead_switch.Safety.Mode.clear_cache dead_switch.Safety.Mode.current entered
    dead_switch.Safety.Mode.fetch dead_switch.Safety.Mode.refresh dead_switch.Safety.Mode.seed
    dead_switch.Safety.Mode.set_mode
enter-done_example =
    enter-done (mode_row SafetyModeKind.normal) SafetyModeKind.degraded "spike" "system" true
      normal_world {u = tt} {w' = after_enter} refl refl refl refl

abbrev with_breaker : World
with_breaker = record normal_world {
  db = record normal_world.db { breakers = new_breaker "sendgrid" ∷ [] };
}

abbrev after_open : World
after_open = final (open_breaker "sendgrid" "down" with_breaker)

open_breaker-refuses_example :
    (v : World) × (assert_closed "sendgrid" (record after_open { now = 999999 })
      ≡ fail (circuit_open "sendgrid" none) v)
unfolding open_breaker dead_switch.Effect.◌>>=◌ dead_switch.Effect.gets dead_switch.Effect.clock
    dead_switch.Effect.with_option dead_switch.Safety.Breaker.find_breaker
    dead_switch.Common.find_first dead_switch.Safety.Breaker.is_of dead_switch.Common.str_eq
    dead_switch.Effect.modify dead_switch.Safety.Mode.isolate_provider
    dead_switch.Effect.transaction dead_switch.Safety.Breaker.update_breaker
    dead_switch.Safety.Mode.includes_text dead_switch.Audit.Service.record_event
    dead_switch.Effect.ask dead_switch.Effect.or_throw dead_switch.Audit.CanonicalJson.canonicalize
    dead_switch.Audit.CanonicalJson.insert_field dead_switch.Audit.CanonicalJson.normalize
    dead_switch.Audit.CanonicalJson.sort_fields dead_switch.Audit.CanonicalJson.stringify
    dead_switch.Audit.Service.append_audit dead_switch.Audit.Service.chain_scope_for
    dead_switch.Audit.Service.event_row dead_switch.Audit.Service.hash_after
    dead_switch.Audit.Service.hash_input dead_switch.Audit.Service.hash_of
    dead_switch.Audit.Service.in_scope dead_switch.Audit.Service.last_event
    dead_switch.Audit.Service.seq_after dead_switch.Common.find_many dead_switch.Common.update_many
    dead_switch.Common.template dead_switch.Effect.pure dead_switch.Effect.recall
    dead_switch.Effect.remember dead_switch.Effect.throw config_for
    dead_switch.Safety.Breaker.configs dead_switch.Safety.Breaker.lookup_config next_cooldown cache
    dead_switch.Safety.Mode.clear_cache dead_switch.Safety.Mode.current
    dead_switch.Safety.Mode.fetch dead_switch.Safety.Mode.refresh dead_switch.Safety.Mode.seed
    dead_switch.Safety.Mode.set_mode
open_breaker-refuses_example =
    open_breaker-refuses "sendgrid" "down" (mode_row SafetyModeKind.normal) with_breaker {u = tt}
      {w' = after_open} refl refl 999999

next_cooldown-bounds_example :
    let cfg = config_for "twilio-voice" in
    (cfg.initial_cooldown_ms ≤ next_cooldown cfg none)
    × (next_cooldown cfg none ≤ cfg.max_cooldown_ms)
next_cooldown-bounds_example = next_cooldown-bounds "twilio-voice" none

is_allowed-severity_example : is_allowed SafetyModeKind.normal vault_decrypt ≡ true
unfolding is_allowed
is_allowed-severity_example =
    is_allowed-severity vault_decrypt SafetyModeKind.normal SafetyModeKind.release_restricted
      (omega arith) refl

is_allowed-pipeline_example :
    (is_allowed SafetyModeKind.degraded release_begin ≡ true
      → is_allowed SafetyModeKind.degraded vault_decrypt ≡ true)
    × (is_allowed SafetyModeKind.degraded vault_decrypt
        ≡ is_allowed SafetyModeKind.degraded audit_mutation)
is_allowed-pipeline_example =
    is_allowed-pipeline SafetyModeKind.degraded vault_decrypt audit_mutation refl refl

is_allowed-freeze_example :
    (is_allowed SafetyModeKind.emergency_freeze scenario_arm ≡ is_override scenario_arm)
    × ((m : SafetyModeKind) → is_override scenario_arm ≡ true → is_allowed m scenario_arm ≡ true)
is_allowed-freeze_example = is_allowed-freeze scenario_arm
