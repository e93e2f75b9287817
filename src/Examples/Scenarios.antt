-- ===== src/Examples/Scenarios.antt =====
-- A run of scenarios/scenarios.service.ts: the user aborts in the grace period.
use dead_switch.Common.{Any, ◌≡◌, refl, true, none, ◌∷◌, []}
use dead_switch.Schema.{ScenarioState, AbortCode}
use dead_switch.World.{World}
use dead_switch.Effect.{final}
use dead_switch.Scenarios.Active.{usable_code, abort}
use dead_switch.Scenarios.Burned.{IsBurned, abort-IsBurned}
use dead_switch.Examples.{env, scenario_in, world_with}

abbrev waiting : World
waiting = record (world_with (scenario_in ScenarioState.grace_period)) {
  db = record (world_with (scenario_in ScenarioState.grace_period)).db {
    abort_codes =
        record {
          id = "c";
          user_id = "a";
          scenario_id = "s";
          code_hash = "h";
          used_at = none;
          expires_at = 5000;
        }
        ∷ [];
  };
}

abbrev after_abort : World
after_abort = final (abort "a" "s" "CODE" waiting)

abort-IsBurned_example :
    (c : AbortCode) × Any (λ k. k ≡ c) waiting.db.abort_codes
    × (usable_code "a" "s" 100 c ≡ true)
    × (env.argon2_verify c.code_hash "CODE" ≡ true)
    × IsBurned "a" "s" c.id after_abort.db
unfolding abort dead_switch.Effect.◌>>=◌ dead_switch.Scenarios.Service.get dead_switch.Effect.gets
    dead_switch.Effect.or_throw dead_switch.Common.find_first dead_switch.Scenarios.Service.owned_by
    dead_switch.Common.str_eq dead_switch.Effect.clock dead_switch.Effect.ask
    dead_switch.Common.find_many usable_code dead_switch.Effect.transaction
    dead_switch.Scenarios.Active.abort_in_transaction dead_switch.Effect.modify
    dead_switch.State.Service.transition dead_switch.State.Table.lookup_transition
    dead_switch.State.Table.scenario_transitions dead_switch.Audit.CanonicalJson.canonicalize
    dead_switch.Audit.CanonicalJson.insert_field dead_switch.Audit.CanonicalJson.normalize
    dead_switch.Audit.CanonicalJson.sort_fields dead_switch.Audit.CanonicalJson.stringify
    dead_switch.Audit.Service.append_audit dead_switch.Audit.Service.chain_scope_for
    dead_switch.Audit.Service.event_row dead_switch.Audit.Service.hash_after
    dead_switch.Audit.Service.hash_input dead_switch.Audit.Service.hash_of
    dead_switch.Audit.Service.in_scope dead_switch.Audit.Service.last_event
    dead_switch.Audit.Service.record_event dead_switch.Audit.Service.seq_after
    dead_switch.Common.count_where dead_switch.Common.update_many dead_switch.Common.template
    dead_switch.Effect.pure dead_switch.Effect.require dead_switch.Effect.throw
    dead_switch.Scenarios.Active.burn_code dead_switch.Schema.includes dead_switch.Schema.state_eq
    dead_switch.State.Service.assign dead_switch.State.Service.check_after
    dead_switch.State.Service.find_scenario dead_switch.State.Service.has_id
    dead_switch.State.Service.matches dead_switch.State.Service.set_scenarios
    dead_switch.State.Service.update_scenarios dead_switch.State.Table.any_terminal
    dead_switch.State.Table.is_terminal_scenario dead_switch.State.Table.terminal_scenario_states
abort-IsBurned_example = abort-IsBurned "a" "s" "CODE" waiting {u = tt} {w' = after_abort} refl
