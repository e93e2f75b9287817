-- ===== src/Examples/Releases.antt =====
-- Runs of releases/release-action-executor.service.ts.
use dead_switch.Common.{ℕ, ◌≡◌, refl, true, some, none, inl, Any, []}
use dead_switch.Schema.{ScenarioState, ReleaseActionState, ReleaseAction}
use dead_switch.World.{World}
use dead_switch.Effect.{pure, done, final, try_catch}
use dead_switch.Effect.Steps.{Steps-pure}
use dead_switch.Safety.Capability.{release_continue_batch}
use dead_switch.Safety.Mode.{assert}
use dead_switch.Releases.Executor.{Collaborators, claim}
use dead_switch.Releases.Run.{run, safety_to_plain}
use dead_switch.Releases.Delivery.{Rests}
use dead_switch.Releases.Finished.{run-Rests}
use dead_switch.Releases.Again.{run-finished}
use dead_switch.Releases.Claim.{claimed, after_claim, claim-exclusive}
use dead_switch.Examples.{scenario_in, action_in_state, ongoing, world_releasing}

abbrev collaborators : Collaborators
collaborators = record {
  open_for_action = λ a m. pure ("email", "text");
  issue_for_action = λ r a t s. pure [];
  send =
      λ k a h t b ls. pure (record { provider = "p"; provider_message_id = none; reused = true });
  attempt_text = λ n. "1";
  message_slice = λ e n. "m";
}

run-Rests_example :
    Any
      (Rests "x" ReleaseActionState.executed)
      (final (run collaborators "x" 1 (world_releasing ReleaseActionState.executed))).db.actions
unfolding dead_switch.Schema.action_includes
run-Rests_example =
    run-Rests collaborators
      (record {
        opening = λ a m. Steps-pure _;
        issuing = λ r a t s. Steps-pure _;
        sending = λ k a h t b ls. Steps-pure _;
      })
      "x" ReleaseActionState.executed refl "x" 1 (world_releasing ReleaseActionState.executed)
      (inl (refl, refl))

run-finished_example :
    let w = world_releasing ReleaseActionState.executed in
    (run collaborators "x" 1 w ≡ try_catch (assert release_continue_batch) safety_to_plain w)
    × ((final (run collaborators "x" 1 w)).db.actions ≡ w.db.actions)
unfolding dead_switch.Common.find_first dead_switch.Releases.Executor.is_action
    dead_switch.Common.str_eq dead_switch.Common.count_where dead_switch.Schema.action_includes
run-finished_example =
    run-finished collaborators "x" 1 (action_in_state ReleaseActionState.executed)
      (world_releasing ReleaseActionState.executed)
      (record { found = refl; unique = refl; at_rest = refl })

abbrev waiting : World
waiting = world_releasing ReleaseActionState.pending

abbrev action : ReleaseAction
action = action_in_state ReleaseActionState.pending

-- The claimed world, with another clock.
abbrev taken : World
taken = record waiting { now = 200; db = after_claim "x" 100 waiting.db }

claim-exclusive_example :
    (claim "x" waiting
      ≡ done
          (some (claimed 100 action, ongoing, scenario_in ScenarioState.release_in_progress))
          (record waiting { db = after_claim "x" 100 waiting.db }))
    × (claim "x" taken ≡ done none taken)
    × (claim "x" taken ≡ done none taken)
unfolding dead_switch.Releases.Executor.find_action dead_switch.Common.find_first
    dead_switch.Releases.Executor.is_action dead_switch.Common.str_eq dead_switch.Common.count_where
    dead_switch.Releases.Executor.find_release dead_switch.Releases.Executor.release_has_id
    dead_switch.State.Service.find_scenario dead_switch.State.Service.has_id
    dead_switch.Releases.Executor.is_canceled dead_switch.Schema.state_eq
    dead_switch.Schema.action_includes dead_switch.Releases.Executor.set_actions
    dead_switch.Common.update_many dead_switch.Releases.Executor.action_in
    dead_switch.Releases.Executor.assign_action
claim-exclusive_example =
    claim-exclusive "x" action (claimed 100 action) ongoing ongoing
      (scenario_in ScenarioState.release_in_progress)
      (scenario_in ScenarioState.release_in_progress) waiting taken 200
      (record { found = refl; unique = refl; release = refl; scenario = refl; live = refl }) refl
      (record { found = refl; unique = refl; release = refl; scenario = refl; live = refl }) refl
