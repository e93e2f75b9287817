-- ===== src/Examples/Calls.antt =====
-- A history of calls: a check-in is missed, and the user disarms.
use dead_switch.Common.{ℕ, refl, true, List, [], ◌∷◌, none, inl, Any}
use dead_switch.Schema.{ScenarioState}
use dead_switch.Effect.{pure}
use dead_switch.Effect.Steps.{Steps-pure}
use dead_switch.State.Lifecycle.{lifecycle, Evolves, Stands}
use dead_switch.Escalation.Policy.{Notifier}
use dead_switch.Escalation.Lifecycle.{IsQuiet}
use dead_switch.Releases.Executor.{Collaborators}
use dead_switch.Releases.Finished.{Keeping}
use dead_switch.Calls.{Call, checkin_due_job, disarm_call, history}
use dead_switch.Calls.History.{history-Evolves, history-Stands}
use dead_switch.Examples.{scenario_in, world_with}

abbrev notifier : Notifier
notifier = record {
  sms_send = λ t b k. pure tt;
  voice_call = λ t b k. pure tt;
  email_send = λ t s b k. pure tt;
}

quiet : IsQuiet notifier
quiet = record {
  sms_quiet = λ t b k. Steps-pure tt;
  voice_quiet = λ t b k. Steps-pure tt;
  email_quiet = λ t s b k. Steps-pure tt;
}

abbrev collaborators : Collaborators
collaborators = record {
  open_for_action = λ a m. pure ("email", "text");
  issue_for_action = λ r a t s. pure [];
  send =
      λ k a h t b ls. pure (record { provider = "p"; provider_message_id = none; reused = true });
  attempt_text = λ n. "1";
  message_slice = λ e n. "m";
}

keeping : Keeping lifecycle collaborators
keeping = record {
  opening = λ a m. Steps-pure _;
  issuing = λ r a t s. Steps-pure _;
  sending = λ k a h t b ls. Steps-pure _;
}

abbrev calls : List (ℕ × Call)
calls = (200, checkin_due_job "s" "2026") ∷ (300, disarm_call "a" "s" "p") ∷ []

history-Evolves_example :
    Evolves
      (world_with (scenario_in ScenarioState.armed)).db.scenarios
      (history notifier collaborators calls
        (world_with (scenario_in ScenarioState.armed))).db.scenarios
history-Evolves_example =
    history-Evolves notifier quiet collaborators keeping calls
      (world_with (scenario_in ScenarioState.armed))

history-Stands_example :
    Any
      (Stands "s" ScenarioState.released)
      (history notifier collaborators calls
        (world_with (scenario_in ScenarioState.released))).db.scenarios
unfolding dead_switch.State.Table.is_terminal_scenario
history-Stands_example =
    history-Stands notifier quiet collaborators keeping "s" ScenarioState.released refl calls
      (world_with (scenario_in ScenarioState.released)) (inl (refl, refl))
