-- ===== src/Examples/Contacts.antt =====
-- A contact asks for pauses of 5000 seconds, run.
use dead_switch.Common.{true, none, some, [], ◌∷◌, ℕ, ◌+◌, refl, ◌≡◌, arith}
use dead_switch.Schema.{ScenarioState, TrustedContact, forbidden}
use dead_switch.World.{World}
use dead_switch.Effect.{done, fail, final}
use dead_switch.Contacts.Service.{PauseGrant, request_pause, grant_bundle_access, revoke_grant}
use dead_switch.Contacts.Budget.{Taken, request_pause-Taken, request_pause-cooldown}
use dead_switch.Contacts.Grants.{revoke_grant-grant_bundle_access}
use dead_switch.Examples.{empty_world, empty_db, scenario_in}

abbrev friend : TrustedContact
friend = record {
  id = "friend";
  user_id = "a";
  email = none;
  can_request_pause = true;
  pause_budget_seconds = 86400;
  pause_used_seconds = 84000;
  max_single_pause_sec = 43200;
  pause_request_count = 2;
  pause_cooldown_until = none;
  verified_at = none;
}

abbrev world : World
world = record empty_world { db = record empty_db { contacts = friend ∷ [] } }

-- Only 2400 seconds of the budget are left.
abbrev pause : PauseGrant
pause = record {
  granted_seconds = 2400;
  remaining_budget = 0;
  cooldown_until = world.now + 1800000;
}

abbrev after : World
after = final (request_pause "friend" "s" 5000 world)

runs : request_pause "friend" "s" 5000 world ≡ done pause after
unfolding request_pause dead_switch.Effect.◌>>=◌ dead_switch.Effect.require dead_switch.Effect.gets
    dead_switch.Effect.or_throw dead_switch.Contacts.Service.find_contact
    dead_switch.Common.find_first dead_switch.Common.str_eq dead_switch.Effect.clock
    dead_switch.Contacts.Service.take_from_budget dead_switch.Effect.modify
    dead_switch.Common.count_where dead_switch.Contacts.Service.unchanged_contact
runs = refl

request_pause-Taken_example : Taken "friend" 5000 world pause after
request_pause-Taken_example = request_pause-Taken "friend" "s" 5000 world runs

request_pause-cooldown_example :
    request_pause "friend" "s" 60 (record after { now = world.now + 60 })
    ≡ fail (forbidden "pause request on cooldown") (record after { now = world.now + 60 })
request_pause-cooldown_example =
    request_pause-cooldown "friend" "s" "s" 5000 60 (world.now + 60) world runs (λ e. cc)
      (omega arith)

abbrev world_owned : World
world_owned = record empty_world {
  db = record empty_db {
    contacts = friend ∷ [];
    scenarios = scenario_in ScenarioState.armed ∷ [];
    bundles = record { id = "b"; scenario_id = "s"; messages = [] } ∷ [];
  };
}

granted :
    grant_bundle_access "a" "friend" "b" "vault" world_owned
    ≡ done tt (final (grant_bundle_access "a" "friend" "b" "vault" world_owned))
unfolding grant_bundle_access dead_switch.Effect.◌>>=◌ dead_switch.Effect.gets
    dead_switch.Effect.or_throw dead_switch.Contacts.Service.owned_contact
    dead_switch.Common.find_first dead_switch.Common.str_eq
    dead_switch.Attachments.Service.bundle_by_id dead_switch.Effect.require
    dead_switch.Common.count_where dead_switch.Effect.modify
granted = refl

revoke_grant-grant_bundle_access_example :
    revoke_grant "a" "friend" "b" "vault"
      (final (grant_bundle_access "a" "friend" "b" "vault" world_owned))
    ≡ done tt world_owned
revoke_grant-grant_bundle_access_example =
    revoke_grant-grant_bundle_access "a" "friend" "b" "vault" world_owned granted
