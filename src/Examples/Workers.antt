-- ===== src/Examples/Workers.antt =====
-- A pass of the relay over two rows, one of them for a release.
use dead_switch.Common.{
  ◌≡◌, refl, true, false, some, none, is_some, find_first, All, [], ◌∷◌, String, ℕ,
}
use dead_switch.Schema.{OutboxEvent, SafetyModeKind, null}
use dead_switch.World.{World}
use dead_switch.Effect.{final}
use dead_switch.Workers.Relay.{Refusals, relay_pass}
use dead_switch.Workers.Treats.{job_is, is_kept, Named}
use dead_switch.Workers.Kept.{relay_pass-kept}
use dead_switch.Workers.Progress.{relay_pass-progress}
use dead_switch.Examples.{empty_world, empty_db, mode_row}

abbrev row_of : String → String → ℕ → OutboxEvent
row_of id queue at = record {
  id = id;
  queue_name = queue;
  job_name = "due";
  job_id = id;
  payload = null;
  available_at = at;
  attempts = 0;
  locked_until = none;
  last_error = none;
}

abbrev world : World
world = record empty_world {
  db = record empty_db {
    safety_mode = some (mode_row SafetyModeKind.emergency_freeze);
    outbox = row_of "y" "release" 60 ∷ row_of "x" "checkins" 50 ∷ [];
  };
}

abbrev accepts : Refusals
accepts j = none

names_of_world : All (Named world.db.outbox) world.db.outbox
unfolding dead_switch.Workers.Relay.has_event_id dead_switch.Common.str_eq
names_of_world = (
  ((λ h. (refl, refl)), ((λ (h : false ≡ true). cc), tt)),
  (((λ (h : false ≡ true). cc), ((λ h. (refl, refl)), tt)), tt),
)

relay_pass-kept_example :
    is_kept "release" "y"
      (final (relay_pass accepts world)).db.outbox
      (final (relay_pass accepts world)).mem.jobs
    ≡ true
unfolding is_kept find_first dead_switch.Outbox.Service.same_job dead_switch.Common.str_eq
relay_pass-kept_example = relay_pass-kept accepts "release" "y" world names_of_world refl

relay_pass-progress_example :
    is_some (find_first (job_is "checkins" "x") (final (relay_pass accepts world)).mem.jobs) ≡ true
unfolding dead_switch.Workers.Relay.sort_by_time dead_switch.Common.find_many
    dead_switch.Workers.Relay.is_ready dead_switch.Common.str_eq
relay_pass-progress_example =
    relay_pass-progress accepts (row_of "x" "checkins" 50) (row_of "y" "release" 60 ∷ []) world refl
      refl refl
