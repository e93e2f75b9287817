-- ===== src/Examples/Outbox.antt =====
-- Runs of outbox/outbox.service.ts.
use dead_switch.Common.{◌≡◌, ◌≤◌, refl, none, some}
use dead_switch.Schema.{null, text}
use dead_switch.Effect.{done, final}
use dead_switch.Outbox.Service.{EnqueueSpec, enqueue}
use dead_switch.Outbox.Once.{key_count, enqueue-once}
use dead_switch.Examples.{empty_world}

abbrev job : EnqueueSpec
job = record { queue = "checkins"; job_name = "due"; job_id = "j"; payload = null; delay_ms = none }

abbrev other : EnqueueSpec
other = record job { payload = text "later"; delay_ms = some 5 }

enqueue-once_example :
    let v = record (final (enqueue job empty_world)) { now = 200 } in
    (enqueue job empty_world ≡ done tt (final (enqueue job empty_world)))
    × (1 ≤ key_count "checkins" "j" v.db)
    × (enqueue other v ≡ done tt v)
enqueue-once_example = enqueue-once job other empty_world refl refl 200
