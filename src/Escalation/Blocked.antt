-- ===== src/Escalation/Blocked.antt =====
-- EscalationService.handleGraceExpiry in a mode that holds releases back.
use dead_switch.Common.{◌≡◌, refl, String, false, Option, none, some}
use dead_switch.Schema.{Scenario, SafetyMode, Error, safety_blocked}
use dead_switch.World.{Db, World}
use dead_switch.Effect.{done, fail, throw, ◌>>=◌, gets, try_catch, with_option, continue}
use dead_switch.Audit.Service.{Entry, append_audit}
use dead_switch.Audit.Intact.{recorded, hash_for, new_row, record_event_lem}
use dead_switch.Safety.Capability.{release_begin}
use dead_switch.Safety.Matrix.{is_allowed, evaluate}
use dead_switch.Safety.Mode.{current, enforce, assert}
use dead_switch.State.Service.{find_scenario}
use dead_switch.Escalation.Release.{blocked, handle_grace_expiry}

-- Two databases that differ in the log only.
pub record IsHeld (d e : Db) : Type 0 where
  pub scenarios : e.scenarios ≡ d.scenarios
  pub releases : e.releases ≡ d.releases
  pub actions : e.actions ≡ d.actions
  pub outbox : e.outbox ≡ d.outbox

assert-blocked :
    (row : SafetyMode) (w v : World)
    → current w ≡ done row v
    → is_allowed row.mode release_begin ≡ false
    → assert release_begin w ≡ fail (safety_blocked release_begin row.mode) v
unfolding assert ◌>>=◌ evaluate enforce throw
assert-blocked row w v c h = rw (c, h)

recorded-throw :
    (x : Entry) (o : Option String) (e : Error) (w : World)
    → (f : Error) × (v : World) × (continue {B = Unit {0}} (recorded x w o) (λ _. throw e)
        ≡ fail f v)
      × IsHeld w.db v.db
unfolding throw append_audit
recorded-throw x none e w =
    (_, w, refl, record { scenarios = refl; releases = refl; actions = refl; outbox = refl })
recorded-throw x (some h) e w = (
  e,
  record w { db = append_audit (new_row x w h) w.db },
  refl,
  record { scenarios = refl; releases = refl; actions = refl; outbox = refl },
)

blocked-IsHeld :
    (id user : String) (row : SafetyMode) (w : World)
    → (f : Error) × (v : World) × (blocked id user (safety_blocked release_begin row.mode) w
        ≡ fail f v)
      × IsHeld w.db v.db
unfolding blocked ◌>>=◌
blocked-IsHeld id user row w = rw (record_event_lem _ w) (recorded-throw _ (hash_for _ w) _ w)

-- When the grace period of a scenario expires in a mode that does not let releases begin, the job
-- throws, so that the queue tries it again, and neither a scenario nor a release, an action or an
-- outbox row is touched.
pub handle_grace_expiry-IsHeld :
    (id : String) (s : Scenario) (row : SafetyMode) (w v : World)
    → find_scenario id w.db ≡ some s
    → current w ≡ done row v
    → is_allowed row.mode release_begin ≡ false
    → (f : Error) × (w' : World) × (handle_grace_expiry id w ≡ fail f w') × IsHeld v.db w'.db
unfolding handle_grace_expiry ◌>>=◌ gets with_option try_catch
handle_grace_expiry-IsHeld id s row w v found c h =
    let (f, w', e, held) = blocked-IsHeld id s.user_id row v in
    (f, w', rw (found, assert-blocked row w v c h, e), held)
