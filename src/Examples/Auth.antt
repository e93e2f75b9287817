-- ===== src/Examples/Auth.antt =====
-- Sessions of AuthService, run.
use dead_switch.Common.{String, none, some, [], ◌∷◌, ℕ, refl, ◌≡◌}
use dead_switch.Schema.{Session, unauthorized}
use dead_switch.World.{World}
use dead_switch.Effect.{done, fail, final}
use dead_switch.Auth.Service.{
  AuthContext, find_session, refresh_session, logout, revoke, has_token, in_family, ids_of,
}
use dead_switch.Auth.Rotation.{
  tombstones, tombstone_end, refresh_session-single_use, refresh_session-reused,
}
use dead_switch.Auth.Revoked.{RefusedLater, logout-RefusedLater}
use dead_switch.Examples.{empty_world, empty_db}

abbrev nowhere : AuthContext
nowhere = record { ip = none; user_agent = none; device_id = none }

abbrev session : Session
session = record {
  id = "old";
  user_id = "a";
  family_id = "f";
  refresh_token_hash = "t";
  parent_id = none;
  device_id = none;
  user_agent = none;
  ip_hash = none;
  expires_at = 1000;
  revoked_at = none;
  revoked_reason = none;
}

abbrev world : World
world = record empty_world { db = record empty_db { sessions = session ∷ [] } }

abbrev spent : Session
spent = record session { revoked_at = some 50; revoked_reason = some "rotated" }

abbrev world_spent : World
world_spent = record empty_world { db = record empty_db { sessions = spent ∷ [] } }

refresh_session-single_use_example :
    (v : World) × (v.db ≡ (final (refresh_session "t" nowhere world)).db)
    × (refresh_session "t" nowhere
          (record (final (refresh_session "t" nowhere world)) { now = 5000 })
        ≡ fail (unauthorized "refresh token reuse detected; session family revoked") v)
unfolding refresh_session dead_switch.Effect.◌>>=◌ dead_switch.Effect.ask
    dead_switch.Effect.transaction dead_switch.Auth.Service.refresh_in_transaction
    dead_switch.Effect.gets dead_switch.Effect.or_throw find_session dead_switch.Common.find_first
    dead_switch.Common.str_eq dead_switch.Auth.Service.rotate dead_switch.Effect.clock
    dead_switch.Effect.require dead_switch.Effect.modify dead_switch.Auth.Service.create_session_row
    dead_switch.Effect.fresh dead_switch.Auth.Service.set_sessions dead_switch.Auth.Cache.invalidate
    dead_switch.Auth.Cache.invalidate_family dead_switch.Auth.Cache.set_entry has_token in_family
    dead_switch.Auth.Service.on_reuse revoke dead_switch.Auth.Service.session_of
    dead_switch.Common.find_many dead_switch.Common.update_many dead_switch.Effect.for_each
    dead_switch.Effect.pure dead_switch.Effect.remember dead_switch.Effect.throw
refresh_session-single_use_example =
    (refresh_session-single_use "t" nowhere world refl).1 nowhere 5000

refresh_session-reused_example :
    refresh_session "t" nowhere world_spent
    ≡ fail
        (unauthorized "refresh token reuse detected; session family revoked")
        (record world_spent {
          mem = tombstones ("old" ∷ []) (tombstone_end world_spent) world_spent.mem;
        })
unfolding find_session dead_switch.Common.find_first dead_switch.Common.str_eq
    dead_switch.Auth.Cache.set_entry dead_switch.Common.find_many in_family
refresh_session-reused_example = refresh_session-reused "t" nowhere spent 50 world_spent refl refl

logout-RefusedLater_example : RefusedLater session (final (logout "t" world))
unfolding dead_switch.Auth.Strategy.session_by_id dead_switch.Common.find_first
    dead_switch.Common.str_eq logout dead_switch.Effect.◌>>=◌ dead_switch.Effect.ask
    dead_switch.Auth.Service.revoke_where dead_switch.Effect.gets dead_switch.Effect.clock
    dead_switch.Effect.modify dead_switch.Auth.Cache.invalidate_family dead_switch.Common.find_many
    has_token
logout-RefusedLater_example = logout-RefusedLater "t" session world refl refl refl refl
