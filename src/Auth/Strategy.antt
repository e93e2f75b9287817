-- ===== src/Auth/Strategy.antt =====
-- auth/jwt.strategy.ts: whether the bearer of an access token is let in.
use dead_switch.Common.{String, Bool, not, ◌&&◌, Option, is_some, str_eq, find_first, if◌then◌else◌}
use dead_switch.Schema.{Session, unauthorized}
use dead_switch.World.{CachedSession, Db}
use dead_switch.Effect.{M, pure, throw, ◌>>=◌, ◌>>◌, gets, require, with_option}
use dead_switch.Auth.Cache.{peek, put_valid, invalidate}

pub record JwtPayload : Type 0 where
  pub sub : String
  pub sid : String
  pub fid : String

unfoldable pub session_by_id : String → Db → Option Session
session_by_id id db = find_first (λ s. str_eq s.id id) db.sessions

unfoldable pub check_cached : JwtPayload → CachedSession → M JwtPayload
check_cached payload e = do
  require (not e.revoked) (unauthorized "session revoked")
  require (str_eq e.user_id payload.sub && str_eq e.family_id payload.fid)
      (unauthorized "session/token mismatch")
  pure payload

unfoldable pub is_valid_session : JwtPayload → Session → Bool
is_valid_session payload s =
    not (is_some s.revoked_at) && (str_eq s.user_id payload.sub && str_eq s.family_id payload.fid)

unfoldable pub reject_session : JwtPayload → M JwtPayload
reject_session payload = invalidate payload.sid >> throw (unauthorized "session revoked")

unfoldable pub check_row : JwtPayload → Session → M JwtPayload
check_row payload s =
    if is_valid_session payload s
    then (put_valid payload.sid s.user_id s.family_id >> pure payload)
    else reject_session payload

unfoldable pub check_stored : JwtPayload → M JwtPayload
check_stored payload = do
  session ← gets (session_by_id payload.sid)
  with_option session (reject_session payload) (check_row payload)

unfoldable pub validate : JwtPayload → M JwtPayload
validate payload = do
  cached ← peek payload.sid
  with_option cached (check_stored payload) (check_cached payload)
