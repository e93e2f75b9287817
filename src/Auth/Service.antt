-- ===== src/Auth/Service.antt =====
-- auth/auth.service.ts: accounts, and sessions that a refresh token rotates.
use dead_switch.Common.{
  ℕ, ◌+◌, ◌*◌, String, Bool, true, false, not, ◌&&◌, List, [], ◌∷◌, ◌++◌, Option, none, some,
  is_some, ltb, str_eq, find_first, find_many, update_many, if◌then◌else◌,
}
use dead_switch.Schema.{User, UserStatus, Session, conflict, unauthorized, unique_violation}
use dead_switch.World.{Env, Db}
use dead_switch.Effect.{
  M, pure, throw, ◌>>=◌, ◌>>◌, gets, ask, clock, modify, fresh, require, or_throw, transaction,
}
use dead_switch.Auth.Cache.{invalidate, invalidate_family}

pub record AuthContext : Type 0 where
  pub ip : Option String
  pub user_agent : Option String
  pub device_id : Option String

-- What the client gets.
pub record IssuedSession : Type 0 where
  pub access_token : String
  pub refresh_token : String
  pub refresh_expires_at : String
  pub session_id : String

unfoldable pub has_token : String → Session → Bool
has_token hash s = str_eq s.refresh_token_hash hash

unfoldable pub find_session : String → Db → Option Session
unfolding has_token
find_session hash db = find_first (has_token hash) db.sessions

unfoldable pub set_sessions : (List Session → List Session) → Db → Db
set_sessions f db = record db { sessions = f db.sessions }

abbrev pub or_month : Option ℕ → ℕ
or_month none = 2592000
or_month (some s) = s

abbrev or_three_days : Option ℕ → ℕ
or_three_days none = 259200
or_three_days (some s) = s

abbrev map_option : {A B : Type 0} → (A → B) → Option A → Option B
map_option f none = none
map_option f (some a) = some (f a)

unfoldable pub session_of :
    Env → String → String → String → Option String → AuthContext → String → ℕ → Session
session_of env id user_id family_id parent_id ctx hash expires_at = record {
  id = id;
  user_id = user_id;
  family_id = family_id;
  refresh_token_hash = hash;
  parent_id = parent_id;
  device_id = ctx.device_id;
  user_agent = map_option (λ a. env.slice a 0 200) ctx.user_agent;
  ip_hash = map_option env.sha256 ctx.ip;
  expires_at = expires_at;
  revoked_at = none;
  revoked_reason = none;
}

unfoldable pub create_session_row : String → String → Option String → AuthContext → M IssuedSession
create_session_row user_id family_id parent_id ctx = do
  serial ← gets (λ db. db.serial)
  token ← ask (λ env. env.crypto.random_text serial)
  hash ← ask (λ env. env.sha256 token)
  ttl ← ask (λ env. or_month env.config.jwt_refresh_ttl)
  now ← clock
  id ← fresh
  taken ← gets (find_session hash)
  require (not (is_some taken)) unique_violation
  let expires_at = now + ttl * 1000
  row ← ask (λ env. session_of env id user_id family_id parent_id ctx hash expires_at)
  modify (set_sessions (λ ss. ss ++ row ∷ []))
  access ← ask (λ env. env.jwt_sign user_id id family_id)
  expires ← ask (λ env. env.to_iso_string expires_at)
  pure (record {
    access_token = access;
    refresh_token = token;
    refresh_expires_at = expires;
    session_id = id;
  })

-- Both callers pass no parent family.
unfoldable pub issue_session : String → AuthContext → M IssuedSession
issue_session user_id ctx = do
  family_id ← fresh
  transaction (create_session_row user_id family_id none ctx)

unfoldable pub user_by_email : String → Db → Option User
user_by_email email db = find_first (λ u. str_eq u.email email) db.users

unfoldable pub append_user : User → Db → Db
append_user u db = record db { users = db.users ++ u ∷ [] }

abbrev phone_taken : String → User → Bool
phone_taken phone u = is_phone u.phone_e164
  where
    is_phone : Option String → Bool
    is_phone none = false
    is_phone (some p) = str_eq p phone

unfoldable pub register : String → String → String → String → AuthContext → M IssuedSession
register email phone_e164 display_name password ctx = do
  exists ← gets (user_by_email email)
  require (not (is_some exists)) (conflict "email already registered")
  password_hash ← ask (λ env. env.argon2_hash password)
  cooldown ← ask (λ env. or_three_days env.config.account_cooldown_seconds)
  now ← clock
  id ← fresh
  same_phone ← gets (λ db. find_first (phone_taken phone_e164) db.users)
  require (not (is_some same_phone)) unique_violation
  modify (
      append_user (record {
        id = id;
        display_name = display_name;
        email = email;
        status = UserStatus.active;
        password_hash = password_hash;
        phone_e164 = some phone_e164;
        cooldown_until = some (now + cooldown * 1000);
      }))
  issue_session id ctx

abbrev is_active_user : UserStatus → Bool
is_active_user UserStatus.active = true
is_active_user _ = false

unfoldable pub login : String → String → AuthContext → M IssuedSession
login email password ctx = do
  found ← gets (user_by_email email)
  user ← or_throw found (unauthorized "invalid credentials")
  matches ← ask (λ env. env.argon2_verify user.password_hash password)
  require matches (unauthorized "invalid credentials")
  require (is_active_user user.status) (unauthorized "account not active")
  issue_session user.id ctx

unfoldable pub revoke : String → ℕ → Session → Session
revoke reason now s = record s { revoked_at = some now; revoked_reason = some reason }

abbrev pub unrevoked : Session → Bool
unrevoked s = not (is_some s.revoked_at)

unfoldable pub in_family : String → Session → Bool
in_family family_id s = str_eq s.family_id family_id

abbrev pub ids_of : List Session → List String
ids_of [] = []
ids_of (s ∷ ss) = s.id ∷ ids_of ss

-- The branch of `refresh` in which the presented token has been revoked before.
unfoldable pub on_reuse : Session → M (IssuedSession × String)
on_reuse session = do
  family ← gets (λ db. find_many (in_family session.family_id) db.sessions)
  now ← clock
  modify (
      set_sessions (
        update_many (λ s. in_family session.family_id s && unrevoked s)
          (revoke "family_compromise" now)))
  invalidate_family (ids_of family)
  throw (unauthorized "refresh token reuse detected; session family revoked")

unfoldable pub rotate : Session → AuthContext → M (IssuedSession × String)
rotate session ctx = do
  now ← clock
  require (ltb now session.expires_at) (unauthorized "refresh token expired")
  modify (set_sessions (update_many (λ s. str_eq s.id session.id) (revoke "rotated" now)))
  issued ← create_session_row session.user_id session.family_id (some session.id) ctx
  pure (issued, session.id)

unfoldable pub refresh_in_transaction : String → AuthContext → M (IssuedSession × String)
refresh_in_transaction hash ctx = do
  found ← gets (find_session hash)
  session ← or_throw found (unauthorized "invalid refresh_session token")
  if is_some session.revoked_at then on_reuse session else rotate session ctx

unfoldable pub refresh_session : String → AuthContext → M IssuedSession
refresh_session token ctx = do
  hash ← ask (λ env. env.sha256 token)
  result ← transaction (refresh_in_transaction hash ctx)
  invalidate (result.1)
  pure (result.0)

-- The sessions that pass the test and are not revoked yet.
unfoldable pub revoke_where : (Session → Bool) → String → M (Unit {0})
revoke_where p reason = do
  sessions ← gets (λ db. find_many (λ s. p s && unrevoked s) db.sessions)
  now ← clock
  modify (set_sessions (update_many (λ s. p s && unrevoked s) (revoke reason now)))
  invalidate_family (ids_of sessions)

unfoldable pub logout : String → M (Unit {0})
logout token = do hash ← ask (λ env. env.sha256 token); revoke_where (has_token hash) "logout"

unfoldable pub revoke_all_for_user : String → String → M (Unit {0})
revoke_all_for_user user_id reason = revoke_where (λ s. str_eq s.user_id user_id) reason
