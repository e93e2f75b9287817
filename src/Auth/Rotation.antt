-- ===== src/Auth/Rotation.antt =====
-- The refresh tokens of AuthService.refresh (auth/auth.service.ts).
use dead_switch.Common.{
  ℕ, suc, ◌<◌, ◌≡◌, ◌≢◌, refl, sym, ap, ◌∙◌, String, false, ◌&&◌, Option, none, some, is_some, inl,
  inr, Option-cases, Bool-cases, ltb, ltb→lt, str_eq, str_eq_refl, find_first, find_many,
  find_first-update, find_first-append, update_many, List, ◌++◌, [], ◌∷◌, max, ◌+◌, ◌*◌,
}
use dead_switch.Schema.{Session, unauthorized}
use dead_switch.World.{World, Mem}
use dead_switch.Effect.{
  M, done, fail, pure, throw, commit, ◌>>=◌, gets, ask, clock, modify, remember, fresh, require,
  or_throw, transaction, for_each, >>=-eq-done, commit-eq-done,
}
use dead_switch.Auth.Cache.{set_entry, tombstone, invalidate, invalidate_family}
use dead_switch.Auth.Service.{
  AuthContext, IssuedSession, has_token, find_session, set_sessions, session_of, or_month,
  create_session_row, revoke, unrevoked, in_family, ids_of, on_reuse, rotate,
  refresh_in_transaction, refresh_session,
}

-- What `invalidateFamily` leaves in Redis.
abbrev pub tombstones : List String → ℕ → Mem → Mem
tombstones [] until mem = mem
tombstones (id ∷ ids) until mem = tombstones ids until (set_entry id (tombstone until) mem)

abbrev pub tombstone_end : World → ℕ
tombstone_end w = w.now + max w.env.config.session_cache_ttl 30 * 1000

pub invalidate_family_lem :
    (ids : List String) (w : World)
    → invalidate_family ids w ≡ done tt (record w { mem = tombstones ids (tombstone_end w) w.mem })
unfolding invalidate_family for_each invalidate ◌>>=◌ clock ask remember pure
invalidate_family_lem [] w = refl
invalidate_family_lem (id ∷ ids) w =
    invalidate_family_lem ids (record w { mem = set_entry id (tombstone (tombstone_end w)) w.mem })

-- A refresh token whose session has been revoked, by a rotation or otherwise, is refused. The
-- family of the session gets its tombstones in Redis, and the database is as it was: the rows of
-- the family that `updateMany` has revoked are rolled back with the error that reports them.
pub refresh_session-reused :
    (token : String) (ctx : AuthContext) (s : Session) (t : ℕ) (w : World)
    → find_session (w.env.sha256 token) w.db ≡ some s
    → s.revoked_at ≡ some t
    → refresh_session token ctx w
      ≡ fail (unauthorized "refresh token reuse detected; session family revoked") (record w {
        mem =
            tombstones
              (ids_of (find_many (in_family s.family_id) w.db.sessions))
              (tombstone_end w)
              w.mem;
      })
unfolding refresh_session transaction refresh_in_transaction on_reuse ◌>>=◌ gets ask clock modify
    or_throw throw pure
refresh_session-reused token ctx s t w h r =
    let past : World = record w {
      db =
          set_sessions
            (update_many (λ x. in_family s.family_id x && unrevoked x)
              (revoke "family_compromise" w.now))
            w.db;
    } in
    simp
      (h, r, invalidate_family_lem (ids_of (find_many (in_family s.family_id) w.db.sessions)) past)

with_session : Session → World → World
with_session row w = record w {
  db = record w.db { sessions = w.db.sessions ++ row ∷ []; serial = suc w.db.serial };
}

create_session_row-done :
    (user_id family_id : String) (parent_id : Option String) (ctx : AuthContext) (w : World)
    {r : IssuedSession} {w' : World}
    → create_session_row user_id family_id parent_id ctx w ≡ done r w'
    → (row : Session) × (with_session row w ≡ w')
unfolding create_session_row ◌>>=◌ gets ask clock modify fresh require throw pure set_sessions
    with_session find_session
create_session_row-done user_id family_id parent_id ctx w h =
    let hash = w.env.sha256 (w.env.crypto.random_text w.db.serial) in
    elim (Bool-cases (is_some (find_first (has_token hash) w.db.sessions))) [
      | inl y ↦ let k = (rw y at h) in cc
      | inr n ↦ (
        session_of w.env (w.env.uuid w.db.serial) user_id family_id parent_id ctx hash
            (w.now + or_month w.env.config.jwt_refresh_ttl * 1000),
        (let k = (rw n at h) in cc),
      )
    ]

rotated : Session → World → World
rotated s w = record w {
  db = set_sessions (update_many (λ x. str_eq x.id s.id) (revoke "rotated" w.now)) w.db;
}

rotate-done :
    (s : Session) (ctx : AuthContext) (w : World) {r : IssuedSession × String} {w' : World}
    → rotate s ctx w ≡ done r w'
    → (w.now < s.expires_at) × ((row : Session) × (with_session row (rotated s w) ≡ w'))
unfolding rotate ◌>>=◌ clock require throw pure modify rotated
rotate-done s ctx w {r} {w'} h = elim (Bool-cases (ltb w.now s.expires_at)) [
  | inl y ↦ (
    ltb→lt w.now s.expires_at y,
    (let k = (rw y at h) in
        let (i, v, first, rest) =
          >>=-eq-done (create_session_row s.user_id s.family_id (some s.id) ctx)
            (λ i. pure (i, s.id)) (rotated s w) k in
        let (row, same) =
          create_session_row-done s.user_id s.family_id (some s.id) ctx (rotated s w) first in
        (row, (let last : v ≡ w' = cc in same ∙ last))),
  )
  | inr n ↦ let k = (rw n at h) in cc
]

has_token-revoke :
    (hash reason : String) (now : ℕ) (x : Session)
    → has_token hash (revoke reason now x) ≡ has_token hash x
unfolding has_token revoke
has_token-revoke hash reason now x = refl

find_session-rotated :
    (hash : String) (s row : Session) (w : World)
    → find_session hash w.db ≡ some s
    → find_session hash (with_session row (rotated s w)).db ≡ some (revoke "rotated" w.now s)
unfolding find_session with_session rotated set_sessions
find_session-rotated hash s row w h =
    let changed =
      find_first-update (has_token hash) (λ x. str_eq x.id s.id) (revoke "rotated" w.now)
        w.db.sessions s (has_token-revoke hash "rotated" w.now) h in
    find_first-append (has_token hash) _ (row ∷ []) (revoke "rotated" w.now s)
      (rw (str_eq_refl s.id) at changed)

on_reuse-fails :
    (s : Session) (w : World) {r : IssuedSession × String} {w' : World} → on_reuse s w ≢ done r w'
unfolding on_reuse ◌>>=◌ gets clock modify throw
on_reuse-fails s w {r} {w'} h =
    let past : World = record w {
      db =
          set_sessions
            (update_many (λ x. in_family s.family_id x && unrevoked x)
              (revoke "family_compromise" w.now))
            w.db;
    } in
    let k =
      (rw (invalidate_family_lem (ids_of (find_many (in_family s.family_id) w.db.sessions)) past) at
        h) in
    cc

is_none : {A : Type 0} (o : Option A) → is_some o ≡ false → o ≡ none
is_none none h = refl
is_none (some a) h = cc

refresh_in_transaction-done :
    (hash : String) (ctx : AuthContext) (w : World) {r : IssuedSession × String} {w' : World}
    → refresh_in_transaction hash ctx w ≡ done r w'
    → (s : Session) × (find_session hash w.db ≡ some s)
      × (s.revoked_at ≡ none)
      × (rotate s ctx w ≡ done r w')
unfolding refresh_in_transaction ◌>>=◌ gets or_throw throw pure
refresh_in_transaction-done hash ctx w {r} {w'} h = elim (Option-cases (find_session hash w.db)) [
  | inl n ↦ let k = (rw n at h) in cc
  | inr (s, found) ↦ elim (Bool-cases (is_some s.revoked_at)) [
    | inl gone ↦ absurd (on_reuse-fails s w (rw (found, gone) at h))
    | inr live ↦ (s, found, is_none s.revoked_at live, rw (found, live) at h)
  ]
]

-- What a refresh that succeeds has found and left.
abbrev Rotated : String → World → World → Type 0
Rotated hash w w' =
    (s : Session) × (find_session hash w.db ≡ some s)
    × (s.revoked_at ≡ none)
    × (w.now < s.expires_at)
    × (find_session hash w'.db ≡ some (revoke "rotated" w.now s))
    × (w'.env ≡ w.env)

-- A refresh that succeeds was given the token of a session that is neither revoked nor expired,
-- and has revoked that session.
pub refresh_session-done :
    (token : String) (ctx : AuthContext) (w : World) {r : IssuedSession} {w' : World}
    → refresh_session token ctx w ≡ done r w'
    → Rotated (w.env.sha256 token) w w'
unfolding refresh_session transaction ◌>>=◌ ask pure invalidate clock remember with_session rotated
refresh_session-done token ctx w {r} {w'} h =
    let hash = w.env.sha256 token in
    let m : M (IssuedSession × String) = λ v. commit v.db (refresh_in_transaction hash ctx v) in
    let (p, v, first, rest) = >>=-eq-done m (λ p. invalidate (p.1) >>= λ _. pure (p.0)) w h in
    let (s, found, live, turned) =
      refresh_in_transaction-done hash ctx w (commit-eq-done w.db _ first) in
    let (early, (row, same)) = rotate-done s ctx w turned in
    let last : record v { mem = set_entry (p.1) (tombstone (tombstone_end v)) v.mem } ≡ w' = cc in
    (
      s,
      found,
      live,
      early,
      ap (λ (y : World). find_session hash y.db) (sym last ∙ refl)
          ∙ (ap (λ (y : World). find_session hash y.db) (sym same)
              ∙ find_session-rotated hash s row w found),
      ap (λ (y : World). y.env) (sym last) ∙ ap (λ (y : World). y.env) (sym same),
    )

-- A refresh token works once. A refresh that succeeds was given the token of a session that was
-- neither revoked nor expired; from its world on, at any instant, the same token is refused and
-- the database stays as it is.
pub refresh_session-single_use :
    (token : String) (ctx : AuthContext) (w : World) {r : IssuedSession} {w' : World}
    → refresh_session token ctx w ≡ done r w'
    → ((s : Session) × (find_session (w.env.sha256 token) w.db ≡ some s)
        × (s.revoked_at ≡ none)
        × (w.now < s.expires_at))
      × ((again : AuthContext) (t : ℕ)
          → (v : World) × (v.db ≡ w'.db)
            × (refresh_session token again (record w' { now = t })
                ≡ fail (unauthorized "refresh token reuse detected; session family revoked") v))
refresh_session-single_use token ctx w {r} {w'} h =
    let (s, found, live, early, spent, same) = refresh_session-done token ctx w h in
    (
      (s, found, live, early),
      λ again t.
          let hash : w'.env.sha256 token ≡ w.env.sha256 token = ap (λ e. e.sha256 token) same in
          let known : find_session (w'.env.sha256 token) w'.db ≡ some (revoke "rotated" w.now s) =
            ap (λ x. find_session x w'.db) hash ∙ spent in
          (
            _,
            refl,
            refresh_session-reused token again (revoke "rotated" w.now s) w.now
                (record w' { now = t }) known (unfold revoke in refl),
          ),
    )
