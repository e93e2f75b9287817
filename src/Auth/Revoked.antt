-- ===== src/Auth/Revoked.antt =====
-- JwtStrategy.validate (auth/jwt.strategy.ts) after AuthService.logout and revokeAllForUser
-- (auth/auth.service.ts).
use dead_switch.Common.{
  ℕ, ◌≡◌, refl, subst, String, Bool, true, ◌&&◌, List, [], ◌∷◌, Option, none, some, inl, inr,
  Option-cases, Bool-cases, ltb, str_eq, str_eq_refl, find_first, find_many, find_first-update,
  update_many,
}
use dead_switch.Schema.{Session, unauthorized}
use dead_switch.World.{World, Mem, CachedSession}
use dead_switch.Effect.{
  done, fail, throw, ◌>>=◌, gets, ask, clock, recall, modify, remember, require, with_option,
}
use dead_switch.Auth.Cache.{last_entry, alive, peek, set_entry, tombstone, invalidate}
use dead_switch.Auth.Service.{
  has_token, set_sessions, revoke, unrevoked, ids_of, revoke_where, logout,
}
use dead_switch.Auth.Strategy.{
  JwtPayload, session_by_id, check_cached, is_valid_session, reject_session, check_row,
  check_stored, validate,
}
use dead_switch.Auth.Rotation.{tombstones, tombstone_end, invalidate_family_lem}

-- An entry that lets nobody in.
abbrev Shut : Option CachedSession → Type 0
Shut none = Unit {0}
Shut (some e) = e.revoked ≡ true

-- Either the session is named, so that it gets a tombstone, or its entry is what it was.
set_entry-Shut :
    (id k : String) (until : ℕ) (mem : Mem)
    → Shut (last_entry id mem.session_cache)
    → Shut (last_entry id (set_entry k (tombstone until) mem).session_cache)
unfolding last_entry set_entry
set_entry-Shut id k until mem h = elim (Bool-cases (str_eq k id)) [
  | inl y ↦ rw y refl
  | inr n ↦ rw n h
]

tombstones-keep :
    (ids : List String) (id : String) (until : ℕ) (mem : Mem)
    → Shut (last_entry id mem.session_cache)
    → Shut (last_entry id (tombstones ids until mem).session_cache)
tombstones-keep [] id until mem h = h
tombstones-keep (k ∷ ids) id until mem h =
    tombstones-keep ids id until _ (set_entry-Shut id k until mem h)

tombstones-Shut :
    (p : Session → Bool) (ss : List Session) (s : Session) (until : ℕ) (mem : Mem)
    → find_first (λ (x : Session). str_eq x.id s.id) ss ≡ some s
    → p s ≡ true
    → Shut (last_entry s.id (tombstones (ids_of (find_many p ss)) until mem).session_cache)
unfolding find_first find_many last_entry set_entry
tombstones-Shut p [] s until mem f h = cc
tombstones-Shut p (x ∷ ss) s until mem f h = elim (Bool-cases (str_eq x.id s.id)) [
  | inl y ↦
      let same : some x ≡ some s = rw y at f in
      let passes : p x ≡ true = (let e : x ≡ s = cc in rw e h) in
      rw passes (
        tombstones-keep (ids_of (find_many p ss)) s.id until (set_entry x.id (tombstone until) mem)
          (rw y refl))
  | inr n ↦ elim (Bool-cases (p x)) [
    | inl z ↦
        rw z (tombstones-Shut p ss s until (set_entry x.id (tombstone until) mem) (rw n at f) h)
    | inr z ↦ rw z (tombstones-Shut p ss s until mem (rw n at f) h)
  ]
]

-- `validate` refuses the bearer.
abbrev pub Refused : JwtPayload → World → Type 0
Refused payload w = (v : World) × (validate payload w ≡ fail (unauthorized "session revoked") v)

validate-Refused :
    (payload : JwtPayload) (s : Session) (t : ℕ) (w : World)
    → Shut (last_entry payload.sid w.mem.session_cache)
    → session_by_id payload.sid w.db ≡ some s
    → s.revoked_at ≡ some t
    → Refused payload w
unfolding validate peek alive check_stored check_cached check_row is_valid_session reject_session
    ◌>>=◌ gets clock recall with_option require throw invalidate ask remember
validate-Refused payload s t w shut found gone =
    let shut_again = record w { mem = set_entry payload.sid (tombstone (tombstone_end w)) w.mem } in
    elim (Option-cases (last_entry payload.sid w.mem.session_cache)) [
      | inl n ↦ (shut_again, simp (n, found, gone))
      | inr (e, k) ↦ elim (Bool-cases (ltb w.now e.until)) [
        | inl y ↦ (w, (let dead : e.revoked ≡ true = (rw k at shut) in simp (k, y, dead)))
        | inr n ↦ (shut_again, simp (k, n, found, gone))
      ]
    ]

-- Every later instant is one in which the session is refused.
abbrev pub RefusedLater : Session → World → Type 0
RefusedLater s w =
    (t : ℕ) (payload : JwtPayload) → payload.sid ≡ s.id → Refused payload (record w { now = t })

revoke_where-done :
    (p : Session → Bool) (reason : String) (s : Session) (w : World) {u : Unit {0}} {w' : World}
    → session_by_id s.id w.db ≡ some s
    → p s ≡ true
    → s.revoked_at ≡ none
    → revoke_where p reason w ≡ done u w'
    → RefusedLater s w'
unfolding revoke_where ◌>>=◌ gets clock modify set_sessions session_by_id
revoke_where-done p reason s w {u} {w'} found h live e t payload k =
    let q : Session → Bool = λ x. p x && unrevoked x in
    let past : World = record w {
      db = record w.db { sessions = update_many q (revoke reason w.now) w.db.sessions };
    } in
    let ids = ids_of (find_many q w.db.sessions) in
    let left : World = record past { mem = tombstones ids (tombstone_end past) past.mem } in
    let same : left ≡ w' = (let x = (rw (invalidate_family_lem ids past) at e) in cc) in
    let passes : q s ≡ true = rw (h, live) refl in
    let row =
      find_first-update (λ (x : Session). str_eq x.id s.id) q (revoke reason w.now) w.db.sessions s
        (λ x. unfold revoke in refl) found in
    let gone : session_by_id payload.sid left.db ≡ some (revoke reason w.now s) =
      rw k (rw passes at row) in
    let shut : Shut (last_entry payload.sid left.mem.session_cache) =
      rw k (tombstones-Shut q w.db.sessions s (tombstone_end past) past.mem found passes) in
    subst (λ (y : World). Refused payload (record y { now = t })) same
      (validate-Refused payload (revoke reason w.now s) w.now (record left { now = t }) shut gone
        (unfold revoke in refl))

-- After a logout with the refresh token of a session that was not revoked, the access tokens of
-- that session are refused at every later instant, whatever Redis held of it before and whether or not its
-- tombstone has run out, as long as nothing else is done.
pub logout-RefusedLater :
    (token : String) (s : Session) (w : World) {u : Unit {0}} {w' : World}
    → session_by_id s.id w.db ≡ some s
    → s.refresh_token_hash ≡ w.env.sha256 token
    → s.revoked_at ≡ none
    → logout token w ≡ done u w'
    → RefusedLater s w'
unfolding logout ◌>>=◌ ask has_token
logout-RefusedLater token s w found k live h =
    revoke_where-done (has_token (w.env.sha256 token)) "logout" s w found
      (rw k (str_eq_refl (w.env.sha256 token))) live h
