-- ===== src/Contacts/Grants.antt =====
-- Granting access to a bundle and revoking it (contacts/contacts.service.ts).
use dead_switch.Common.{
  ℕ, ◌≡◌, sym, ap, ◌∙◌, String, Bool, true, false, List, [], ◌∷◌, ◌++◌, some, inl, inr,
  Option-cases, Bool-cases, arith, ◌==◌, count_where, str_eq_refl,
}
use dead_switch.Schema.{TrustedContact, TrustedContactGrant}
use dead_switch.World.{World}
use dead_switch.Effect.{done, pure, throw, ◌>>=◌, gets, modify, require, or_throw}
use dead_switch.Contacts.Service.{
  owned_contact, is_grant, set_grants, without_grants, grant_bundle_access, revoke_grant,
}
use dead_switch.Attachments.Service.{bundle_by_id, owns}

module _ (p : TrustedContactGrant → Bool) (g : TrustedContactGrant) (h : p g ≡ true) where
  -- Taking away what was appended.
  without_grants-append :
      (gs : List TrustedContactGrant) → count_where p gs ≡ 0 → without_grants p (gs ++ g ∷ []) ≡ gs
  unfolding without_grants count_where
  without_grants-append [] z = ground (arith, h)
  without_grants-append (x ∷ xs) z = ground (arith, h, without_grants-append xs)

  count_where-appended :
      (gs : List TrustedContactGrant) → (count_where p (gs ++ g ∷ []) == 0) ≡ false
  unfolding count_where
  count_where-appended [] = ground (arith, h)
  count_where-appended (x ∷ xs) = ground (arith, h, count_where-appended xs)

abbrev grant_row : String → String → String → TrustedContactGrant
grant_row contact_id bundle_id kind = record {
  contact_id = contact_id;
  bundle_id = bundle_id;
  kind = kind;
}

is_grant-row :
    (contact_id bundle_id kind : String)
    → is_grant contact_id bundle_id kind (grant_row contact_id bundle_id kind) ≡ true
unfolding is_grant
is_grant-row contact_id bundle_id kind =
    simp (str_eq_refl contact_id, str_eq_refl bundle_id, str_eq_refl kind)

granted_world : String → String → String → World → World
granted_world contact_id bundle_id kind w = record w {
  db = set_grants (λ gs. gs ++ grant_row contact_id bundle_id kind ∷ []) w.db;
}

grant_bundle_access-done :
    (user_id contact_id bundle_id kind : String) (w : World) {w' : World}
    → grant_bundle_access user_id contact_id bundle_id kind w ≡ done tt w'
    → (c : TrustedContact) × (owned_contact user_id contact_id w.db ≡ some c)
      × ((count_where (is_grant contact_id bundle_id kind) w.db.grants == 0) ≡ true)
      × (granted_world contact_id bundle_id kind w ≡ w')
unfolding grant_bundle_access ◌>>=◌ gets modify require or_throw throw pure granted_world
grant_bundle_access-done user_id contact_id bundle_id kind w h =
    elim (Option-cases (owned_contact user_id contact_id w.db)) [
      | inl n ↦ let k = (rw n at h) in cc
      | inr (c, mine) ↦ elim (Option-cases (bundle_by_id bundle_id w.db)) [
        | inl n ↦ let k = (rw (mine, n) at h) in cc
        | inr (b, there) ↦ elim (Bool-cases (owns user_id w.db b)) [
          | inr n ↦ let k = (rw (mine, there, n) at h) in cc
          | inl own ↦
              elim (Bool-cases
                (count_where (is_grant contact_id bundle_id kind) w.db.grants == 0)) [
                  | inr n ↦ let k = (rw (mine, there, own, n) at h) in cc
                  | inl new ↦ (c, mine, new, (let k = (rw (mine, there, own, new) at h) in cc))
                ]
        ]
      ]
    ]

zero_count : (n : ℕ) → (n == 0) ≡ true → n ≡ 0
zero_count n h = ground arith

undone :
    (user_id contact_id bundle_id kind : String) (c : TrustedContact) (w : World)
    → owned_contact user_id contact_id w.db ≡ some c
    → (count_where (is_grant contact_id bundle_id kind) w.db.grants == 0) ≡ true
    → revoke_grant user_id contact_id bundle_id kind (granted_world contact_id bundle_id kind w)
      ≡ done tt w
unfolding revoke_grant ◌>>=◌ gets modify require or_throw throw pure granted_world set_grants
    owned_contact
undone user_id contact_id bundle_id kind c w mine new =
    let p = is_grant contact_id bundle_id kind in
    let g = grant_row contact_id bundle_id kind in
    let hit = is_grant-row contact_id bundle_id kind in
    let some_there = count_where-appended p g hit w.db.grants in
    let back = without_grants-append p g hit w.db.grants (zero_count _ new) in
    simp (mine, some_there, back)

-- Revoking undoes granting: after a grant that succeeded, revoking the same grant succeeds and
-- leaves exactly the world from before the grant, with every other grant in its place.
pub revoke_grant-grant_bundle_access :
    (user_id contact_id bundle_id kind : String) (w : World) {w' : World}
    → grant_bundle_access user_id contact_id bundle_id kind w ≡ done tt w'
    → revoke_grant user_id contact_id bundle_id kind w' ≡ done tt w
revoke_grant-grant_bundle_access user_id contact_id bundle_id kind w h =
    let (c, mine, new, last) = grant_bundle_access-done user_id contact_id bundle_id kind w h in
    ap (revoke_grant user_id contact_id bundle_id kind) (sym last)
    ∙ undone user_id contact_id bundle_id kind c w mine new
