-- ===== src/Recipients/Revoked.antt =====
-- A secure link after its revocation (recipients/recipients.service.ts).
use dead_switch.Common.{
  ℕ, ◌≡◌, ◌≢◌, refl, sym, ap, ◌∙◌, String, true, List, [], ◌∷◌, Option, some, is_some, subst, inl,
  inr, Option-cases, find_first, update_many, arith,
}
use dead_switch.Schema.{SafetyMode, RecipientAccessToken}
use dead_switch.World.{Env, World}
use dead_switch.Effect.{
  M, done, final, pure, throw, ◌>>=◌, gets, ask, clock, modify, require, or_throw, >>=-eq-done,
}
use dead_switch.Effect.Steps.{Preorder, Steps, Steps-modify}
use dead_switch.Safety.Capability.{Capability, recipient_access_existing}
use dead_switch.Safety.Mode.{set_mode, assert}
use dead_switch.Safety.Steady.{assert-fixed, assert-Steps}
use dead_switch.Recipients.Service.{
  Unlocked, Description, index_of, has_link, find_link, set_links, check_link, find_active,
  describe, unlock, revoke_link_row, revoke_link,
}

unfoldable pub links : Preorder
links = record {
  rel = λ d e. e.access_tokens ≡ d.access_tokens;
  reflexive = λ d. refl;
  transitive = λ a b c p q. q ∙ p;
  serial_free = λ d n. refl;
}

set_mode-Steps : (row : SafetyMode) → Steps links (modify (set_mode row))
unfolding set_mode links
set_mode-Steps row = Steps-modify _ λ d. refl

-- No link of this index is live.
abbrev Dead : String → List RecipientAccessToken → Type 0
Dead index ts =
    (t : RecipientAccessToken)
    → find_first (has_link index) ts ≡ some t
    → is_some t.revoked_at ≡ true

Dead-revoked :
    (index : String) (now : ℕ) (ts : List RecipientAccessToken)
    → Dead index (update_many (has_link index) (revoke_link_row now) ts)
unfolding find_first update_many has_link revoke_link_row
Dead-revoked index now [] t h = cc
Dead-revoked index now (x ∷ xs) t h = ground (arith, Dead-revoked index now xs t)

find_active-Dead :
    (raw : String) (w : World) {r : RecipientAccessToken} {w' : World}
    → Dead (index_of w.env raw) w.db.access_tokens
    → find_active raw w ≢ done r w'
unfolding find_active check_link find_link ◌>>=◌ ask gets require or_throw throw pure
find_active-Dead raw w dead h =
    elim (Option-cases (find_first (has_link (index_of w.env raw)) w.db.access_tokens)) [
      | inl n ↦ let k = (rw n at h) in cc
      | inr (t, found) ↦ let k = (rw (found, dead t found) at h) in cc
    ]

abbrev DeadIn : String → World → Type 0
DeadIn raw w = Dead (index_of w.env raw) w.db.access_tokens

assert-tokens :
    (c : Capability) (w : World) → (final (assert c w)).db.access_tokens ≡ w.db.access_tokens
unfolding links
assert-tokens c w = (assert-Steps links set_mode-Steps c).at w

assert-DeadIn :
    (raw : String) (c : Capability) (w : World) → DeadIn raw w → DeadIn raw (final (assert c w))
assert-DeadIn raw c w dead =
    subst (λ (e : Env). Dead (index_of e raw) (final (assert c w)).db.access_tokens)
      (sym (ap (λ p. p.1) (assert-fixed c w)))
      (subst (Dead (index_of w.env raw)) (sym (assert-tokens c w)) dead)

-- Whatever comes after the lookup is not reached.
asserted-Dead :
    {A : Type 0} (raw : String) (k : RecipientAccessToken → M A) (w : World) {a : A} {w' : World}
    → DeadIn raw w
    → (assert recipient_access_existing >>= λ _. find_active raw >>= k) w ≢ done a w'
asserted-Dead raw k w dead h =
    let (u, v, first, rest) =
      >>=-eq-done (assert recipient_access_existing) (λ _. find_active raw >>= k) w h in
    let (r, x, second, last) = >>=-eq-done (find_active raw) k v rest in
    find_active-Dead raw v
      (subst (DeadIn raw) (ap final first) (assert-DeadIn raw recipient_access_existing w dead))
      second

revoke_link-DeadIn :
    (raw : String) (now : ℕ) (w : World)
    → DeadIn raw (record (final (revoke_link raw w)) { now = now })
unfolding revoke_link ◌>>=◌ ask clock modify set_links
revoke_link-DeadIn raw now w = Dead-revoked (index_of w.env raw) w.now w.db.access_tokens

-- After a link has been revoked, nobody can unlock its item or read its description with it, at
-- any instant, with or without the access code.
pub revoke_link-refuses :
    (raw : String) (code : Option String) (now : ℕ) (w w' : World) (u : Unlocked) (d : Description)
    → (unlock raw code (record (final (revoke_link raw w)) { now = now }) ≢ done u w')
      × (describe raw (record (final (revoke_link raw w)) { now = now }) ≢ done d w')
unfolding unlock describe
revoke_link-refuses raw code now w w' u d =
    let dead = revoke_link-DeadIn raw now w in
    (asserted-Dead raw _ _ dead, asserted-Dead raw _ _ dead)
