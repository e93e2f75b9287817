-- ===== src/Contacts/Budget.antt =====
-- What a pause that a contact asks for takes from its budget (contacts/contacts.service.ts).
use dead_switch.Common.{
  ℕ, ◌<◌, ◌≤◌, ◌+◌, ◌-◌, ◌≡◌, ◌≢◌, refl, sym, ap, ◌∙◌, String, Bool, true, false, not, some, inl,
  inr, subst, if◌then◌else◌, Option-cases, Bool-cases, ltb, ltb→lt, arith, ◌==◌, count_where,
  str_eq_refl, find_first-update, update_many,
}
use dead_switch.Schema.{Error, TrustedContact, forbidden}
use dead_switch.World.{World}
use dead_switch.Effect.{
  M, continue, done, fail, pure, throw, ◌>>=◌, gets, clock, modify, require, or_throw,
}
use dead_switch.Contacts.Service.{
  PauseGrant, is_contact, find_contact, set_contacts, cooling_down, unchanged_contact,
  paused_contact, available_of, grant_of, take_from_budget, request_pause,
}

is_contact-paused :
    (id : String) (grant until : ℕ) (c : TrustedContact)
    → is_contact id (paused_contact grant until c) ≡ is_contact id c
unfolding is_contact paused_contact
is_contact-paused id grant until c = refl

-- The row was not changed between the read and the statement.
unchanged_contact_refl : (c : TrustedContact) → unchanged_contact c c ≡ true
unfolding unchanged_contact is_contact
unchanged_contact_refl c = let same = str_eq_refl c.id in ground (arith, same)

paused_world : ℕ → ℕ → TrustedContact → World → World
paused_world grant until c w = record w {
  db = set_contacts (update_many (unchanged_contact c) (paused_contact grant until)) w.db;
}

find_contact-paused :
    (id : String) (grant until : ℕ) (c : TrustedContact) (w : World)
    → find_contact id w.db ≡ some c
    → find_contact id (paused_world grant until c w).db ≡ some (paused_contact grant until c)
unfolding find_contact paused_world set_contacts
find_contact-paused id grant until c w h = rw (unchanged_contact_refl c) at (
    find_first-update (is_contact id) (unchanged_contact c) (paused_contact grant until)
      w.db.contacts c (is_contact-paused id grant until) h)

abbrev Granted : String → ℕ → World → PauseGrant → World → Type 0
Granted contact_id requested w g w' =
    (c : TrustedContact) × (find_contact contact_id w.db ≡ some c)
    × (c.can_request_pause ≡ true)
    × (cooling_down c.pause_cooldown_until w.now ≡ false)
    × (g.granted_seconds ≤ requested)
    × (g.granted_seconds ≤ c.max_single_pause_sec)
    × (c.pause_used_seconds + g.granted_seconds + g.remaining_budget ≡ c.pause_budget_seconds)
    × (find_contact contact_id w'.db ≡ some (paused_contact g.granted_seconds (w.now + 1800000) c))

take_from_budget-done :
    (requested : ℕ) (c : TrustedContact) (w : World) {g : PauseGrant} {w' : World}
    → take_from_budget requested c w ≡ done g w'
    → (record {
      granted_seconds = grant_of requested c;
      remaining_budget = available_of c - grant_of requested c;
      cooldown_until = w.now + 1800000;
    }
        ≡ g)
      × (paused_world (grant_of requested c) (w.now + 1800000) c w ≡ w')
unfolding take_from_budget ◌>>=◌ gets clock modify require throw pure paused_world
take_from_budget-done requested c w h =
    elim (Bool-cases (count_where (unchanged_contact c) w.db.contacts == 1)) [
      | inl y ↦ let k = (rw y at h) in (cc, cc)
      | inr n ↦ let k = (rw n at h) in cc
    ]

grant_le : (requested : ℕ) (c : TrustedContact) → grant_of requested c ≤ requested
grant_le requested c = omega arith

grant_le_single :
    (requested : ℕ) (c : TrustedContact) → grant_of requested c ≤ c.max_single_pause_sec
grant_le_single requested c = omega arith

budget_split :
    (requested : ℕ) (c : TrustedContact)
    → c.pause_used_seconds < c.pause_budget_seconds
    → c.pause_used_seconds + grant_of requested c + (available_of c - grant_of requested c)
      ≡ c.pause_budget_seconds
budget_split requested c h = omega arith

-- A check that stands before the rest of a handler.
module _ {B : Type 0} (b : Bool) (e : Error) (k : M B) (w : World) where
  require-eq-done :
      {r : B} {w' : World} → (require b e >>= λ _. k) w ≡ done r w' → (b ≡ true) × (k w ≡ done r w')
  unfolding require ◌>>=◌ throw pure
  require-eq-done h = elim (Bool-cases b) [
    | inl y ↦ (y, rw y at h)
    | inr n ↦ let z = (rw n at h) in cc
  ]

  require-passes : b ≡ true → (require b e >>= λ _. k) w ≡ k w
  unfolding require ◌>>=◌ throw pure
  require-passes y = ap (λ c. continue ((if c then pure tt else throw e) w) (λ _. k)) y

  require-refuses : b ≡ false → (require b e >>= λ _. k) w ≡ fail e w
  unfolding require ◌>>=◌ throw pure
  require-refuses n = ap (λ c. continue ((if c then pure tt else throw e) w) (λ _. k)) n

false_of : (b : Bool) → not b ≡ true → b ≡ false
false_of b h = ground arith

-- What follows the row of the contact, check by check.
budget_check : ℕ → TrustedContact → M PauseGrant
budget_check requested c =
    require (ltb c.pause_used_seconds c.pause_budget_seconds) (forbidden "pause budget exhausted")
    >>= λ _. take_from_budget requested c

cooldown_check : ℕ → TrustedContact → ℕ → M PauseGrant
cooldown_check requested c now =
    require (not (cooling_down c.pause_cooldown_until now)) (forbidden "pause request on cooldown")
    >>= λ _. budget_check requested c

checks : ℕ → TrustedContact → M PauseGrant
checks requested c = require c.can_request_pause (forbidden "contact cannot pause") >>= λ _.
    clock >>= cooldown_check requested c

request_pause-found :
    (contact_id scenario_id : String) (requested : ℕ) (c : TrustedContact) (w : World)
    → (requested == 0) ≡ false
    → find_contact contact_id w.db ≡ some c
    → request_pause contact_id scenario_id requested w ≡ checks requested c w
unfolding request_pause checks cooldown_check budget_check ◌>>=◌ gets require or_throw throw pure
request_pause-found contact_id scenario_id requested c w p found = simp (p, found)

no_zero :
    (contact_id scenario_id : String) (requested : ℕ) (w : World) {g : PauseGrant} {w' : World}
    → request_pause contact_id scenario_id requested w ≡ done g w'
    → (requested == 0) ≡ false
unfolding request_pause
no_zero contact_id scenario_id requested w h =
    false_of (requested == 0) ((require-eq-done _ _ _ w h).0)

row_found :
    (contact_id scenario_id : String) (requested : ℕ) (w : World) {g : PauseGrant} {w' : World}
    → request_pause contact_id scenario_id requested w ≡ done g w'
    → (c : TrustedContact) × (find_contact contact_id w.db ≡ some c)
unfolding request_pause ◌>>=◌ gets require or_throw throw pure
row_found contact_id scenario_id requested w h =
    elim (Option-cases (find_contact contact_id w.db)) [
      | inl n ↦ let k = (rw (no_zero contact_id scenario_id requested w h, n) at h) in cc
      | inr there ↦ there
    ]

now_read :
    (requested : ℕ) (c : TrustedContact) (w : World)
    → (clock >>= cooldown_check requested c) w ≡ cooldown_check requested c w.now w
unfolding ◌>>=◌ clock
now_read requested c w = refl

checks-pass :
    (requested : ℕ) (c : TrustedContact) (w : World) {g : PauseGrant} {w' : World}
    → checks requested c w ≡ done g w'
    → (c.can_request_pause ≡ true)
      × (cooling_down c.pause_cooldown_until w.now ≡ false)
      × (c.pause_used_seconds < c.pause_budget_seconds)
      × (take_from_budget requested c w ≡ done g w')
unfolding checks cooldown_check budget_check
checks-pass requested c w h =
    let (may, h1) = require-eq-done c.can_request_pause _ _ w h in
    let (cold, h2) =
      require-eq-done (not (cooling_down c.pause_cooldown_until w.now)) _ _ w
        (sym (now_read requested c w) ∙ h1) in
    let (left, h3) = require-eq-done _ _ (take_from_budget requested c) w h2 in
    (may, false_of _ cold, ltb→lt c.pause_used_seconds c.pause_budget_seconds left, h3)

request_pause-passes :
    (contact_id scenario_id : String) (requested : ℕ) (w : World) {g : PauseGrant} {w' : World}
    → request_pause contact_id scenario_id requested w ≡ done g w'
    → (c : TrustedContact) × (find_contact contact_id w.db ≡ some c)
      × (c.can_request_pause ≡ true)
      × (cooling_down c.pause_cooldown_until w.now ≡ false)
      × (c.pause_used_seconds < c.pause_budget_seconds)
      × (take_from_budget requested c w ≡ done g w')
request_pause-passes contact_id scenario_id requested w h =
    let (c, found) = row_found contact_id scenario_id requested w h in
    let zero = no_zero contact_id scenario_id requested w h in
    let same = request_pause-found contact_id scenario_id requested c w zero found in
    let (may, cold, left, taken) = checks-pass requested c w (sym same ∙ h) in
    (c, found, may, cold, left, taken)

request_pause-Granted :
    (contact_id scenario_id : String) (requested : ℕ) (w : World) {g : PauseGrant} {w' : World}
    → request_pause contact_id scenario_id requested w ≡ done g w'
    → Granted contact_id requested w g w'
request_pause-Granted contact_id scenario_id requested w h =
    let (c, found, may, cold, left, taken) =
      request_pause-passes contact_id scenario_id requested w h in
    let (same, last) = take_from_budget-done requested c w taken in
    let amount = ap (λ (x : PauseGrant). x.granted_seconds) same in
    let rest = ap (λ (x : PauseGrant). x.remaining_budget) same in
    let row = find_contact-paused contact_id (grant_of requested c) (w.now + 1800000) c w found in
    (
      c,
      found,
      may,
      cold,
      subst (λ n. n ≤ requested) amount (grant_le requested c),
      subst (λ n. n ≤ c.max_single_pause_sec) amount (grant_le_single requested c),
      ap (λ (x : PauseGrant). c.pause_used_seconds + x.granted_seconds + x.remaining_budget)
            (sym same)
          ∙ budget_split requested c left,
      ap (λ (x : World). find_contact contact_id x.db) (sym last)
          ∙ (row ∙ ap (λ n. some (paused_contact n (w.now + 1800000) c)) amount),
    )

-- A pause of a contact: what was granted keeps to the request, to the longest pause and to the
-- budget, and the columns of the contact afterwards.
abbrev pub Taken : String → ℕ → World → PauseGrant → World → Type 0
Taken contact_id requested w g w' =
    (c : TrustedContact) × (d : TrustedContact) × (find_contact contact_id w.db ≡ some c)
    × (c.can_request_pause ≡ true)
    × (cooling_down c.pause_cooldown_until w.now ≡ false)
    × (g.granted_seconds ≤ requested)
    × (g.granted_seconds ≤ c.max_single_pause_sec)
    × (find_contact contact_id w'.db ≡ some d)
    × (d.pause_used_seconds ≡ c.pause_used_seconds + g.granted_seconds)
    × (d.pause_used_seconds + g.remaining_budget ≡ d.pause_budget_seconds)
    × (d.pause_budget_seconds ≡ c.pause_budget_seconds)
    × (d.pause_request_count ≡ c.pause_request_count + 1)
    × (d.pause_cooldown_until ≡ some (w.now + 1800000))

-- A pause that is granted goes to a contact that may ask and is not in its cooldown. It is no
-- longer than the request and than the longest single pause of the contact. Afterwards the used
-- seconds of the contact are those before and the pause, with what is reported as remaining they
-- add up to the unchanged budget, one request more is counted, and the cooldown is 30 minutes.
pub request_pause-Taken :
    (contact_id scenario_id : String) (requested : ℕ) (w : World) {g : PauseGrant} {w' : World}
    → request_pause contact_id scenario_id requested w ≡ done g w'
    → Taken contact_id requested w g w'
unfolding paused_contact
request_pause-Taken contact_id scenario_id requested w {g} {w'} h =
    let (c, found, may, cold, a, b, e, row) =
      request_pause-Granted contact_id scenario_id requested w h in
    let d = paused_contact g.granted_seconds (w.now + 1800000) c in
    (c, d, found, may, cold, a, b, row, refl, e, refl, refl, refl)

-- After a pause has been granted, every further request of the contact in the next 30 minutes is
-- refused and changes nothing, whichever scenario it names.
pub request_pause-cooldown :
    (contact_id scenario_id other_id : String) (requested more now : ℕ) (w : World) {g : PauseGrant}
    {w' : World}
    → request_pause contact_id scenario_id requested w ≡ done g w'
    → more ≢ 0
    → now < w.now + 1800000
    → request_pause contact_id other_id more (record w' { now = now })
      ≡ fail (forbidden "pause request on cooldown") (record w' { now = now })
unfolding checks cooldown_check ◌>>=◌ clock paused_contact
request_pause-cooldown contact_id scenario_id other_id requested more now w {g} {w'} h p early =
    let (c, found, may, cold, a, b, e, row) =
      request_pause-Granted contact_id scenario_id requested w h in
    let positive : (more == 0) ≡ false = ground (arith, p) in
    let hot : not (ltb now (w.now + 1800000)) ≡ false = ground (arith, early) in
    let later : World = record w' { now = now } in
    let paused = paused_contact g.granted_seconds (w.now + 1800000) c in
    request_pause-found contact_id other_id more paused later positive row
    ∙ (require-passes c.can_request_pause _ _ later may
        ∙ require-refuses (not (ltb now (w.now + 1800000))) _ _ later hot)
