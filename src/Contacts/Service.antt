-- ===== src/Contacts/Service.antt =====
-- contacts/contacts.service.ts: contacts, their grants, and the pauses that they ask for.
use dead_switch.Common.{
  ℕ, ◌+◌, ◌-◌, min, String, Bool, true, false, not, ◌&&◌, List, [], ◌∷◌, ◌++◌, Option, none, some,
  ltb, ◌==◌, str_eq, find_first, find_many, count_where, update_many, if◌then◌else◌,
}
use dead_switch.Schema.{
  TrustedContact, TrustedContactGrant, not_found, bad_request, forbidden, conflict,
  unique_violation,
}
use dead_switch.World.{Db}
use dead_switch.Effect.{M, pure, ◌>>=◌, ◌>>◌, gets, clock, modify, fresh, require, or_throw}
use dead_switch.Attachments.Service.{bundle_by_id, owns}

-- The columns that the model holds; a name and a relationship are only stored.
pub record ContactInput : Type 0 where
  pub email : Option String
  pub can_request_pause : Option Bool
  pub pause_budget_seconds : Option ℕ

unfoldable pub is_contact : String → TrustedContact → Bool
is_contact id c = str_eq c.id id

unfoldable pub find_contact : String → Db → Option TrustedContact
unfolding is_contact
find_contact id db = find_first (is_contact id) db.contacts

unfoldable pub set_contacts : (List TrustedContact → List TrustedContact) → Db → Db
set_contacts f db = record db { contacts = f db.contacts }

unfoldable pub list_contacts : String → M (List TrustedContact)
list_contacts user_id = gets (λ db. find_many (λ c. str_eq c.user_id user_id) db.contacts)

abbrev or_true : Option Bool → Bool
or_true none = true
or_true (some b) = b

abbrev or_one_day : Option ℕ → ℕ
or_one_day none = 86400
or_one_day (some n) = n

unfoldable pub contact_of : String → String → ContactInput → TrustedContact
contact_of id user_id input = record {
  id = id;
  user_id = user_id;
  email = input.email;
  can_request_pause = or_true input.can_request_pause;
  pause_budget_seconds = min (or_one_day input.pause_budget_seconds) 604800;
  pause_used_seconds = 0;
  max_single_pause_sec = 43200;
  pause_request_count = 0;
  pause_cooldown_until = none;
  verified_at = none;
}

unfoldable pub create_contact : String → ContactInput → M TrustedContact
create_contact user_id input = do
  id ← fresh
  modify (set_contacts (λ cs. cs ++ contact_of id user_id input ∷ []))
  pure (contact_of id user_id input)

unfoldable pub owned_contact : String → String → Db → Option TrustedContact
owned_contact user_id id db =
    find_first (λ c. str_eq c.id id && str_eq c.user_id user_id) db.contacts

unfoldable pub is_grant : String → String → String → TrustedContactGrant → Bool
is_grant contact_id bundle_id kind g =
    str_eq g.contact_id contact_id && (str_eq g.bundle_id bundle_id && str_eq g.kind kind)

unfoldable pub set_grants : (List TrustedContactGrant → List TrustedContactGrant) → Db → Db
set_grants f db = record db { grants = f db.grants }

-- @@unique([contactId, bundleId, kind])
unfoldable pub grant_bundle_access : String → String → String → String → M (Unit {0})
grant_bundle_access user_id contact_id bundle_id kind = do
  contact_found ← gets (owned_contact user_id contact_id)
  contact ← or_throw contact_found not_found
  bundle_found ← gets (bundle_by_id bundle_id)
  bundle ← or_throw bundle_found not_found
  owned ← gets (λ db. owns user_id db bundle)
  require owned not_found
  n ← gets (λ db. count_where (is_grant contact_id bundle_id kind) db.grants)
  require (n == 0) unique_violation
  modify (
      set_grants
        (λ gs. gs ++ record { contact_id = contact_id; bundle_id = bundle_id; kind = kind } ∷ []))

unfoldable pub without_grants :
    (TrustedContactGrant → Bool) → List TrustedContactGrant → List TrustedContactGrant
without_grants p [] = []
without_grants p (g ∷ gs) = let rest = without_grants p gs in if p g then rest else g ∷ rest

unfoldable pub revoke_grant : String → String → String → String → M (Unit {0})
unfolding without_grants is_grant
revoke_grant user_id contact_id bundle_id kind = do
  contact_found ← gets (owned_contact user_id contact_id)
  contact ← or_throw contact_found not_found
  n ← gets (λ db. count_where (is_grant contact_id bundle_id kind) db.grants)
  modify (set_grants (without_grants (is_grant contact_id bundle_id kind)))
  require (not (n == 0)) not_found

pub record PauseGrant : Type 0 where
  pub granted_seconds : ℕ
  pub remaining_budget : ℕ
  pub cooldown_until : ℕ

abbrev pub cooling_down : Option ℕ → ℕ → Bool
cooling_down none now = false
cooling_down (some t) now = ltb now t

-- The conditions of the statement that takes from the budget.
unfoldable pub unchanged_contact : TrustedContact → TrustedContact → Bool
unfolding is_contact
unchanged_contact contact c =
    is_contact contact.id c
    && (c.pause_used_seconds == contact.pause_used_seconds
        && c.pause_request_count == contact.pause_request_count)

unfoldable pub paused_contact : ℕ → ℕ → TrustedContact → TrustedContact
paused_contact grant until c = record c {
  pause_used_seconds = c.pause_used_seconds + grant;
  pause_request_count = c.pause_request_count + 1;
  pause_cooldown_until = some until;
}

abbrev pub available_of : TrustedContact → ℕ
available_of c = c.pause_budget_seconds - c.pause_used_seconds

abbrev pub grant_of : ℕ → TrustedContact → ℕ
grant_of requested c = min (min requested c.max_single_pause_sec) (available_of c)

unfoldable pub take_from_budget : ℕ → TrustedContact → M PauseGrant
take_from_budget requested contact = do
  now ← clock
  let until = now + 1800000
  let grant = grant_of requested contact
  n ← gets (λ db. count_where (unchanged_contact contact) db.contacts)
  modify (set_contacts (update_many (unchanged_contact contact) (paused_contact grant until)))
  require (n == 1) (conflict "concurrent pause request; retry")
  pure (record {
    granted_seconds = grant;
    remaining_budget = available_of contact - grant;
    cooldown_until = until;
  })

-- The scenario that is named is not looked at.
unfoldable pub request_pause : String → String → ℕ → M PauseGrant
request_pause contact_id scenario_id requested_seconds = do
  require (not (requested_seconds == 0)) (bad_request "requestedSeconds must be > 0")
  found ← gets (find_contact contact_id)
  contact ← or_throw found (forbidden "contact cannot pause")
  require contact.can_request_pause (forbidden "contact cannot pause")
  now ← clock
  require (not (cooling_down contact.pause_cooldown_until now))
      (forbidden "pause request on cooldown")
  require (ltb contact.pause_used_seconds contact.pause_budget_seconds)
      (forbidden "pause budget exhausted")
  take_from_budget requested_seconds contact

unfoldable pub without_contact : String → List TrustedContact → List TrustedContact
without_contact id [] = []
without_contact id (c ∷ cs) =
    let rest = without_contact id cs in if str_eq c.id id then rest else c ∷ rest

-- The grants of the contact go with it.
unfoldable pub remove_contact : String → String → M (Unit {0})
unfolding without_contact without_grants
remove_contact user_id id = do
  found ← gets (owned_contact user_id id)
  contact ← or_throw found not_found
  modify (set_contacts (without_contact id))
  modify (set_grants (without_grants (λ g. str_eq g.contact_id id)))
