-- ===== src/Scenarios/Active.antt =====
-- scenarios/scenarios.service.ts from `performCheckin` on.
use dead_switch.Common.{
  ℕ, ◌+◌, ◌*◌, String, Bool, not, ◌&&◌, List, [], ◌∷◌, Option, none, some, is_some, ltb, leb,
  str_eq, find_first, find_many, update_many, length, if◌then◌else◌,
}
use dead_switch.Schema.{
  ScenarioState, state_eq, includes, Scenario, Checkin, CheckinResult, AbortCode, EscalationAttempt,
  ReleaseBundle, Release, ReleaseAction, BundleRecipient, TrustedContactGrant, BundleAttachment,
  AttachmentAccessToken, RecipientAccessToken, PrivateVaultItem, integer, text, object, end, field,
  bad_request, forbidden,
}
use dead_switch.World.{Db, Mem}
use dead_switch.Effect.{
  M, pure, ◌>>=◌, ◌>>◌, gets, ask, clock, modify, remember, require, with_option, or_throw,
  transaction,
}
use dead_switch.State.Service.{no_extra, transition}
use dead_switch.Audit.Service.{record_event}
use dead_switch.Outbox.Service.{enqueue}
use dead_switch.Attachments.Service.{local_name, remove_blob}
use dead_switch.Scenarios.Service.{user_entry, get, checkin_job, state_text}

abbrev recoverable_states : List ScenarioState
recoverable_states =
    ScenarioState.armed ∷ ScenarioState.incident_pending ∷ ScenarioState.escalation_in_progress
    ∷ ScenarioState.grace_period ∷ []

abbrev pub recover_key : ScenarioState → Option String
recover_key ScenarioState.incident_pending = some "recover_incident"
recover_key ScenarioState.escalation_in_progress = some "recover_escalation"
recover_key ScenarioState.grace_period = some "recover_grace"
recover_key _ = none

unfoldable pub open_checkin : String → Checkin → Bool
open_checkin id c = str_eq c.scenario_id id && not (is_some c.performed_at)

abbrev sooner : Checkin → Option Checkin → Checkin
sooner c none = c
sooner c (some d) = if leb c.due_at d.due_at then c else d

-- findFirst with orderBy dueAt asc.
unfoldable pub earliest : List Checkin → Option Checkin
earliest [] = none
earliest (c ∷ cs) = some (sooner c (earliest cs))

unfoldable pub perform : String → ℕ → Db → Db
perform checkin_id now db = record db {
  checkins =
      update_many (λ (c : Checkin). str_eq c.id checkin_id)
        (λ c. record c { performed_at = some now; result = CheckinResult.ok; method = some "app" })
        db.checkins;
}

unfoldable pub checkin_in_transaction : Scenario → M (Unit {0})
checkin_in_transaction scenario = do
  now ← clock
  next ← gets (λ db. earliest (find_many (open_checkin scenario.id) db.checkins))
  with_option next (pure tt) (λ (c : Checkin). modify (perform c.id now))
  with_option (recover_key scenario.state) (pure tt)
      (λ key. transition scenario.id key no_extra >>= λ _. pure tt)
  let delay = scenario.checkin_interval_seconds * 1000
  job ← ask (λ env. checkin_job env scenario.id (now + delay) delay)
  enqueue job

-- Returns the instant at which the next check-in is due, as text.
unfoldable pub perform_checkin : String → String → M String
perform_checkin user_id id = do
  scenario ← get user_id id
  require (includes recoverable_states scenario.state) (bad_request "scenario not active")
  transaction (checkin_in_transaction scenario)
  now ← clock
  due ← ask (λ env. env.to_iso_string (now + scenario.checkin_interval_seconds * 1000))
  record_event
      (user_entry user_id id "checkin.performed" (object (field "nextDueAt" (text due) end)))
  pure due

-- The cascades of the foreign keys below a bundle and below a release.
unfoldable pub delete_bundles : (String → Bool) → Db → Db
delete_bundles gone db = record db {
  bundles = find_many (λ (b : ReleaseBundle). not (gone b.id)) db.bundles;
  recipients = find_many (λ (r : BundleRecipient). not (gone r.bundle_id)) db.recipients;
  grants = find_many (λ (g : TrustedContactGrant). not (gone g.bundle_id)) db.grants;
  attachments = find_many (λ (a : BundleAttachment). not (gone a.bundle_id)) db.attachments;
  attachment_tokens =
      find_many (λ (t : AttachmentAccessToken). not (gone t.bundle_id)) db.attachment_tokens;
  access_tokens =
      find_many
        (λ (t : RecipientAccessToken). not (
          is_some (
            find_first (λ (i : PrivateVaultItem). str_eq i.id t.vault_item_id && gone i.bundle_id)
              db.vault_items)))
        db.access_tokens;
  vault_items = find_many (λ (i : PrivateVaultItem). not (gone i.bundle_id)) db.vault_items;
}

unfoldable pub delete_releases : (String → Bool) → Db → Db
delete_releases gone db = record db {
  releases = find_many (λ (r : Release). not (gone r.id)) db.releases;
  actions = find_many (λ (a : ReleaseAction). not (gone a.release_id)) db.actions;
  attachment_tokens =
      find_many (λ (t : AttachmentAccessToken). not (gone t.release_id)) db.attachment_tokens;
}

unfoldable pub has_bundle : String → Db → String → Bool
has_bundle scenario_id db bundle_id = is_some (
    find_first (λ (b : ReleaseBundle). str_eq b.id bundle_id && str_eq b.scenario_id scenario_id)
      db.bundles)

unfoldable pub has_release : String → Db → String → Bool
has_release scenario_id db release_id = is_some (
    find_first (λ (r : Release). str_eq r.id release_id && str_eq r.scenario_id scenario_id)
      db.releases)

-- scenario.delete with the cascades of the schema to the tables of the model; the log stays.
unfoldable pub delete_scenario : String → Db → Db
unfolding has_bundle has_release delete_bundles delete_releases
delete_scenario id db =
    let rest = delete_releases (has_release id db) (delete_bundles (has_bundle id db) db) in
    record rest {
      scenarios = find_many (λ (s : Scenario). not (str_eq s.id id)) db.scenarios;
      checkins = find_many (λ (c : Checkin). not (str_eq c.scenario_id id)) db.checkins;
      attempts = find_many (λ (a : EscalationAttempt). not (str_eq a.scenario_id id)) db.attempts;
      abort_codes = find_many (λ (c : AbortCode). not (str_eq c.scenario_id id)) db.abort_codes;
    }

-- fs.rm with `force`; what it throws is ignored.
unfoldable pub remove_files : List BundleAttachment → Mem → Mem
remove_files [] mem = mem
remove_files (a ∷ as_) mem = remove_files as_ (remove_blob (local_name a.blob_ref) mem)

unfoldable pub delete_draft : String → String → M (Unit {0})
unfolding has_bundle
delete_draft user_id id = do
  scenario ← get user_id id
  require (state_eq scenario.state ScenarioState.draft) (bad_request "cannot delete scenario")
  atts ←
      gets (λ db. find_many (λ (a : BundleAttachment). has_bundle id db a.bundle_id) db.attachments)
  modify (delete_scenario id)
  remember (remove_files atts)
  record_event (
      user_entry user_id id "scenario.deleted" (
        object (
          field "name" (text scenario.name) (field "attachmentCount" (integer (length atts)) end))))

unfoldable pub usable_code : String → String → ℕ → AbortCode → Bool
usable_code user_id id now c =
    str_eq c.user_id user_id
    && (str_eq c.scenario_id id && (not (is_some c.used_at) && ltb now c.expires_at))

unfoldable pub burn_code : String → ℕ → Db → Db
burn_code code_id now db = record db {
  abort_codes =
      update_many (λ (c : AbortCode). str_eq c.id code_id) (λ c. record c { used_at = some now })
        db.abort_codes;
}

abbrev pub abort_key : ScenarioState → Option String
abort_key ScenarioState.grace_period = some "abort_grace"
abort_key ScenarioState.escalation_in_progress = some "disarm_escalation"
abort_key ScenarioState.incident_pending = some "disarm_escalation"
abort_key _ = none

unfoldable pub abort_in_transaction : Scenario → String → M (Unit {0})
abort_in_transaction scenario code_id = do
  now ← clock
  modify (burn_code code_id now)
  key ←
      or_throw (abort_key scenario.state)
        (bad_request "abort only valid during incident/escalation/grace")
  transition scenario.id key (record no_extra { aborted_at = some now }) >>= λ _. pure tt

unfoldable pub abort : String → String → String → M (Unit {0})
abort user_id id abort_code = do
  scenario ← get user_id id
  now ← clock
  verifies ← ask (λ env. env.argon2_verify)
  matched ← gets (λ db.
      find_first (λ (c : AbortCode). verifies c.code_hash abort_code)
        (find_many (usable_code user_id id now) db.abort_codes))
  code ← or_throw matched (forbidden "invalid abort code")
  transaction (abort_in_transaction scenario code.id)
  record_event (
      user_entry user_id id "release.canceled" (
        object (
          field "fromState" (text (state_text scenario.state))
            (field "reason" (text "abort_code") end))))
