-- ===== src/Contacts/Bundles.antt =====
-- bundles/bundles.service.ts and messages/messages.service.ts: bundles and messages.
use dead_switch.Common.{
  ℕ, String, ◌&&◌, List, [], ◌∷◌, ◌++◌, Option, none, some, ltb, str_eq, template, find_first,
  find_many, count_where, update_many,
}
use dead_switch.Schema.{
  Scenario, ReleaseBundle, BundleRecipient, BundleMessage, not_found, forbidden,
}
use dead_switch.World.{Db}
use dead_switch.Effect.{M, pure, ◌>>=◌, ◌>>◌, gets, ask, modify, fresh, require, or_throw}
use dead_switch.Crypto.Envelope.{EnvelopedPayload, seal}
use dead_switch.Attachments.Service.{require_bundle}

unfoldable pub require_scenario : String → String → M Scenario
require_scenario user_id scenario_id = do
  found ← gets (λ db.
      find_first (λ (s : Scenario). str_eq s.id scenario_id && str_eq s.user_id user_id)
        db.scenarios)
  or_throw found not_found

unfoldable pub list_bundles : String → String → M (List ReleaseBundle)
list_bundles user_id scenario_id = do
  scenario ← require_scenario user_id scenario_id
  gets (λ db. find_many (λ b. str_eq b.scenario_id scenario_id) db.bundles)

abbrev max_bundles_or : Option ℕ → ℕ
max_bundles_or none = 10
max_bundles_or (some n) = n

unfoldable pub set_bundles : (List ReleaseBundle → List ReleaseBundle) → Db → Db
set_bundles f db = record db { bundles = f db.bundles }

unfoldable pub create_bundle : String → String → M ReleaseBundle
create_bundle user_id scenario_id = do
  scenario ← require_scenario user_id scenario_id
  max_bundles ← ask (λ env. max_bundles_or env.config.max_bundles_per_scenario)
  count ←
      gets (λ db. count_where (λ (b : ReleaseBundle). str_eq b.scenario_id scenario_id) db.bundles)
  require (ltb count max_bundles) (forbidden "bundle limit reached")
  id ← fresh
  let bundle : ReleaseBundle = record { id = id; scenario_id = scenario_id; messages = [] }
  modify (set_bundles (λ bs. bs ++ bundle ∷ []))
  pure bundle

abbrev max_recipients_or : Option ℕ → ℕ
max_recipients_or none = 25
max_recipients_or (some n) = n

unfoldable pub set_recipients : (List BundleRecipient → List BundleRecipient) → Db → Db
set_recipients f db = record db { recipients = f db.recipients }

unfoldable pub add_recipient : String → String → String → String → M BundleRecipient
add_recipient user_id bundle_id recipient_kind address = do
  bundle ← require_bundle user_id bundle_id
  max_recipients ← ask (λ env. max_recipients_or env.config.max_recipients_per_bundle)
  count ←
      gets (λ db. count_where (λ (r : BundleRecipient). str_eq r.bundle_id bundle_id) db.recipients)
  require (ltb count max_recipients) (forbidden "recipient limit reached")
  id ← fresh
  let recipient : BundleRecipient = record {
    id = id;
    bundle_id = bundle.id;
    recipient_kind = recipient_kind;
    address = address;
  }
  modify (set_recipients (λ rs. rs ++ recipient ∷ []))
  pure recipient

abbrev message_row :
    String → String → Option String → String → Option String → EnvelopedPayload → BundleMessage
message_row id bundle_id recipient_id channel subject sealed = record {
  id = id;
  bundle_id = bundle_id;
  recipient_id = recipient_id;
  channel = channel;
  subject = subject;
  message_ciphertext = sealed.ciphertext;
  message_nonce = sealed.nonce;
  message_dek_wrapped = sealed.wrapped_dek;
}

abbrev with_message : BundleMessage → ReleaseBundle → ReleaseBundle
with_message m b = record b { messages = b.messages ++ m ∷ [] }

-- The identifier is the one of the associated data, which binds the message to its bundle. The last
-- step counts the draw, so that the next message draws another one.
unfoldable pub ingest :
    String → String → Option String → String → Option String → String → M BundleMessage
ingest user_id bundle_id recipient_id channel subject plaintext = do
  bundle ← require_bundle user_id bundle_id
  serial ← gets (λ db. db.serial)
  message_id ← ask (λ env. env.crypto.random_text serial)
  bytes ← ask (λ env. env.crypto.utf8 plaintext)
  sealed ← seal bytes (template (bundle.id ∷ "|" ∷ message_id ∷ "|" ∷ channel ∷ []))
  let row = message_row message_id bundle.id recipient_id channel subject sealed
  modify
      (set_bundles (update_many (λ (b : ReleaseBundle). str_eq b.id bundle.id) (with_message row)))
  next_draw ← fresh
  pure row
