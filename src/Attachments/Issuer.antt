-- ===== src/Attachments/Issuer.antt =====
-- attachments/attachment-release-issuer.service.ts: the release worker issues one link for each file of
-- a bundle, each with a token of its own.
use dead_switch.Common.{
  ℕ, ◌+◌, ◌*◌, String, Bool, ◌&&◌, not, List, [], ◌∷◌, ◌++◌, Option, none, some, is_some, str_eq,
  find_first, find_many,
}
use dead_switch.Schema.{
  AuditActor, BundleAttachment, AttachmentAccessToken, Fields, text, integer, object, end, field,
  Error, plain, unique_violation,
}
use dead_switch.World.{Env, Db}
use dead_switch.Effect.{
  M, pure, throw, ◌>>=◌, ◌>>◌, gets, ask, clock, modify, fresh, require, try_catch,
}
use dead_switch.Audit.Service.{Entry, record_event}
use dead_switch.Safety.Capability.{attachment_issue_link}
use dead_switch.Safety.Mode.{assert}
use dead_switch.Crypto.Kms.{unwrap}
use dead_switch.Attachments.Token.{
  AttachmentBlob, ParseResult, parsed, malformed, parse_attachment_blob, derive_kek, seal_dek,
}
use dead_switch.Attachments.Service.{read_blob}

pub record IssueArgs : Type 0 where
  pub release_id : String
  pub release_action_id : String
  pub bundle_id : String
  pub recipient_id : String
  pub user_id : String
  pub scenario_id : String

pub record IssuedToken : Type 0 where
  pub attachment_id : String
  pub recipient_id : String
  pub raw_token : String
  pub expires_at : ℕ
  pub display_filename : String
  pub mime_type : String
  pub size_bytes : ℕ

abbrev ttl_or : Option ℕ → ℕ
ttl_or none = 604800
ttl_or (some s) = s

abbrev max_uses_or : Option ℕ → ℕ
max_uses_or none = 5
max_uses_or (some n) = n

unfoldable pub parse_or_throw : ParseResult → M AttachmentBlob
parse_or_throw (parsed b) = pure b
parse_or_throw (malformed message) = throw (plain message)

unfoldable pub has_index : String → AttachmentAccessToken → Bool
has_index token_index t = str_eq t.token_index token_index

unfoldable pub set_tokens : (List AttachmentAccessToken → List AttachmentAccessToken) → Db → Db
set_tokens f db = record db { attachment_tokens = f db.attachment_tokens }

-- The row of a token that has just been drawn.
unfoldable pub token_row :
    Env
    → String
    → BundleAttachment
    → IssueArgs
    → String
    → List ℕ
    → List ℕ
    → List ℕ
    → ℕ
    → AttachmentAccessToken
token_row env id att args raw_token plain_dek salt nonce expires_at =
    let index = env.crypto.hmac_hex env.config.pepper raw_token in
    let kek = derive_kek env.crypto raw_token salt env.config.pepper in
    record {
      id = id;
      attachment_id = att.id;
      recipient_id = args.recipient_id;
      release_id = args.release_id;
      release_action_id = some args.release_action_id;
      bundle_id = args.bundle_id;
      token_index = index;
      token_hash = env.argon2_hash raw_token;
      kdf_salt = salt;
      sealed_dek = seal_dek env.crypto plain_dek kek nonce index att.id;
      sealed_dek_nonce = nonce;
      max_uses = max_uses_or env.config.attachment_link_max_uses;
      uses = 0;
      expires_at = expires_at;
      first_used_at = none;
      last_used_at = none;
      revoked_at = none;
    }

-- tokenIndex is unique.
unfoldable pub create_token : AttachmentAccessToken → M (Unit {0})
unfolding has_index
create_token row = do
  taken ← gets (λ db. find_first (has_index row.token_index) db.attachment_tokens)
  require (not (is_some taken)) unique_violation
  modify (set_tokens (λ ts. ts ++ row ∷ []))

unfoldable pub issue_one : BundleAttachment → IssueArgs → M IssuedToken
issue_one att args = do
  blob ← read_blob att.blob_ref
  sealed ← parse_or_throw (parse_attachment_blob blob)
  plain_dek ← unwrap sealed.wrapped_dek
  serial ← gets (λ db. db.serial)
  raw_token ← ask (λ env. env.crypto.random_text serial)
  salt ← ask (λ env. env.crypto.random_bytes serial 0 32)
  nonce ← ask (λ env. env.crypto.random_bytes serial 1 12)
  now ← clock
  ttl ← ask (λ env. ttl_or env.config.attachment_link_ttl_seconds)
  let expires_at = now + ttl * 1000
  id ← fresh
  row ← ask (λ env. token_row env id att args raw_token plain_dek salt nonce expires_at)
  create_token row
  pure (record {
    attachment_id = att.id;
    recipient_id = args.recipient_id;
    raw_token = raw_token;
    expires_at = expires_at;
    display_filename = att.display_filename;
    mime_type = att.mime_type;
    size_bytes = att.size_bytes;
  })

abbrev issuer_entry : IssueArgs → String → Fields → Entry
issuer_entry args event_type payload = record {
  user_id = args.user_id;
  scenario_id = some args.scenario_id;
  actor = AuditActor.release_worker;
  event_type = event_type;
  payload = object payload;
}

abbrev issued_payload : Env → BundleAttachment → IssueArgs → ℕ → Fields
issued_payload env att args expires_at = field "attachmentId" (text att.id) (
    field "recipientId" (text args.recipient_id) (
      field "releaseId" (text args.release_id) (
        field "releaseActionId" (text args.release_action_id) (
          field "expiresAt" (text (env.to_iso_string expires_at)) (
            field "mimeType" (text att.mime_type)
              (field "sizeBytes" (integer att.size_bytes) end))))))

-- `message` is that of the error that is thrown on.
abbrev issue_failed_payload : BundleAttachment → IssueArgs → String → Fields
issue_failed_payload att args message = field "attachmentId" (text att.id) (
    field "recipientId" (text args.recipient_id) (
      field "releaseId" (text args.release_id)
        (field "phase" (text "issue") (field "reason" (text message) end))))

abbrev pub message_of : Error → String
message_of (plain m) = m
message_of e = ""

unfoldable pub issue_and_record : BundleAttachment → IssueArgs → M IssuedToken
issue_and_record att args = do
  tok ← issue_one att args
  env ← ask (λ env. env)
  record_event
      (issuer_entry args "attachment.link_issued" (issued_payload env att args tok.expires_at))
  pure tok

unfoldable pub on_issue_error : BundleAttachment → IssueArgs → Error → M IssuedToken
on_issue_error att args e = do
  message ← ask (λ env. env.slice (message_of e) 0 300)
  record_event
      (issuer_entry args "attachment.decrypt_failed" (issue_failed_payload att args message))
  throw e

unfoldable pub issue_each : List BundleAttachment → IssueArgs → M (List IssuedToken)
unfolding ◌>>=◌ pure
issue_each [] args = pure []
issue_each (att ∷ atts) args =
    try_catch (issue_and_record att args) (on_issue_error att args) >>= λ tok.
    issue_each atts args >>= λ toks. pure (tok ∷ toks)

-- Rows stand in the order of their creation.
unfoldable pub issue_for_action : IssueArgs → M (List IssuedToken)
unfolding issue_each
issue_for_action args = do
  assert attachment_issue_link
  atts ← gets (λ db.
      find_many
        (λ (a : BundleAttachment).
          str_eq a.bundle_id args.bundle_id && str_eq a.encryption_mode "action_envelope")
        db.attachments)
  issue_each atts args
