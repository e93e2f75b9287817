-- ===== src/Attachments/Download.antt =====
-- attachments/attachment-download.service.ts: a recipient fetches a file with the token of a link.
use dead_switch.Common.{
  ℕ, ◌+◌, String, Bool, not, ◌&&◌, List, Option, none, some, is_some, ltb, leb, ◌==◌, str_eq,
  find_first, count_where, update_many, if◌then◌else◌,
}
use dead_switch.Schema.{
  AuditActor, Scenario, BundleAttachment, AttachmentAccessToken, Fields, text, integer, object, end,
  field, Error, not_found, forbidden, gone, plain,
}
use dead_switch.World.{Env, Db}
use dead_switch.Effect.{M, pure, throw, ◌>>=◌, ◌>>◌, gets, ask, clock, modify, or_throw, try_catch}
use dead_switch.Audit.Service.{Entry, record_event}
use dead_switch.Safety.Capability.{attachment_access}
use dead_switch.Safety.Mode.{assert}
use dead_switch.Crypto.Envelope.{decrypt}
use dead_switch.Attachments.Mime.{build_attachment_aad}
use dead_switch.Attachments.Token.{
  AttachmentBlob, parse_attachment_blob, derive_kek, open_dek, timing_safe_hex_equal,
}
use dead_switch.Attachments.Service.{bundle_by_id, read_blob}
use dead_switch.Attachments.Issuer.{has_index, set_tokens, parse_or_throw, message_of}

pub record DownloadResult : Type 0 where
  pub filename : String
  pub mime_type : String
  pub bytes : List ℕ

-- The token with its attachment and the scenario that owns it; the foreign keys make them be there.
pub record Access : Type 0 where
  pub row : AttachmentAccessToken
  pub att : BundleAttachment
  pub user_id : String
  pub scenario_id : String

unfoldable pub find_token : String → Db → Option AttachmentAccessToken
unfolding has_index
find_token token_index db = find_first (has_index token_index) db.attachment_tokens

unfoldable pub load_access : AttachmentAccessToken → M Access
load_access row = do
  att_found ← gets (λ db. find_first (λ a. str_eq a.id row.attachment_id) db.attachments)
  att ← or_throw att_found not_found
  bundle_found ← gets (bundle_by_id att.bundle_id)
  bundle ← or_throw bundle_found not_found
  scenario_found ←
      gets (λ db. find_first (λ (s : Scenario). str_eq s.id bundle.scenario_id) db.scenarios)
  scenario ← or_throw scenario_found not_found
  pure (record { row = row; att = att; user_id = scenario.user_id; scenario_id = scenario.id })

abbrev pub access_entry : Access → String → Fields → Entry
access_entry access event_type payload = record {
  user_id = access.user_id;
  scenario_id = some access.scenario_id;
  actor = AuditActor.system;
  event_type = event_type;
  payload = object payload;
}

unfoldable pub record_denied : Access → String → String → M (Unit {0})
record_denied access attachment_id reason = record_event (
    access_entry access "attachment.access_denied"
      (field "attachmentId" (text attachment_id) (field "reason" (text reason) end)))

abbrev pub token_payload : Access → String → Fields → Fields
token_payload access attachment_id more =
    field "attachmentId" (text attachment_id) (field "tokenId" (text access.row.id) more)

unfoldable pub deny : {A : Type 0} → Access → String → String → Error → M A
deny access attachment_id reason e = do record_denied access attachment_id reason; throw e

unfoldable pub deny_expired : {A : Type 0} → Access → String → M A
deny_expired access attachment_id = do
  record_event (access_entry access "attachment.expired" (token_payload access attachment_id end))
  throw (gone "token expired")

-- The decryption failed in some phase.
unfoldable pub fail_phase : {A : Type 0} → Access → String → String → String → Error → M A
fail_phase access attachment_id phase message e = do
  reason ← ask (λ env. env.slice (message_of e) 0 200)
  record_event (
      access_entry access "attachment.decrypt_failed" (
        token_payload access attachment_id
          (field "phase" (text phase) (field "reason" (text reason) end))))
  throw (gone message)

-- The conditions of the statement that claims a use.
unfoldable pub claimable_token : AttachmentAccessToken → ℕ → AttachmentAccessToken → Bool
claimable_token row now t =
    str_eq t.id row.id
    && (ltb t.uses row.max_uses && (not (is_some t.revoked_at) && ltb now t.expires_at))

abbrev or_now : Option ℕ → ℕ → ℕ
or_now none now = now
or_now (some t) now = t

unfoldable pub use_token : AttachmentAccessToken → ℕ → AttachmentAccessToken → AttachmentAccessToken
use_token row now t = record t {
  uses = t.uses + 1;
  first_used_at = some (or_now row.first_used_at now);
  last_used_at = some now;
}

unfoldable pub claim_use : Access → String → M (Unit {0})
unfolding claimable_token
claim_use access attachment_id = do
  now ← clock
  n ← gets (λ db. count_where (claimable_token access.row now) db.attachment_tokens)
  modify (set_tokens (update_many (claimable_token access.row now) (use_token access.row now)))
  if n == 1 then pure tt else deny access attachment_id "race_lost" (gone "token no longer usable")

-- Up to the claim: each refusal has its event and its error.
unfoldable pub check_token : Access → String → String → M (Unit {0})
check_token access raw_token attachment_id = do
  verified ← ask (λ env. env.argon2_verify access.row.token_hash raw_token)
  now ← clock
  if not verified
      then deny access attachment_id "token_hash_mismatch" not_found
      else if not (str_eq access.row.attachment_id attachment_id)
      then deny access attachment_id "scope_mismatch"
          (forbidden "token not valid for this attachment")
      else if is_some access.row.revoked_at
      then deny access attachment_id "revoked" (gone "token revoked")
      else if not (ltb now access.row.expires_at)
      then deny_expired access attachment_id
      else if leb access.row.max_uses access.row.uses
      then deny access attachment_id "max_uses_exceeded" (gone "token usage exhausted")
      else pure tt

abbrev mismatch_payload : Env → Access → String → String → Fields
mismatch_payload env access attachment_id observed = token_payload access attachment_id (
    field "expectedHashPrefix" (text (env.slice access.att.ciphertext_hash 0 16)) (
      field "observedHashPrefix" (text (env.slice observed 0 16))
        (field "severity" (text "high") end)))

unfoldable pub check_hash : Access → String → AttachmentBlob → M (Unit {0})
check_hash access attachment_id sealed = do
  observed ← ask (λ env. env.crypto.sha256_hex sealed.ciphertext)
  same ← ask (λ env. timing_safe_hex_equal env observed access.att.ciphertext_hash)
  env ← ask (λ env. env)
  if same then pure tt else (do
    record_event (
        access_entry access "attachment.hash_mismatch"
          (mismatch_payload env access attachment_id observed))
    throw (gone "attachment integrity check failed"))

abbrev pub and_then : Option (List ℕ) → (List ℕ → Option (List ℕ)) → Option (List ℕ)
and_then none f = none
and_then (some dek) f = f dek

-- The key of the file, opened with the raw token, and then the file; `none` where either fails.
unfoldable pub open_file :
    Env
    → String
    → String
    → AttachmentAccessToken
    → BundleAttachment
    → AttachmentBlob
    → Option (List ℕ)
open_file env raw_token attachment_id row att sealed =
    let c = env.crypto in
    let index = c.hmac_hex env.config.pepper raw_token in
    let kek = derive_kek c raw_token row.kdf_salt env.config.pepper in
    let aad =
      build_attachment_aad att.aad_version att.bundle_id att.id att.mime_type
        att.display_filename in
    and_then (open_dek c row.sealed_dek row.sealed_dek_nonce kek index attachment_id)
      (λ dek. decrypt c dek sealed.nonce aad sealed.ciphertext)

abbrev downloaded_payload : Access → String → Fields
downloaded_payload access attachment_id = token_payload access attachment_id (
    field "sizeBytes" (integer access.att.size_bytes) (
      field "usesAfter" (integer (access.row.uses + 1))
        (field "maxUses" (integer access.row.max_uses) end)))

unfoldable pub deliver_file : Access → String → String → M DownloadResult
deliver_file access raw_token attachment_id = do
  blob ←
      try_catch (read_blob access.att.blob_ref)
        (fail_phase access attachment_id "blob_read" "attachment unavailable")
  sealed ←
      try_catch (parse_or_throw (parse_attachment_blob blob))
        (fail_phase access attachment_id "parse" "attachment corrupt")
  check_hash access attachment_id sealed
  opened ← ask (λ env. open_file env raw_token attachment_id access.row access.att sealed)
  plaintext ←
      try_catch (or_throw opened (plain "Unsupported state or unable to authenticate data"))
        (fail_phase access attachment_id "decrypt" "decryption failed")
  record_event
      (access_entry access "attachment.downloaded" (downloaded_payload access attachment_id))
  pure (record {
    filename = access.att.display_filename;
    mime_type = access.att.mime_type;
    bytes = plaintext;
  })

unfoldable pub attempt_download : Access → String → String → M DownloadResult
attempt_download access raw_token attachment_id = do
  record_event
      (access_entry access "attachment.access_attempt" (token_payload access attachment_id end))
  check_token access raw_token attachment_id
  claim_use access attachment_id
  deliver_file access raw_token attachment_id

unfoldable pub download : String → String → M DownloadResult
download raw_token attachment_id = do
  assert attachment_access
  index ← ask (λ env. env.crypto.hmac_hex env.config.pepper raw_token)
  found ← gets (find_token index)
  row ← or_throw found not_found
  access ← load_access row
  attempt_download access raw_token attachment_id
