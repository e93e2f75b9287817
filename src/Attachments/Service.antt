-- ===== src/Attachments/Service.antt =====
-- attachments/attachments.service.ts and the check of bundles/bundles.service.ts that it begins with:
-- files that a user adds to a bundle. The files on disk are the `blobs` of the memory.
use text.Mathlib.Text.{starts_with}
use Prim.Native.String.{len, slice}
use dead_switch.Common.{
  ℕ, String, Bool, not, ◌&&◌, List, [], ◌∷◌, ◌++◌, Option, none, some, is_some, ltb, ◌==◌, str_eq,
  template, find_first, find_many, if◌then◌else◌,
}
use dead_switch.Schema.{Scenario, ReleaseBundle, BundleAttachment, not_found, bad_request, plain}
use dead_switch.World.{Db, Mem}
use dead_switch.Effect.{
  M, pure, ◌>>=◌, ◌>>◌, gets, ask, recall, remember, modify, fresh, require, or_throw,
}
use dead_switch.Crypto.Envelope.{EnvelopedPayload, seal}
use dead_switch.Attachments.Mime.{sanitize_filename, sniff_mime, build_attachment_aad_v2}
use dead_switch.Attachments.Token.{print_attachment_blob}

pub record UploadedAttachmentFile : Type 0 where
  pub buffer : List ℕ
  pub original_name : String
  pub mimetype : String
  pub size : ℕ

unfoldable pub bundle_by_id : String → Db → Option ReleaseBundle
bundle_by_id id db = find_first (λ b. str_eq b.id id) db.bundles

abbrev pub owns : String → Db → ReleaseBundle → Bool
owns user_id db b = is_some (
    find_first (λ (s : Scenario). str_eq s.id b.scenario_id && str_eq s.user_id user_id)
      db.scenarios)

unfoldable pub require_bundle : String → String → M ReleaseBundle
require_bundle user_id bundle_id = do
  found ← gets (bundle_by_id bundle_id)
  bundle ← or_throw found not_found
  owned ← gets (λ db. owns user_id db bundle)
  require owned not_found
  pure bundle

unfoldable pub list_attachments : String → String → M (List BundleAttachment)
list_attachments user_id bundle_id = do
  bundle ← require_bundle user_id bundle_id
  gets (λ db. find_many (λ a. str_eq a.bundle_id bundle_id) db.attachments)

-- The file of a name, as readFile finds it.
unfoldable pub blob_named : String → List (String × List ℕ) → Option (List ℕ)
blob_named name [] = none
blob_named name ((n, b) ∷ bs) = if str_eq n name then some b else blob_named name bs

unfoldable pub append_blob : String → List ℕ → Mem → Mem
append_blob name blob mem = record mem { blobs = (name, blob) ∷ mem.blobs }

unfoldable pub without_blob : String → List (String × List ℕ) → List (String × List ℕ)
without_blob name [] = []
without_blob name ((n, b) ∷ bs) =
    let rest = without_blob name bs in if str_eq n name then rest else (n, b) ∷ rest

-- writeFile with the flag `wx`, which refuses a file that is there.
unfoldable pub write_blob : String → List ℕ → M (Unit {0})
unfolding blob_named
write_blob name blob = do
  there ← recall (λ mem. blob_named name mem.blobs)
  require (not (is_some there)) (plain "EEXIST: file already exists")
  remember (append_blob name blob)

abbrev pub max_bytes_or : Option ℕ → ℕ
max_bytes_or none = 10485760
max_bytes_or (some n) = n

abbrev pub or_null : String → Option String
or_null t = if str_eq t "" then none else some t

abbrev pub blob_name : String → String
blob_name attachment_id = template (attachment_id ∷ ".bin" ∷ [])

abbrev pub stored_row :
    String → String → String → ℕ → String → Option String → String → BundleAttachment
stored_row id bundle_id hash size mime_type client_mime display_filename = record {
  id = id;
  bundle_id = bundle_id;
  blob_ref = template ("local:" ∷ blob_name id ∷ []);
  ciphertext_hash = hash;
  size_bytes = size;
  mime_type = mime_type;
  client_mime_type = client_mime;
  display_filename = display_filename;
  encryption_mode = "action_envelope";
  aad_version = 2;
}

unfoldable pub append_attachment : BundleAttachment → Db → Db
append_attachment a db = record db { attachments = db.attachments ++ a ∷ [] }

-- The file is written before its row.
unfoldable pub store_sealed :
    String
    → String
    → UploadedAttachmentFile
    → String
    → String
    → EnvelopedPayload
    → M BundleAttachment
store_sealed id bundle_id file mime_type display_filename sealed = do
  blob ←
      or_throw
        (print_attachment_blob (record {
          nonce = sealed.nonce;
          wrapped_dek = sealed.wrapped_dek;
          ciphertext = sealed.ciphertext;
        }))
        (plain "ERR_OUT_OF_RANGE")
  write_blob (blob_name id) blob
  hash ← ask (λ env. env.crypto.sha256_hex sealed.ciphertext)
  client_mime ← ask (λ env. or_null (env.slice file.mimetype 0 200))
  let row = stored_row id bundle_id hash file.size mime_type client_mime display_filename
  modify (append_attachment row)
  pure row

unfoldable pub upload : String → String → UploadedAttachmentFile → M BundleAttachment
upload user_id bundle_id file = do
  bundle ← require_bundle user_id bundle_id
  require (not (file.size == 0)) (bad_request "file is empty")
  max_bytes ← ask (λ env. max_bytes_or env.config.max_attachment_bytes)
  require (not (ltb max_bytes file.size)) (bad_request "file exceeds max bytes")
  id ← fresh
  display_filename ← ask (λ env. sanitize_filename env file.original_name)
  let mime_type = sniff_mime file.buffer
  sealed ← seal file.buffer (build_attachment_aad_v2 bundle.id id mime_type display_filename)
  store_sealed id bundle.id file mime_type display_filename sealed

-- What follows `local:`.
abbrev pub local_name : String → Option String
local_name ref = if starts_with ref "local:" then some (slice ref 6 (len ref)) else none

unfoldable pub remove_row : String → List BundleAttachment → List BundleAttachment
remove_row id [] = []
remove_row id (a ∷ as_) = let rest = remove_row id as_ in if str_eq a.id id then rest else a ∷ rest

abbrev pub remove_blob : Option String → Mem → Mem
remove_blob none mem = mem
remove_blob (some name) mem = record mem { blobs = without_blob name mem.blobs }

unfoldable pub remove : String → String → String → M (Unit {0})
unfolding remove_row without_blob
remove user_id bundle_id attachment_id = do
  bundle ← require_bundle user_id bundle_id
  found ← gets (λ db.
      find_first
        (λ (a : BundleAttachment). str_eq a.id attachment_id && str_eq a.bundle_id bundle_id)
        db.attachments)
  row ← or_throw found not_found
  modify (λ db. record db { attachments = remove_row row.id db.attachments })
  remember (remove_blob (local_name row.blob_ref))

-- readBlob of the issuer and of the download.
unfoldable pub read_blob : String → M (List ℕ)
unfolding blob_named
read_blob ref = do
  name ← or_throw (local_name ref) (plain "unsupported blobRef scheme")
  found ← recall (λ mem. blob_named name mem.blobs)
  or_throw found (plain "ENOENT: no such file or directory")
