-- ===== src/Attachments/Delivered.antt =====
-- A file from AttachmentsService.upload to the download (attachments/attachments.service.ts,
-- attachments/attachment-download.service.ts).
use dead_switch.Common.{
  ℕ, suc, ◌≡◌, refl, sym, ap, subst, ◌∙◌, String, List, some, is_some, inl, inr, Bool-cases,
  Option-cases, ltb, ◌==◌, str_eq, str_eq_refl, length,
}
use dead_switch.Schema.{BundleAttachment, ReleaseBundle}
use dead_switch.World.{World}
use dead_switch.Effect.{
  M, done, pure, throw, ◌>>=◌, gets, ask, recall, remember, modify, fresh, require, or_throw,
  >>=-eq-done,
}
use dead_switch.Crypto.Kms.{mock_wrap, mock_unwrap, wrap}
use dead_switch.Crypto.Envelope.{EnvelopedPayload, encrypt, seal}
use dead_switch.Attachments.Mime.{sanitize_filename, sniff_mime, build_attachment_aad_v2}
use dead_switch.Attachments.Token.{
  AttachmentBlob, parsed, parse_attachment_blob, print_attachment_blob,
}
use dead_switch.Attachments.Service.{
  UploadedAttachmentFile, bundle_by_id, owns, require_bundle, max_bytes_or, or_null, blob_name,
  blob_named, append_blob, write_blob, stored_row, append_attachment, store_sealed, upload,
}
use dead_switch.Attachments.Issuer.{IssueArgs, token_row}
use dead_switch.Attachments.Download.{open_file}
use dead_switch.Attachments.Sealed.{Sound, sealed_blob, open_file-delivers}

-- What follows the checks.
upload_tail : ReleaseBundle → UploadedAttachmentFile → M BundleAttachment
upload_tail bundle file = do
  id ← fresh
  display_filename ← ask (λ env. sanitize_filename env file.original_name)
  let mime_type = sniff_mime file.buffer
  sealed ← seal file.buffer (build_attachment_aad_v2 bundle.id id mime_type display_filename)
  store_sealed id bundle.id file mime_type display_filename sealed

upload-checked :
    (user_id bundle_id : String) (file : UploadedAttachmentFile) (w : World)
    {att : BundleAttachment} {w' : World}
    → upload user_id bundle_id file w ≡ done att w'
    → (b : ReleaseBundle) × (upload_tail b file w ≡ done att w')
unfolding upload upload_tail require_bundle ◌>>=◌ gets ask require or_throw throw pure
upload-checked user_id bundle_id file w h = elim (Option-cases (bundle_by_id bundle_id w.db)) [
  | inl n ↦ let k = (rw n at h) in cc
  | inr (b, found) ↦ elim (Bool-cases (owns user_id w.db b)) [
    | inr n ↦ let k = (rw (found, n) at h) in cc
    | inl own ↦ elim (Bool-cases (file.size == 0)) [
      | inl z ↦ let k = (rw (found, own, z) at h) in cc
      | inr some_bytes ↦
          elim (Bool-cases (ltb (max_bytes_or w.env.config.max_attachment_bytes) file.size)) [
            | inl big ↦ let k = (rw (found, own, some_bytes, big) at h) in cc
            | inr fits ↦ (b, rw (found, own, some_bytes, fits) at h)
          ]
    ]
  ]
]

-- The draws of `seal`.
abbrev drawn : World → ℕ → ℕ → List ℕ
drawn w i n = w.env.crypto.random_bytes w.db.serial i n

abbrev sealed_in : World → List ℕ → String → EnvelopedPayload
sealed_in w plaintext aad = record {
  ciphertext = encrypt w.env.crypto (drawn w 0 32) (drawn w 1 12) aad plaintext;
  nonce = drawn w 1 12;
  wrapped_dek = mock_wrap w.env.crypto w.env.config.kms_master_key (drawn w 2 12) (drawn w 0 32);
}

seal-done :
    (plaintext : List ℕ) (aad : String) (w : World) {s : EnvelopedPayload} {w' : World}
    → seal plaintext aad w ≡ done s w'
    → seal plaintext aad w ≡ done (sealed_in w plaintext aad) w
unfolding seal wrap ◌>>=◌ gets ask require throw pure
seal-done plaintext aad w h =
    elim (Bool-cases (str_eq w.env.config.process_role "release-worker")) [
      | inl y ↦ let k = (rw y at h) in cc
      | inr n ↦ elim (Bool-cases (str_eq w.env.config.kms_mode "mock")) [
        | inr m ↦ let k = (rw (n, m) at h) in cc
        | inl m ↦ rw (n, m) refl
      ]
    ]

-- The file is on disk under the name of its row.
store_sealed-done :
    (id bundle_id : String) (file : UploadedAttachmentFile) (mime_type name : String)
    (sealed : EnvelopedPayload) (w : World) {att : BundleAttachment} {w' : World}
    → store_sealed id bundle_id file mime_type name sealed w ≡ done att w'
    → (blob : List ℕ) × (print_attachment_blob (record {
      nonce = sealed.nonce;
      wrapped_dek = sealed.wrapped_dek;
      ciphertext = sealed.ciphertext;
    })
        ≡ some blob)
      × (blob_named (blob_name id) w'.mem.blobs ≡ some blob)
      × (stored_row id bundle_id
            (w.env.crypto.sha256_hex sealed.ciphertext)
            file.size
            mime_type
            (or_null (w.env.slice file.mimetype 0 200))
            name
          ≡ att)
unfolding store_sealed write_blob ◌>>=◌ gets ask recall remember modify require or_throw throw pure
    append_blob blob_named
store_sealed-done id bundle_id file mime_type name sealed w {att} {w'} h =
    let layout : AttachmentBlob = record {
      nonce = sealed.nonce;
      wrapped_dek = sealed.wrapped_dek;
      ciphertext = sealed.ciphertext;
    } in
    elim (Option-cases (print_attachment_blob layout)) [
      | inl n ↦ let k = (rw n at h) in cc
      | inr (blob, printed) ↦ elim (Bool-cases (is_some (blob_named (blob_name id) w.mem.blobs))) [
        | inl y ↦ let k = (rw (printed, y) at h) in cc
        | inr n ↦
            let k = (rw (printed, n) at h) in
            let row =
              stored_row id bundle_id (w.env.crypto.sha256_hex sealed.ciphertext) file.size
                mime_type (or_null (w.env.slice file.mimetype 0 200)) name in
            let after : World = record w {
              db = append_attachment row w.db;
              mem = append_blob (blob_name id) blob w.mem;
            } in
            let last : after ≡ w' = cc in
            let there : blob_named (blob_name id) after.mem.blobs ≡ some blob =
              rw (str_eq_refl (blob_name id)) refl in
            (
              blob,
              printed,
              ap (λ (x : World). blob_named (blob_name id) x.mem.blobs) (sym last) ∙ there,
              cc,
            )
      ]
    ]

-- The world after the identifier was handed out.
abbrev next : World → World
next w = record w { db = record w.db { serial = suc w.db.serial } }

-- What the upload has written, for the keys that it drew.
upload_tail-done :
    (b : ReleaseBundle) (file : UploadedAttachmentFile) (w : World) {att : BundleAttachment}
    {w' : World}
    → upload_tail b file w ≡ done att w'
    → (blob : List ℕ) × (print_attachment_blob (
          sealed_blob w.env att file.buffer
            (drawn (next w) 0 32)
            (drawn (next w) 1 12)
            (drawn (next w) 2 12))
        ≡ some blob)
      × (blob_named (blob_name att.id) w'.mem.blobs ≡ some blob)
      × (att.aad_version ≡ 2)
unfolding upload_tail ◌>>=◌ fresh ask
upload_tail-done b file w {att} {w'} h =
    let id = w.env.uuid w.db.serial in
    let name = sanitize_filename w.env file.original_name in
    let mime = sniff_mime file.buffer in
    let aad = build_attachment_aad_v2 b.id id mime name in
    let (s, v, first, rest) =
      >>=-eq-done (seal file.buffer aad) (store_sealed id b.id file mime name) (next w) h in
    let sealed = seal-done file.buffer aad (next w) first in
    let whole : store_sealed id b.id file mime name (sealed_in (next w) file.buffer aad) (next w)
        ≡ done att w' =
      (rw sealed at h) in
    let (blob, printed, there, row) = store_sealed-done id b.id file mime name _ (next w) whole in
    subst
      (λ (x : BundleAttachment).
        (blob : List ℕ) × (print_attachment_blob (
            sealed_blob w.env x file.buffer (drawn (next w) 0 32) (drawn (next w) 1 12)
              (drawn (next w) 2 12))
          ≡ some blob)
        × (blob_named (blob_name x.id) w'.mem.blobs ≡ some blob)
        × (x.aad_version ≡ 2))
      row (blob, printed, there, refl)

pub upload-delivers :
    (user_id bundle_id : String) (file : UploadedAttachmentFile) (args : IssueArgs)
    (raw_token id : String) (salt token_nonce : List ℕ) (expires_at : ℕ) (w : World)
    {att : BundleAttachment} {w' : World}
    → Sound w.env.crypto
    → ((serial i n : ℕ) → length (w.env.crypto.random_bytes serial i n) ≡ n)
    → upload user_id bundle_id file w ≡ done att w'
    → (blob : List ℕ) × (b : AttachmentBlob) × (dek : List ℕ) × (blob_named
          (blob_name att.id)
          w'.mem.blobs
        ≡ some blob)
      × (parse_attachment_blob blob ≡ parsed b)
      × (mock_unwrap w.env.crypto w.env.config.kms_master_key b.wrapped_dek ≡ some dek)
      × (open_file w.env raw_token att.id
            (token_row w.env id att args raw_token dek salt token_nonce expires_at)
            att
            b
          ≡ some file.buffer)
upload-delivers user_id bundle_id file args raw_token id salt token_nonce expires w {att} {w'} sound
      lengths h =
    let (bundle, tail) = upload-checked user_id bundle_id file w h in
    let (blob, printed, there, two) = upload_tail-done bundle file w tail in
    let dek = drawn (next w) 0 32 in
    let (b, reads, unwraps, opens) =
      open_file-delivers w.env sound att args raw_token id file.buffer dek (drawn (next w) 1 12)
        (drawn (next w) 2 12) salt token_nonce blob expires two (lengths (suc w.db.serial) 2 12)
        printed in
    (blob, b, dek, there, reads, unwraps, opens)
