-- ===== src/Attachments/Sealed.antt =====
-- The cryptography of a file on its way (attachments/attachments.service.ts,
-- attachments/attachment-release-issuer.service.ts, attachments/attachment-download.service.ts).
use dead_switch.Common.{
  ℕ, ◌+◌, ◌≤◌, ◌≡◌, sym, ap, ◌∙◌, String, true, List, [], ◌++◌, some, arith, leb, length, take,
  drop, take-append, drop-append, drop-add, length-append, if◌then◌else◌,
}
use dead_switch.Schema.{BundleAttachment}
use dead_switch.World.{Crypto, Env}
use dead_switch.Crypto.Kms.{mock_wrap, mock_unwrap}
use dead_switch.Crypto.Envelope.{encrypt, decrypt, tag_start}
use dead_switch.Attachments.Mime.{
  build_attachment_aad, build_attachment_aad_v1, build_attachment_aad_v2,
}
use dead_switch.Attachments.Token.{
  AttachmentBlob, parsed, derive_kek, seal_aad, seal_dek, open_dek, parse_attachment_blob,
  print_attachment_blob,
}
use dead_switch.Attachments.Issuer.{IssueArgs, token_row}
use dead_switch.Attachments.Download.{and_then, open_file}
use dead_switch.Attachments.Layout.{parse_attachment_blob-print}

-- AES-GCM: a body as long as the text, a tag of sixteen bytes, and what was sealed opens.
pub record Sound (c : Crypto) : Type 0 where
  pub opens :
      (key nonce aad text : List ℕ)
      → c.gcm_open key nonce aad (c.gcm_body key nonce aad text) (c.gcm_tag key nonce aad text)
        ≡ some text
  pub tag_length : (key nonce aad text : List ℕ) → length (c.gcm_tag key nonce aad text) ≡ 16
  pub body_length :
      (key nonce aad text : List ℕ) → length (c.gcm_body key nonce aad text) ≡ length text

module _ (c : Crypto) (sound : Sound c) where
  split_tag : (body tag : List ℕ) → length tag ≡ 16 → tag_start (length (body ++ tag)) ≡ length body
  unfolding tag_start
  split_tag body tag h = ground (arith, length-append body tag)

  -- What `encrypt` seals, `decrypt` opens.
  pub decrypt-encrypt :
      (key nonce : List ℕ) (aad : String) (text : List ℕ)
      → decrypt c key nonce aad (encrypt c key nonce aad text) ≡ some text
  unfolding decrypt encrypt
  decrypt-encrypt key nonce aad text =
      let body = c.gcm_body key nonce (c.utf8 aad) text in
      let tag = c.gcm_tag key nonce (c.utf8 aad) text in
      let start = split_tag body tag (sound.tag_length key nonce (c.utf8 aad) text) in
      let whole = body ++ tag in
      let p : take (tag_start (length whole)) whole ≡ body =
        ap (λ n. take n whole) start ∙ take-append body tag in
      let q : drop (tag_start (length whole)) whole ≡ tag =
        ap (λ n. drop n whole) start ∙ drop-append body tag in
      (λ i. c.gcm_open key nonce (c.utf8 aad) (p i) (q i)) ∙ sound.opens key nonce (c.utf8 aad) text

  -- What the API wraps, the release worker unwraps.
  pub mock_unwrap-mock_wrap :
      (key iv dek : List ℕ) → length iv ≡ 12 → mock_unwrap c key (mock_wrap c key iv dek) ≡ some dek
  unfolding mock_unwrap mock_wrap
  mock_unwrap-mock_wrap key iv dek h =
      let body = c.gcm_body key iv [] dek in
      let tag = c.gcm_tag key iv [] dek in
      let all = iv ++ (tag ++ body) in
      let t = sound.tag_length key iv [] dek in
      let first : take 12 all ≡ iv = ap (λ n. take n all) (sym h) ∙ take-append iv (tag ++ body) in
      let after : drop 12 all ≡ tag ++ body =
        ap (λ n. drop n all) (sym h) ∙ drop-append iv (tag ++ body) in
      let middle : take 16 (drop 12 all) ≡ tag =
        ap (take 16) after ∙ (ap (λ n. take n (tag ++ body)) (sym t) ∙ take-append tag body) in
      let last : drop 28 all ≡ body =
        drop-add 12 16 all
        ∙ (ap (drop 16) after ∙ (ap (λ n. drop n (tag ++ body)) (sym t) ∙ drop-append tag body)) in
      (λ i. c.gcm_open key (first i) [] (last i) (middle i)) ∙ sound.opens key iv [] dek

  pub open_dek-seal_dek :
      (dek kek nonce : List ℕ) (index id : String)
      → open_dek c (seal_dek c dek kek nonce index id) nonce kek index id ≡ some dek
  unfolding open_dek seal_dek
  open_dek-seal_dek dek kek nonce index id = decrypt-encrypt kek nonce (seal_aad index id) dek

length-encrypt :
    (c : Crypto)
    → Sound c
    → (key nonce : List ℕ) (aad : String) (text : List ℕ)
    → length (encrypt c key nonce aad text) ≡ length text + 16
unfolding encrypt
length-encrypt c sound key nonce aad text = omega (
  arith,
  length-append (c.gcm_body key nonce (c.utf8 aad) text) (c.gcm_tag key nonce (c.utf8 aad) text),
  sound.body_length key nonce (c.utf8 aad) text,
  sound.tag_length key nonce (c.utf8 aad) text,
)

-- What `upload` hands to the layout, as `upload-delivers` shows.
abbrev pub sealed_blob : Env → BundleAttachment → List ℕ → List ℕ → List ℕ → List ℕ → AttachmentBlob
sealed_blob env att file dek nonce iv = record {
  nonce = nonce;
  wrapped_dek = mock_wrap env.crypto env.config.kms_master_key iv dek;
  ciphertext =
      encrypt env.crypto dek nonce
        (build_attachment_aad_v2 att.bundle_id att.id att.mime_type att.display_filename) file;
}

open_file-token_row :
    (env : Env)
    → Sound env.crypto
    → (att : BundleAttachment) (args : IssueArgs) (raw_token id : String)
      (file dek nonce iv salt token_nonce : List ℕ) (expires_at : ℕ)
    → att.aad_version ≡ 2
    → open_file env raw_token att.id
        (token_row env id att args raw_token dek salt token_nonce expires_at)
        att
        (sealed_blob env att file dek nonce iv)
      ≡ some file
unfolding open_file token_row build_attachment_aad
open_file-token_row env sound att args raw_token id file dek nonce iv salt token_nonce expires v =
    let c = env.crypto in
    let index = c.hmac_hex env.config.pepper raw_token in
    let kek = derive_kek c raw_token salt env.config.pepper in
    let aad = build_attachment_aad_v2 att.bundle_id att.id att.mime_type att.display_filename in
    let text = encrypt c dek nonce aad file in
    let two : leb 2 att.aad_version ≡ true = ground (arith, v) in
    (λ i. and_then (open_dek-seal_dek c sound dek kek token_nonce index att.id i) (λ k.
      decrypt c k nonce (if two i then aad else build_attachment_aad_v1 att.bundle_id att.id) text))
    ∙ decrypt-encrypt c sound dek nonce aad file

-- The layout of a sealed file, read back, unwrapped and opened.
pub open_file-delivers :
    (env : Env)
    → Sound env.crypto
    → (att : BundleAttachment) (args : IssueArgs) (raw_token id : String)
      (file dek nonce iv salt token_nonce blob : List ℕ) (expires_at : ℕ)
    → att.aad_version ≡ 2
    → length iv ≡ 12
    → print_attachment_blob (sealed_blob env att file dek nonce iv) ≡ some blob
    → (b : AttachmentBlob) × (parse_attachment_blob blob ≡ parsed b)
      × (mock_unwrap env.crypto env.config.kms_master_key b.wrapped_dek ≡ some dek)
      × (open_file env raw_token att.id
            (token_row env id att args raw_token dek salt token_nonce expires_at)
            att
            b
          ≡ some file)
open_file-delivers env sound att args raw_token id file dek nonce iv salt token_nonce blob expires v
      l printed =
    let aad = build_attachment_aad_v2 att.bundle_id att.id att.mime_type att.display_filename in
    let room : 16 ≤ length (encrypt env.crypto dek nonce aad file) =
      omega (arith, length-encrypt env.crypto sound dek nonce aad file) in
    (
      sealed_blob env att file dek nonce iv,
      parse_attachment_blob-print (sealed_blob env att file dek nonce iv) blob printed room,
      mock_unwrap-mock_wrap env.crypto sound env.config.kms_master_key iv dek l,
      open_file-token_row env sound att args raw_token id file dek nonce iv salt token_nonce expires
          v,
    )
