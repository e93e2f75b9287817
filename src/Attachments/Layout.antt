-- ===== src/Attachments/Layout.antt =====
-- The layout of a stored file: what AttachmentsService.upload writes is what parseAttachmentBlob
-- reads (attachments/attachments.service.ts and attachments/attachment-token-crypto.ts).
use Prim.Native.Nat.{◌%◌}
use dead_switch.Common.{
  ◌/◌, drop-add, ℕ, ◌+◌, ◌-◌, ◌≤◌, ◌≡◌, refl, sym, ap, ◌∙◌, false, List, [], ◌∷◌, ◌++◌, inl, inr,
  Bool-cases, arith, ltb, length, take, drop, take-append, drop-append, length-append, some,
  some_inj, Option-cases,
}
use dead_switch.Attachments.Token.{
  AttachmentBlob, parsed, read_u16, write_u16, parse_ciphertext, parse_attachment_blob, blob_of,
  print_attachment_blob,
}

unfoldable pub bytes_of : ℕ → List ℕ → List ℕ
bytes_of n rest = n / 256 ∷ n % 256 ∷ rest

read_u16-bytes_of : (n : ℕ) (rest : List ℕ) → read_u16 (bytes_of n rest) ≡ n
unfolding read_u16 bytes_of
read_u16-bytes_of n rest = omega arith

module _ (nonce dek text : List ℕ) where
  unfoldable pub tail_of : List ℕ
  tail_of = bytes_of (length dek) (dek ++ text)

  unfoldable pub whole : List ℕ
  whole = bytes_of (length nonce) (nonce ++ tail_of)

  length-whole : length whole ≡ 2 + length nonce + 2 + length dek + length text
  unfolding whole tail_of bytes_of
  length-whole = omega (arith, length-append nonce tail_of, length-append dek text)

  drop-nonce : drop (2 + length nonce) whole ≡ tail_of
  unfolding whole bytes_of drop
  drop-nonce = drop-add 2 (length nonce) whole ∙ drop-append nonce tail_of

  drop-header : drop (2 + length nonce + 2) whole ≡ dek ++ text
  unfolding tail_of bytes_of drop
  drop-header = drop-add (2 + length nonce) 2 whole ∙ ap (drop 2) drop-nonce

  drop-dek : drop (2 + length nonce + 2 + length dek) whole ≡ text
  drop-dek =
      drop-add (2 + length nonce + 2) (length dek) whole
      ∙ (ap (drop (length dek)) drop-header ∙ drop-append dek text)

  take-nonce : take (2 + length nonce - 2) (drop 2 whole) ≡ nonce
  unfolding whole bytes_of drop
  take-nonce =
      let e : 2 + length nonce - 2 ≡ length nonce = omega arith in
      ap (λ k. take k (nonce ++ tail_of)) e ∙ take-append nonce tail_of

  take-dek : take (length dek) (drop (2 + length nonce + 2) whole) ≡ dek
  take-dek = ap (take (length dek)) drop-header ∙ take-append dek text

  unfoldable pub contents : AttachmentBlob
  contents = record { nonce = nonce; wrapped_dek = dek; ciphertext = text }

  parse_ciphertext-whole :
      16 ≤ length text → parse_ciphertext whole (2 + length nonce) (length dek) ≡ parsed contents
  unfolding parse_ciphertext contents
  parse_ciphertext-whole h =
      let far : ltb (length whole) (2 + length nonce + 2 + length dek + 16) ≡ false =
        ground (arith, length-whole) in
      rw (far, take-nonce, take-dek, drop-dek) refl

  pub parse-whole : 16 ≤ length text → parse_attachment_blob whole ≡ parsed contents
  unfolding parse_attachment_blob
  parse-whole h =
      let first : ltb (length whole) 2 ≡ false = ground (arith, length-whole) in
      let n : read_u16 whole ≡ length nonce =
        unfold whole in read_u16-bytes_of (length nonce) (nonce ++ tail_of) in
      let second : ltb (length whole) (2 + length nonce + 2) ≡ false =
        ground (arith, length-whole) in
      let d : read_u16 (drop (2 + length nonce) whole) ≡ length dek =
        ap read_u16 drop-nonce ∙ (unfold tail_of in read_u16-bytes_of (length dek) (dek ++ text)) in
      rw (first, n, second, d) (parse_ciphertext-whole h)

write_u16-eq-some : (n : ℕ) (bs : List ℕ) → write_u16 n ≡ some bs → bytes_of n [] ≡ bs
unfolding write_u16 bytes_of
write_u16-eq-some n bs h = elim (Bool-cases (ltb n 65536)) [
  | inl y ↦ let k = (rw y at h) in cc
  | inr k ↦ let j = (rw k at h) in cc
]

print_attachment_blob-eq-some :
    (b : AttachmentBlob) (blob : List ℕ)
    → print_attachment_blob b ≡ some blob
    → whole b.nonce b.wrapped_dek b.ciphertext ≡ blob
unfolding print_attachment_blob whole tail_of blob_of bytes_of
print_attachment_blob-eq-some b blob h = elim (Option-cases (write_u16 (length b.nonce))) [
  | inl n ↦ let k = (rw n at h) in cc
  | inr (n, e) ↦ elim (Option-cases (write_u16 (length b.wrapped_dek))) [
    | inl m ↦ let k = (rw (e, m) at h) in cc
    | inr (m, f) ↦
        let p = write_u16-eq-some (length b.nonce) n e in
        let q = write_u16-eq-some (length b.wrapped_dek) m f in
        let k = (rw (e, f) at h) in
        (λ i. p i ++ (b.nonce ++ (q i ++ (b.wrapped_dek ++ b.ciphertext)))) ∙ some_inj k
  ]
]

-- A stored file is read back: where both lengths fit into two bytes, so that `upload` writes the
-- layout, and the ciphertext has room for its tag, the download finds the three parts again.
pub parse_attachment_blob-print :
    (b : AttachmentBlob) (blob : List ℕ)
    → print_attachment_blob b ≡ some blob
    → 16 ≤ length b.ciphertext
    → parse_attachment_blob blob ≡ parsed b
unfolding contents
parse_attachment_blob-print b blob h t =
    ap parse_attachment_blob (sym (print_attachment_blob-eq-some b blob h))
    ∙ parse-whole b.nonce b.wrapped_dek b.ciphertext t
