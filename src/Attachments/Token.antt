-- ===== src/Attachments/Token.antt =====
-- attachments/attachment-token-crypto.ts: the layout of a stored file and the key of a link.
use Prim.Native.Nat.{◌%◌}
use dead_switch.Common.{
  ℕ, ◌+◌, ◌*◌, ◌/◌, String, Bool, true, false, ◌&&◌, List, [], ◌∷◌, ◌++◌, Option, none, some, ltb,
  ◌==◌, ◌-◌, template, length, take, drop, if◌then◌else◌,
}
use dead_switch.World.{Env, Crypto}
use dead_switch.Crypto.Envelope.{encrypt, decrypt}

-- The info and the length of the output are fixed, and left to `hkdf`.
unfoldable pub derive_kek : Crypto → String → List ℕ → List ℕ → List ℕ
derive_kek c raw_token salt pepper = c.hkdf (c.utf8 raw_token ++ pepper) salt

abbrev pub seal_aad : String → String → String
seal_aad token_index attachment_id =
    template ("attach-tok|v1|" ∷ token_index ∷ "|" ∷ attachment_id ∷ [])

unfoldable pub seal_dek : Crypto → List ℕ → List ℕ → List ℕ → String → String → List ℕ
unfolding encrypt
seal_dek c plain_dek kek nonce token_index attachment_id =
    encrypt c kek nonce (seal_aad token_index attachment_id) plain_dek

unfoldable pub open_dek : Crypto → List ℕ → List ℕ → List ℕ → String → String → Option (List ℕ)
unfolding decrypt
open_dek c sealed nonce kek token_index attachment_id =
    decrypt c kek nonce (seal_aad token_index attachment_id) sealed

pub record AttachmentBlob : Type 0 where
  pub nonce : List ℕ
  pub wrapped_dek : List ℕ
  pub ciphertext : List ℕ

pub data ParseResult : Type 0 where
  parsed : AttachmentBlob → ParseResult
  malformed : String → ParseResult

-- readUInt16BE at the start of a list that holds two bytes.
unfoldable pub read_u16 : List ℕ → ℕ
read_u16 [] = 0
read_u16 (a ∷ []) = 0
read_u16 (a ∷ b ∷ rest) = a * 256 + b

unfoldable pub parse_ciphertext : List ℕ → ℕ → ℕ → ParseResult
parse_ciphertext blob nonce_end dek_len =
    let dek_start = nonce_end + 2 in
    let dek_end = dek_start + dek_len in
    if ltb (length blob) (dek_end + 16)
    then malformed "attachment blob: truncated ciphertext"
    else parsed (record {
      nonce = take (nonce_end - 2) (drop 2 blob);
      wrapped_dek = take dek_len (drop dek_start blob);
      ciphertext = drop dek_end blob;
    })

unfoldable pub parse_attachment_blob : List ℕ → ParseResult
unfolding read_u16 parse_ciphertext
parse_attachment_blob blob =
    if ltb (length blob) 2
    then malformed "attachment blob: truncated header"
    else (let nonce_end = 2 + read_u16 blob in
        if ltb (length blob) (nonce_end + 2)
        then malformed "attachment blob: truncated dek header"
        else parse_ciphertext blob nonce_end (read_u16 (drop nonce_end blob)))

-- writeUInt16BE, which throws where the number does not fit.
unfoldable pub write_u16 : ℕ → Option (List ℕ)
write_u16 n = if ltb n 65536 then some (n / 256 ∷ n % 256 ∷ []) else none

unfoldable pub equal_bytes : List ℕ → List ℕ → Bool
equal_bytes [] [] = true
equal_bytes [] (y ∷ ys) = false
equal_bytes (x ∷ xs) [] = false
equal_bytes (x ∷ xs) (y ∷ ys) = x == y && equal_bytes xs ys

unfoldable pub timing_safe_hex_equal : Env → String → String → Bool
unfolding equal_bytes
timing_safe_hex_equal env a b =
    length (env.code_units a) == length (env.code_units b)
    && equal_bytes (env.crypto.hex_bytes a) (env.crypto.hex_bytes b)

-- Buffer.concat of the layout, as `upload` writes it.
unfoldable pub blob_of : List ℕ → List ℕ → List ℕ → List ℕ → List ℕ → List ℕ
blob_of nonce_len nonce dek_len wrapped_dek ciphertext =
    nonce_len ++ (nonce ++ (dek_len ++ (wrapped_dek ++ ciphertext)))

abbrev pub with_lengths : Option (List ℕ) → Option (List ℕ) → AttachmentBlob → Option (List ℕ)
with_lengths none m b = none
with_lengths (some n) none b = none
with_lengths (some n) (some m) b = some (blob_of n b.nonce m b.wrapped_dek b.ciphertext)

unfoldable pub print_attachment_blob : AttachmentBlob → Option (List ℕ)
unfolding write_u16 blob_of
print_attachment_blob b =
    with_lengths (write_u16 (length b.nonce)) (write_u16 (length b.wrapped_dek)) b
