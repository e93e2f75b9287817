-- ===== src/Crypto/Envelope.antt =====
-- crypto/envelope.service.ts: a payload under a key of its own, which the KMS wraps.
use dead_switch.Common.{
  ℕ, ◌+◌, ◌-◌, String, List, ◌++◌, Option, leb, length, take, drop, if◌then◌else◌,
}
use dead_switch.Schema.{plain}
use dead_switch.World.{Crypto}
use dead_switch.Effect.{M, pure, ◌>>=◌, gets, ask, or_throw}
use dead_switch.Crypto.Kms.{wrap, unwrap}

pub record EnvelopedPayload : Type 0 where
  pub ciphertext : List ℕ
  pub nonce : List ℕ
  pub wrapped_dek : List ℕ

-- AES-256-GCM, with the tag behind the body.
unfoldable pub encrypt : Crypto → List ℕ → List ℕ → String → List ℕ → List ℕ
encrypt c key nonce aad plaintext =
    c.gcm_body key nonce (c.utf8 aad) plaintext ++ c.gcm_tag key nonce (c.utf8 aad) plaintext

-- The start of subarray(length - 16): a negative start counts from the end.
unfoldable pub tag_start : ℕ → ℕ
tag_start n = if leb 16 n then n - 16 else n + n - 16

unfoldable pub decrypt : Crypto → List ℕ → List ℕ → String → List ℕ → Option (List ℕ)
unfolding tag_start
decrypt c key nonce aad sealed =
    let k = tag_start (length sealed) in
    c.gcm_open key nonce (c.utf8 aad) (take k sealed) (drop k sealed)

-- Three draws: the key, the nonce and the iv of the wrapping.
unfoldable pub seal : List ℕ → String → M EnvelopedPayload
seal plaintext aad = do
  serial ← gets (λ db. db.serial)
  dek ← ask (λ env. env.crypto.random_bytes serial 0 32)
  nonce ← ask (λ env. env.crypto.random_bytes serial 1 12)
  ciphertext ← ask (λ env. encrypt env.crypto dek nonce aad plaintext)
  iv ← ask (λ env. env.crypto.random_bytes serial 2 12)
  wrapped_dek ← wrap iv dek
  pure (record { ciphertext = ciphertext; nonce = nonce; wrapped_dek = wrapped_dek })

unfoldable pub open_payload : EnvelopedPayload → String → M (List ℕ)
open_payload payload aad = do
  dek ← unwrap payload.wrapped_dek
  opened ← ask (λ env. decrypt env.crypto dek payload.nonce aad payload.ciphertext)
  or_throw opened (plain "Unsupported state or unable to authenticate data")
