-- ===== src/Crypto/Kms.antt =====
-- crypto/kms.service.ts: data keys are wrapped by the API and unwrapped by the release worker.
use dead_switch.Common.{ℕ, not, List, [], ◌++◌, Option, str_eq, template, ◌∷◌, take, drop}
use dead_switch.Schema.{plain}
use dead_switch.World.{Crypto}
use dead_switch.Effect.{M, ◌>>=◌, ◌>>◌, ask, require, or_throw}

-- iv, tag and ciphertext, one after the other; there is no associated data.
unfoldable pub mock_wrap : Crypto → List ℕ → List ℕ → List ℕ → List ℕ
mock_wrap c master_key iv dek =
    iv ++ (c.gcm_tag master_key iv [] dek ++ c.gcm_body master_key iv [] dek)

unfoldable pub mock_unwrap : Crypto → List ℕ → List ℕ → Option (List ℕ)
mock_unwrap c master_key wrapped =
    c.gcm_open master_key (take 12 wrapped) [] (drop 28 wrapped) (take 16 (drop 12 wrapped))

unfoldable pub wrap : List ℕ → List ℕ → M (List ℕ)
wrap iv dek = do
  role ← ask (λ env. env.config.process_role)
  require (not (str_eq role "release-worker")) (plain "KMS policy: release-worker may not encrypt")
  mode ← ask (λ env. env.config.kms_mode)
  require (str_eq mode "mock")
      (plain "AWS KMS wrap not implemented (stub). See AWS_KMS_ACTION_KEY_ENCRYPT_ARN.")
  ask (λ env. mock_wrap env.crypto env.config.kms_master_key iv dek)

unfoldable pub unwrap : List ℕ → M (List ℕ)
unwrap wrapped = do
  role ← ask (λ env. env.config.process_role)
  require (str_eq role "release-worker")
      (plain (template ("KMS policy: role=" ∷ role ∷ " may not decrypt action payloads" ∷ [])))
  mode ← ask (λ env. env.config.kms_mode)
  require (str_eq mode "mock")
      (plain "AWS KMS unwrap not implemented (stub). See AWS_KMS_ACTION_KEY_DECRYPT_ARN.")
  opened ← ask (λ env. mock_unwrap env.crypto env.config.kms_master_key wrapped)
  or_throw opened (plain "Unsupported state or unable to authenticate data")
