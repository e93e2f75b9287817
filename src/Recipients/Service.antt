-- ===== src/Recipients/Service.antt =====
-- recipients/recipients.service.ts: the tokens of secure links.
use dead_switch.Common.{
  ℕ, ◌+◌, ◌-◌, ◌*◌, String, Bool, not, ◌&&◌, List, [], ◌∷◌, ◌++◌, Option, none, some, is_some, ltb,
  length, ◌==◌, str_eq, find_first, count_where, update_many, if◌then◌else◌,
}
use dead_switch.Schema.{
  Value, RecipientAccessToken, PrivateVaultItem, RecipientVaultUnwrap, not_found, forbidden, gone,
  unauthorized, unique_violation,
}
use dead_switch.World.{Env, Db}
use dead_switch.Effect.{
  M, pure, throw, ◌>>=◌, ◌>>◌, gets, ask, clock, modify, fresh, require, or_throw,
}
use dead_switch.Safety.Capability.{recipient_access_existing, recipient_issue_link}
use dead_switch.Safety.Mode.{assert}

-- A key of fewer than 32 characters is replaced by its digest.
unfoldable pub hmac_key : Env → Option String → List ℕ
hmac_key env none =
    env.crypto.hex_bytes (env.crypto.sha256_hex (env.crypto.utf8 "deaddrop-dev-hmac"))
hmac_key env (some raw) =
    if ltb (length (env.code_units raw)) 32
    then env.crypto.hex_bytes (env.crypto.sha256_hex (env.crypto.utf8 raw))
    else env.crypto.utf8 raw

unfoldable pub index_of : Env → String → String
index_of env raw_token =
    env.crypto.hmac_hex (hmac_key env env.config.recipient_token_hmac_key) raw_token

pub record LinkArgs : Type 0 where
  pub vault_item_id : String
  pub recipient_id : String
  pub ttl_seconds : ℕ
  pub access_code : Option String
  pub max_uses : Option ℕ

-- An empty access code is none.
abbrev pub given_code : Option String → Option String
given_code none = none
given_code (some c) = if str_eq c "" then none else some c

abbrev hash_code : Env → Option String → Option String
hash_code env none = none
hash_code env (some c) = some (env.argon2_hash c)

abbrev or_three : Option ℕ → ℕ
or_three none = 3
or_three (some n) = n

unfoldable pub has_link : String → RecipientAccessToken → Bool
has_link token_index t = str_eq t.token_index token_index

unfoldable pub find_link : String → Db → Option RecipientAccessToken
unfolding has_link
find_link token_index db = find_first (has_link token_index) db.access_tokens

unfoldable pub set_links : (List RecipientAccessToken → List RecipientAccessToken) → Db → Db
set_links f db = record db { access_tokens = f db.access_tokens }

unfoldable pub link_row : Env → String → LinkArgs → String → ℕ → RecipientAccessToken
link_row env id args raw now = record {
  id = id;
  vault_item_id = args.vault_item_id;
  recipient_id = args.recipient_id;
  token_index = index_of env raw;
  token_hash = env.argon2_hash raw;
  access_code_hash = hash_code env (given_code args.access_code);
  max_uses = or_three args.max_uses;
  uses = 0;
  expires_at = now + args.ttl_seconds * 1000;
  first_used_at = none;
  last_used_at = none;
  revoked_at = none;
}

unfoldable pub issue_access_token : LinkArgs → M String
issue_access_token args = do
  assert recipient_issue_link
  serial ← gets (λ db. db.serial)
  raw ← ask (λ env. env.crypto.random_text serial)
  now ← clock
  id ← fresh
  row ← ask (λ env. link_row env id args raw now)
  taken ← gets (find_link row.token_index)
  require (not (is_some taken)) unique_violation
  modify (set_links (λ ts. ts ++ row ∷ []))
  pure raw

-- What a row that was found has to pass.
unfoldable pub check_link : String → RecipientAccessToken → M RecipientAccessToken
check_link raw_token row = do
  require (not (is_some row.revoked_at)) (gone "token revoked")
  now ← clock
  require (ltb now row.expires_at) (gone "token expired")
  ok ← ask (λ env. env.argon2_verify row.token_hash raw_token)
  require ok not_found
  pure row

unfoldable pub find_active : String → M RecipientAccessToken
find_active raw_token = do
  token_index ← ask (λ env. index_of env raw_token)
  found ← gets (find_link token_index)
  row ← or_throw found not_found
  check_link raw_token row

pub record Description : Type 0 where
  pub expires_at : ℕ
  pub uses_remaining : ℕ
  pub pin_required : Bool

unfoldable pub describe : String → M Description
describe raw_token = do
  assert recipient_access_existing
  row ← find_active raw_token
  pure (record {
    expires_at = row.expires_at;
    uses_remaining = row.max_uses - row.uses;
    pin_required = is_some row.access_code_hash;
  })

unfoldable pub check_code : Option String → Option String → M (Unit {0})
check_code none code = pure tt
check_code (some hash) none = throw (unauthorized "access code required")
check_code (some hash) (some code) = do
  ok ← ask (λ env. env.argon2_verify hash code)
  require ok (unauthorized "access code invalid")

unfoldable pub usable_link : RecipientAccessToken → ℕ → RecipientAccessToken → Bool
usable_link row now t =
    str_eq t.id row.id
    && (ltb t.uses row.max_uses && (not (is_some t.revoked_at) && ltb now t.expires_at))

abbrev or_else : Option ℕ → ℕ → ℕ
or_else none now = now
or_else (some t) now = t

unfoldable pub use_link : RecipientAccessToken → ℕ → RecipientAccessToken → RecipientAccessToken
use_link row now t = record t {
  uses = t.uses + 1;
  first_used_at = some (or_else row.first_used_at now);
  last_used_at = some now;
}

unfoldable pub claim_link : RecipientAccessToken → M (Unit {0})
claim_link row = do
  now ← clock
  n ← gets (λ db. count_where (usable_link row now) db.access_tokens)
  modify (set_links (update_many (usable_link row now) (use_link row now)))
  require (n == 1) (gone "link no longer usable")

pub record Unlocked : Type 0 where
  pub ciphertext_blob_ref : String
  pub nonce_base64 : String
  pub sealing_mode : String
  pub sealed_dek_base64 : String
  pub sealing_salt_base64 : Option String
  pub sealing_params : Option Value

abbrev salt_text : Env → Option (List ℕ) → Option String
salt_text env none = none
salt_text env (some salt) = some (env.base64 salt)

unfoldable pub item_by_id : String → Db → Option PrivateVaultItem
item_by_id id db = find_first (λ (i : PrivateVaultItem). str_eq i.id id) db.vault_items

unfoldable pub unlocked_item : RecipientAccessToken → M Unlocked
unlocked_item row = do
  found ← gets (item_by_id row.vault_item_id)
  item ← or_throw found not_found
  let mine = λ (u : RecipientVaultUnwrap). str_eq u.recipient_id row.recipient_id
  unwrap ←
      or_throw (find_first mine item.recipient_unwraps)
        (forbidden "no recipient unwrap key was configured")
  env ← ask (λ env. env)
  pure (record {
    ciphertext_blob_ref = item.ciphertext_blob_ref;
    nonce_base64 = env.base64 item.nonce;
    sealing_mode = unwrap.sealing_mode;
    sealed_dek_base64 = env.base64 unwrap.sealed_dek;
    sealing_salt_base64 = salt_text env unwrap.sealing_salt;
    sealing_params = unwrap.sealing_params;
  })

unfoldable pub unlock : String → Option String → M Unlocked
unlock raw_token access_code = do
  assert recipient_access_existing
  row ← find_active raw_token
  check_code row.access_code_hash (given_code access_code)
  claim_link row
  unlocked_item row

unfoldable pub revoke_link_row : ℕ → RecipientAccessToken → RecipientAccessToken
revoke_link_row now t = record t { revoked_at = some now }

unfoldable pub revoke_link : String → M (Unit {0})
unfolding has_link
revoke_link raw_token = do
  token_index ← ask (λ env. index_of env raw_token)
  now ← clock
  modify (set_links (update_many (has_link token_index) (revoke_link_row now)))
