-- ===== src/World.antt =====
-- The state that the services share: the database, the memory of one process, and what the
-- process takes from outside (clock, configuration, cryptography, formatting of JSON leaves).
use dead_switch.Common.{ℕ, String, Bool, List, Option}
use dead_switch.Schema.{
  User, Scenario, Checkin, EscalationAttempt, TrustedContact, AbortCode, ReleaseBundle,
  BundleRecipient, Release, ReleaseAction, OutboxEvent, AuditEvent, SafetyMode,
  SafetyModeTransition, ProviderCircuitBreaker, OutboundDispatch, Session, AdminRequest,
  TrustedContactGrant, BundleAttachment, AttachmentAccessToken, RecipientAccessToken,
  PrivateVaultItem, AuditExport, Value,
}

-- node:crypto on buffers, which are lists of bytes. The random functions take the number of
-- identifiers handed out so far and, with it, the number of the draw within one call.
pub record Crypto : Type 0 where
  pub random_bytes : ℕ → ℕ → ℕ → List ℕ
  pub random_text : ℕ → String
  pub gcm_body : List ℕ → List ℕ → List ℕ → List ℕ → List ℕ
  pub gcm_tag : List ℕ → List ℕ → List ℕ → List ℕ → List ℕ
  pub gcm_open : List ℕ → List ℕ → List ℕ → List ℕ → List ℕ → Option (List ℕ)
  pub hkdf : List ℕ → List ℕ → List ℕ
  pub hmac_hex : List ℕ → String → String
  pub sha256_hex : List ℕ → String
  pub utf8 : String → List ℕ
  pub hex_bytes : String → List ℕ

-- The configuration, as the ConfigService answers it.
pub record Config : Type 0 where
  pub process_role : String
  pub kms_mode : String
  pub kms_master_key : List ℕ
  pub pepper : List ℕ
  pub account_cooldown_seconds : Option ℕ
  pub jwt_refresh_ttl : Option ℕ
  pub session_cache_ttl : ℕ
  pub attachment_link_ttl_seconds : Option ℕ
  pub attachment_link_max_uses : Option ℕ
  pub max_attachment_bytes : Option ℕ
  pub max_bundles_per_scenario : Option ℕ
  pub max_recipients_per_bundle : Option ℕ
  pub recipient_token_hmac_key : Option String

-- What is not code of the repository. `json_column` is what a JSONB column gives back of a value.
pub record Env : Type 0 where
  pub to_iso_string : ℕ → String
  pub parse_date : String → ℕ
  pub uuid : ℕ → String
  pub sha256 : String → String
  pub json_string : String → String
  pub number_text : ℕ → String
  pub base64 : List ℕ → String
  pub argon2_verify : String → String → Bool
  pub random_code : ℕ → String
  pub argon2_hash : String → String
  pub min_grace_period_seconds : Option ℕ
  pub max_scenarios_per_user : Option ℕ
  pub policy_version : String
  pub json_column : Value → Value
  pub slice : String → ℕ → ℕ → String
  pub jwt_sign : String → String → String → String
  pub code_units : String → List ℕ
  pub of_code_units : List ℕ → String
  pub crypto : Crypto
  pub config : Config

-- One list for each table; `serial` counts the identifiers handed out.
pub record Db : Type 0 where
  pub users : List User
  pub scenarios : List Scenario
  pub checkins : List Checkin
  pub attempts : List EscalationAttempt
  pub contacts : List TrustedContact
  pub abort_codes : List AbortCode
  pub bundles : List ReleaseBundle
  pub recipients : List BundleRecipient
  pub releases : List Release
  pub actions : List ReleaseAction
  pub outbox : List OutboxEvent
  pub audit : List AuditEvent
  pub safety_mode : Option SafetyMode
  pub mode_transitions : List SafetyModeTransition
  pub breakers : List ProviderCircuitBreaker
  pub dispatches : List OutboundDispatch
  pub sessions : List Session
  pub requests : List AdminRequest
  pub grants : List TrustedContactGrant
  pub attachments : List BundleAttachment
  pub attachment_tokens : List AttachmentAccessToken
  pub access_tokens : List RecipientAccessToken
  pub vault_items : List PrivateVaultItem
  pub exports : List AuditExport
  pub serial : ℕ

-- What SessionCacheService keeps in Redis for a session, until it expires.
pub record CachedSession : Type 0 where
  pub user_id : String
  pub family_id : String
  pub revoked : Bool
  pub until : ℕ

-- A job that was handed to BullMQ.
pub record Job : Type 0 where
  pub queue : String
  pub job_name : String
  pub job_id : String
  pub payload : Value
  pub delay : ℕ

-- What no transaction of the database rolls back: SafetyModeService's cache,
-- CircuitBreakerService's windows of timestamps, the entries and jobs in Redis, the files on disk.
pub record Mem : Type 0 where
  pub cached : Option SafetyMode
  pub last_fetch_at : ℕ
  pub in_mem_failures : List (String × List ℕ)
  pub in_mem_ambiguous : List (String × List ℕ)
  pub session_cache : List (String × CachedSession)
  pub jobs : List Job
  pub blobs : List (String × List ℕ)

-- `now` is what `Date.now()` answers. The clock stands still while one handler runs, and is moved
-- freely between two handlers.
pub record World : Type 0 where
  pub env : Env
  pub now : ℕ
  pub db : Db
  pub mem : Mem
