-- ===== src/Schema/Rows.antt =====
-- The rows of the tables, one record for each model of apps/api/prisma/schema.prisma. Texts are
-- `String`, instants are milliseconds since the epoch, and a nullable column is an `Option`.
use dead_switch.Common.{ℕ, String, Bool, List, Option}
use dead_switch.Schema.Enums.{
  ScenarioState, ReleaseActionState, ReleaseState, AuditActor, SafetyModeKind, CircuitState,
  CheckinResult, UserStatus, AdminRequestKind, AdminRequestStatus,
}
use dead_switch.Schema.Json.{Value}

pub record User : Type 0 where
  pub id : String
  pub display_name : String
  pub email : String
  pub status : UserStatus
  pub password_hash : String
  pub phone_e164 : Option String
  pub cooldown_until : Option ℕ

pub record Scenario : Type 0 where
  pub id : String
  pub user_id : String
  pub name : String
  pub description : Option String
  pub state : ScenarioState
  pub expected_duration_seconds : Option ℕ
  pub auto_expire_at : Option ℕ
  pub checkin_interval_seconds : ℕ
  pub grace_period_seconds : ℕ
  pub armed_at : Option ℕ
  pub aborted_at : Option ℕ
  pub released_at : Option ℕ
  pub incident_opened_at : Option ℕ

pub record Checkin : Type 0 where
  pub id : String
  pub scenario_id : String
  pub due_at : ℕ
  pub performed_at : Option ℕ
  pub method : Option String
  pub result : CheckinResult

pub record EscalationAttempt : Type 0 where
  pub scenario_id : String
  pub step_index : ℕ
  pub channel : String
  pub status : String
  pub attempted_at : ℕ

pub record TrustedContact : Type 0 where
  pub id : String
  pub user_id : String
  pub email : Option String
  pub can_request_pause : Bool
  pub pause_budget_seconds : ℕ
  pub pause_used_seconds : ℕ
  pub max_single_pause_sec : ℕ
  pub pause_request_count : ℕ
  pub pause_cooldown_until : Option ℕ
  pub verified_at : Option ℕ

pub record AbortCode : Type 0 where
  pub id : String
  pub user_id : String
  pub scenario_id : String
  pub code_hash : String
  pub used_at : Option ℕ
  pub expires_at : ℕ

pub record BundleMessage : Type 0 where
  pub id : String
  pub bundle_id : String
  pub recipient_id : Option String
  pub channel : String
  pub subject : Option String
  pub message_ciphertext : List ℕ
  pub message_nonce : List ℕ
  pub message_dek_wrapped : List ℕ

pub record ReleaseBundle : Type 0 where
  pub id : String
  pub scenario_id : String
  pub messages : List BundleMessage

pub record BundleRecipient : Type 0 where
  pub id : String
  pub bundle_id : String
  pub recipient_kind : String
  pub address : String

pub record Release : Type 0 where
  pub id : String
  pub scenario_id : String
  pub state : ReleaseState
  pub trigger_reason : String
  pub completed_at : Option ℕ
  pub canceled_at : Option ℕ
  pub canceled_by : Option String
  pub cancel_reason : Option String

pub record ReleaseAction : Type 0 where
  pub id : String
  pub release_id : String
  pub bundle_id : String
  pub message_id : Option String
  pub recipient_id : String
  pub state : ReleaseActionState
  pub attempts : ℕ
  pub last_attempt_at : Option ℕ
  pub last_error : Option String
  pub provider : Option String
  pub provider_message_id : Option String
  pub provider_status : Option String
  pub provider_status_at : Option ℕ
  pub executed_at : Option ℕ

pub record OutboxEvent : Type 0 where
  pub id : String
  pub queue_name : String
  pub job_name : String
  pub job_id : String
  pub payload : Value
  pub available_at : ℕ
  pub attempts : ℕ
  pub locked_until : Option ℕ
  pub last_error : Option String

pub record AuditEvent : Type 0 where
  pub user_id : String
  pub scenario_id : Option String
  pub chain_scope : String
  pub seq : ℕ
  pub actor : AuditActor
  pub event_type : String
  pub payload_redacted : Value
  pub prev_hash : String
  pub hash : String
  pub occurred_at : ℕ

pub record SafetyMode : Type 0 where
  pub mode : SafetyModeKind
  pub isolated_providers : List String
  pub reason : Option String
  pub entered_by : Option String
  pub entered_at : ℕ
  pub auto_entered : Bool
  pub notes : Option String

pub record SafetyModeTransition : Type 0 where
  pub from : SafetyModeKind
  pub to : SafetyModeKind
  pub reason : String
  pub actor : String
  pub auto_entered : Bool
  pub policy_version : String

pub record ProviderCircuitBreaker : Type 0 where
  pub provider : String
  pub state : CircuitState
  pub failure_count : ℕ
  pub ambiguous_count : ℕ
  pub last_failure_at : Option ℕ
  pub last_success_at : Option ℕ
  pub opened_at : Option ℕ
  pub next_probe_at : Option ℕ
  pub consecutive_probes : ℕ
  pub reason : Option String

pub record OutboundDispatch : Type 0 where
  pub idempotency_key : String
  pub release_action_id : Option String
  pub provider : String
  pub provider_message_id : Option String
  pub status : String
  pub completed_at : Option ℕ
  pub error_message : Option String

pub record Session : Type 0 where
  pub id : String
  pub user_id : String
  pub family_id : String
  pub refresh_token_hash : String
  pub parent_id : Option String
  pub device_id : Option String
  pub user_agent : Option String
  pub ip_hash : Option String
  pub expires_at : ℕ
  pub revoked_at : Option ℕ
  pub revoked_reason : Option String

-- `params`, as executeInTx and requiresDualControl read it: a key that is missing is `none`, and a
-- key that only a template reads is the text that the template gets. `rendered` is the whole object.
pub record AdminParams : Type 0 where
  pub to_mode : Option SafetyModeKind
  pub from_mode : Option SafetyModeKind
  pub force : Bool
  pub reason : Option String
  pub provider : String
  pub queue : String
  pub concurrency : String
  pub release_id : Option String
  pub rendered : Value

pub record AdminRequest : Type 0 where
  pub id : String
  pub kind : AdminRequestKind
  pub params : AdminParams
  pub requested_by : String
  pub approved_by : Option String
  pub approved_at : Option ℕ
  pub rejected_by : Option String
  pub rejected_at : Option ℕ
  pub executed_at : Option ℕ
  pub expires_at : ℕ
  pub status : AdminRequestStatus
  pub reason : String
  pub state_hash : String
  pub policy_version : String
  pub approval_nonce : String

pub record TrustedContactGrant : Type 0 where
  pub contact_id : String
  pub bundle_id : String
  pub kind : String

pub record BundleAttachment : Type 0 where
  pub id : String
  pub bundle_id : String
  pub blob_ref : String
  pub ciphertext_hash : String
  pub size_bytes : ℕ
  pub mime_type : String
  pub client_mime_type : Option String
  pub display_filename : String
  pub encryption_mode : String
  pub aad_version : ℕ

pub record AttachmentAccessToken : Type 0 where
  pub id : String
  pub attachment_id : String
  pub recipient_id : String
  pub release_id : String
  pub release_action_id : Option String
  pub bundle_id : String
  pub token_index : String
  pub token_hash : String
  pub kdf_salt : List ℕ
  pub sealed_dek : List ℕ
  pub sealed_dek_nonce : List ℕ
  pub max_uses : ℕ
  pub uses : ℕ
  pub expires_at : ℕ
  pub first_used_at : Option ℕ
  pub last_used_at : Option ℕ
  pub revoked_at : Option ℕ

pub record RecipientAccessToken : Type 0 where
  pub id : String
  pub vault_item_id : String
  pub recipient_id : String
  pub token_index : String
  pub token_hash : String
  pub access_code_hash : Option String
  pub max_uses : ℕ
  pub uses : ℕ
  pub expires_at : ℕ
  pub first_used_at : Option ℕ
  pub last_used_at : Option ℕ
  pub revoked_at : Option ℕ

-- The DEK of a vault item, sealed by its owner for one recipient.
pub record RecipientVaultUnwrap : Type 0 where
  pub recipient_id : String
  pub sealing_mode : String
  pub sealed_dek : List ℕ
  pub sealing_salt : Option (List ℕ)
  pub sealing_params : Option Value

pub record PrivateVaultItem : Type 0 where
  pub id : String
  pub bundle_id : String
  pub ciphertext_blob_ref : String
  pub nonce : List ℕ
  pub recipient_unwraps : List RecipientVaultUnwrap

pub record AuditExport : Type 0 where
  pub chain_scope : String
  pub exported_up_to_seq : ℕ
  pub last_exported_at : Option ℕ
