-- ===== src/Safety/Matrix.antt =====
-- safety/capability-matrix.ts and safety/safety-policy.ts: which capability is allowed in which mode.
use dead_switch.Common.{String, Bool, true, false, if◌then◌else◌}
use dead_switch.Schema.{SafetyModeKind}
use dead_switch.Safety.Capability.{
  Capability, scenario_arm, scenario_state_mutation_user, release_begin, release_continue_batch,
  release_enqueue, vault_decrypt, provider_email_send, provider_sms_send, provider_voice_call,
  provider_social_send, recipient_access_existing, recipient_issue_link, attachment_issue_link,
  attachment_access, audit_mutation, admin_exit_protective_mode, admin_pause_provider,
  admin_resume_provider, admin_drain_releases, admin_force_unlock_release,
}

-- The texts of CAPABILITIES.
abbrev pub capability_text : Capability → String
capability_text scenario_arm = "scenario.arm"
capability_text scenario_state_mutation_user = "scenario.state_mutation_user"
capability_text release_begin = "release.begin"
capability_text release_continue_batch = "release.continue_batch"
capability_text release_enqueue = "release.enqueue"
capability_text vault_decrypt = "vault.decrypt"
capability_text provider_email_send = "provider.email_send"
capability_text provider_sms_send = "provider.sms_send"
capability_text provider_voice_call = "provider.voice_call"
capability_text provider_social_send = "provider.social_send"
capability_text recipient_access_existing = "recipient.access_existing"
capability_text recipient_issue_link = "recipient.issue_link"
capability_text attachment_issue_link = "attachment.issue_link"
capability_text attachment_access = "attachment.access"
capability_text audit_mutation = "audit.mutation"
capability_text admin_exit_protective_mode = "admin.exit_protective_mode"
capability_text admin_pause_provider = "admin.pause_provider"
capability_text admin_resume_provider = "admin.resume_provider"
capability_text admin_drain_releases = "admin.drain_releases"
capability_text admin_force_unlock_release = "admin.force_unlock_release"

-- One row of MATRIX: a column for each SafetyModeKind.
pub record MatrixRow : Type 0 where
  pub normal : Bool
  pub degraded : Bool
  pub release_restricted : Bool
  pub audit_compromised : Bool
  pub emergency_freeze : Bool

abbrev row : Bool → Bool → Bool → Bool → Bool → MatrixRow
row n d r a e = record {
  normal = n;
  degraded = d;
  release_restricted = r;
  audit_compromised = a;
  emergency_freeze = e;
}

unfoldable pub matrix : Capability → MatrixRow
matrix scenario_arm = row true true true false false
matrix scenario_state_mutation_user = row true true true false false
matrix release_begin = row true true false false false
matrix release_continue_batch = row true true true false false
matrix release_enqueue = row true true true false false
matrix vault_decrypt = row true true true false false
matrix provider_email_send = row true true true false false
matrix provider_sms_send = row true true true false false
matrix provider_voice_call = row true true true false false
matrix provider_social_send = row true true false false false
matrix recipient_access_existing = row true true true true false
matrix recipient_issue_link = row true true true false false
matrix attachment_issue_link = row true true true false false
matrix attachment_access = row true true true true false
matrix audit_mutation = row true true true false false
matrix admin_exit_protective_mode = row true true true true true
matrix admin_pause_provider = row true true true true true
matrix admin_resume_provider = row true true true false false
matrix admin_drain_releases = row true true true true true
matrix admin_force_unlock_release = row true true true false false

unfoldable pub column : SafetyModeKind → MatrixRow → Bool
column SafetyModeKind.normal r = r.normal
column SafetyModeKind.degraded r = r.degraded
column SafetyModeKind.release_restricted r = r.release_restricted
column SafetyModeKind.audit_compromised r = r.audit_compromised
column SafetyModeKind.emergency_freeze r = r.emergency_freeze

unfoldable pub is_allowed : SafetyModeKind → Capability → Bool
unfolding matrix column
is_allowed mode capability = column mode (matrix capability)

-- { allow: true } | { allow: false; reason }; the reason names the capability and the mode.
pub data PolicyDecision : Type 0 where
  allow : PolicyDecision
  deny : Capability → SafetyModeKind → PolicyDecision

unfoldable pub evaluate : SafetyModeKind → Capability → PolicyDecision
unfolding is_allowed
evaluate mode capability = if is_allowed mode capability then allow else deny capability mode
