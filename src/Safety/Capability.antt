-- ===== src/Safety/Capability.antt =====
-- The capabilities of safety/capability-matrix.ts, in the order of CAPABILITIES.
pub data Capability : Type 0 where
  scenario_arm scenario_state_mutation_user : Capability
  release_begin release_continue_batch release_enqueue : Capability
  vault_decrypt : Capability
  provider_email_send provider_sms_send provider_voice_call provider_social_send : Capability
  recipient_access_existing recipient_issue_link : Capability
  attachment_issue_link attachment_access : Capability
  audit_mutation : Capability
  admin_exit_protective_mode admin_pause_provider admin_resume_provider : Capability
  admin_drain_releases admin_force_unlock_release : Capability
