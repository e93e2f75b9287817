-- ===== src/Safety/Severity.antt =====
-- The matrix of safety/capability-matrix.ts, compared from mode to mode.
use dead_switch.Common.{ℕ, ◌≤◌, ◌≡◌, Bool, true, false, arith}
use dead_switch.Schema.{SafetyModeKind}
use dead_switch.Safety.Capability.{
  Capability, release_begin, release_continue_batch, release_enqueue, vault_decrypt,
  provider_email_send, provider_sms_send, provider_voice_call, recipient_issue_link,
  attachment_issue_link, audit_mutation, admin_exit_protective_mode, admin_pause_provider,
  admin_drain_releases,
}
use dead_switch.Safety.Matrix.{matrix, column, is_allowed}

-- The modes in the order of their declaration, the mildest first.
abbrev pub severity : SafetyModeKind → ℕ
severity SafetyModeKind.normal = 0
severity SafetyModeKind.degraded = 1
severity SafetyModeKind.release_restricted = 2
severity SafetyModeKind.audit_compromised = 3
severity SafetyModeKind.emergency_freeze = 4

-- What a mode allows, every milder mode allows.
pub is_allowed-severity :
    (c : Capability) (m n : SafetyModeKind)
    → severity m ≤ severity n
    → is_allowed n c ≡ true
    → is_allowed m c ≡ true
unfolding is_allowed matrix column
is_allowed-severity c m n h a = ground arith

-- The capabilities that a release needs after it has begun.
abbrev pub is_pipeline : Capability → Bool
is_pipeline release_continue_batch = true
is_pipeline release_enqueue = true
is_pipeline vault_decrypt = true
is_pipeline provider_email_send = true
is_pipeline provider_sms_send = true
is_pipeline provider_voice_call = true
is_pipeline recipient_issue_link = true
is_pipeline attachment_issue_link = true
is_pipeline audit_mutation = true
is_pipeline _ = false

-- A mode in which a release may begin allows all that the release needs, and a mode that refuses
-- one of these refuses all of them.
pub is_allowed-pipeline :
    (m : SafetyModeKind) (c d : Capability)
    → is_pipeline c ≡ true
    → is_pipeline d ≡ true
    → (is_allowed m release_begin ≡ true → is_allowed m c ≡ true)
      × (is_allowed m c ≡ is_allowed m d)
unfolding is_allowed matrix column
is_allowed-pipeline m c d pc pd = (λ h. ground arith, ground arith)

-- The capabilities of an operator that no mode takes away.
abbrev pub is_override : Capability → Bool
is_override admin_exit_protective_mode = true
is_override admin_pause_provider = true
is_override admin_drain_releases = true
is_override _ = false

-- A freeze allows three operations of an operator and nothing else, and every mode allows these
-- three.
pub is_allowed-freeze :
    (c : Capability)
    → (is_allowed SafetyModeKind.emergency_freeze c ≡ is_override c)
      × ((m : SafetyModeKind) → is_override c ≡ true → is_allowed m c ≡ true)
unfolding is_allowed matrix column
is_allowed-freeze c = (ground arith, λ m h. ground arith)
