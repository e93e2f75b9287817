-- ===== src/Admin/Kinds.antt =====
-- admin/admin.service.ts: the tables over the kinds of request.
use dead_switch.Common.{Bool, true, false, ◌&&◌, ◌||◌, Option, none, some}
use dead_switch.Schema.{AdminRequestKind, AdminParams, SafetyModeKind, mode_eq}
use dead_switch.Safety.Capability.{
  Capability, admin_pause_provider, admin_resume_provider, admin_exit_protective_mode,
  admin_drain_releases, admin_force_unlock_release,
}

unfoldable pub dual_control : AdminRequestKind → Bool
dual_control AdminRequestKind.enter_mode = false
dual_control AdminRequestKind.exit_mode = false
dual_control AdminRequestKind.pause_provider = false
dual_control AdminRequestKind.resume_provider = false
dual_control AdminRequestKind.pause_queue = false
dual_control AdminRequestKind.resume_queue = false
dual_control AdminRequestKind.reduce_concurrency = false
dual_control AdminRequestKind.drain_releases = true
dual_control AdminRequestKind.force_unlock_release = true

unfoldable pub request_capability : AdminRequestKind → Capability
request_capability AdminRequestKind.enter_mode = admin_pause_provider
request_capability AdminRequestKind.exit_mode = admin_exit_protective_mode
request_capability AdminRequestKind.pause_provider = admin_pause_provider
request_capability AdminRequestKind.resume_provider = admin_resume_provider
request_capability AdminRequestKind.pause_queue = admin_pause_provider
request_capability AdminRequestKind.resume_queue = admin_resume_provider
request_capability AdminRequestKind.reduce_concurrency = admin_pause_provider
request_capability AdminRequestKind.drain_releases = admin_drain_releases
request_capability AdminRequestKind.force_unlock_release = admin_force_unlock_release

abbrev pub is_mode : SafetyModeKind → Option SafetyModeKind → Bool
is_mode m none = false
is_mode m (some n) = mode_eq n m

abbrev pub is_exit : AdminRequestKind → Bool
is_exit AdminRequestKind.exit_mode = true
is_exit _ = false

unfoldable pub requires_dual_control : AdminRequestKind → AdminParams → Bool
unfolding dual_control
requires_dual_control kind params =
    dual_control kind
    || (is_exit kind
        && (is_mode SafetyModeKind.normal params.to_mode
            && (is_mode SafetyModeKind.audit_compromised params.from_mode
                || is_mode SafetyModeKind.emergency_freeze params.from_mode)))
