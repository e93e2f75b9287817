-- ===== src/Audit/Lifecycle.antt =====
-- AuditService (audit/audit.service.ts) against the scenario diagram.
use dead_switch.Common.{refl}
use dead_switch.Schema.{AuditEvent}
use dead_switch.Effect.{modify}
use dead_switch.Effect.Steps.{Steps, steps_rules}
use dead_switch.Audit.Service.{Entry, record_event, append_audit}
use dead_switch.State.Lifecycle.{lifecycle, Steps-frame}

append_audit-Steps : (r : AuditEvent) → Steps lifecycle (modify (append_audit r))
unfolding append_audit
append_audit-Steps r = Steps-frame _ (λ d. refl)

pub record_event-Steps : (e : Entry) → Steps lifecycle (record_event e)
unfolding record_event
record_event-Steps e = search (steps_rules, append_audit-Steps) depth 12
