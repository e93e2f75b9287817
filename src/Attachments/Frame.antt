-- ===== src/Attachments/Frame.antt =====
-- The tokens through the services that a download calls (attachments/attachment-download.service.ts).
use dead_switch.Common.{◌≡◌, refl, ◌∙◌, String}
use dead_switch.Schema.{AuditEvent, SafetyMode, Error}
use dead_switch.Effect.{modify}
use dead_switch.Effect.Steps.{Preorder, Steps, Steps-modify, Steps-pure, Steps-throw, steps_rules}
use dead_switch.Audit.Service.{Entry, append_audit, record_event}
use dead_switch.Safety.Capability.{Capability}
use dead_switch.Safety.Mode.{set_mode, assert}
use dead_switch.Safety.Steady.{assert-Steps as assert-frame}
use dead_switch.Attachments.Service.{read_blob}
use dead_switch.Attachments.Token.{AttachmentBlob, ParseResult, parsed, malformed}
use dead_switch.Attachments.Issuer.{parse_or_throw}
use dead_switch.Attachments.Download.{Access, fail_phase, check_hash, deliver_file}

unfoldable pub tokens : Preorder
tokens = record {
  rel = λ d e. e.attachment_tokens ≡ d.attachment_tokens;
  reflexive = λ d. refl;
  transitive = λ a b c p q. q ∙ p;
  serial_free = λ d n. refl;
}

append_audit-Steps : (r : AuditEvent) → Steps tokens (modify (append_audit r))
unfolding append_audit tokens
append_audit-Steps r = Steps-modify _ λ d. refl

set_mode-Steps : (row : SafetyMode) → Steps tokens (modify (set_mode row))
unfolding set_mode tokens
set_mode-Steps row = Steps-modify _ λ d. refl

pub record_event-Steps : (e : Entry) → Steps tokens (record_event e)
unfolding record_event
record_event-Steps e = search (steps_rules, append_audit-Steps) depth 12

pub assert-Steps : (c : Capability) → Steps tokens (assert c)
assert-Steps = assert-frame tokens set_mode-Steps

fail_phase-Steps :
    {A : Type 0} (access : Access) (id phase message : String) (e : Error)
    → Steps tokens (fail_phase {A = A} access id phase message e)
unfolding fail_phase
fail_phase-Steps access id phase message e = search (steps_rules, record_event-Steps) depth 10

parse_or_throw-Steps : (r : ParseResult) → Steps tokens (parse_or_throw r)
unfolding parse_or_throw
parse_or_throw-Steps (parsed b) = Steps-pure b
parse_or_throw-Steps (malformed m) = Steps-throw _

read_blob-Steps : (ref : String) → Steps tokens (read_blob ref)
unfolding read_blob
read_blob-Steps ref = search steps_rules depth 8

check_hash-Steps :
    (access : Access) (id : String) (b : AttachmentBlob) → Steps tokens (check_hash access id b)
unfolding check_hash
check_hash-Steps access id b = search (steps_rules, record_event-Steps) depth 10

pub deliver_file-Steps :
    (access : Access) (raw id : String) → Steps tokens (deliver_file access raw id)
unfolding deliver_file
deliver_file-Steps access raw id =
    search
      (
        steps_rules, record_event-Steps, fail_phase-Steps, parse_or_throw-Steps, read_blob-Steps,
        check_hash-Steps,
      )
      depth 20
