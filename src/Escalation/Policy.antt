-- ===== src/Escalation/Policy.antt =====
-- packages/shared/src/escalation.ts, and the providers that a rung of the ladder calls.
use dead_switch.Common.{ℕ, String, List, [], ◌∷◌, Option, none, some}
use dead_switch.Schema.{Values, Fields, nil, cons, integer, text, object, end, field}
use dead_switch.Effect.{M}

pub data StepKind : Type 0 where
  push sms call contact_alert : StepKind

pub record EscalationStep : Type 0 where
  pub kind : StepKind
  pub wait_seconds : ℕ
  pub retries : Option ℕ

abbrev step : StepKind → ℕ → Option ℕ → EscalationStep
step kind wait_seconds retries = record {
  kind = kind;
  wait_seconds = wait_seconds;
  retries = retries;
}

abbrev pub default_escalation : List EscalationStep
default_escalation =
    step push 600 none
    ∷ step sms 1800 none
    ∷ step call 900 (some 2)
    ∷ step contact_alert 0 none
    ∷ []

abbrev pub kind_text : StepKind → String
kind_text push = "push"
kind_text sms = "sms"
kind_text call = "call"
kind_text contact_alert = "contact_alert"

abbrev retries_field : Option ℕ → Fields
retries_field none = end
retries_field (some n) = field "retries" (integer n) end

abbrev pub steps_values : List EscalationStep → Values
steps_values [] = nil
steps_values (s ∷ ss) =
    cons
      (object (
        field "kind" (text (kind_text s.kind))
          (field "waitSeconds" (integer s.wait_seconds) (retries_field s.retries))))
      (steps_values ss)

-- The methods of SmsProvider, VoiceProvider and EmailProvider that the ladder calls.
pub record Notifier : Type 0 where
  pub sms_send : String → String → String → M (Unit {0})
  pub voice_call : String → String → String → M (Unit {0})
  pub email_send : String → String → String → String → M (Unit {0})
