-- ===== src/Providers/Adapter.antt =====
-- providers/provider-adapter.ts: the one way to a provider. The calls of the providers with their
-- rendered bodies, and what the runtime tells of an unknown error, are parameters.
use dead_switch.Common.{
  ℕ, String, Bool, true, false, [], ◌∷◌, ◌++◌, Option, none, some, str_eq, template, if◌then◌else◌,
  find_first, update_many,
}
use dead_switch.Schema.{
  OutboundDispatch, Error, circuit_open, client_error, transient_infra, ambiguous_outcome,
}
use dead_switch.World.{Db}
use dead_switch.Effect.{M, pure, throw, ◌>>=◌, ◌>>◌, gets, clock, modify, try_catch, with_option}
use dead_switch.Safety.Capability.{
  Capability, provider_email_send, provider_sms_send, provider_voice_call,
}
use dead_switch.Safety.Mode.{assert, isolate_provider}
use dead_switch.Safety.Breaker.{assert_closed, record_success, record_failure, record_ambiguous}
use dead_switch.Providers.Classify.{
  no_impact, failure, ambiguous, isolate_immediately, Described, breaker_impact, permanent,
  classify,
}

pub data DispatchChannel : Type 0 where
  email sms voice : DispatchChannel

pub record DispatchSpec : Type 0 where
  pub idempotency_key : String
  pub release_action_id : Option String
  pub channel : DispatchChannel
  pub to : String
  pub body : String

pub record Sent : Type 0 where
  pub provider : String
  pub provider_message_id : String
  pub reused : Bool

pub record Backends : Type 0 where
  pub call_provider : DispatchSpec → M (String × String)
  pub describe : Error → Described
  pub message : Error → String
  pub number_text : ℕ → String
  pub slice : ℕ → String → String

unfoldable pub capability_for : DispatchChannel → Capability
capability_for email = provider_email_send
capability_for sms = provider_sms_send
capability_for voice = provider_voice_call

unfoldable pub provider_key_for : DispatchChannel → String
provider_key_for email = "sendgrid"
provider_key_for sms = "twilio-sms"
provider_key_for voice = "twilio-voice"

unfoldable pub has_key : String → OutboundDispatch → Bool
has_key key d = str_eq d.idempotency_key key

unfoldable pub find_dispatch : String → Db → Option OutboundDispatch
find_dispatch key db = find_first (has_key key) db.dispatches

unfoldable pub append_dispatch : OutboundDispatch → Db → Db
append_dispatch d db = record db { dispatches = db.dispatches ++ d ∷ [] }

unfoldable pub update_dispatch : String → (OutboundDispatch → OutboundDispatch) → Db → Db
update_dispatch key f db = record db { dispatches = update_many (has_key key) f db.dispatches }

unfoldable pub circuit_to_transient : String → Error → M (Unit {0})
circuit_to_transient provider_key (circuit_open p t) =
    throw (transient_infra (template ("circuit open: " ∷ provider_key ∷ [])))
circuit_to_transient provider_key e = throw e

-- The steps 1 and 2.
unfoldable pub gate : DispatchSpec → M (Unit {0})
gate spec = do
  assert (capability_for spec.channel)
  let provider_key = provider_key_for spec.channel
  try_catch (assert_closed provider_key) (circuit_to_transient provider_key)

abbrev or_unknown : Option String → String
or_unknown none = "unknown"
or_unknown (some m) = m

abbrev pub filled : Option String → Option String
filled none = none
filled (some m) = if str_eq m "" then none else some m

unfoldable pub failed_before : String → OutboundDispatch → M (Option Sent)
failed_before key prior =
    if str_eq prior.status "failed"
    then throw
        (client_error (template ("prior dispatch failed: " ∷ or_unknown prior.error_message ∷ [])))
    else throw (ambiguous_outcome (template ("dispatch " ∷ key ∷ " reserved-but-unconfirmed" ∷ [])))

-- What an earlier dispatch under the same key means for this one.
unfoldable pub reuse : String → OutboundDispatch → M (Option Sent)
reuse key prior =
    if str_eq prior.status "sent"
    then with_option (filled prior.provider_message_id) (failed_before key prior) (λ message_id.
      pure (
        some
          (record { provider = prior.provider; provider_message_id = message_id; reused = true })))
    else failed_before key prior

-- Step 3; `none` where the key is now reserved for this call.
unfoldable pub reserve : DispatchSpec → M (Option Sent)
reserve spec = do
  prior ← gets (find_dispatch spec.idempotency_key)
  with_option prior
      (do
        modify (
            append_dispatch (record {
              idempotency_key = spec.idempotency_key;
              release_action_id = spec.release_action_id;
              provider = provider_key_for spec.channel;
              provider_message_id = none;
              status = "reserved";
              completed_at = none;
              error_message = none;
            }))
        pure none)
      (reuse spec.idempotency_key)

unfoldable pub feed_breaker : Backends → String → Error → M (Unit {0})
feed_breaker b provider_key err = elim (breaker_impact err) [
  | failure ↦ record_failure provider_key (b.message err)
  | ambiguous ↦ record_ambiguous provider_key (b.message err)
  | isolate_immediately ↦
      record_failure provider_key (b.message err)
      >> isolate_provider provider_key (template ("config/auth: " ∷ b.message err ∷ [])) "system"
  | no_impact ↦ pure tt
]

abbrev when_permanent : Bool → ℕ → Option ℕ
when_permanent true now = some now
when_permanent false now = none

unfoldable pub on_send_failure : Backends → DispatchSpec → Error → M Sent
on_send_failure b spec err = do
  let classified = classify b.number_text b.describe err
  now ← clock
  modify (
      update_dispatch spec.idempotency_key (λ d. record d {
        status = if permanent classified then "failed" else "reserved";
        error_message = some (b.slice 1000 (b.message classified));
        completed_at = when_permanent (permanent classified) now;
      }))
  feed_breaker b (provider_key_for spec.channel) classified
  throw classified

-- Step 4.
unfoldable pub call_and_settle : Backends → DispatchSpec → M Sent
call_and_settle b spec =
    try_catch
      (do
        (provider, message_id) ← b.call_provider spec
        now ← clock
        modify (
            update_dispatch spec.idempotency_key (λ d. record d {
              status = "sent";
              provider_message_id = some message_id;
              completed_at = some now;
            }))
        record_success (provider_key_for spec.channel)
        pure (record { provider = provider; provider_message_id = message_id; reused = false }))
      (on_send_failure b spec)

unfoldable pub send : Backends → DispatchSpec → M Sent
send b spec = do
  gate spec
  earlier ← reserve spec
  with_option earlier (call_and_settle b spec) pure
