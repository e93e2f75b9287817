-- ===== src/Releases/Run.antt =====
-- releases/release-action-executor.service.ts: `run`. The disposal of the plaintext in the
-- `finally` of the source changes no state of the model.
use dead_switch.Common.{
  ℕ, String, Bool, true, false, not, ◌||◌, List, [], ◌∷◌, Option, none, some, leb, ltb, str_eq,
  template, if◌then◌else◌, find_first, count_where,
}
use dead_switch.Schema.{
  ReleaseActionState, ReleaseAction, Release, Scenario, BundleRecipient, Fields, text, integer,
  boolean, object, end, field, Error, plain, safety_blocked, config_error, client_error,
  transient_infra, ambiguous_outcome,
}
use dead_switch.World.{Db}
use dead_switch.Effect.{
  M, pure, throw, ◌>>=◌, ◌>>◌, gets, clock, try_catch, transaction, with_option,
}
use dead_switch.Audit.Service.{record_event}
use dead_switch.State.Service.{find_scenario}
use dead_switch.Safety.Capability.{release_continue_batch}
use dead_switch.Safety.Matrix.{capability_text}
use dead_switch.Safety.Mode.{assert}
use dead_switch.Releases.Executor.{
  SendResult, Collaborators, max_attempts, claimable, in_flight, find_action, update_action,
  with_error, find_release, is_canceled, sibling_in, claim, worker_entry, mark_suppressed,
  maybe_complete_release, channel_matches_recipient,
}

unfoldable pub safety_to_plain : Error → M (Unit {0})
safety_to_plain (safety_blocked capability mode) =
    throw (plain (template ("safety:" ∷ capability_text capability ∷ [])))
safety_to_plain e = throw e

unfoldable pub race_lost : Option Release → Db → Bool
race_lost none db = true
race_lost (some r) db = elim (find_scenario r.scenario_id db) [
  | none ↦ true
  | some s ↦ is_canceled r s
]

abbrev pub sent_row : SendResult → ℕ → ReleaseAction → ReleaseAction
sent_row result now a = record a {
  provider = some result.provider;
  provider_message_id = result.provider_message_id;
  executed_at = some now;
}

abbrev id_field : Option String → Fields
id_field none = end
id_field (some i) = field "providerMessageId" (text i) end

-- The transaction after the provider has answered: the release may have been canceled meanwhile.
unfoldable pub settle : ReleaseAction → Release → Scenario → String → SendResult → M (Unit {0})
settle action release scenario recipient_kind result = transaction (do
  lost ← gets (λ db. race_lost (find_release release.id db) db)
  now ← clock
  update_action action.id in_flight
        (if lost then ReleaseActionState.sent_after_abort else ReleaseActionState.executed)
        (sent_row result now)
      >>= λ _. record_event (
          worker_entry scenario
            (if lost then "release.action.sent_after_abort" else "release.action.executed")
            (object (
              field "actionId" (text action.id) (
                field "recipientKind" (text recipient_kind) (
                  field "provider" (text result.provider) (
                    field "reused" (boolean result.reused)
                      (id_field result.provider_message_id))))))))

abbrev pub is_ambiguous : Error → Bool
is_ambiguous (ambiguous_outcome m) = true
is_ambiguous _ = false

abbrev pub is_permanent : Error → Bool
is_permanent (client_error m) = true
is_permanent _ = false

-- classified?.kind ?? 'unknown'
abbrev pub kind_of : Error → String
kind_of (config_error m) = "config"
kind_of (client_error m) = "client"
kind_of (transient_infra m) = "transient"
kind_of (ambiguous_outcome m) = "ambiguous"
kind_of _ = "unknown"

unfoldable pub state_after_failure : ℕ → Error → ReleaseActionState
state_after_failure attempt_number err =
    if is_ambiguous err
    then ReleaseActionState.failed_temporary
    else if is_permanent err || leb max_attempts attempt_number
    then ReleaseActionState.failed_permanent
    else ReleaseActionState.failed_temporary

unfoldable pub on_failure : Collaborators → ℕ → ReleaseAction → Scenario → Error → M (Unit {0})
on_failure c attempt_number action scenario err = do
  update_action action.id in_flight (state_after_failure attempt_number err) (
        with_error (
          template
            ((if is_ambiguous err then "ambiguous: " else "") ∷ c.message_slice err 500 ∷ [])))
      >>= λ _. do
        record_event (
            worker_entry scenario "release.action.failed" (
              object (
                field "actionId" (text action.id) (
                  field "kind" (text (kind_of err)) (
                    field "permanent"
                      (boolean (is_permanent err || leb max_attempts attempt_number))
                      (field "ambiguous" (boolean (is_ambiguous err))
                        (field "attempt" (integer attempt_number) end)))))))
        if is_ambiguous err then pure tt else throw err

abbrev pub send_channel : String → String
send_channel channel =
    if str_eq channel "email" then "email" else if str_eq channel "sms" then "sms" else "voice"

unfoldable pub on_issue_failure : Collaborators → ReleaseAction → Error → M (List String)
on_issue_failure c action err =
    update_action action.id in_flight ReleaseActionState.failed_temporary
      (with_error (template ("attachment_issue: " ∷ c.message_slice err 300 ∷ [])))
    >>= λ _. throw err

unfoldable pub deliver :
    Collaborators
    → ℕ
    → ReleaseAction
    → Release
    → Scenario
    → BundleRecipient
    → String × String
    → M (Unit {0})
deliver c attempt_number action release scenario recipient (channel, plaintext) =
    if not (channel_matches_recipient channel recipient.recipient_kind)
    then mark_suppressed action.id scenario "channel/recipient mismatch"
    else (do
      links ←
          try_catch (c.issue_for_action release.id action recipient.id scenario)
            (on_issue_failure c action)
      try_catch
          (c.send
              (template ("release_action:" ∷ action.id ∷ ":" ∷ c.attempt_text attempt_number ∷ []))
              action.id (send_channel channel) recipient.address plaintext links
            >>= settle action release scenario recipient.recipient_kind)
          (on_failure c attempt_number action scenario)
      maybe_complete_release release.id scenario)

-- A refusal of the vault ends the action.
unfoldable pub on_decrypt_blocked :
    Collaborators → ReleaseAction → Error → M (Option (String × String))
on_decrypt_blocked c action err =
    update_action action.id in_flight ReleaseActionState.aborted
      (with_error (template ("decrypt_blocked: " ∷ c.message_slice err 300 ∷ [])))
    >>= λ _. pure none

abbrev recipient_of : String → Db → Option BundleRecipient
recipient_of id db = find_first (λ (r : BundleRecipient). str_eq r.id id) db.recipients

unfoldable pub open_and_deliver :
    Collaborators → ℕ → ReleaseAction → Release → Scenario → BundleRecipient → String → M (Unit {0})
open_and_deliver c attempt_number action release scenario recipient message_id = do
  record_event (
      worker_entry scenario "release.action.decrypt" (
        object (
          field "actionId" (text action.id)
            (field "messageId" (text message_id) (field "attempt" (integer attempt_number) end)))))
  opened ←
      try_catch (c.open_for_action action.id message_id >>= λ o. pure (some o))
        (on_decrypt_blocked c action)
  with_option opened (pure tt) (deliver c attempt_number action release scenario recipient)

unfoldable pub execute : Collaborators → ℕ → ReleaseAction × Release × Scenario → M (Unit {0})
execute c attempt_number (action, release, scenario) =
    with_option action.message_id (mark_suppressed action.id scenario "no message bound")
      (λ message_id. do
        found ← gets (recipient_of action.recipient_id)
        with_option found (mark_suppressed action.id scenario "recipient missing") (λ recipient.
            open_and_deliver c attempt_number action release scenario recipient message_id))

abbrev tainting : List ReleaseActionState
tainting = ReleaseActionState.sent_after_abort ∷ []

-- IL6: a release one of whose messages went out after its abortion sends nothing more.
unfoldable pub is_tainted : Option ReleaseAction → Db → Bool
is_tainted none db = false
is_tainted (some a) db = ltb 0 (count_where (sibling_in a.release_id tainting) db.actions)

unfoldable pub run : Collaborators → String → ℕ → M (Unit {0})
run c action_id attempt_number = do
  try_catch (assert release_continue_batch) safety_to_plain
  loaded ← gets (find_action action_id)
  tainted ← gets (is_tainted loaded)
  if tainted
      then (update_action action_id claimable ReleaseActionState.aborted
            (with_error "IL6: sibling sent_after_abort")
          >>= λ _. pure tt)
      else (do claimed ← claim action_id; with_option claimed (pure tt) (execute c attempt_number))
