-- ===== src/Escalation/Release.antt =====
-- escalation/escalation.service.ts, handleGraceExpiry: a release is begun and fanned out.
use dead_switch.Common.{
  String, Bool, true, false, ◌&&◌, List, [], ◌∷◌, ◌++◌, Option, none, some, ◌==◌, str_eq, template,
  find_first, find_many, count_where, if◌then◌else◌,
}
use dead_switch.Schema.{
  Release, ReleaseState, ReleaseAction, ReleaseActionState, ReleaseBundle, BundleMessage, text,
  object, end, field, Error, safety_blocked, unique_violation, plain,
}
use dead_switch.World.{Db}
use dead_switch.Effect.{
  M, pure, throw, ◌>>=◌, ◌>>◌, gets, modify, fresh, require, with_option, for_each, try_catch,
  transaction,
}
use dead_switch.State.Service.{no_extra, find_scenario, transition}
use dead_switch.Audit.Service.{record_event}
use dead_switch.Outbox.Service.{EnqueueSpec, enqueue}
use dead_switch.Safety.Capability.{release_begin}
use dead_switch.Safety.Matrix.{capability_text}
use dead_switch.Safety.Mode.{assert, mode_text}
use dead_switch.Escalation.Service.{system_entry, denied_to_false}

abbrev active : ReleaseState → Bool
active ReleaseState.pending = true
active ReleaseState.executing = true
active _ = false

unfoldable pub is_active : String → Release → Bool
is_active scenario_id r = str_eq r.scenario_id scenario_id && active r.state

unfoldable pub append_release : Release → Db → Db
append_release r db = record db { releases = db.releases ++ r ∷ [] }

-- release.create, under the index of one active release for each scenario (I3).
unfoldable pub create_release : String → M String
create_release scenario_id = do
  n ← gets (λ db. count_where (is_active scenario_id) db.releases)
  require (n == 0) unique_violation
  id ← fresh
  modify (
      append_release (record {
        id = id;
        scenario_id = scenario_id;
        state = ReleaseState.executing;
        trigger_reason = "escalation_exhausted";
        completed_at = none;
        canceled_at = none;
        canceled_by = none;
        cancel_reason = none;
      }))
  pure id

abbrev option_text_eq : Option String → String → Bool
option_text_eq none s = false
option_text_eq (some t) s = str_eq t s

unfoldable pub same_action : String → String → String → String → ReleaseAction → Bool
same_action release_id bundle_id recipient_id message_id a =
    str_eq a.release_id release_id
    && (str_eq a.bundle_id bundle_id
        && (str_eq a.recipient_id recipient_id && option_text_eq a.message_id message_id))

unfoldable pub append_action : ReleaseAction → Db → Db
append_action a db = record db { actions = db.actions ++ a ∷ [] }

unfoldable pub create_action : String → String → String → String → M String
create_action release_id bundle_id recipient_id message_id = do
  id ← fresh
  modify (
      append_action (record {
        id = id;
        release_id = release_id;
        bundle_id = bundle_id;
        message_id = some message_id;
        recipient_id = recipient_id;
        state = ReleaseActionState.pending;
        attempts = 0;
        last_attempt_at = none;
        last_error = none;
        provider = none;
        provider_message_id = none;
        provider_status = none;
        provider_status_at = none;
        executed_at = none;
      }))
  pure id

-- releaseAction.upsert with an empty update: the identifier of the row.
unfoldable pub upsert_action : String → String → String → String → M String
upsert_action release_id bundle_id recipient_id message_id = do
  found ←
      gets (λ db. find_first (same_action release_id bundle_id recipient_id message_id) db.actions)
  with_option found (create_action release_id bundle_id recipient_id message_id)
      (λ (a : ReleaseAction). pure a.id)

abbrev pub execute_job : String → EnqueueSpec
execute_job action_id = record {
  queue = "release";
  job_name = "execute";
  job_id = template ("rel:" ∷ action_id ∷ []);
  payload = object (field "actionId" (text action_id) end);
  delay_ms = none;
}

unfoldable pub fan_out_message : String → ReleaseBundle → BundleMessage → M (Unit {0})
fan_out_message release_id b m = with_option m.recipient_id (pure tt) (λ recipient_id. do
  action_id ← upsert_action release_id b.id recipient_id m.id
  enqueue (execute_job action_id))

unfoldable pub fan_out : String → List ReleaseBundle → M (Unit {0})
fan_out release_id bundles =
    for_each bundles (λ b. for_each b.messages (fan_out_message release_id b))

unfoldable pub bundle_of : String → ReleaseBundle → Bool
bundle_of scenario_id b = str_eq b.scenario_id scenario_id

-- The transaction; `none` where the transition was denied.
unfoldable pub begin_release : String → M (Option String)
begin_release scenario_id = do
  moved ←
      try_catch (transition scenario_id "begin_release" no_extra >>= λ _. pure true) denied_to_false
  if moved
      then (do
        release_id ← create_release scenario_id
        bundles ← gets (λ db. find_many (bundle_of scenario_id) db.bundles)
        fan_out release_id bundles
        pure (some release_id))
      else pure none

unfoldable pub blocked : String → String → Error → M (Unit {0})
blocked scenario_id user_id (safety_blocked capability mode) = do
  record_event (
      system_entry user_id scenario_id "safety.begin_release.blocked" (
        object (
          field "reason"
            (text (
              template (
                "capability '"
                ∷ capability_text capability
                ∷ "' is denied in mode '"
                ∷ mode_text mode
                ∷ "'"
                ∷ [])))
            end)))
  throw (plain "safety:release.begin")
blocked scenario_id user_id e = throw e

unfoldable pub handle_grace_expiry : String → M (Unit {0})
handle_grace_expiry scenario_id = do
  found ← gets (find_scenario scenario_id)
  with_option found (pure tt) (λ scenario. do
    try_catch (assert release_begin) (blocked scenario_id scenario.user_id)
    release ← try_catch (transaction (begin_release scenario_id)) (λ e. pure none)
    with_option release (pure tt) (λ release_id. record_event (
        system_entry scenario.user_id scenario_id "release.triggered"
          (object (field "releaseId" (text release_id) end)))))
