-- ===== src/Releases/Executor.antt =====
-- releases/release-action-executor.service.ts: one release action from its claim to its outcome.
-- The vault, the issuer of attachment links and the provider adapter are the collaborators; a call
-- of one of them may change the world in any way, as other processes do meanwhile. The wording of
-- error messages and the bodies of messages are the collaborators' too.
use dead_switch.Common.{
  ℕ, ◌+◌, String, Bool, false, not, ◌&&◌, ◌||◌, List, [], ◌∷◌, Option, none, some, is_some, str_eq,
  if◌then◌else◌, find_first, count_where, update_many, ltb, ◌==◌,
}
use dead_switch.Schema.{
  ReleaseActionState, action_includes, ReleaseAction, ReleaseState, Release, Scenario,
  ScenarioState, state_eq, AuditActor, Value, text, object, end, field, Error, plain,
  transition_denied,
}
use dead_switch.World.{Db}
use dead_switch.Effect.{
  M, pure, throw, ◌>>=◌, ◌>>◌, gets, clock, modify, try_catch, transaction, with_option, or_throw,
  require,
}
use dead_switch.Audit.Service.{Entry, record_event}
use dead_switch.State.Service.{find_scenario, transition, no_extra}

pub record SendResult : Type 0 where
  pub provider : String
  pub provider_message_id : Option String
  pub reused : Bool

-- VaultDecryptor.openForAction answers with the channel and the plaintext; ProviderAdapter.send
-- takes the idempotency key, the action, the channel, the address, the plaintext and the links.
pub record Collaborators : Type 0 where
  pub open_for_action : String → String → M (String × String)
  pub issue_for_action : String → ReleaseAction → String → Scenario → M (List String)
  pub send : String → String → String → String → String → List String → M SendResult
  pub attempt_text : ℕ → String
  pub message_slice : Error → ℕ → String

abbrev pub max_attempts : ℕ
max_attempts = 5

abbrev pub finished : List ReleaseActionState
finished =
    ReleaseActionState.executed ∷ ReleaseActionState.failed_permanent ∷ ReleaseActionState.aborted
    ∷ ReleaseActionState.suppressed ∷ ReleaseActionState.sent_after_abort ∷ []

abbrev pub claimable : List ReleaseActionState
claimable = ReleaseActionState.pending ∷ ReleaseActionState.failed_temporary ∷ []

abbrev pub unfinished : List ReleaseActionState
unfinished =
    ReleaseActionState.pending ∷ ReleaseActionState.sending ∷ ReleaseActionState.failed_temporary
    ∷ []

abbrev pub in_flight : List ReleaseActionState
in_flight = ReleaseActionState.sending ∷ []

abbrev pub not_delivered : List ReleaseActionState
not_delivered =
    ReleaseActionState.failed_permanent ∷ ReleaseActionState.aborted ∷ ReleaseActionState.suppressed
    ∷ ReleaseActionState.sent_after_abort ∷ []

unfoldable pub is_action : String → ReleaseAction → Bool
is_action id a = str_eq a.id id

unfoldable pub find_action : String → Db → Option ReleaseAction
find_action id db = find_first (is_action id) db.actions

-- where: { id, state: { in: from } }
unfoldable pub action_in : String → List ReleaseActionState → ReleaseAction → Bool
action_in id from a = is_action id a && action_includes from a.state

-- releaseAction.updateMany on one id and some states; `f` writes the other columns.
unfoldable pub assign_action :
    ReleaseActionState → (ReleaseAction → ReleaseAction) → ReleaseAction → ReleaseAction
assign_action to f a = record (f a) { id = a.id; state = to }

unfoldable pub set_actions : (List ReleaseAction → List ReleaseAction) → Db → Db
set_actions f db = record db { actions = f db.actions }

unfoldable pub update_action :
    String → List ReleaseActionState → ReleaseActionState → (ReleaseAction → ReleaseAction) → M ℕ
update_action id from to f = do
  n ← gets (λ db. count_where (action_in id from) db.actions)
  modify (set_actions (update_many (action_in id from) (assign_action to f)))
  pure n

abbrev pub with_error : String → ReleaseAction → ReleaseAction
with_error e a = record a { last_error = some e }

unfoldable pub release_has_id : String → Release → Bool
release_has_id id r = str_eq r.id id

unfoldable pub find_release : String → Db → Option Release
find_release id db = find_first (release_has_id id) db.releases

unfoldable pub is_canceled : Release → Scenario → Bool
is_canceled r s = is_some r.canceled_at || not (state_eq s.state ScenarioState.release_in_progress)

abbrev pub sibling_in : String → List ReleaseActionState → ReleaseAction → Bool
sibling_in release_id states a = str_eq a.release_id release_id && action_includes states a.state

abbrev pub claimed_row : ℕ → ReleaseAction → ReleaseAction
claimed_row now a = record a { attempts = a.attempts + 1; last_attempt_at = some now }

-- `none` stands for `null` and for `{ aborted: true }`, which the caller treats alike. The foreign
-- keys make the release and its scenario be there.
unfoldable pub claim_live :
    String → Release → Scenario → M (Option (ReleaseAction × Release × Scenario))
claim_live id release scenario = do
  now ← clock
  n ← update_action id claimable ReleaseActionState.sending (claimed_row now)
  if n == 1
      then (do
        found ← gets (find_action id)
        fresh_action ← or_throw found (plain "row missing")
        pure (some (fresh_action, release, scenario)))
      else pure none

unfoldable pub claim_open : ReleaseAction → M (Option (ReleaseAction × Release × Scenario))
claim_open action = do
  found_release ← gets (find_release action.release_id)
  release ← or_throw found_release (plain "foreign key")
  found_scenario ← gets (find_scenario release.scenario_id)
  scenario ← or_throw found_scenario (plain "foreign key")
  if is_canceled release scenario
      then (update_action action.id unfinished ReleaseActionState.aborted
            (with_error "release aborted before send")
          >>= λ _. pure none)
      else claim_live action.id release scenario

unfoldable pub claim : String → M (Option (ReleaseAction × Release × Scenario))
claim action_id = transaction (do
  found ← gets (find_action action_id)
  with_option found (pure none)
      (λ action. if action_includes finished action.state then pure none else claim_open action))

abbrev pub worker_entry : Scenario → String → Value → Entry
worker_entry scenario event_type payload = record {
  user_id = scenario.user_id;
  scenario_id = some scenario.id;
  actor = AuditActor.release_worker;
  event_type = event_type;
  payload = payload;
}

unfoldable pub mark_suppressed : String → Scenario → String → M (Unit {0})
mark_suppressed action_id scenario reason = do
  update_action action_id in_flight ReleaseActionState.suppressed (with_error reason) >>= λ _.
      record_event (
        worker_entry scenario "release.action.suppressed"
          (object (field "actionId" (text action_id) (field "reason" (text reason) end))))

unfoldable pub complete_release : String → ReleaseState → ℕ → Db → Db
complete_release id state now db = record db {
  releases =
      update_many (release_has_id id) (λ r. record r { state = state; completed_at = some now })
        db.releases;
}

-- .catch(e => { if (!/state transition .* denied/.test(e.message)) throw e })
unfoldable pub ignore_denied : Error → M (Unit {0})
ignore_denied (transition_denied key from actual) = pure tt
ignore_denied e = throw e

unfoldable pub maybe_complete_release : String → Scenario → M (Unit {0})
maybe_complete_release release_id scenario = do
  pending ← gets (λ db. count_where (sibling_in release_id unfinished) db.actions)
  if ltb 0 pending then pure tt else do
    non_exec ← gets (λ db. count_where (sibling_in release_id not_delivered) db.actions)
    now ← clock
    transaction (do
      n ← gets (λ db. count_where (release_has_id release_id) db.releases)
      require (ltb 0 n) (plain "Record to update not found")
      modify (
          complete_release release_id
            (if ltb 0 non_exec then ReleaseState.partially_failed else ReleaseState.completed) now)
      try_catch
          (transition scenario.id "complete_release" (record no_extra { released_at = some now })
            >>= λ _. pure tt)
          ignore_denied)
    record_event (
        worker_entry scenario
          (if ltb 0 non_exec then "release.partially_failed" else "release.completed")
          (object (field "releaseId" (text release_id) end)))

abbrev pub channel_matches_recipient : String → String → Bool
channel_matches_recipient channel recipient_kind =
    if str_eq channel "email"
    then str_eq recipient_kind "email"
    else if str_eq channel "sms"
    then str_eq recipient_kind "sms"
    else false
