-- ===== src/Admin/Service.antt =====
-- admin/admin.service.ts: requests of operators, their approval and their execution.
use dead_switch.Common.{
  ℕ, ◌+◌, ◌*◌, String, Bool, true, false, not, ◌&&◌, ◌||◌, List, [], ◌∷◌, ◌++◌, Option, none, some,
  is_some, ltb, ◌==◌, str_eq, template, find_first, count_where, update_many, if◌then◌else◌,
}
use dead_switch.Schema.{
  AdminRequestKind, AdminRequestStatus, status_eq, AdminParams, AdminRequest, SafetyModeKind,
  Release, ReleaseState, ReleaseAction, ReleaseActionState, action_includes, AuditActor, Values,
  Fields, text, boolean, object, array, end, field, nil, cons, not_found, conflict, forbidden,
  unique_violation, plain,
}
use dead_switch.World.{Db}
use dead_switch.Effect.{
  M, Outcome, done, fail, pure, throw, ◌>>=◌, ◌>>◌, gets, ask, clock, modify, fresh, require, when,
  or_throw,
}
use dead_switch.Audit.Service.{Entry, record_event}
use dead_switch.Safety.Mode.{
  system_user_id, current, refresh, assert, enter, isolate_provider, unisolate_provider, set_mode,
}
use dead_switch.Safety.Gate.{evaluate_exit}
use dead_switch.Releases.Executor.{set_actions}
use dead_switch.Admin.Kinds.{request_capability, is_mode, is_exit, requires_dual_control}
use dead_switch.Admin.Snapshot.{snapshot}

abbrev request_kind_text : AdminRequestKind → String
request_kind_text AdminRequestKind.enter_mode = "enter_mode"
request_kind_text AdminRequestKind.exit_mode = "exit_mode"
request_kind_text AdminRequestKind.pause_provider = "pause_provider"
request_kind_text AdminRequestKind.resume_provider = "resume_provider"
request_kind_text AdminRequestKind.pause_queue = "pause_queue"
request_kind_text AdminRequestKind.resume_queue = "resume_queue"
request_kind_text AdminRequestKind.reduce_concurrency = "reduce_concurrency"
request_kind_text AdminRequestKind.drain_releases = "drain_releases"
request_kind_text AdminRequestKind.force_unlock_release = "force_unlock_release"

abbrev request_status_text : AdminRequestStatus → String
request_status_text AdminRequestStatus.pending = "pending"
request_status_text AdminRequestStatus.approved = "approved"
request_status_text AdminRequestStatus.rejected = "rejected"
request_status_text AdminRequestStatus.expired = "expired"
request_status_text AdminRequestStatus.executed = "executed"

pub data Reply : Type 0 where
  executed_reply : String → Reply
  pending_reply : String → String → Reply

abbrev pub admin_entry : String → Fields → Entry
admin_entry event_type payload = record {
  user_id = system_user_id;
  scenario_id = none;
  actor = AuditActor.admin;
  event_type = event_type;
  payload = object payload;
}

unfoldable pub is_request : String → AdminRequest → Bool
is_request id r = str_eq r.id id

unfoldable pub find_request : String → Db → Option AdminRequest
unfolding is_request
find_request id db = find_first (is_request id) db.requests

unfoldable pub set_requests : (List AdminRequest → List AdminRequest) → Db → Db
set_requests f db = record db { requests = f db.requests }

abbrev pub is_pending : AdminRequest → Bool
is_pending r = status_eq r.status AdminRequestStatus.pending

unfoldable pub set_releases : (List Release → List Release) → Db → Db
set_releases f db = record db { releases = f db.releases }

-- tx.safetyMode.update({ where: { id: 'global' } })
unfoldable pub set_notes : Option String → M (Unit {0})
set_notes notes = do
  found ← gets (λ db. db.safety_mode)
  row ← or_throw found (plain "Record to update not found")
  modify (set_mode (record row { notes = notes }))

abbrev or_na : Option String → String
or_na none = "n/a"
or_na (some r) = r

abbrev or_undefined : Option String → String
or_undefined none = "undefined"
or_undefined (some r) = r

-- safety.enter with an undefined mode: the row of the transition lacks a column, so that its
-- transaction fails.
unfoldable pub enter_requested : Option SafetyModeKind → String → String → M (Unit {0})
enter_requested none reason actor = refresh >>= λ _. throw (plain "Argument `to` is missing")
enter_requested (some mode) reason actor = enter mode reason actor false

abbrev drained_action : ReleaseAction → ReleaseAction
drained_action a = record a {
  state = ReleaseActionState.aborted;
  last_error = some "admin drain_releases";
}

abbrev is_drainable : ReleaseAction → Bool
is_drainable a =
    action_includes (ReleaseActionState.pending ∷ ReleaseActionState.failed_temporary ∷ []) a.state

abbrev is_ongoing : ReleaseState → Bool
is_ongoing ReleaseState.pending = true
is_ongoing ReleaseState.executing = true
is_ongoing _ = false

abbrev drained_release : ℕ → String → Release → Release
drained_release now approved_by r = record r {
  state = ReleaseState.aborted;
  canceled_at = some now;
  canceled_by = some approved_by;
  cancel_reason = some "drain_releases";
}

-- An undefined id in a `where` is no condition.
abbrev is_unlocked : Option String → Release → Bool
is_unlocked none r = is_some r.canceled_at
is_unlocked (some id) r = str_eq r.id id && is_some r.canceled_at

abbrev unlocked_release : Release → Release
unlocked_release r = record r {
  state = ReleaseState.executing;
  canceled_at = none;
  canceled_by = none;
  cancel_reason = none;
}

-- The index release_active_per_scenario_unique: one ongoing release for each scenario.
unfoldable pub one_ongoing : List Release → Bool
one_ongoing [] = true
one_ongoing (r ∷ rs) =
    let rest = one_ongoing rs in
    rest
    && not (
        is_ongoing r.state
        && ltb 0 (
            count_where (λ (q : Release). str_eq q.scenario_id r.scenario_id && is_ongoing q.state)
              rs))

unfoldable pub execute_in_tx : AdminRequestKind → AdminParams → String → M (Unit {0})
execute_in_tx AdminRequestKind.enter_mode params approved_by =
    enter_requested params.to_mode (template ("admin: " ∷ or_na params.reason ∷ [])) approved_by
execute_in_tx AdminRequestKind.exit_mode params approved_by =
    enter SafetyModeKind.normal (template ("admin: " ∷ or_na params.reason ∷ [])) approved_by false
execute_in_tx AdminRequestKind.pause_provider params approved_by =
    isolate_provider params.provider (template ("admin: " ∷ or_undefined params.reason ∷ []))
      approved_by
execute_in_tx AdminRequestKind.resume_provider params approved_by =
    unisolate_provider params.provider approved_by
execute_in_tx AdminRequestKind.pause_queue params approved_by = do
  now ← clock
  stamp ← ask (λ env. env.to_iso_string now)
  set_notes (some (template ("paused:" ∷ params.queue ∷ "@" ∷ stamp ∷ [])))
execute_in_tx AdminRequestKind.resume_queue params approved_by = set_notes none
execute_in_tx AdminRequestKind.reduce_concurrency params approved_by =
    set_notes (some (template ("release_batch_size:" ∷ params.concurrency ∷ [])))
execute_in_tx AdminRequestKind.drain_releases params approved_by = do
  now ← clock
  modify (set_actions (update_many is_drainable drained_action))
  modify (
      set_releases
        (update_many (λ (r : Release). is_ongoing r.state) (drained_release now approved_by)))
execute_in_tx AdminRequestKind.force_unlock_release params approved_by = (do
  rows ← gets (λ db. update_many (is_unlocked params.release_id) unlocked_release db.releases)
  require (one_ongoing rows) unique_violation
  modify (set_releases (λ rs. rows)))

-- What the transaction of an approval has written itself, and so takes back. The safety mode
-- service and the audit log write through connections of their own, which stay committed.
abbrev own_writes : AdminRequestKind → Db → Db → Db
own_writes AdminRequestKind.pause_queue before db = record db { safety_mode = before.safety_mode }
own_writes AdminRequestKind.resume_queue before db = record db { safety_mode = before.safety_mode }
own_writes AdminRequestKind.reduce_concurrency before db = record db {
  safety_mode = before.safety_mode;
}
own_writes AdminRequestKind.drain_releases before db = record db {
  actions = before.actions;
  releases = before.releases;
}
own_writes AdminRequestKind.force_unlock_release before db = record db {
  releases = before.releases;
}
own_writes _ before db = db

abbrev pub roll_back : {A : Type 0} → AdminRequestKind → Db → Outcome A → Outcome A
roll_back kind before (done a w) = done a w
roll_back kind before (fail e w) =
    fail e (record w { db = record (own_writes kind before w.db) { requests = before.requests } })

unfoldable pub transaction_of : {A : Type 0} → AdminRequestKind → M A → M A
transaction_of kind m w = roll_back kind w.db (m w)

abbrev pub can_burn : AdminRequest → AdminRequest → Bool
can_burn req r = is_request req.id r && (is_pending r && str_eq r.approval_nonce req.approval_nonce)

unfoldable pub approved_row : String → ℕ → AdminRequest → AdminRequest
approved_row approver now r = record r {
  status = AdminRequestStatus.approved;
  approved_by = some approver;
  approved_at = some now;
}

unfoldable pub executed_row : ℕ → AdminRequest → AdminRequest
executed_row now r = record r { status = AdminRequestStatus.executed; executed_at = some now }

abbrev pub executed_payload : AdminRequest → String → Fields
executed_payload req approver = field "id" (text req.id) (
    field "kind" (text (request_kind_text req.kind)) (
      field "requestedBy" (text req.requested_by) (
        field "approvedBy" (text approver) (
          field "stateHash" (text req.state_hash)
            (field "policyVersion" (text req.policy_version) end)))))

-- The transaction: the approval burns the nonce, the action is carried out, the request is closed.
unfoldable pub execute_approved : AdminRequest → String → M Reply
unfolding is_request
execute_approved req approver = do
  now ← clock
  n ← gets (λ db. count_where (can_burn req) db.requests)
  modify (set_requests (update_many (can_burn req) (approved_row approver now)))
  require (n == 1) (conflict "race on approval")
  execute_in_tx req.kind req.params approver
  modify (set_requests (update_many (is_request req.id) (executed_row now)))
  record_event (admin_entry "admin.request.executed" (executed_payload req approver))
  pure (executed_reply req.id)

unfoldable pub texts_of : List String → Values
texts_of [] = nil
texts_of (s ∷ ss) = cons (text s) (texts_of ss)

unfoldable pub blockers_text : List String → String
blockers_text [] = ""
blockers_text (s ∷ []) = s
blockers_text (s ∷ t ∷ ss) = template (s ∷ "; " ∷ blockers_text (t ∷ ss) ∷ [])

unfoldable pub pass_exit_gate : AdminRequest → String → M (Unit {0})
unfolding blockers_text texts_of
pass_exit_gate req approver = do
  mode ← current
  report ← evaluate_exit mode.mode SafetyModeKind.normal
  require (report.safe || req.params.force)
      (conflict (template ("exit gate: " ∷ blockers_text report.blockers ∷ [])))
  when (req.params.force && not report.safe) (
      record_event (
        admin_entry "admin.exit.forced_override" (
          field "blockers" (array (texts_of report.blockers))
            (field "requestId" (text req.id) (field "approver" (text approver) end)))))

abbrev pub needs_exit_gate : AdminRequest → Bool
needs_exit_gate req = is_exit req.kind && is_mode SafetyModeKind.normal req.params.to_mode

unfoldable pub expire_request : String → M Reply
unfolding is_request
expire_request id = do
  modify (
      set_requests (
        update_many (λ r. is_request id r && is_pending r)
          (λ r. record r { status = AdminRequestStatus.expired })))
  throw (conflict "request expired")

abbrev pub is_self_approval : AdminRequest → String → Bool
is_self_approval req approver =
    requires_dual_control req.kind req.params && str_eq req.requested_by approver

-- What `approveAndExecute` does with a pending request that has not expired.
unfoldable pub approve_live : AdminRequest → String → M Reply
approve_live req approver = do
  require (not (is_self_approval req approver))
      (forbidden "dual-control: approver must differ from requester")
  hash ← snapshot
  require (str_eq hash req.state_hash)
      (conflict "system state changed since request was created; resubmit")
  version ← ask (λ env. env.policy_version)
  require (str_eq version req.policy_version)
      (conflict "policy version changed since request was created; resubmit")
  when (needs_exit_gate req) (pass_exit_gate req approver)
  transaction_of req.kind (execute_approved req approver)

unfoldable pub approve_found : String → String → AdminRequest → M Reply
approve_found request_id approver req = do
  require (is_pending req)
      (conflict (template ("request is " ∷ request_status_text req.status ∷ [])))
  now ← clock
  if ltb now req.expires_at then approve_live req approver else expire_request request_id

unfoldable pub approve_and_execute : String → String → M Reply
approve_and_execute request_id approver = do
  found ← gets (find_request request_id)
  req ← or_throw found not_found
  approve_found request_id approver req

abbrev created_payload : AdminRequest → Fields
created_payload req = field "id" (text req.id) (
    field "kind" (text (request_kind_text req.kind)) (
      field "params" req.params.rendered (
        field "requestedBy" (text req.requested_by) (
          field "dual" (boolean (requires_dual_control req.kind req.params)) (
            field "reason" (text req.reason) (
              field "stateHash" (text req.state_hash)
                (field "policyVersion" (text req.policy_version) end)))))))

unfoldable pub create_request :
    String → AdminRequestKind → AdminParams → String → ℕ → String → M AdminRequest
create_request requested_by kind params reason ttl_minutes hash = do
  now ← clock
  serial ← gets (λ db. db.serial)
  nonce ← ask (λ env. env.crypto.random_text serial)
  version ← ask (λ env. env.policy_version)
  taken ← gets (λ db. find_first (λ (r : AdminRequest). str_eq r.approval_nonce nonce) db.requests)
  require (not (is_some taken)) unique_violation
  id ← fresh
  let req : AdminRequest = record {
    id = id;
    kind = kind;
    params = params;
    requested_by = requested_by;
    approved_by = none;
    approved_at = none;
    rejected_by = none;
    rejected_at = none;
    executed_at = none;
    expires_at = now + ttl_minutes * 60000;
    status = AdminRequestStatus.pending;
    reason = reason;
    state_hash = hash;
    policy_version = version;
    approval_nonce = nonce;
  }
  modify (set_requests (λ rs. rs ++ req ∷ []))
  pure req

unfoldable pub request : String → AdminRequestKind → AdminParams → String → ℕ → M Reply
request requested_by kind params reason ttl_minutes = do
  assert (request_capability kind)
  hash ← snapshot
  req ← create_request requested_by kind params reason ttl_minutes hash
  record_event (admin_entry "admin.request.created" (created_payload req))
  if requires_dual_control kind params
      then pure (pending_reply req.id hash)
      else approve_and_execute req.id requested_by

unfoldable pub reject : String → String → String → M (Unit {0})
unfolding is_request
reject request_id rejecter reason = do
  now ← clock
  modify (
      set_requests (
        update_many (λ r. is_request request_id r && is_pending r)
          (λ r. record r {
            status = AdminRequestStatus.rejected;
            rejected_by = some rejecter;
            rejected_at = some now;
          })))
  record_event (
      admin_entry "admin.request.rejected" (
        field "id" (text request_id)
          (field "rejecter" (text rejecter) (field "reason" (text reason) end))))
