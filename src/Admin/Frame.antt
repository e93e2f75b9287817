-- ===== src/Admin/Frame.antt =====
-- The requests through the services that an approval calls (admin/admin.service.ts).
use dead_switch.Common.{◌≡◌, refl, ◌∙◌, String, Bool, false, List, [], ◌∷◌, Option, none, some}
use dead_switch.Schema.{
  AdminRequest, AdminRequestKind, AdminParams, AuditEvent, SafetyMode, SafetyModeKind, Release,
  ReleaseAction, SafetyModeTransition,
}
use dead_switch.World.{Env}
use dead_switch.Effect.{modify}
use dead_switch.Effect.Steps.{Preorder, Steps, Steps-modify, Steps-pure, Steps-throw, steps_rules}
use dead_switch.Audit.Service.{
  Entry, Verdict, intact, broken_at, raised, append_audit, record_event, verify_chain,
}
use dead_switch.Safety.Mode.{
  set_mode, seed, fetch, current, refresh, append_transition, change_mode, enter_in_transaction,
  enter, isolate_provider, unisolate_provider,
}
use dead_switch.Safety.Gate.{
  check_ambiguous_sends, check_sent_after_abort, check_open_breakers, check_outbox_lag, add_broken,
  broken_scopes, check_audit_integrity, check_audit_export_lag, check_no_in_flight_dispatches,
  normal_checks, audit_checks, freeze_checks, further_checks, collect_checks, evaluate_exit,
}
use dead_switch.Releases.Executor.{set_actions}
use dead_switch.Admin.Snapshot.{snapshot}
use dead_switch.Admin.Service.{
  set_releases, set_notes, enter_requested, execute_in_tx, pass_exit_gate,
}

unfoldable pub requests : Preorder
requests = record {
  rel = λ d e. e.requests ≡ d.requests;
  reflexive = λ d. refl;
  transitive = λ a b c p q. q ∙ p;
  serial_free = λ d n. refl;
}

append_audit-Steps : (r : AuditEvent) → Steps requests (modify (append_audit r))
unfolding append_audit requests
append_audit-Steps r = Steps-modify _ λ d. refl

set_mode-Steps : (row : SafetyMode) → Steps requests (modify (set_mode row))
unfolding set_mode requests
set_mode-Steps row = Steps-modify _ λ d. refl

append_transition-Steps : (t : SafetyModeTransition) → Steps requests (modify (append_transition t))
unfolding append_transition requests
append_transition-Steps t = Steps-modify _ λ d. refl

set_actions-Steps :
    (f : List ReleaseAction → List ReleaseAction) → Steps requests (modify (set_actions f))
unfolding set_actions requests
set_actions-Steps f = Steps-modify _ λ d. refl

set_releases-Steps : (f : List Release → List Release) → Steps requests (modify (set_releases f))
unfolding set_releases requests
set_releases-Steps f = Steps-modify _ λ d. refl

pub record_event-Steps : (e : Entry) → Steps requests (record_event e)
unfolding record_event
record_event-Steps e = search (steps_rules, append_audit-Steps) depth 12

seed-Steps : Steps requests seed
unfolding seed
seed-Steps = search (steps_rules, set_mode-Steps) depth 8

fetch-Steps : Steps requests fetch
unfolding fetch
fetch-Steps = search (steps_rules, seed-Steps) depth 10

current-Steps : Steps requests current
unfolding current
current-Steps = search (steps_rules, fetch-Steps) depth 10

refresh-Steps : Steps requests refresh
unfolding refresh
refresh-Steps = search (steps_rules, current-Steps) depth 8

change_mode-Steps :
    (row : SafetyMode) (next : SafetyModeKind) (reason actor : String) (auto : Bool)
    → Steps requests (change_mode row next reason actor auto)
unfolding change_mode
change_mode-Steps row next reason actor auto =
    search (steps_rules, set_mode-Steps, append_transition-Steps, record_event-Steps) depth 12

enter-Steps :
    (next : SafetyModeKind) (reason actor : String) (auto : Bool)
    → Steps requests (enter next reason actor auto)
unfolding enter enter_in_transaction
enter-Steps next reason actor auto = search (steps_rules, change_mode-Steps, refresh-Steps) depth 14

isolate_provider-Steps :
    (provider reason actor : String) → Steps requests (isolate_provider provider reason actor)
unfolding isolate_provider
isolate_provider-Steps provider reason actor =
    search (steps_rules, set_mode-Steps, record_event-Steps, refresh-Steps) depth 14

unisolate_provider-Steps :
    (provider actor : String) → Steps requests (unisolate_provider provider actor)
unfolding unisolate_provider
unisolate_provider-Steps provider actor =
    search (steps_rules, set_mode-Steps, record_event-Steps, refresh-Steps) depth 14

set_notes-Steps : (notes : Option String) → Steps requests (set_notes notes)
unfolding set_notes
set_notes-Steps notes = search (steps_rules, set_mode-Steps) depth 8

enter_requested-Steps :
    (m : Option SafetyModeKind) (reason actor : String)
    → Steps requests (enter_requested m reason actor)
unfolding enter_requested
enter_requested-Steps none reason actor = search (steps_rules, refresh-Steps) depth 6
enter_requested-Steps (some m) reason actor = enter-Steps m reason actor false

pub execute_in_tx-Steps :
    (kind : AdminRequestKind) (params : AdminParams) (actor : String)
    → Steps requests (execute_in_tx kind params actor)
unfolding execute_in_tx
execute_in_tx-Steps AdminRequestKind.enter_mode params actor = enter_requested-Steps _ _ _
execute_in_tx-Steps AdminRequestKind.exit_mode params actor = enter-Steps _ _ _ _
execute_in_tx-Steps AdminRequestKind.pause_provider params actor = isolate_provider-Steps _ _ _
execute_in_tx-Steps AdminRequestKind.resume_provider params actor = unisolate_provider-Steps _ _
execute_in_tx-Steps AdminRequestKind.pause_queue params actor =
    search (steps_rules, set_notes-Steps) depth 6
execute_in_tx-Steps AdminRequestKind.resume_queue params actor = set_notes-Steps _
execute_in_tx-Steps AdminRequestKind.reduce_concurrency params actor = set_notes-Steps _
execute_in_tx-Steps AdminRequestKind.drain_releases params actor =
    search (steps_rules, set_actions-Steps, set_releases-Steps) depth 8
execute_in_tx-Steps AdminRequestKind.force_unlock_release params actor =
    search (steps_rules, set_releases-Steps) depth 8

add_broken-Steps :
    {P : Preorder} (env : Env) (scope : String) (v : Verdict) (found : List String)
    → Steps P (add_broken env scope v found)
add_broken-Steps env scope intact found = Steps-pure _
add_broken-Steps env scope (broken_at n) found = Steps-pure _
add_broken-Steps env scope raised found = Steps-throw _

-- The exit gate only reads.
broken_scopes-Steps : {P : Preorder} (ss found : List String) → Steps P (broken_scopes ss found)
unfolding broken_scopes verify_chain
broken_scopes-Steps {P} [] found = Steps-pure found
broken_scopes-Steps {P} (s ∷ ss) found =
    let later : (more : List String) → Steps P (broken_scopes ss more) =
      broken_scopes-Steps {P = P} ss in
    search (steps_rules, add_broken-Steps, later) depth 12

check_audit_integrity-Steps : {P : Preorder} → Steps P check_audit_integrity
unfolding check_audit_integrity
check_audit_integrity-Steps = search (steps_rules, broken_scopes-Steps) depth 8

normal_checks-Steps : {P : Preorder} → Steps P normal_checks
unfolding normal_checks check_ambiguous_sends check_open_breakers check_outbox_lag
    check_sent_after_abort
normal_checks-Steps = search steps_rules depth 16

audit_checks-Steps : {P : Preorder} → Steps P audit_checks
unfolding audit_checks check_audit_export_lag
audit_checks-Steps = search (steps_rules, check_audit_integrity-Steps) depth 10

freeze_checks-Steps : {P : Preorder} → Steps P freeze_checks
unfolding freeze_checks check_no_in_flight_dispatches
freeze_checks-Steps = search (steps_rules, audit_checks-Steps) depth 10

further_checks-Steps : {P : Preorder} (m : SafetyModeKind) → Steps P (further_checks m)
unfolding further_checks
further_checks-Steps SafetyModeKind.normal = Steps-pure _
further_checks-Steps SafetyModeKind.degraded = Steps-pure _
further_checks-Steps SafetyModeKind.release_restricted = Steps-pure _
further_checks-Steps SafetyModeKind.audit_compromised = audit_checks-Steps
further_checks-Steps SafetyModeKind.emergency_freeze = freeze_checks-Steps

pub evaluate_exit-Steps : {P : Preorder} (m n : SafetyModeKind) → Steps P (evaluate_exit m n)
unfolding evaluate_exit collect_checks
evaluate_exit-Steps m n = search (steps_rules, normal_checks-Steps, further_checks-Steps) depth 10

pub snapshot-Steps : Steps requests snapshot
unfolding snapshot
snapshot-Steps = search (steps_rules, current-Steps) depth 10

pub pass_exit_gate-Steps :
    (req : AdminRequest) (approver : String) → Steps requests (pass_exit_gate req approver)
unfolding pass_exit_gate
pass_exit_gate-Steps req approver =
    search (steps_rules, current-Steps, evaluate_exit-Steps, record_event-Steps) depth 14
