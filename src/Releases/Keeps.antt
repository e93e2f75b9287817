-- ===== src/Releases/Keeps.antt =====
-- Relations on databases that are carried through ReleaseActionExecutor.run
-- (releases/release-action-executor.service.ts), from its blocks to the whole.
use dead_switch.Common.{ℕ, refl, String, Bool, true, false, List, if◌then◌else◌, arith}
use dead_switch.Schema.{
  ReleaseActionState, ReleaseAction, ReleaseState, Release, Scenario, BundleRecipient,
  action_includes, Error, safety_blocked, transition_denied,
}
use dead_switch.Effect.{modify}
use dead_switch.Effect.Steps.{Preorder, Steps, Steps-throw, Steps-pure, steps_rules}
use dead_switch.State.Service.{Extra, transition}
use dead_switch.Audit.Service.{Entry, record_event}
use dead_switch.Safety.Capability.{Capability}
use dead_switch.Safety.Mode.{assert}
use dead_switch.Releases.Executor.{
  SendResult, Collaborators, claimable, in_flight, unfinished, update_action, claim_live,
  claim_open, claim, mark_suppressed, complete_release, ignore_denied, maybe_complete_release,
}
use dead_switch.Releases.Run.{
  safety_to_plain, settle, on_failure, state_after_failure, on_issue_failure, deliver,
  on_decrypt_blocked, open_and_deliver, execute, run,
}
use dead_switch.Releases.Delivery.{
  Leads, ◌⇒◌, claiming, retrying, executing, losing, suppressing, failing, giving_up, aborting,
}

-- The services and tables that a run uses, and the collaborators, keep the relation.
pub record Kept (P : Preorder) (c : Collaborators) : Type 0 where
  pub transitions : (id key : String) (extra : Extra) → Steps P (transition id key extra)
  pub events : (e : Entry) → Steps P (record_event e)
  pub assertions : (k : Capability) → Steps P (assert k)
  pub completions :
      (id : String) (s : ReleaseState) (now : ℕ) → Steps P (modify (complete_release id s now))
  pub actions :
      (id : String) (from : List ReleaseActionState) (to : ReleaseActionState)
      (f : ReleaseAction → ReleaseAction)
      → Leads from to
      → Steps P (update_action id from to f)
  pub opening : (a m : String) → Steps P (c.open_for_action a m)
  pub issuing :
      (r : String) (a : ReleaseAction) (t : String) (s : Scenario)
      → Steps P (c.issue_for_action r a t s)
  pub sending : (k a h t b : String) (ls : List String) → Steps P (c.send k a h t b ls)

claimable-Leads : Leads claimable ReleaseActionState.sending
unfolding action_includes
claimable-Leads ReleaseActionState.pending h = claiming
claimable-Leads ReleaseActionState.failed_temporary h = retrying
claimable-Leads _ h = cc

unfinished-Leads : Leads unfinished ReleaseActionState.aborted
unfinished-Leads s h = aborting h

claimable-Leads_aborted : Leads claimable ReleaseActionState.aborted
unfolding action_includes
claimable-Leads_aborted s h = aborting (ground arith)

in_flight-Leads : (t : ReleaseActionState) → ReleaseActionState.sending ⇒ t → Leads in_flight t
unfolding action_includes
in_flight-Leads t e ReleaseActionState.sending h = e
in_flight-Leads t e _ h = cc

sending_aborting : ReleaseActionState.sending ⇒ ReleaseActionState.aborted
unfolding action_includes
sending_aborting = aborting refl

if-Leads :
    (b : Bool) (s t : ReleaseActionState)
    → ReleaseActionState.sending ⇒ s
    → ReleaseActionState.sending ⇒ t
    → ReleaseActionState.sending ⇒ (if b then s else t)
if-Leads true s t p q = p
if-Leads false s t p q = q

state_after_failure-Leads :
    (n : ℕ) (e : Error) → ReleaseActionState.sending ⇒ state_after_failure n e
unfolding state_after_failure
state_after_failure-Leads n e = if-Leads _ _ _ failing (if-Leads _ _ _ giving_up failing)

safety_to_plain-Steps : {P : Preorder} (e : Error) → Steps P (safety_to_plain e)
unfolding safety_to_plain
safety_to_plain-Steps (safety_blocked c m) = Steps-throw _
safety_to_plain-Steps e = Steps-throw _

ignore_denied-Steps : {P : Preorder} (e : Error) → Steps P (ignore_denied e)
unfolding ignore_denied
ignore_denied-Steps (transition_denied k f a) = Steps-pure tt
ignore_denied-Steps e = Steps-throw _

module _ (P : Preorder) (c : Collaborators) (kept : Kept P c) where
  open kept use {transitions, events, assertions, completions, actions, opening, issuing, sending}

  claim_live-Steps : (id : String) (r : Release) (s : Scenario) → Steps P (claim_live id r s)
  unfolding claim_live
  claim_live-Steps id r s = search (steps_rules, actions, claimable-Leads) depth 12

  claim_open-Steps : (a : ReleaseAction) → Steps P (claim_open a)
  unfolding claim_open
  claim_open-Steps a = search (steps_rules, actions, unfinished-Leads, claim_live-Steps) depth 14

  claim-Steps : (id : String) → Steps P (claim id)
  unfolding claim
  claim-Steps id = search (steps_rules, claim_open-Steps) depth 10

  mark_suppressed-Steps :
      (id : String) (s : Scenario) (reason : String) → Steps P (mark_suppressed id s reason)
  unfolding mark_suppressed
  mark_suppressed-Steps id s reason =
      search (steps_rules, actions, events, in_flight-Leads, suppressing) depth 10

  maybe_complete_release-Steps :
      (id : String) (s : Scenario) → Steps P (maybe_complete_release id s)
  unfolding maybe_complete_release
  maybe_complete_release-Steps id s =
      search (steps_rules, completions, transitions, events, ignore_denied-Steps) depth 16

  settle-Steps :
      (a : ReleaseAction) (r : Release) (s : Scenario) (k : String) (x : SendResult)
      → Steps P (settle a r s k x)
  unfolding settle
  settle-Steps a r s k x =
      search (steps_rules, actions, events, in_flight-Leads, if-Leads, executing, losing) depth 14

  on_failure-Steps :
      (n : ℕ) (a : ReleaseAction) (s : Scenario) (e : Error) → Steps P (on_failure c n a s e)
  unfolding on_failure
  on_failure-Steps n a s e =
      search (steps_rules, actions, events, in_flight-Leads, state_after_failure-Leads) depth 14

  on_issue_failure-Steps : (a : ReleaseAction) (e : Error) → Steps P (on_issue_failure c a e)
  unfolding on_issue_failure
  on_issue_failure-Steps a e = search (steps_rules, actions, in_flight-Leads, failing) depth 10

  deliver-Steps :
      (n : ℕ) (a : ReleaseAction) (r : Release) (s : Scenario) (t : BundleRecipient)
      (o : String × String)
      → Steps P (deliver c n a r s t o)
  unfolding deliver
  deliver-Steps n a r s t (channel, plaintext) =
      search
        (
          steps_rules, issuing, sending, mark_suppressed-Steps, on_issue_failure-Steps,
          settle-Steps, on_failure-Steps, maybe_complete_release-Steps,
        )
        depth 14

  on_decrypt_blocked-Steps : (a : ReleaseAction) (e : Error) → Steps P (on_decrypt_blocked c a e)
  unfolding on_decrypt_blocked
  on_decrypt_blocked-Steps a e =
      search (steps_rules, actions, in_flight-Leads, sending_aborting) depth 10

  open_and_deliver-Steps :
      (n : ℕ) (a : ReleaseAction) (r : Release) (s : Scenario) (t : BundleRecipient) (m : String)
      → Steps P (open_and_deliver c n a r s t m)
  unfolding open_and_deliver
  open_and_deliver-Steps n a r s t m =
      search (steps_rules, events, opening, on_decrypt_blocked-Steps, deliver-Steps) depth 14

  execute-Steps : (n : ℕ) (x : ReleaseAction × Release × Scenario) → Steps P (execute c n x)
  unfolding execute
  execute-Steps n (a, r, s) =
      search (steps_rules, mark_suppressed-Steps, open_and_deliver-Steps) depth 14

  pub run-Steps : (id : String) (n : ℕ) → Steps P (run c id n)
  unfolding run
  run-Steps id n =
      search
        (
          steps_rules, assertions, safety_to_plain-Steps, actions, claimable-Leads_aborted,
          claim-Steps, execute-Steps,
        )
        depth 16
