-- ===== src/Releases/Again.antt =====
-- A run for an action that is finished (releases/release-action-executor.service.ts): a job that is
-- delivered again, or late.
use dead_switch.Common.{
  ℕ, ◌≡◌, refl, ap, sym, subst, ◌∙◌, if◌then◌else◌, List, String, true, false, none, some, inl, inr,
  Bool-cases, arith, find_first, count_where, count_where-both_fails, update_many-none,
}
use dead_switch.Schema.{
  ReleaseActionState, ReleaseAction, SafetyMode, Error, safety_blocked, action_includes,
}
use dead_switch.World.{World}
use dead_switch.Effect.{
  Outcome, done, fail, final, continue, M, pure, ◌>>=◌, gets, modify, transaction, try_catch,
  with_option,
}
use dead_switch.Effect.Steps.{Preorder, Steps, Steps-modify, Steps-throw, steps_rules}
use dead_switch.Safety.Capability.{release_continue_batch}
use dead_switch.Safety.Mode.{set_mode, assert}
use dead_switch.Safety.Steady.{assert-Steps}
use dead_switch.Releases.Executor.{
  Collaborators, finished, claimable, is_action, find_action, action_in, assign_action, set_actions,
  update_action, with_error, claim,
}
use dead_switch.Releases.Run.{safety_to_plain, is_tainted, execute, run}

unfoldable actions : Preorder
actions = record {
  rel = λ d e. e.actions ≡ d.actions;
  reflexive = λ d. refl;
  transitive = λ a b c p q. q ∙ p;
  serial_free = λ d n. refl;
}

set_mode-Steps : (row : SafetyMode) → Steps actions (modify (set_mode row))
unfolding set_mode actions
set_mode-Steps row = Steps-modify _ λ d. refl

safety_to_plain-Steps : (e : Error) → Steps actions (safety_to_plain e)
unfolding safety_to_plain
safety_to_plain-Steps (safety_blocked c m) = Steps-throw _
safety_to_plain-Steps e = Steps-throw _

first_step : M (Unit {0})
first_step = try_catch (assert release_continue_batch) safety_to_plain

first_step-Steps : Steps actions first_step
unfolding first_step
first_step-Steps =
    search (steps_rules, assert-Steps actions set_mode-Steps, safety_to_plain-Steps) depth 8

finished-claimable :
    (s : ReleaseActionState)
    → action_includes finished s ≡ true
    → action_includes claimable s ≡ false
unfolding action_includes
finished-claimable s h = ground arith

-- The one row of the action is finished.
pub record IsFinished (id : String) (a : ReleaseAction) (rows : List ReleaseAction) : Type 0 where
  pub found : find_first (is_action id) rows ≡ some a
  pub unique : count_where (is_action id) rows ≡ 1
  pub at_rest : action_includes finished a.state ≡ true

abort_nothing :
    (id reason : String) (a : ReleaseAction) (w : World)
    → IsFinished id a w.db.actions
    → update_action id claimable ReleaseActionState.aborted (with_error reason) w ≡ done 0 w
unfolding update_action ◌>>=◌ gets modify pure set_actions
abort_nothing id reason a w f =
    let zero : count_where (action_in id claimable) w.db.actions ≡ 0 =
      unfold action_in in
      count_where-both_fails (is_action id) (λ x. action_includes claimable x.state) w.db.actions a
        f.found f.unique (finished-claimable a.state f.at_rest) in
    rw (
      zero,
      update_many-none (action_in id claimable) (action_in id claimable)
          (assign_action ReleaseActionState.aborted (with_error reason)) w.db.actions zero,
    )

rest : Collaborators → String → ℕ → M (Unit {0})
rest c id n = do
  loaded ← gets (find_action id)
  tainted ← gets (is_tainted loaded)
  if tainted
      then (update_action id claimable ReleaseActionState.aborted
            (with_error "IL6: sibling sent_after_abort")
          >>= λ _. pure tt)
      else (do claimed ← claim id; with_option claimed (pure tt) (execute c n))

claim-finished :
    (id : String) (a : ReleaseAction) (w : World)
    → IsFinished id a w.db.actions
    → claim id w ≡ done none w
unfolding claim transaction ◌>>=◌ gets with_option pure find_action
claim-finished id a w f = rw (f.found, f.at_rest)

rest-finished :
    (c : Collaborators) (id : String) (n : ℕ) (a : ReleaseAction) (w : World)
    → IsFinished id a w.db.actions
    → rest c id n w ≡ done tt w
unfolding rest ◌>>=◌ gets with_option pure
rest-finished c id n a w f = elim (Bool-cases (is_tainted (find_action id w.db) w.db)) [
  | inl y ↦ rw (y, abort_nothing id "IL6: sibling sent_after_abort" a w f)
  | inr k ↦ rw (k, claim-finished id a w f)
]

after_first :
    (c : Collaborators) (id : String) (n : ℕ) (a : ReleaseAction) (w : World)
    (o : Outcome (Unit {0}))
    → (final o).db.actions ≡ w.db.actions
    → IsFinished id a w.db.actions
    → continue o (λ _. rest c id n) ≡ o
after_first c id n a w (fail e v) h f = refl
after_first c id n a w (done u v) h f = rest-finished c id n a v (subst (IsFinished id a) (sym h) f)

-- A run for an action whose one row is executed, given up, aborted, suppressed or sent after an
-- abortion decrypts nothing and sends nothing: whatever the collaborators are, it does no more than
-- the check of the safety mode with which every run begins, and the actions stay as they are.
pub run-finished :
    (c : Collaborators) (id : String) (n : ℕ) (a : ReleaseAction) (w : World)
    → IsFinished id a w.db.actions
    → (run c id n w ≡ try_catch (assert release_continue_batch) safety_to_plain w)
      × ((final (run c id n w)).db.actions ≡ w.db.actions)
unfolding run rest ◌>>=◌ first_step actions
run-finished c id n a w f =
    let kept = first_step-Steps.at w in
    let same = after_first c id n a w (first_step w) kept f in
    (same, ap (λ o. (final o).db.actions) same ∙ kept)
