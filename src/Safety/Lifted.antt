-- ===== src/Safety/Lifted.antt =====
-- The rule of ContainmentService.tick (safety/containment.service.ts) for messages sent after an abortion,
-- in a mode that is already stricter.
use dead_switch.Common.{
  ℕ, ◌<◌, ◌≡◌, refl, sym, ap, ◌∙◌, String, true, false, List, [], ◌∷◌, some, arith, lt→ltb,
  template, count_where,
}
use dead_switch.Schema.{SafetyModeKind, SafetyMode, mode_eq, ReleaseAction}
use dead_switch.World.{World}
use dead_switch.Effect.{done, final, pure, ◌>>=◌, ◌>>◌, gets, ask, clock, modify, >>=-eq-done}
use dead_switch.Effect.Steps.{Preorder, Steps, Steps-modify, steps_rules}
use dead_switch.Safety.Mode.{forbids_auto, entered, enter}
use dead_switch.Safety.Exit.{enter-entered}
use dead_switch.Safety.Gate.{event_since}
use dead_switch.Safety.Containment.{abort_siblings, rule_sent_after_abort}
use dead_switch.Releases.Executor.{set_actions}

unfoldable modes : Preorder
modes = record {
  rel = λ d e. e.safety_mode ≡ d.safety_mode;
  reflexive = λ d. refl;
  transitive = λ a b c p q. q ∙ p;
  serial_free = λ d n. refl;
}

set_actions-Steps :
    (f : List ReleaseAction → List ReleaseAction) → Steps modes (modify (set_actions f))
unfolding set_actions modes
set_actions-Steps f = Steps-modify _ λ d. refl

abort_siblings-Steps : Steps modes abort_siblings
unfolding abort_siblings
abort_siblings-Steps = search (steps_rules, set_actions-Steps) depth 10

abbrev pub fired_at : World → ℕ
fired_at w = count_where (event_since "release.action.sent_after_abort" w.now 300000) w.db.audit

not_auto_exit : (m : SafetyModeKind) → forbids_auto m SafetyModeKind.release_restricted true ≡ false
unfolding forbids_auto mode_eq
not_auto_exit m = ground arith

abbrev pub reason_at : World → String
reason_at w =
    template ("C1: sent_after_abort=" ∷ w.env.number_text (fired_at w) ∷ " in last 5m" ∷ [])

rule_lem :
    (w : World)
    → 0 < fired_at w
    → rule_sent_after_abort w
      ≡ (enter SafetyModeKind.release_restricted (reason_at w) "system" true
            >> (abort_siblings >> pure ("C1" ∷ [])))
          w
unfolding rule_sent_after_abort ◌>>=◌ clock gets ask
rule_lem w h = rw (lt→ltb 0 (fired_at w) h) refl

-- Where the log holds a message sent after an abortion in the last five minutes, the rule, if it
-- does not throw, takes every other mode to `release_restricted`, also a freeze or a compromised
-- log: a stricter mode, which two operators have to leave, is left automatically.
pub rule_sent_after_abort-lifts :
    (row : SafetyMode) (w : World) {fired : List String} {w' : World}
    → w.db.safety_mode ≡ some row
    → mode_eq row.mode SafetyModeKind.release_restricted ≡ false
    → 0 < fired_at w
    → rule_sent_after_abort w ≡ done fired w'
    → w'.db.safety_mode
      ≡ some (entered SafetyModeKind.release_restricted (reason_at w) "system" true w.now row)
unfolding modes ◌>>=◌ pure
rule_sent_after_abort-lifts row w {fired} {w'} s d n h =
    let enters = enter SafetyModeKind.release_restricted (reason_at w) "system" true in
    let (_, v, first, rest) =
      >>=-eq-done enters (λ _. abort_siblings >> pure ("C1" ∷ [])) w (sym (rule_lem w n) ∙ h) in
    let (stored, _) =
      enter-entered row SafetyModeKind.release_restricted (reason_at w) "system" true w s d
        (not_auto_exit row.mode) first in
    let (_, u, second, last) = >>=-eq-done abort_siblings (λ _. pure ("C1" ∷ [])) v rest in
    let same : u ≡ w' = cc in
    let kept = ap (λ o. (final o).db.safety_mode) (sym second) ∙ abort_siblings-Steps.at v in
    ap (λ (x : World). x.db.safety_mode) (sym same) ∙ (kept ∙ stored)
