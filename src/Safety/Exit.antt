-- ===== src/Safety/Exit.antt =====
-- SafetyModeService.enter (safety/safety-mode.service.ts).
use dead_switch.Common.{
  ℕ, ◌⊎◌, inl, inr, ◌≡◌, ◌≢◌, refl, String, Bool, true, false, arith, sym, ap, ◌∙◌, some,
}
use dead_switch.Schema.{SafetyModeKind, SafetyMode, mode_eq, Error, forbidden}
use dead_switch.World.{World, Db}
use dead_switch.Effect.{
  M, Outcome, finish, done, fail, pure, ask, clock, modify, throw, ◌>>=◌, gets, transaction,
  require, with_option, finally, continue, commit,
}
use dead_switch.Safety.Mode.{
  mode_or_normal, forbids_auto, entered, set_mode, append_transition, enter_in_transaction,
  change_mode, refresh, enter, cache,
}
use dead_switch.Safety.Isolation.{refresh_lem, record_event-mode}

not_normal :
    (m : SafetyModeKind)
    → forbids_auto m SafetyModeKind.normal true ≡ true
    → mode_eq m SafetyModeKind.normal ≡ false
unfolding forbids_auto mode_eq
not_normal m h = ground arith

enter_in_transaction-refused :
    (row : SafetyMode) (reason actor : String) (w : World)
    → w.db.safety_mode ≡ some row
    → forbids_auto row.mode SafetyModeKind.normal true ≡ true
    → enter_in_transaction SafetyModeKind.normal reason actor true w
      ≡ fail (forbidden "cannot auto-exit: dual-control required") w
unfolding enter_in_transaction ◌>>=◌ gets mode_or_normal require throw
enter_in_transaction-refused row reason actor w s h = rw (s, not_normal row.mode h, h)

must_stay :
    (m : SafetyModeKind)
    → (m ≡ SafetyModeKind.audit_compromised) ⊎ (m ≡ SafetyModeKind.emergency_freeze)
    → forbids_auto m SafetyModeKind.normal true ≡ true
unfolding forbids_auto mode_eq
must_stay m (inl e) = rw e refl
must_stay m (inr e) = rw e refl

-- An automatic return to `normal` from `audit_compromised` or from `emergency_freeze` is refused:
-- the database stays as it is, and the cache holds its row.
pub enter-refused :
    (row : SafetyMode) (reason actor : String) (w : World)
    → w.db.safety_mode ≡ some row
    → (row.mode ≡ SafetyModeKind.audit_compromised) ⊎ (row.mode ≡ SafetyModeKind.emergency_freeze)
    → enter SafetyModeKind.normal reason actor true w
      ≡ fail
          (forbidden "cannot auto-exit: dual-control required")
          (record w { mem = cache row w.now w.mem })
unfolding enter finally transaction ◌>>=◌ pure
enter-refused row reason actor w s h =
    rw (
      enter_in_transaction-refused row reason actor w s (must_stay row.mode h),
      refresh_lem w row s,
    )

change_mode-mode :
    (row : SafetyMode) (next : SafetyModeKind) (reason actor : String) (auto : Bool) (w : World)
    {u : Unit {0}} {w' : World}
    → change_mode row next reason actor auto w ≡ done u w'
    → w'.db.safety_mode ≡ some (entered next reason actor auto w.now row)
unfolding change_mode ◌>>=◌ clock ask modify set_mode append_transition
change_mode-mode row next reason actor auto w h = record_event-mode _ _ h

enter_in_transaction-changes :
    (row : SafetyMode) (next : SafetyModeKind) (reason actor : String) (auto : Bool) (w : World)
    → w.db.safety_mode ≡ some row
    → mode_eq row.mode next ≡ false
    → forbids_auto row.mode next auto ≡ false
    → enter_in_transaction next reason actor auto w ≡ change_mode row next reason actor auto w
unfolding enter_in_transaction ◌>>=◌ gets mode_or_normal require with_option throw pure
enter_in_transaction-changes row next reason actor auto w s d f = simp (s, d, f)

reload : M (Unit {0})
reload = refresh >>= λ _. pure tt

reload_lem :
    (w : World) (row : SafetyMode)
    → w.db.safety_mode ≡ some row
    → reload w ≡ done tt (record w { mem = cache row w.now w.mem })
unfolding reload ◌>>=◌ pure
reload_lem w row s = rw (refresh_lem w row s)

failed-eq-done :
    (e : Error) (o : Outcome (Unit {0})) {u : Unit {0}} {w' : World}
    → continue {B = Unit {0}} o (λ _ y. fail e y) ≢ done u w'
failed-eq-done e (done x y) k = cc
failed-eq-done e (fail x y) k = cc

finish-eq-done :
    (d : Db) (o : Outcome (Unit {0})) {u : Unit {0}} {w' : World}
    → finish (commit d o) reload ≡ done u w'
    → (x : Unit {0}) × (v : World) × (o ≡ done x v)
      × (continue (reload v) (λ _ y. done x y) ≡ done u w')
finish-eq-done d (done x v) h = (x, v, refl, h)
finish-eq-done d (fail e v) h = absurd (failed-eq-done e (reload (record v { db = d })) h)

pub enter-entered :
    (row : SafetyMode) (next : SafetyModeKind) (reason actor : String) (auto : Bool) (w : World)
    {u : Unit {0}} {w' : World}
    → w.db.safety_mode ≡ some row
    → mode_eq row.mode next ≡ false
    → forbids_auto row.mode next auto ≡ false
    → enter next reason actor auto w ≡ done u w'
    → (w'.db.safety_mode ≡ some (entered next reason actor auto w.now row))
      × (w'.mem.cached ≡ some (entered next reason actor auto w.now row))
unfolding enter finally transaction reload cache
enter-entered row next reason actor auto w {u} {w'} s d f h =
    let (x, v, first, rest) = finish-eq-done w.db _ h in
    let stored =
      change_mode-mode row next reason actor auto w
        (sym (enter_in_transaction-changes row next reason actor auto w s d f) ∙ first) in
    let new = entered next reason actor auto w.now row in
    let last : done x (record v { mem = cache new v.now v.mem }) ≡ done u w' =
      (rw (reload_lem v new stored) at rest) in
    let same : record v { mem = cache new v.now v.mem } ≡ w' = cc in
    (
      ap (λ (y : World). y.db.safety_mode) (sym same) ∙ stored,
      ap (λ (y : World). y.mem.cached) (sym same),
    )

-- The row of a mode that was entered.
abbrev pub IsEntered : SafetyModeKind → String → String → Bool → ℕ → SafetyMode → Type 0
IsEntered next reason actor auto now m =
    (m.mode ≡ next)
    × (m.reason ≡ some reason)
    × (m.entered_by ≡ some actor)
    × (m.entered_at ≡ now)
    × (m.auto_entered ≡ auto)

entered-IsEntered :
    (next : SafetyModeKind) (reason actor : String) (auto : Bool) (now : ℕ) (row : SafetyMode)
    → IsEntered next reason actor auto now (entered next reason actor auto now row)
      × ((entered next reason actor auto now row).isolated_providers ≡ row.isolated_providers)
unfolding entered
entered-IsEntered next reason actor auto now row = ((refl, refl, refl, refl, refl), refl)

-- A transition of the mode that commits has written the mode, its reason, its actor, its instant
-- and whether it was automatic, and keeps the isolated providers; the cache of the process holds
-- the new row.
pub enter-done :
    (row : SafetyMode) (next : SafetyModeKind) (reason actor : String) (auto : Bool) (w : World)
    {u : Unit {0}} {w' : World}
    → w.db.safety_mode ≡ some row
    → mode_eq row.mode next ≡ false
    → forbids_auto row.mode next auto ≡ false
    → enter next reason actor auto w ≡ done u w'
    → (m : SafetyMode) × (w'.db.safety_mode ≡ some m)
      × (w'.mem.cached ≡ some m)
      × IsEntered next reason actor auto w.now m
      × (m.isolated_providers ≡ row.isolated_providers)
enter-done row next reason actor auto w s d f h =
    let (stored, cached) = enter-entered row next reason actor auto w s d f h in
    let (is_new, kept) = entered-IsEntered next reason actor auto w.now row in
    (entered next reason actor auto w.now row, stored, cached, is_new, kept)
