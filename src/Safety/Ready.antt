-- ===== src/Safety/Ready.antt =====
-- What a favourable report of ExitGateService.evaluate means (safety/exit-gate.service.ts).
use dead_switch.Common.{
  ℕ, ◌≡◌, ◌≢◌, refl, sym, ap, ◌∙◌, String, Bool, true, false, ◌||◌, List, [], ◌∷◌, ◌++◌, inl, inr,
  Bool-cases, arith, leb, length, ◌==◌, str_eq, str_eq→≡, str_eq_refl, template, count_where,
  find_many, All, if◌then◌else◌,
}
use dead_switch.Schema.{AuditEvent, SafetyModeKind, mode_eq}
use dead_switch.World.{World, Env}
use dead_switch.Effect.{
  M, Outcome, done, fail, pure, throw, continue, ◌>>=◌, gets, ask, clock, >>=-eq-done,
}
use dead_switch.Audit.Service.{
  Verdict, intact, broken_at, raised, verify_chain, verify_rows, genesis, sort_by_seq, in_scope,
}
use dead_switch.Safety.Mode.{includes_text}
use dead_switch.Safety.Gate.{
  Check, ExitReport, is_open_or_half, is_sending, add_broken, broken_scopes, insert_scope,
  scopes_of, is_empty, check_audit_integrity, check_no_in_flight_dispatches, check_open_breakers,
  check_ambiguous_sends, check_outbox_lag, check_sent_after_abort, check_audit_export_lag,
  normal_checks, audit_checks, freeze_checks, further_checks, collect_checks, blockers_of,
  report_of, evaluate_exit,
}

not_empty : (xs : List String) (x : String) → is_empty (xs ++ x ∷ []) ≢ true
not_empty [] x h = cc
not_empty (y ∷ xs) x h = cc

too_many : (xs : List String) → leb 3 (length xs) ≡ true → is_empty xs ≢ true
too_many [] h e = ground arith
too_many (x ∷ xs) h e = cc

-- The chain of a scope, read in this world, verifies.
abbrev pub Verifies : World → String → Type 0
Verifies w scope = verify_chain scope w ≡ done intact w

abbrev AllVerify : World → List String → Type 0
AllVerify w ss = (s : String) → includes_text s ss ≡ true → Verifies w s

-- The loop, seen from a verdict.
step : Env → String → List String → List String → Verdict → M (List String)
step env s ss found v = do
  more ← add_broken env s v found
  if leb 3 (length more) then pure more else broken_scopes ss more

verdict_of : String → World → Verdict
verdict_of s w = verify_rows w.env genesis (sort_by_seq (find_many (in_scope s) w.db.audit))

verify_chain_lem : (s : String) (w : World) → verify_chain s w ≡ done (verdict_of s w) w
unfolding verify_chain verdict_of ◌>>=◌ gets ask
verify_chain_lem s w = refl

broken_scopes_lem :
    (s : String) (ss found : List String) (w : World)
    → broken_scopes (s ∷ ss) found w ≡ step w.env s ss found (verdict_of s w) w
unfolding broken_scopes step ◌>>=◌ ask
broken_scopes_lem s ss found w = rw (verify_chain_lem s w) refl

-- The scopes before and after the one whose verdict is read.
add_scope :
    (s : String) (ss : List String) (w : World)
    → Verifies w s
    → AllVerify w ss
    → AllVerify w (s ∷ ss)
unfolding includes_text
add_scope s ss w here rest t h = elim (Bool-cases (str_eq s t)) [
  | inl y ↦ (let e : s ≡ t = str_eq→≡ s t y in ap (λ x. verify_chain x w) (sym e) ∙ here)
  | inr n ↦ rest t (rw n at h)
]

after_more :
    (ss found more : List String) (w : World) {r : List String} {w' : World}
    → (broken_scopes ss more w ≡ done r w' → (is_empty more ≡ true) × AllVerify w ss × (w' ≡ w))
    → (if leb 3 (length more) then pure more else broken_scopes ss more) w ≡ done r w'
    → is_empty r ≡ true
    → (is_empty more ≡ true) × AllVerify w ss × (w' ≡ w)
unfolding pure
after_more ss found more w {r} {w'} ih h e = elim (Bool-cases (leb 3 (length more))) [
  | inl y ↦
      let k = (rw y at h) in
      let same : more ≡ r = cc in absurd (too_many more y (ap is_empty same ∙ e))
  | inr n ↦ ih (rw n at h)
]

after_verdict :
    (s : String) (ss found : List String) (v : Verdict) (w : World) {r : List String} {w' : World}
    → ((more : List String)
        → broken_scopes ss more w ≡ done r w'
        → (is_empty more ≡ true) × AllVerify w ss × (w' ≡ w))
    → step w.env s ss found v w ≡ done r w'
    → is_empty r ≡ true
    → (v ≡ intact) × (is_empty found ≡ true) × AllVerify w ss × (w' ≡ w)
unfolding step ◌>>=◌ pure throw
after_verdict s ss found intact w ih h e =
    let (empty, rest, same) = after_more ss found found w (ih found) h e in
    (refl, empty, rest, same)
after_verdict s ss found (broken_at n) w ih h e =
    let bad : String = template (s ∷ "@" ∷ w.env.number_text n ∷ []) in
    let (empty, _, _) = after_more ss found (found ++ bad ∷ []) w (ih (found ++ bad ∷ [])) h e in
    absurd (not_empty found bad empty)
after_verdict s ss found raised w ih h e = cc

broken_scopes_nil : (found : List String) (w : World) → broken_scopes [] found w ≡ done found w
unfolding broken_scopes pure
broken_scopes_nil found w = refl

broken_scopes-empty :
    (ss found : List String) (w : World) {r : List String} {w' : World}
    → broken_scopes ss found w ≡ done r w'
    → is_empty r ≡ true
    → (is_empty found ≡ true) × AllVerify w ss × (w' ≡ w)
unfolding includes_text
broken_scopes-empty [] found w {r} {w'} h e =
    let k = sym (broken_scopes_nil found w) ∙ h in
    let same : found ≡ r = cc in (ap is_empty same ∙ e, λ s k. cc, cc)
broken_scopes-empty (s ∷ ss) found w h e =
    let (here, empty, rest, same) =
      after_verdict s ss found (verdict_of s w) w (λ more k. broken_scopes-empty ss more w k e)
        (sym (broken_scopes_lem s ss found w) ∙ h) e in
    (empty, add_scope s ss w (verify_chain_lem s w ∙ ap (λ v. done v w) here) rest, same)

insert_scope-includes :
    (s : String) (ss : List String) (t : String)
    → (str_eq s t || includes_text t ss) ≡ true
    → includes_text t (insert_scope s ss) ≡ true
unfolding includes_text insert_scope
insert_scope-includes s [] t h = h
insert_scope-includes s (u ∷ ss) t h = ground (arith, insert_scope-includes s ss t, str_eq→≡ s u)

-- Every row of the log stands in a scope whose chain verifies.
scopes_of-All :
    (w : World) (es : List AuditEvent)
    → AllVerify w (scopes_of es)
    → All (λ (x : AuditEvent). Verifies w x.chain_scope) es
unfolding scopes_of
scopes_of-All w [] h = tt
scopes_of-All w (x ∷ es) h = (
  h x.chain_scope (
      insert_scope-includes x.chain_scope (scopes_of es) x.chain_scope
        (rw (str_eq_refl x.chain_scope) refl)),
  scopes_of-All w es
      (λ s k. h s (insert_scope-includes x.chain_scope (scopes_of es) s (rw k (ground arith)))),
)

check_audit_integrity-done :
    (w : World) {c : Check} {w' : World}
    → check_audit_integrity w ≡ done c w'
    → c.passed ≡ true
    → AllVerify w (scopes_of w.db.audit) × (w' ≡ w)
unfolding check_audit_integrity ◌>>=◌ gets pure
check_audit_integrity-done w {c} {w'} h p =
    let (broken, v, first, rest) = >>=-eq-done (broken_scopes (scopes_of w.db.audit) []) _ w h in
    let passes : is_empty broken ≡ true = (let k = ap passed_of rest in k ∙ p) in
    let (_, good, same) = broken_scopes-empty (scopes_of w.db.audit) [] w first passes in
    (good, (let k : v ≡ w' = cc in sym k ∙ same))
  where
    passed_of : Outcome Check → Bool
    passed_of (done x y) = x.passed
    passed_of (fail e y) = true

abbrev value : Outcome Check → Check
value (done c u) = c
value (fail e u) = record { check_id = ""; passed = false; detail = "" }

audit_checks-done :
    (w : World) {cs : List Check} {w' : World}
    → audit_checks w ≡ done cs w'
    → (a : Check) × (b : Check) × (cs ≡ a ∷ b ∷ [])
      × (v : World) × (check_audit_integrity w ≡ done a v)
      × (w' ≡ v)
unfolding audit_checks check_audit_export_lag ◌>>=◌ clock gets ask pure
audit_checks-done w {cs} {w'} h =
    let (a, v, first, rest) = >>=-eq-done check_audit_integrity _ w h in
    (a, value (check_audit_export_lag v), cc, v, first, cc)

passed_each : (cs : List Check) → is_empty (blockers_of cs) ≡ true → All (λ c. c.passed ≡ true) cs
unfolding blockers_of
passed_each [] h = tt
passed_each (c ∷ cs) h = elim (Bool-cases c.passed) [
  | inl y ↦ (y, passed_each cs (rw y at h))
  | inr n ↦ let k = (rw n at h) in cc
]

is_zero : (n : ℕ) → (n == 0) ≡ true → n ≡ 0
is_zero n h = ground arith

-- The checks of a freeze around the two of the audit log.
abbrev before_audit : World → List Check
before_audit w =
    value (check_ambiguous_sends w)
    ∷ value (check_open_breakers w)
    ∷ value (check_outbox_lag w)
    ∷ value (check_sent_after_abort w)
    ∷ []

abbrev freeze_report : World → List Check → World → ExitReport
freeze_report w cs v =
    report_of SafetyModeKind.normal
      (before_audit w ++ (cs ++ value (check_no_in_flight_dispatches v) ∷ []))

after_audit : World → Outcome (List Check) → Outcome ExitReport
after_audit w o =
    continue
      (continue (continue o (λ cs. check_no_in_flight_dispatches >>= λ c. pure (cs ++ c ∷ [])))
        (λ ds. pure (before_audit w ++ ds)))
      (λ cs. pure (report_of SafetyModeKind.normal cs))

after_audit_lem :
    (w : World) (o : Outcome (List Check))
    → after_audit w o ≡ continue o (λ cs v. done (freeze_report w cs v) v)
unfolding after_audit check_no_in_flight_dispatches ◌>>=◌ gets ask pure
after_audit_lem w (done cs v) = refl
after_audit_lem w (fail e v) = refl

freeze_lem :
    (w : World)
    → evaluate_exit SafetyModeKind.emergency_freeze SafetyModeKind.normal w
      ≡ after_audit w (audit_checks w)
unfolding evaluate_exit collect_checks normal_checks further_checks freeze_checks
    check_ambiguous_sends check_open_breakers check_outbox_lag check_sent_after_abort ◌>>=◌ gets ask
    clock pure after_audit mode_eq
freeze_lem w = refl

continued-eq-done :
    (w : World) (o : Outcome (List Check)) {rep : ExitReport} {w' : World}
    → continue o (λ cs v. done (freeze_report w cs v) v) ≡ done rep w'
    → (cs : List Check) × (o ≡ done cs w') × (rep ≡ freeze_report w cs w')
continued-eq-done w (done cs v) {rep} {w'} h = let same : v ≡ w' = cc in (cs, ap (done cs) same, cc)
continued-eq-done w (fail e v) h = cc

-- A report that lets a freeze end says what it promises: no action is being sent, no breaker is
-- open or half open, and the chain of every row of the audit log verifies.
pub evaluate_exit-freeze :
    (w : World) {rep : ExitReport} {w' : World}
    → evaluate_exit SafetyModeKind.emergency_freeze SafetyModeKind.normal w ≡ done rep w'
    → rep.safe ≡ true
    → (count_where is_sending w.db.actions ≡ 0)
      × (count_where is_open_or_half w.db.breakers ≡ 0)
      × All (λ (x : AuditEvent). Verifies w x.chain_scope) w.db.audit
unfolding report_of check_no_in_flight_dispatches check_open_breakers check_ambiguous_sends
    check_outbox_lag check_sent_after_abort ◌>>=◌ gets ask clock pure
evaluate_exit-freeze w {rep} {w'} h safe =
    let (cs, checked, made) =
      continued-eq-done w (audit_checks w)
        (sym (after_audit_lem w (audit_checks w)) ∙ (sym (freeze_lem w) ∙ h)) in
    let (a, b, two, v, read, same) = audit_checks-done w checked in
    let shape : rep ≡ freeze_report w (a ∷ b ∷ []) w' = made ∙ ap (λ x. freeze_report w x w') two in
    let passes = passed_each _ (sym (ap (λ (r : ExitReport). r.safe) shape) ∙ safe) in
    let closed : (count_where is_open_or_half w.db.breakers == 0) ≡ true = passes.1.0 in
    let sound : a.passed ≡ true = passes.1.1.1.1.0 in
    let quiet : (count_where is_sending w'.db.actions == 0) ≡ true = passes.1.1.1.1.1.1.0 in
    let (good, kept) = check_audit_integrity-done w read sound in
    let still : w' ≡ w = same ∙ kept in
    (
      ap (λ (x : World). count_where is_sending x.db.actions) (sym still) ∙ is_zero _ quiet,
      is_zero _ closed,
      scopes_of-All w w.db.audit good,
    )
