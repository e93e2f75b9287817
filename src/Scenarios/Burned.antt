-- ===== src/Scenarios/Burned.antt =====
-- The abort codes in ScenariosService.abort (scenarios/scenarios.service.ts).
use dead_switch.Common.{
  ℕ, ◌≡◌, refl, sym, ap, ◌∙◌, String, Bool, true, ◌&&◌, List, [], ◌∷◌, some, some_inj, inl, inr,
  Option-cases, Bool-cases, arith, str_eq, find_first, find_many, count_where, update_many,
  find_first-holds, Any,
}
use dead_switch.Schema.{bad_request, AbortCode, Scenario, AuditEvent}
use dead_switch.World.{Db, World}
use dead_switch.Effect.{
  M, done, final, pure, throw, ◌>>=◌, gets, ask, clock, modify, or_throw, transaction, >>=-eq-done,
  commit-eq-done,
}
use dead_switch.Effect.Steps.{Preorder, Steps, Steps-modify, steps_rules}
use dead_switch.State.Service.{
  Extra, no_extra, set_scenarios, update_scenarios, check_after, transition,
}
use dead_switch.Audit.Service.{Entry, append_audit, record_event}
use dead_switch.Scenarios.Service.{owned_by, get}
use dead_switch.Scenarios.Active.{usable_code, burn_code, abort_key, abort_in_transaction, abort}

unfoldable codes : Preorder
codes = record {
  rel = λ d e. e.abort_codes ≡ d.abort_codes;
  reflexive = λ d. refl;
  transitive = λ a b c p q. q ∙ p;
  serial_free = λ d n. refl;
}

append_audit-Steps : (r : AuditEvent) → Steps codes (modify (append_audit r))
unfolding append_audit codes
append_audit-Steps r = Steps-modify _ λ d. refl

record_event-codes : (e : Entry) → Steps codes (record_event e)
unfolding record_event
record_event-codes e = search (steps_rules, append_audit-Steps) depth 12

set_scenarios-Steps : (f : List Scenario → List Scenario) → Steps codes (modify (set_scenarios f))
unfolding set_scenarios codes
set_scenarios-Steps f = Steps-modify _ λ d. refl

transition-codes : (id key : String) (extra : Extra) → Steps codes (transition id key extra)
unfolding transition update_scenarios check_after
transition-codes id key extra = search (steps_rules, set_scenarios-Steps) depth 20

-- The rest of the transaction, after the code has been burned.
after_burning : Scenario → ℕ → M (Unit {0})
after_burning scenario now = do
  key ←
      or_throw (abort_key scenario.state)
        (bad_request "abort only valid during incident/escalation/grace")
  transition scenario.id key (record no_extra { aborted_at = some now }) >>= λ _. pure tt

after_burning-codes : (s : Scenario) (now : ℕ) → Steps codes (after_burning s now)
unfolding after_burning
after_burning-codes s now = search (steps_rules, transition-codes) depth 8

-- No code of this identifier can be used.
abbrev pub IsBurned : String → String → String → Db → Type 0
IsBurned user_id id code_id db =
    (t : ℕ)
    → count_where (λ (k : AbortCode). str_eq k.id code_id && usable_code user_id id t k)
        db.abort_codes
      ≡ 0

burn-codes :
    (user_id id code_id : String) (now t : ℕ) (cs : List AbortCode)
    → count_where
        (λ (k : AbortCode). str_eq k.id code_id && usable_code user_id id t k)
        (update_many
          (λ (c : AbortCode). str_eq c.id code_id)
          (λ c. record c { used_at = some now })
          cs)
      ≡ 0
unfolding count_where update_many usable_code
burn-codes u i code now t [] = refl
burn-codes u i code now t (c ∷ cs) = ground (arith, burn-codes u i code now t cs)

find_first-find_many :
    (p q : AbortCode → Bool) (cs : List AbortCode) (c : AbortCode)
    → find_first q (find_many p cs) ≡ some c
    → p c ≡ true
unfolding find_first find_many
find_first-find_many p q [] c h = cc
find_first-find_many p q (d ∷ cs) c h = elim (Bool-cases (p d)) [
  | inl y ↦ elim (Bool-cases (q d)) [
    | inl z ↦ (let k : d ≡ c = some_inj (rw (y, z) at h) in ap p (sym k) ∙ y)
    | inr n ↦ find_first-find_many p q cs c (rw (y, n) at h)
  ]
  | inr n ↦ find_first-find_many p q cs c (rw n at h)
]

-- The row that is found is a row of the table.
find_first-find_many_row :
    (p q : AbortCode → Bool) (cs : List AbortCode) (c : AbortCode)
    → find_first q (find_many p cs) ≡ some c
    → Any (λ k. k ≡ c) cs
unfolding find_first find_many
find_first-find_many_row p q [] c h = cc
find_first-find_many_row p q (d ∷ cs) c h = elim (Bool-cases (p d)) [
  | inl y ↦ elim (Bool-cases (q d)) [
    | inl z ↦ inl (some_inj (rw (y, z) at h))
    | inr n ↦ inr (find_first-find_many_row p q cs c (rw (y, n) at h))
  ]
  | inr n ↦ inr (find_first-find_many_row p q cs c (rw n at h))
]

burned : String → World → World
burned code_id w = record w { db = burn_code code_id w.now w.db }

abort_in_transaction_lem :
    (s : Scenario) (code_id : String) (w : World)
    → abort_in_transaction s code_id w ≡ after_burning s w.now (burned code_id w)
unfolding abort_in_transaction after_burning burned ◌>>=◌ clock modify
abort_in_transaction_lem s code_id w = refl

-- What the transaction and the event after it leave of the codes.
tail-codes :
    (s : Scenario) (code_id : String) (e : Entry) (w : World) {u : Unit {0}} {w' : World}
    → (transaction (abort_in_transaction s code_id) >>= λ _. record_event e) w ≡ done u w'
    → w'.db.abort_codes ≡ (burned code_id w).db.abort_codes
unfolding codes transaction
tail-codes s code_id e w h =
    let (_, v, first, second) =
      >>=-eq-done (transaction (abort_in_transaction s code_id)) (λ _. record_event e) w h in
    let inner =
      sym (abort_in_transaction_lem s code_id w)
      ∙ commit-eq-done w.db (abort_in_transaction s code_id w) first in
    let codes_of : World → List AbortCode = λ x. x.db.abort_codes in
    sym (ap (λ o. codes_of (final o)) second)
    ∙ ((record_event-codes e).at v
        ∙ (sym (ap (λ o. codes_of (final o)) inner)
            ∙ (after_burning-codes s w.now).at (burned code_id w)))

-- An abort that succeeds was given a code of the table that is the user's, for this scenario,
-- unused and not expired, and that matches the presented one; afterwards no code of its identifier can be used
-- for the scenario, at any instant.
pub abort-IsBurned :
    (user_id id abort_code : String) (w : World) {u : Unit {0}} {w' : World}
    → abort user_id id abort_code w ≡ done u w'
    → (c : AbortCode) × Any (λ k. k ≡ c) w.db.abort_codes
      × (usable_code user_id id w.now c ≡ true)
      × (w.env.argon2_verify c.code_hash abort_code ≡ true)
      × IsBurned user_id id c.id w'.db
unfolding abort get ◌>>=◌ gets ask clock or_throw throw pure
abort-IsBurned user_id id abort_code w {u} {w'} h =
    elim (Option-cases (find_first (owned_by user_id id) w.db.scenarios)) [
      | inl n ↦ let k = (rw n at h) in cc
      | inr (s, found) ↦
          let usable = find_many (usable_code user_id id w.now) w.db.abort_codes in
          let matches = λ (c : AbortCode). w.env.argon2_verify c.code_hash abort_code in
          elim (Option-cases (find_first matches usable)) [
            | inl n ↦ let k = (rw (found, n) at h) in cc
            | inr (c, hit) ↦ (
              c,
              find_first-find_many_row (usable_code user_id id w.now) matches w.db.abort_codes c
                  hit,
              find_first-find_many (usable_code user_id id w.now) matches w.db.abort_codes c hit,
              find_first-holds matches usable c hit,
              λ t.
                  rw (tail-codes s c.id _ w (rw (found, hit) at h)) (
                    unfold burned burn_code in burn-codes user_id id c.id w.now t w.db.abort_codes),
            )
          ]
    ]
