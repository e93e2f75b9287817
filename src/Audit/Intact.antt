-- ===== src/Audit/Intact.antt =====
-- AuditService.record and verifyChain (audit/audit.service.ts) against each other.
use mathlib.Core.List.{append-nil}
use dead_switch.Common.{
  ℕ, String, Bool, true, ◌≡◌, refl, sym, ◌∙◌, List, [], ◌∷◌, ◌++◌, Option, none, some, inl, inr,
  arith, str_eq→≡, Bool-cases, Option-cases, find_many, if◌then◌else◌, subst,
}
use dead_switch.Schema.{AuditEvent, plain}
use dead_switch.World.{Env, Db, World}
use dead_switch.Effect.{
  Outcome, done, fail, final, pure, throw, ◌>>=◌, gets, ask, clock, modify, transaction, or_throw,
}
use dead_switch.Audit.Service.{
  Entry, genesis, chain_scope_for, hash_of, in_scope, last_event, seq_after, hash_after,
  append_audit, event_row, record_event, entry_of, intact, verify_chain,
}
use dead_switch.Audit.Column.{KeepsJson, is_json, hash_of-read_back}
use dead_switch.Audit.Chain.{
  Chain, Chain-intact, sort_by_seq-Chain, seq_after-Chain, hash_after-Chain, Chain-snoc,
}

-- Every scope's rows, in the order in which they were written, are a chain from the genesis hash.
abbrev pub Intact : Env → Db → Type 0
Intact env db = (scope : String) → Chain env scope 1 genesis (find_many (in_scope scope) db.audit)

last_of : Entry → Db → Option AuditEvent
last_of e db = last_event (find_many (in_scope (chain_scope_for e.scenario_id e.user_id)) db.audit)

pub hash_for : Entry → World → Option String
unfolding last_of
hash_for e w =
    let last = last_of e w.db in
    hash_of w.env (chain_scope_for e.scenario_id e.user_id) (seq_after last) e (hash_after last)

unfoldable pub new_row : Entry → World → String → AuditEvent
unfolding last_of
new_row e w hash =
    let last = last_of e w.db in
    event_row w.env w.now (chain_scope_for e.scenario_id e.user_id) (seq_after last) e
      (hash_after last) hash

abbrev pub recorded : Entry → World → Option String → Outcome (Unit {0})
recorded e w none = fail (plain "canonicalize") w
recorded e w (some h) = done tt (record w { db = append_audit (new_row e w h) w.db })

pub record_event_lem : (e : Entry) (w : World) → record_event e w ≡ recorded e w (hash_for e w)
unfolding record_event transaction ◌>>=◌ gets ask clock or_throw throw pure modify hash_for new_row
record_event_lem e w = elim (Option-cases (hash_for e w)) [ inl n ↦ rw n | inr (h, s) ↦ rw s ]

scope-new_row :
    (e : Entry) (w : World) (h scope : String)
    → in_scope scope (new_row e w h) ≡ true
    → chain_scope_for e.scenario_id e.user_id ≡ scope
unfolding in_scope new_row event_row
scope-new_row e w h scope mine = str_eq→≡ _ _ mine

find_many-snoc :
    (p : AuditEvent → Bool) (rs : List AuditEvent) (r : AuditEvent)
    → find_many p (rs ++ r ∷ []) ≡ (find_many p rs ++ (if p r then r ∷ [] else []))
unfolding find_many
find_many-snoc p [] r = ground arith
find_many-snoc p (q ∷ rs) r = rw (find_many-snoc p rs r) (ground arith)

abbrev scope_of : Entry → String
scope_of e = chain_scope_for e.scenario_id e.user_id

append-own :
    (e : Entry) (w : World) (h : String)
    → KeepsJson w.env
    → is_json e.payload ≡ true
    → hash_for e w ≡ some h
    → Chain w.env (scope_of e) 1 genesis (find_many (in_scope (scope_of e)) w.db.audit)
    → Chain w.env
        (scope_of e)
        1
        genesis
        (find_many (in_scope (scope_of e)) w.db.audit ++ new_row e w h ∷ [])
unfolding new_row event_row hash_for last_of entry_of
append-own e w h k j eq c =
    let rows = find_many (in_scope (scope_of e)) w.db.audit in
    let same_hash = hash_after-Chain w.env (scope_of e) rows c in
    Chain-snoc w.env (scope_of e) 1 genesis rows (new_row e w h) c refl
      (seq_after-Chain w.env (scope_of e) rows genesis c) same_hash
      (hash_of-read_back w.env (scope_of e) _ e _ k j ∙ (rw (← same_hash) eq))

-- The new row extends the chain of its own scope and leaves the others as they are.
append-Intact :
    (e : Entry) (w : World) (h : String)
    → KeepsJson w.env
    → is_json e.payload ≡ true
    → hash_for e w ≡ some h
    → Intact w.env w.db
    → Intact w.env (append_audit (new_row e w h) w.db)
unfolding append_audit
append-Intact e w h k j eq c scope = elim (Bool-cases (in_scope scope (new_row e w h))) [
  | inl mine ↦
      rw (find_many-snoc (in_scope scope) w.db.audit (new_row e w h), mine)
        (subst
          (λ s. Chain w.env s 1 genesis (find_many (in_scope s) w.db.audit ++ new_row e w h ∷ []))
          (scope-new_row e w h scope mine) (append-own e w h k j eq (c (scope_of e))))
  | inr other ↦
      rw (find_many-snoc (in_scope scope) w.db.audit (new_row e w h), other, append-nil) (c scope)
]

-- `record_event` keeps every chain intact, whether it writes or throws, for a payload of JSON values
-- and a column that gives such values back up to the order of keys.
pub record_event-Intact :
    (e : Entry) (w : World)
    → KeepsJson w.env
    → is_json e.payload ≡ true
    → Intact w.env w.db
    → Intact w.env (final (record_event e w)).db
record_event-Intact e w k j c = elim (Option-cases (hash_for e w)) [
  | inl n ↦ rw (record_event_lem e w, n) c
  | inr (h, s) ↦ rw (record_event_lem e w, s) (append-Intact e w h k j s c)
]

-- A call at an instant; what it throws is caught by the caller.
unfoldable at_instant : ℕ → Entry → World → World
at_instant t e w = final (record_event e (record w { now = t }))

-- Calls one after the other.
unfoldable pub record_all : List (ℕ × Entry) → World → World
unfolding at_instant
record_all [] w = w
record_all ((t, e) ∷ es) w = record_all es (at_instant t e w)

record_event-env : (e : Entry) (w : World) → (final (record_event e w)).env ≡ w.env
record_event-env e w = elim (Option-cases (hash_for e w)) [
  | inl n ↦ rw (record_event_lem e w, n)
  | inr (h, s) ↦ rw (record_event_lem e w, s)
]

-- The payloads of the calls are values of JSON.
abbrev pub AllJson : List (ℕ × Entry) → Type 0
AllJson [] = Unit {0}
AllJson ((t, e) ∷ es) = (is_json e.payload ≡ true) × AllJson es

record_all-Intact :
    (es : List (ℕ × Entry)) (w : World)
    → KeepsJson w.env
    → AllJson es
    → Intact w.env w.db
    → Intact w.env (record_all es w).db
unfolding record_all
record_all-Intact [] w k j c = c
record_all-Intact ((t, e) ∷ es) w k (j, js) c =
    let w' = at_instant t e w in
    let same = record_event-env e (record w { now = t }) in
    subst (λ v. Intact v (record_all es w').db) same
      (record_all-Intact es w' (subst KeepsJson (sym same) k) js
        (rw same (record_event-Intact e (record w { now = t }) k j c)))

verify_chain-Intact :
    (scope : String) (w : World) → Intact w.env w.db → verify_chain scope w ≡ done intact w
unfolding verify_chain ◌>>=◌ gets ask
verify_chain-Intact scope w c =
    let rows = find_many (in_scope scope) w.db.audit in
    rw (
      sort_by_seq-Chain w.env scope 1 genesis rows (c scope),
      Chain-intact w.env scope 1 genesis rows (c scope),
    )

record_all-env : (es : List (ℕ × Entry)) (w : World) → (record_all es w).env ≡ w.env
unfolding record_all at_instant
record_all-env [] w = refl
record_all-env ((t, e) ∷ es) w =
    record_all-env es (at_instant t e w) ∙ record_event-env e (record w { now = t })

-- Starting from an empty log, whatever calls of `record_event` are made at whatever instants with
-- payloads of JSON values, and a column that gives such values back up to the order of keys:
-- `verify_chain` finds the chain of every scope intact and changes nothing.
pub verify_chain-record_all :
    (scope : String) (es : List (ℕ × Entry)) (w : World)
    → KeepsJson w.env
    → AllJson es
    → w.db.audit ≡ []
    → verify_chain scope (record_all es w) ≡ done intact (record_all es w)
unfolding find_many
verify_chain-record_all scope es w k j empty =
    verify_chain-Intact scope (record_all es w)
      (rw (record_all-env es w) (record_all-Intact es w k j (λ s. rw empty tt)))
