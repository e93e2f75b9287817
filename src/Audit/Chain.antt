-- ===== src/Audit/Chain.antt =====
-- A scope's rows of audit/audit.service.ts as a hash chain.
use dead_switch.Common.{
  ℕ, ◌+◌, ◌≤◌, ◌<◌, String, true, ◌≡◌, refl, ◌∙◌, List, [], ◌∷◌, ◌++◌, Option, none, some, arith,
  str_eq_refl, some_inj,
}
use dead_switch.Schema.{AuditEvent}
use dead_switch.World.{Env}
use dead_switch.Audit.Service.{
  hash_of, last_event, later, seq_after, hash_after, entry_of, genesis, row_verifies, intact,
  verify_rows, insert_by_seq, sort_by_seq,
}

-- The rows carry the scope and the sequence numbers from `k`, each is linked to the hash before
-- it, and each hash is the hash of its row.
abbrev pub Chain : Env → String → ℕ → String → List AuditEvent → Type 0
Chain env scope k prev [] = Unit {0}
Chain env scope k prev (r ∷ rs) =
    (r.chain_scope ≡ scope)
    × (r.seq ≡ k)
    × (r.prev_hash ≡ prev)
    × (hash_of env r.chain_scope r.seq (entry_of r) prev ≡ some r.hash)
    × Chain env scope (k + 1) r.hash rs

row_verifies_lem :
    (env : Env) (prev : String) (r : AuditEvent)
    → r.prev_hash ≡ prev
    → hash_of env r.chain_scope r.seq (entry_of r) prev ≡ some r.hash
    → row_verifies env prev r ≡ some true
unfolding row_verifies
row_verifies_lem env prev r p h = rw (h, p, str_eq_refl r.hash, str_eq_refl prev)

-- A row that carries the hash of its own text, and the hash before it, is passed over.
pub verify_rows-cons :
    (env : Env) (prev : String) (r : AuditEvent) (rs : List AuditEvent)
    → r.prev_hash ≡ prev
    → hash_of env r.chain_scope r.seq (entry_of r) prev ≡ some r.hash
    → verify_rows env prev (r ∷ rs) ≡ verify_rows env r.hash rs
unfolding verify_rows
verify_rows-cons env prev r rs p h = rw (row_verifies_lem env prev r p h, verify_rows)

pub Chain-intact :
    (env : Env) (scope : String) (k : ℕ) (prev : String) (rs : List AuditEvent)
    → Chain env scope k prev rs
    → verify_rows env prev rs ≡ intact
unfolding verify_rows
Chain-intact env scope k prev [] c = refl
Chain-intact env scope k prev (r ∷ rs) (s, q, p, h, c) =
    verify_rows-cons env prev r rs p h ∙ Chain-intact env scope (k + 1) r.hash rs c

-- Sorting by seq leaves a chain as it is.
insert_by_seq-Chain :
    (env : Env) (scope : String) (k : ℕ) (prev : String) (r : AuditEvent) (rs : List AuditEvent)
    → r.seq ≤ k
    → Chain env scope k prev rs
    → insert_by_seq r rs ≡ r ∷ rs
unfolding insert_by_seq
insert_by_seq-Chain env scope k prev r [] h c = refl
insert_by_seq-Chain env scope k prev r (s ∷ ss) h c = ground arith

pub sort_by_seq-Chain :
    (env : Env) (scope : String) (k : ℕ) (prev : String) (rs : List AuditEvent)
    → Chain env scope k prev rs
    → sort_by_seq rs ≡ rs
unfolding sort_by_seq
sort_by_seq-Chain env scope k prev [] c = refl
sort_by_seq-Chain env scope k prev (r ∷ rs) c =
    rw (sort_by_seq-Chain env scope (k + 1) r.hash rs c.4)
      (insert_by_seq-Chain env scope (k + 1) r.hash r rs (omega arith) c.4)

-- The sequence number and the hash that the next row of a chain has to carry.
abbrev pub next_seq : ℕ → List AuditEvent → ℕ
next_seq k [] = k
next_seq k (r ∷ rs) = next_seq (k + 1) rs

abbrev pub next_hash : String → List AuditEvent → String
next_hash prev [] = prev
next_hash prev (r ∷ rs) = next_hash r.hash rs

le-next_seq : (k : ℕ) (rs : List AuditEvent) → k ≤ next_seq k rs
le-next_seq k [] = omega arith
le-next_seq k (r ∷ rs) = omega (arith, le-next_seq (k + 1) rs)

last_event-cons :
    (r : AuditEvent) (rs : List AuditEvent) → last_event (r ∷ rs) ≡ some (later r (last_event rs))
unfolding last_event
last_event-cons r rs = refl

later-some :
    (r : AuditEvent) (o : Option AuditEvent) (s : AuditEvent)
    → o ≡ some s
    → r.seq < s.seq
    → some (later r o) ≡ some s
later-some r none s e h = cc
later-some r (some t) s e h = rw (some_inj e) (ground arith)

-- The row of the greatest seq is the last one.
last_event-Chain :
    (env : Env) (scope : String) (k : ℕ) (prev : String) (r : AuditEvent) (rs : List AuditEvent)
    → Chain env scope k prev (r ∷ rs)
    → (s : AuditEvent) × (last_event (r ∷ rs) ≡ some s)
      × (s.seq + 1 ≡ next_seq k (r ∷ rs))
      × (s.hash ≡ next_hash prev (r ∷ rs))
last_event-Chain env scope k prev r [] c = (r, unfold last_event in refl, omega arith, refl)
last_event-Chain env scope k prev r (q ∷ qs) (i, j, p, h, c) =
    let (s, e, n, l) = last_event-Chain env scope (k + 1) r.hash q qs c in
    (
      s,
      last_event-cons r (q ∷ qs)
          ∙ later-some r (last_event (q ∷ qs)) s e (omega (arith, le-next_seq (k + 1 + 1) qs)),
      n,
      l,
    )

pub seq_after-Chain :
    (env : Env) (scope : String) (rs : List AuditEvent) (prev : String)
    → Chain env scope 1 prev rs
    → seq_after (last_event rs) ≡ next_seq 1 rs
unfolding seq_after
seq_after-Chain env scope [] prev c = unfold last_event in refl
seq_after-Chain env scope (r ∷ rs) prev c =
    let (s, e, n, l) = last_event-Chain env scope 1 prev r rs c in rw e n

pub hash_after-Chain :
    (env : Env) (scope : String) (rs : List AuditEvent)
    → Chain env scope 1 genesis rs
    → hash_after (last_event rs) ≡ next_hash genesis rs
unfolding hash_after
hash_after-Chain env scope [] c = unfold last_event in refl
hash_after-Chain env scope (r ∷ rs) c =
    let (s, e, n, l) = last_event-Chain env scope 1 genesis r rs c in rw e l

pub Chain-snoc :
    (env : Env) (scope : String) (k : ℕ) (prev : String) (rs : List AuditEvent) (r : AuditEvent)
    → Chain env scope k prev rs
    → r.chain_scope ≡ scope
    → r.seq ≡ next_seq k rs
    → r.prev_hash ≡ next_hash prev rs
    → hash_of env r.chain_scope r.seq (entry_of r) (next_hash prev rs) ≡ some r.hash
    → Chain env scope k prev (rs ++ r ∷ [])
Chain-snoc env scope k prev [] r c i j p h = (i, j, p, h, tt)
Chain-snoc env scope k prev (q ∷ qs) r (a, b, d, f, c) i j p h =
    (a, b, d, f, Chain-snoc env scope (k + 1) q.hash qs r c i j p h)
