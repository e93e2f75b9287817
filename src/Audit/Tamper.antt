-- ===== src/Audit/Tamper.antt =====
-- AuditService.verifyChain (audit/audit.service.ts) on a chain in which one row was edited afterwards.
use dead_switch.Common.{
  ℕ, ◌+◌, String, true, false, ◌≡◌, ◌≢◌, refl, sym, ap, ◌∙◌, List, [], ◌∷◌, ◌++◌, Option, some,
  some_inj, inl, inr, ◌⊎◌, arith, str_eq, str_eq→≡, str_eq_refl, Bool-cases,
}
use dead_switch.Schema.{AuditEvent}
use dead_switch.World.{Env}
use dead_switch.Audit.CanonicalJson.{canonicalize}
use dead_switch.Audit.Service.{
  genesis, hash_of, hash_input, entry_of, row_verifies, broken_at, verify_rows,
}
use dead_switch.Audit.Chain.{Chain, next_hash, next_seq, verify_rows-cons}

-- The text that is hashed for a row behind the hash `prev`.
abbrev pub row_text : Env → String → AuditEvent → Option String
row_text env prev r = canonicalize env (hash_input r.chain_scope r.seq (entry_of r) prev)

str_eq-ne : (a b : String) → a ≢ b → str_eq a b ≡ false
str_eq-ne a b h = elim (Bool-cases (str_eq a b)) [ inl e ↦ absurd (h (str_eq→≡ a b e)) | inr e ↦ e ]

str_eq-false : (a b : String) → str_eq a b ≡ false → a ≢ b
str_eq-false a b h e = let same : str_eq a b ≡ true = rw e (str_eq_refl b) in cc

verify_rows-broken :
    (env : Env) (prev : String) (r : AuditEvent) (rs : List AuditEvent)
    → row_verifies env prev r ≡ some false
    → verify_rows env prev (r ∷ rs) ≡ broken_at r.seq
unfolding verify_rows
verify_rows-broken env prev r rs h = rw (h, verify_rows)

verify_rows-prefix :
    (env : Env) (scope : String) (k : ℕ) (prev : String) (rs ss : List AuditEvent)
    → Chain env scope k prev rs
    → verify_rows env prev (rs ++ ss) ≡ verify_rows env (next_hash prev rs) ss
verify_rows-prefix env scope k prev [] ss c = refl
verify_rows-prefix env scope k prev (r ∷ rs) ss (i, j, p, h, c) =
    verify_rows-cons env prev r (rs ++ ss) p h ∙ verify_rows-prefix env scope (k + 1) r.hash rs ss c

-- The parts of a chain around its row `r`.
Chain-before :
    (env : Env) (scope : String) (k : ℕ) (prev : String) (rs ss : List AuditEvent)
    → Chain env scope k prev (rs ++ ss)
    → Chain env scope k prev rs
Chain-before env scope k prev [] ss c = tt
Chain-before env scope k prev (r ∷ rs) ss (i, j, p, h, c) =
    (i, j, p, h, Chain-before env scope (k + 1) r.hash rs ss c)

Chain-after :
    (env : Env) (scope : String) (k : ℕ) (prev : String) (rs ss : List AuditEvent)
    → Chain env scope k prev (rs ++ ss)
    → Chain env scope (next_seq k rs) (next_hash prev rs) ss
Chain-after env scope k prev [] ss c = c
Chain-after env scope k prev (r ∷ rs) ss (i, j, p, h, c) =
    Chain-after env scope (k + 1) r.hash rs ss c

hash_of-text :
    (env : Env) (prev : String) (r : AuditEvent) {t : String}
    → row_text env prev r ≡ some t
    → hash_of env r.chain_scope r.seq (entry_of r) prev ≡ some (env.sha256 t)
unfolding hash_of
hash_of-text env prev r h = rw h

wrong_hash :
    (env : Env) (prev : String) (r : AuditEvent) {t : String}
    → row_text env prev r ≡ some t
    → env.sha256 t ≢ r.hash
    → row_verifies env prev r ≡ some false
unfolding row_verifies
wrong_hash env prev r {t} h ne = rw (hash_of-text env prev r h, str_eq-ne (env.sha256 t) r.hash ne)

wrong_link :
    (env : Env) (prev : String) (r : AuditEvent) {t : String}
    → row_text env prev r ≡ some t
    → r.prev_hash ≢ prev
    → row_verifies env prev r ≡ some false
unfolding row_verifies
wrong_link env prev r {t} h ne =
    rw (hash_of-text env prev r h, str_eq-ne r.prev_hash prev ne) (ground arith)

-- The edited row keeps the old hash, or has its own.
edited_row :
    (env : Env) (prev : String) (r r' q : AuditEvent) (post : List AuditEvent) {t t' u : String}
    → ((a b : String) → env.sha256 a ≡ env.sha256 b → a ≡ b)
    → env.sha256 t ≡ r.hash
    → row_text env prev r' ≡ some t'
    → t ≢ t'
    → q.prev_hash ≡ r.hash
    → row_text env r'.hash q ≡ some u
    → (verify_rows env prev (r' ∷ q ∷ post) ≡ broken_at r'.seq)
      ⊎ (verify_rows env prev (r' ∷ q ∷ post) ≡ broken_at q.seq)
edited_row env prev r r' q post {t} {t'} inj hr ht' ne link hu =
    elim (Bool-cases (str_eq (env.sha256 t') r'.hash)) [
      | inl own ↦ elim (Bool-cases (str_eq r'.prev_hash prev)) [
        | inl linked ↦ inr (
            verify_rows-cons env prev r' (q ∷ post) (str_eq→≡ _ _ linked)
              (hash_of-text env prev r' ht' ∙ ap some (str_eq→≡ _ _ own))
            ∙ verify_rows-broken env r'.hash q post (
                wrong_link env r'.hash q hu
                  λ e. ne (inj t t' (hr ∙ sym link ∙ e ∙ sym (str_eq→≡ _ _ own)))))
        | inr unlinked ↦ inl (
            verify_rows-broken env prev r' (q ∷ post)
              (wrong_link env prev r' ht' (str_eq-false _ _ unlinked)))
      ]
      | inr stale ↦ inl (
          verify_rows-broken env prev r' (q ∷ post)
            (wrong_hash env prev r' ht' (str_eq-false _ _ stale)))
    ]

-- Take an intact chain, and replace one row that is not the last by a row with another hashed
-- text, whatever its other columns. If SHA-256 has no collision, and the texts of the edited row
-- and of its successor can be computed, the chain is reported as broken, at the edited row or at
-- its successor.
pub verify_rows-edited :
    (env : Env) (scope : String) (pre : List AuditEvent) (r r' q : AuditEvent)
    (post : List AuditEvent) (t t' u : String)
    → ((a b : String) → env.sha256 a ≡ env.sha256 b → a ≡ b)
    → Chain env scope 1 genesis (pre ++ r ∷ q ∷ post)
    → row_text env (next_hash genesis pre) r ≡ some t
    → row_text env (next_hash genesis pre) r' ≡ some t'
    → row_text env r'.hash q ≡ some u
    → t ≢ t'
    → (verify_rows env genesis (pre ++ r' ∷ q ∷ post) ≡ broken_at r'.seq)
      ⊎ (verify_rows env genesis (pre ++ r' ∷ q ∷ post) ≡ broken_at q.seq)
verify_rows-edited env scope pre r r' q post t t' u inj c ht ht' hu ne =
    let before = Chain-before env scope 1 genesis pre (r ∷ q ∷ post) c in
    let after = Chain-after env scope 1 genesis pre (r ∷ q ∷ post) c in
    rw (verify_rows-prefix env scope 1 genesis pre (r' ∷ q ∷ post) before) (
      edited_row env (next_hash genesis pre) r r' q post inj
        (some_inj (sym (hash_of-text env (next_hash genesis pre) r ht) ∙ after.3)) ht' ne after.4.2
        hu)
