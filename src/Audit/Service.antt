-- ===== src/Audit/Service.antt =====
-- audit/audit.service.ts: `record` appends to a hash chain and `verifyChain` checks one.
use mathlib.Core.Option
use dead_switch.Common.{
  ℕ, ◌+◌, String, Bool, true, false, ◌&&◌, List, [], ◌∷◌, ◌++◌, Option, none, some, leb, str_eq,
  template, find_many, if◌then◌else◌,
}
use dead_switch.Schema.{
  AuditActor, AuditEvent, Value, null, integer, text, object, end, field, plain,
}
use dead_switch.World.{Env, Db}
use dead_switch.Effect.{M, ◌>>=◌, gets, ask, clock, modify, transaction, or_throw}
use dead_switch.Audit.CanonicalJson.{canonicalize}

-- The argument of `record`.
pub record Entry : Type 0 where
  pub user_id : String
  pub scenario_id : Option String
  pub actor : AuditActor
  pub event_type : String
  pub payload : Value

-- '0'.repeat(64)
abbrev pub genesis : String
genesis = "0000000000000000000000000000000000000000000000000000000000000000"

unfoldable pub chain_scope_for : Option String → String → String
chain_scope_for none user_id = template ("user:" ∷ user_id ∷ [])
chain_scope_for (some scenario_id) user_id = template ("scenario:" ∷ scenario_id ∷ [])

abbrev actor_text : AuditActor → String
actor_text AuditActor.user = "user"
actor_text AuditActor.system = "system"
actor_text AuditActor.contact = "contact"
actor_text AuditActor.release_worker = "release_worker"
actor_text AuditActor.admin = "admin"

abbrev text_or_null : Option String → Value
text_or_null none = null
text_or_null (some s) = text s

-- The object that is hashed, by `record` and by `verifyChain` alike.
unfoldable pub hash_input : String → ℕ → Entry → String → Value
hash_input scope seq e prev_hash = object (
    field "chainScope" (text scope) (
      field "seq" (integer seq) (
        field "userId" (text e.user_id) (
          field "scenarioId" (text_or_null e.scenario_id) (
            field "actor" (text (actor_text e.actor)) (
              field "eventType" (text e.event_type)
                (field "payload" e.payload (field "prevHash" (text prev_hash) end))))))))

unfoldable pub hash_of : Env → String → ℕ → Entry → String → Option String
hash_of env scope seq e prev_hash =
    Option.map env.sha256 (canonicalize env (hash_input scope seq e prev_hash))

unfoldable pub in_scope : String → AuditEvent → Bool
in_scope scope r = str_eq r.chain_scope scope

-- findFirst with orderBy seq desc: the row of the greatest seq, the earliest on a tie.
abbrev pub later : AuditEvent → Option AuditEvent → AuditEvent
later r none = r
later r (some s) = if leb s.seq r.seq then r else s

unfoldable pub last_event : List AuditEvent → Option AuditEvent
last_event [] = none
last_event (r ∷ rs) = some (later r (last_event rs))

unfoldable pub seq_after : Option AuditEvent → ℕ
seq_after none = 1
seq_after (some r) = r.seq + 1

unfoldable pub hash_after : Option AuditEvent → String
hash_after none = genesis
hash_after (some r) = r.hash

unfoldable pub append_audit : AuditEvent → Db → Db
append_audit r db = record db { audit = db.audit ++ r ∷ [] }

-- What a reader gets of the row: the payload comes back as the column gives it.
unfoldable pub event_row : Env → ℕ → String → ℕ → Entry → String → String → AuditEvent
event_row env now scope seq e prev_hash hash = record {
  user_id = e.user_id;
  scenario_id = e.scenario_id;
  chain_scope = scope;
  seq = seq;
  actor = e.actor;
  event_type = e.event_type;
  payload_redacted = env.json_column e.payload;
  prev_hash = prev_hash;
  hash = hash;
  occurred_at = now;
}

-- The advisory lock serializes the writers of a scope, so the read and the write are one step.
unfoldable pub record_event : Entry → M (Unit {0})
record_event e = transaction (do
  let scope = chain_scope_for e.scenario_id e.user_id
  last ← gets (λ db. last_event (find_many (in_scope scope) db.audit))
  computed ← ask (λ env. hash_of env scope (seq_after last) e (hash_after last))
  hash ← or_throw computed (plain "canonicalize")
  now ← clock
  env ← ask (λ env. env)
  modify (append_audit (event_row env now scope (seq_after last) e (hash_after last) hash)))

-- What `verifyChain` reads back from a row.
unfoldable pub entry_of : AuditEvent → Entry
entry_of r = record {
  user_id = r.user_id;
  scenario_id = r.scenario_id;
  actor = r.actor;
  event_type = r.event_type;
  payload = r.payload_redacted;
}

-- One round: the recomputed hash and the link to the row before; `none` is an exception.
unfoldable pub row_verifies : Env → String → AuditEvent → Option Bool
row_verifies env prev r =
    Option.map (λ h. str_eq h r.hash && str_eq r.prev_hash prev)
      (hash_of env r.chain_scope r.seq (entry_of r) prev)

-- null or { brokenAtSeq }.
pub data Verdict : Type 0 where
  intact : Verdict
  broken_at : ℕ → Verdict
  raised : Verdict

unfoldable pub verify_rows : Env → String → List AuditEvent → Verdict
verify_rows env prev [] = intact
verify_rows env prev (r ∷ rs) = elim (row_verifies env prev r) [
  | none ↦ raised
  | some true ↦ verify_rows env r.hash rs
  | some false ↦ broken_at r.seq
]

-- orderBy seq asc.
unfoldable pub insert_by_seq : AuditEvent → List AuditEvent → List AuditEvent
insert_by_seq r [] = r ∷ []
insert_by_seq r (s ∷ ss) = if leb r.seq s.seq then r ∷ s ∷ ss else s ∷ insert_by_seq r ss

unfoldable pub sort_by_seq : List AuditEvent → List AuditEvent
unfolding insert_by_seq
sort_by_seq [] = []
sort_by_seq (r ∷ rs) = insert_by_seq r (sort_by_seq rs)

unfoldable pub verify_chain : String → M Verdict
verify_chain scope = do
  rows ← gets (λ db. sort_by_seq (find_many (in_scope scope) db.audit))
  ask (λ env. verify_rows env genesis rows)
