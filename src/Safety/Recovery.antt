-- ===== src/Safety/Recovery.antt =====
-- safety/recovery.service.ts: what an operator looks at before leaving a protective mode.
use dead_switch.Common.{
  ℕ, String, Bool, true, false, List, [], ◌∷◌, ◌++◌, Option, none, some, ltb, str_eq, template,
  length, take, find_first, find_many, count_where, update_many,
}
use dead_switch.Schema.{AuditActor, AuditExport, OutboxEvent, integer, object, end, field, plain}
use dead_switch.World.{Env, Db}
use dead_switch.Effect.{M, pure, throw, ◌>>=◌, ◌>>◌, gets, ask, clock, modify}
use dead_switch.Audit.Service.{Verdict, intact, broken_at, raised, record_event, verify_chain}
use dead_switch.Safety.Mode.{system_user_id}
use dead_switch.Safety.Gate.{ambiguous_since, event_since, is_open_or_half, is_empty, scopes_of}
use dead_switch.Safety.Containment.{max_seq}
use dead_switch.Workers.Relay.{sort_by_time, has_event_id, set_outbox}

pub record Preflight : Type 0 where
  pub safe : Bool
  pub blockers : List String

abbrev blocker_if : Bool → String → List String
blocker_if true b = b ∷ []
blocker_if false b = []

abbrev preflight_of : List String → Preflight
preflight_of blockers = record { safe = is_empty blockers; blockers = blockers }

unfoldable pub preflight_exit_release_restricted : M Preflight
unfolding event_since ambiguous_since
preflight_exit_release_restricted = do
  now ← clock
  sent ←
      gets (λ db. count_where (event_since "release.action.sent_after_abort" now 600000) db.audit)
  ambiguous ← gets (λ db. count_where (ambiguous_since now 600000) db.audit)
  breakers ← gets (λ db. count_where is_open_or_half db.breakers)
  env ← ask (λ env. env)
  pure (
      preflight_of (
        blocker_if (ltb 0 sent)
          (template ("sent_after_abort=" ∷ env.number_text sent ∷ " in last 10m" ∷ []))
        ++ (blocker_if (ltb 0 ambiguous)
              (template ("ambiguous=" ∷ env.number_text ambiguous ∷ " in last 10m" ∷ []))
            ++ blocker_if (ltb 0 breakers)
                (template ("open_breakers=" ∷ env.number_text breakers ∷ [])))))

abbrev exported_up_to : Option AuditExport → ℕ
exported_up_to none = 0
exported_up_to (some x) = x.exported_up_to_seq

unfoldable pub is_unexported : Db → String → Bool
unfolding max_seq
is_unexported db scope =
    ltb (exported_up_to (find_first (λ (x : AuditExport). str_eq x.chain_scope scope) db.exports))
      (max_seq scope db.audit)

abbrev add_break : Env → String → Verdict → List String → M (List String)
add_break env scope intact rest = pure rest
add_break env scope (broken_at seq) rest =
    pure (template (scope ∷ "@seq=" ∷ env.number_text seq ∷ []) ∷ rest)
add_break env scope raised rest = throw (plain "unserializable payload")

unfoldable pub chain_breaks : List String → M (List String)
unfolding ◌>>=◌ verify_chain pure ask
chain_breaks [] = pure []
chain_breaks (s ∷ ss) = verify_chain s >>= λ v.
    chain_breaks ss >>= λ rest. ask (λ env. env) >>= λ env. add_break env s v rest

unfoldable pub join_texts : List String → String
join_texts [] = ""
join_texts (s ∷ []) = s
join_texts (s ∷ t ∷ ss) = template (s ∷ "," ∷ join_texts (t ∷ ss) ∷ [])

-- The scopes are verified in the order of their names, which the query leaves open.
unfoldable pub preflight_exit_audit_compromised : M Preflight
unfolding is_unexported scopes_of chain_breaks join_texts
preflight_exit_audit_compromised = do
  stale ← gets (λ db. find_many (is_unexported db) (scopes_of db.audit))
  broken ← chain_breaks stale
  env ← ask (λ env. env)
  pure (
      preflight_of (
        blocker_if (ltb 0 (length stale))
          (template ("unexported_scopes=" ∷ env.number_text (length stale) ∷ []))
        ++ blocker_if (ltb 0 (length broken))
            (template ("chain_breaks=" ∷ join_texts broken ∷ []))))

unfoldable pub unlock_rows : List OutboxEvent → List OutboxEvent → List OutboxEvent
unlock_rows [] rows = rows
unlock_rows (e ∷ es) rows =
    unlock_rows es (update_many (has_event_id e.id) (λ r. record r { locked_until = none }) rows)

-- The number of rows that the relay will look at again.
unfoldable pub reconcile_outbox : ℕ → M ℕ
unfolding unlock_rows sort_by_time
reconcile_outbox limit = do
  rows ← gets (λ db. take limit (sort_by_time db.outbox))
  modify (set_outbox (unlock_rows rows))
  record_event (record {
    user_id = system_user_id;
    scenario_id = none;
    actor = AuditActor.admin;
    event_type = "recovery.outbox.reconciled";
    payload = object (field "count" (integer (length rows)) end);
  })
  pure (length rows)
