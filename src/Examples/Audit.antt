-- ===== src/Examples/Audit.antt =====
-- Runs of audit/audit.service.ts.
use dead_switch.Common.{
  ℕ, ◌≡◌, ◌≢◌, refl, sym, ◌∙◌, subst, String, Bool, true, false, some, none, Option, List, [], ◌∷◌,
  ◌++◌, ◌⊎◌, str_eq, str_eq_refl, get_elem?, ap,
}
use dead_switch.Schema.{AuditActor, AuditEvent, text, null}
use dead_switch.Effect.{done, final}
use dead_switch.Audit.Service.{
  Entry, genesis, record_event, verify_chain, verify_rows, Verdict, intact, broken_at,
}
use dead_switch.Audit.Intact.{Intact, record_all, record_event-Intact, verify_chain-record_all}
use dead_switch.Audit.Column.{KeepsJson}
use dead_switch.Audit.Tamper.{row_text, verify_rows-edited}
use dead_switch.Examples.{env, empty_world}

abbrev entry : String → Entry
entry kind = record {
  user_id = "a";
  scenario_id = none;
  actor = AuditActor.user;
  event_type = kind;
  payload = text kind;
}

abbrev entries : List (ℕ × Entry)
entries = (1, entry "x") ∷ (2, entry "y") ∷ []

env-KeepsJson : KeepsJson env
env-KeepsJson = record { keeps = λ v j. refl }

record_event-Intact_example : Intact env (final (record_event (entry "x") empty_world)).db
unfolding dead_switch.Common.find_many dead_switch.Audit.Column.is_json
record_event-Intact_example =
    record_event-Intact (entry "x") empty_world env-KeepsJson refl (λ s. tt)

verify_chain-record_all_example :
    verify_chain "user:a" (record_all entries empty_world)
    ≡ done intact (record_all entries empty_world)
unfolding dead_switch.Audit.Column.is_json
verify_chain-record_all_example =
    verify_chain-record_all "user:a" entries empty_world env-KeepsJson (refl, (refl, tt)) refl

abbrev or_empty : Option String → String
or_empty none = ""
or_empty (some s) = s

abbrev or_row : Option AuditEvent → AuditEvent
or_row none = record {
  user_id = "a";
  scenario_id = none;
  chain_scope = "user:a";
  seq = 0;
  actor = AuditActor.user;
  event_type = "z";
  payload_redacted = null;
  prev_hash = "";
  hash = "";
  occurred_at = 0;
}
or_row (some r) = r

abbrev rows : List AuditEvent
rows = (record_all entries empty_world).db.audit

abbrev first : AuditEvent
first = or_row (get_elem? rows 0)

abbrev second : AuditEvent
second = or_row (get_elem? rows 1)

-- The first row with another event, hashed anew.
abbrev forged : AuditEvent
forged = record first { event_type = "z" }

different : (a b : String) → str_eq a b ≡ false → a ≢ b
different a b h e =
    let k : str_eq a a ≡ false = subst (λ c. str_eq a c ≡ false) (sym e) h in cc (str_eq_refl a)

verify_rows-edited_example :
    (verify_rows env genesis (forged ∷ second ∷ []) ≡ broken_at forged.seq)
    ⊎ (verify_rows env genesis (forged ∷ second ∷ []) ≡ broken_at second.seq)
unfolding record_all dead_switch.Audit.Service.record_event
    dead_switch.Audit.CanonicalJson.canonicalize dead_switch.Audit.Service.hash_input
    dead_switch.Audit.Service.entry_of dead_switch.Effect.transaction dead_switch.Effect.◌>>=◌
    dead_switch.Effect.gets dead_switch.Effect.clock dead_switch.Effect.ask
    dead_switch.Effect.modify dead_switch.Effect.or_throw
    dead_switch.Audit.CanonicalJson.insert_field dead_switch.Audit.CanonicalJson.normalize
    dead_switch.Audit.CanonicalJson.sort_fields dead_switch.Audit.CanonicalJson.stringify
    dead_switch.Audit.Service.append_audit dead_switch.Audit.Service.chain_scope_for
    dead_switch.Audit.Service.event_row dead_switch.Audit.Service.hash_after
    dead_switch.Audit.Service.hash_of dead_switch.Audit.Service.in_scope
    dead_switch.Audit.Service.last_event dead_switch.Audit.Service.seq_after
    dead_switch.Common.find_many dead_switch.Common.str_eq dead_switch.Common.template
    dead_switch.Effect.pure
verify_rows-edited_example =
    verify_rows-edited env "user:a" [] first forged second []
      (or_empty (row_text env genesis first)) (or_empty (row_text env genesis forged))
      (or_empty (row_text env forged.hash second)) (λ a b e. e)
      (refl, refl, refl, refl, (refl, refl, refl, refl, tt)) refl refl refl (different _ _ refl)
