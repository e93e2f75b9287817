-- ===== src/Admin/Snapshot.antt =====
-- admin/request-gate.ts: the digest of what an approver sees.
use Prim.Native.Nat.{Ordering}
use Prim.Native.String.{compare}
use dead_switch.Common.{ℕ, String, List, [], ◌∷◌, count_where, find_many}
use dead_switch.Schema.{
  SafetyMode, CircuitState, ProviderCircuitBreaker, Value, Values, text, integer, array, object,
  nil, cons, end, field,
}
use dead_switch.World.{Db}
use dead_switch.Effect.{M, ◌>>=◌, gets, ask, clock}
use dead_switch.Audit.CanonicalJson.{stringify}
use dead_switch.Safety.Mode.{current, mode_text}
use dead_switch.Safety.Gate.{ambiguous_since, event_since, is_open_or_half, is_sending, export_lag}

abbrev circuit_text : CircuitState → String
circuit_text CircuitState.closed = "closed"
circuit_text CircuitState.open_circuit = "open"
circuit_text CircuitState.half_open = "half_open"

-- [...isolatedProviders].sort()
unfoldable pub insert_text : String → List String → List String
insert_text s [] = s ∷ []
insert_text s (t ∷ ts) =
    let rest = insert_text s ts in elim (compare s t) [ Ordering.gt ↦ t ∷ rest | _ ↦ s ∷ t ∷ ts ]

unfoldable pub sort_texts : List String → List String
unfolding insert_text
sort_texts [] = []
sort_texts (s ∷ ss) = insert_text s (sort_texts ss)

unfoldable pub texts_value : List String → Values
texts_value [] = nil
texts_value (s ∷ ss) = cons (text s) (texts_value ss)

-- orderBy: { provider: 'asc' }
unfoldable pub insert_by_provider :
    ProviderCircuitBreaker → List ProviderCircuitBreaker → List ProviderCircuitBreaker
insert_by_provider b [] = b ∷ []
insert_by_provider b (c ∷ cs) =
    let rest = insert_by_provider b cs in
    elim (compare b.provider c.provider) [ Ordering.gt ↦ c ∷ rest | _ ↦ b ∷ c ∷ cs ]

unfoldable pub breakers_value : List ProviderCircuitBreaker → Values
breakers_value [] = nil
breakers_value (b ∷ bs) =
    cons
      (object
        (field "provider" (text b.provider) (field "state" (text (circuit_text b.state)) end)))
      (breakers_value bs)

unfoldable pub sort_by_provider : List ProviderCircuitBreaker → List ProviderCircuitBreaker
unfolding insert_by_provider
sort_by_provider [] = []
sort_by_provider (b ∷ bs) = insert_by_provider b (sort_by_provider bs)

-- The object whose JSON is digested; its last field is the age of the oldest audit export.
unfoldable pub snapshot_value : SafetyMode → ℕ → Db → Value
unfolding sort_texts texts_value breakers_value sort_by_provider ambiguous_since event_since
    export_lag
snapshot_value mode now db = object (
    field "mode" (text (mode_text mode.mode)) (
      field "isolated" (array (texts_value (sort_texts mode.isolated_providers))) (
        field "breakers"
          (array (breakers_value (sort_by_provider (find_many is_open_or_half db.breakers))))
          (field "pendingActions" (integer (count_where is_sending db.actions)) (
            field "ambiguous5m" (integer (count_where (ambiguous_since now 300000) db.audit)) (
              field "sentAfterAbort10m"
                (integer
                  (count_where (event_since "release.action.sent_after_abort" now 600000) db.audit))
                (field "auditLagSec" (integer (export_lag now db.exports)) end)))))))

-- The digest; its body is not used by the callers.
unfoldable pub snapshot : M String
unfolding snapshot_value stringify
snapshot = do
  mode ← current
  now ← clock
  value ← gets (snapshot_value mode now)
  ask (λ env. env.sha256 (stringify env value))
