-- ===== src/Safety/Isolation.antt =====
-- CircuitBreakerService.open and assertClosed (safety/circuit-breaker.service.ts): the isolation of a
-- provider and the cooldown.
use dead_switch.Common.{
  ℕ, ◌≤◌, ◌-◌, ◌≡◌, refl, sym, ap, ◌∙◌, subst, String, true, Option, some, none, List, [], ◌∷◌,
  ◌++◌, inl, inr, Bool-cases, Option-cases, str_eq_refl, ltb, arith, if◌then◌else◌,
}
use dead_switch.Schema.{SafetyMode, ProviderCircuitBreaker, circuit_open}
use dead_switch.World.{World}
use dead_switch.Effect.{
  M, done, fail, pure, throw, continue, ◌>>=◌, ◌>>◌, gets, clock, recall, remember, modify,
  transaction, commit, require, with_option, >>=-eq-done, commit-eq-done,
}
use dead_switch.Audit.Service.{Entry, record_event, append_audit}
use dead_switch.Audit.Intact.{recorded, hash_for, new_row, record_event_lem}
use dead_switch.Safety.Mode.{
  set_mode, fetch, current, refresh, cache, clear_cache, refresh_ms, includes_text,
  is_provider_isolated, provider_entry, isolate_provider,
}
use dead_switch.Safety.Breaker.{
  configs, lookup_config, config_for, next_cooldown, find_breaker, update_breaker, open_breaker,
  assert_closed,
}

-- The row of the database and the cached one isolate the provider.
pub record IsIsolated (provider : String) (row : SafetyMode) (w : World) : Type 0 where
  pub stored : w.db.safety_mode ≡ some row
  pub cached : w.mem.cached ≡ some row
  pub listed : includes_text provider row.isolated_providers ≡ true

includes_text-snoc : (p : String) (ps : List String) → includes_text p (ps ++ p ∷ []) ≡ true
unfolding includes_text
includes_text-snoc p [] = rw (str_eq_refl p)
includes_text-snoc p (q ∷ qs) = rw (includes_text-snoc p qs) (ground arith)

recorded-mode :
    (e : Entry) (w : World) (o : Option String) {u : Unit {0}} {w' : World}
    → recorded e w o ≡ done u w'
    → w'.db.safety_mode ≡ w.db.safety_mode
unfolding append_audit
recorded-mode e w none h = cc
recorded-mode e w (some k) {u} {w'} h =
    let moved : record w { db = append_audit (new_row e w k) w.db } ≡ w' = cc in
    ap (λ (v : World). v.db.safety_mode) (sym moved)

pub record_event-mode :
    (e : Entry) (w : World) {u : Unit {0}} {w' : World}
    → record_event e w ≡ done u w'
    → w'.db.safety_mode ≡ w.db.safety_mode
record_event-mode e w h = recorded-mode e w (hash_for e w) (sym (record_event_lem e w) ∙ h)

pub refresh_lem :
    (w : World) (row : SafetyMode)
    → w.db.safety_mode ≡ some row
    → refresh w ≡ done row (record w { mem = cache row w.now w.mem })
unfolding refresh current fetch ◌>>=◌ remember clock recall gets with_option pure clear_cache cache
refresh_lem w row h = rw h

current-cached :
    (w : World) (row : SafetyMode)
    → w.db.safety_mode ≡ some row
    → w.mem.cached ≡ some row
    → (v : World) × (current w ≡ done row v)
unfolding current fetch ◌>>=◌ remember clock recall gets with_option pure
current-cached w row h c = elim (Bool-cases (ltb (w.now - w.mem.last_fetch_at) refresh_ms)) [
  | inl y ↦ (w, rw (c, y))
  | inr n ↦ (record w { mem = cache row w.now w.mem }, rw (c, n, h))
]

assert_closed-IsIsolated :
    (provider : String) (row : SafetyMode) (w : World)
    → IsIsolated provider row w
    → (v : World) × (assert_closed provider w ≡ fail (circuit_open provider none) v)
unfolding assert_closed is_provider_isolated ◌>>=◌ pure require throw
assert_closed-IsIsolated provider row w i =
    let (v, e) = current-cached w row i.stored i.cached in (v, rw (e, i.listed))

isolated_row : String → SafetyMode → SafetyMode
isolated_row p row = record row { isolated_providers = row.isolated_providers ++ p ∷ [] }

-- The transaction of `isolateProvider`, once the row has been read.
isolating : String → String → String → SafetyMode → M (Unit {0})
unfolding isolated_row
isolating p reason actor row = if includes_text p row.isolated_providers then pure tt else do
  modify (set_mode (isolated_row p row))
  record_event (provider_entry "safety.provider.isolated" p (some reason) actor)

isolating-done :
    (p reason actor : String) (row : SafetyMode) (w : World) {u : Unit {0}} {w' : World}
    → w.db.safety_mode ≡ some row
    → isolating p reason actor row w ≡ done u w'
    → (r : SafetyMode) × (w'.db.safety_mode ≡ some r)
      × (includes_text p r.isolated_providers ≡ true)
unfolding isolating isolated_row ◌>>=◌ modify set_mode pure
isolating-done p reason actor row w {u} {w'} s h =
    elim (Bool-cases (includes_text p row.isolated_providers)) [
      | inl y ↦
          let same : w ≡ w' = let k = (rw y at h) in cc in
          (row, ap (λ (v : World). v.db.safety_mode) (sym same) ∙ s, y)
      | inr n ↦ (
        record row { isolated_providers = row.isolated_providers ++ p ∷ [] },
        record_event-mode _ _ (rw n at h),
        includes_text-snoc p row.isolated_providers,
      )
    ]

isolate_provider_lem :
    (p reason actor : String) (row : SafetyMode) (w : World)
    → w.db.safety_mode ≡ some row
    → isolate_provider p reason actor w
      ≡ continue (commit w.db (isolating p reason actor row w)) (λ _. refresh >>= λ _. pure tt)
unfolding isolate_provider transaction ◌>>=◌ gets with_option isolating isolated_row
isolate_provider_lem p reason actor row w s = rw s

isolate_provider-IsIsolated :
    (p reason actor : String) (row : SafetyMode) (w : World) {u : Unit {0}} {w' : World}
    → w.db.safety_mode ≡ some row
    → isolate_provider p reason actor w ≡ done u w'
    → (r : SafetyMode) × IsIsolated p r w'
unfolding ◌>>=◌ pure cache
isolate_provider-IsIsolated p reason actor row w {u} {w'} s h =
    let m : M (Unit {0}) = λ v. commit v.db (isolating p reason actor row v) in
    let (_, v, first, rest) =
      >>=-eq-done m (λ _. refresh >>= λ _. pure tt) w
        (sym (isolate_provider_lem p reason actor row w s) ∙ h) in
    let (r, stored, listed) = isolating-done p reason actor row w s (commit-eq-done w.db _ first) in
    let finish : done tt (record v { mem = cache r v.now v.mem }) ≡ done u w' =
      (rw (refresh_lem v r stored) at rest) in
    let same : record v { mem = cache r v.now v.mem } ≡ w' = cc in
    (r, subst (IsIsolated p r) same (record { stored = stored; cached = refl; listed = listed }))

-- Once `open` has opened the breaker of a provider, `assertClosed` refuses the provider at every
-- later instant, the probe instant included, as long as nothing else is done; the safety mode has
-- its row.
pub open_breaker-refuses :
    (provider reason : String) (row : SafetyMode) (w : World) {u : Unit {0}} {w' : World}
    → w.db.safety_mode ≡ some row
    → open_breaker provider reason w ≡ done u w'
    → (t : ℕ)
    → (v : World) × (assert_closed provider (record w' { now = t })
        ≡ fail (circuit_open provider none) v)
unfolding open_breaker ◌>>=◌ gets clock with_option throw modify update_breaker
open_breaker-refuses provider reason row w {u} {w'} s h t =
    elim (Option-cases (find_breaker provider w.db)) [
      | inl n ↦ let k = (rw n at h) in cc
      | inr (b, k) ↦
          let (r, i) = isolate_provider-IsIsolated provider reason "system" row _ s (rw k at h) in
          assert_closed-IsIsolated provider r (record w' { now = t })
            (record { stored = i.stored; cached = i.cached; listed = i.listed })
    ]

-- A breaker waits between the two bounds of its provider's configuration.
pub next_cooldown-bounds :
    (provider : String) (st : Option ProviderCircuitBreaker)
    → let cfg = config_for provider in
      (cfg.initial_cooldown_ms ≤ next_cooldown cfg st)
      × (next_cooldown cfg st ≤ cfg.max_cooldown_ms)
unfolding config_for next_cooldown lookup_config configs
next_cooldown-bounds provider st = ground arith
