-- ===== src/Providers/Permanent.antt =====
-- The outcome of `classify` (providers/error-classifier.ts).
use dead_switch.Common.{
  ℕ, ◌≡◌, ◌≢◌, ◌≤◌, ◌<◌, sym, ◌∙◌, String, Bool, true, false, some, not, ◌&&◌, ◌||◌, arith, leb,
  ltb, ◌==◌,
}
use mathlib.Core.Logic.{◌↔◌}
use dead_switch.Schema.{Error}
use dead_switch.Providers.Classify.{
  Described, other_code, is_provider_error, permanent, classify_unknown, classify,
}

client_status : ℕ → Bool
client_status s = s == 401 || (s == 403 || (leb 400 s && (ltb s 500 && not (s == 429))))

-- What the code makes of a status alone.
status_lem :
    (number_text : ℕ → String) (d : Described) (s : ℕ)
    → d.status ≡ some s
    → d.code ≡ other_code
    → d.is_interrupted ≡ false
    → permanent (classify_unknown number_text d) ≡ client_status s
unfolding classify_unknown permanent client_status
status_lem number_text d s t c n = rw (n, t, c) (ground arith)

refused_status : (s : ℕ) → client_status s ≡ true → (400 ≤ s) × (s < 500) × (s ≢ 429)
unfolding client_status
refused_status s h = (ground arith, ground arith, λ e. ground arith)

status_refused : (s : ℕ) → (400 ≤ s) × (s < 500) × (s ≢ 429) → client_status s ≡ true
unfolding client_status
status_refused s (low, high, rate) = ground (arith, rate)

-- An error that is no ProviderError, with an HTTP status, without a code of its own and without an
-- interrupted connection, is permanent exactly when the status is a 4xx other than 429.
pub classify-permanent :
    (number_text : ℕ → String) (describe : Error → Described) (err : Error) (s : ℕ)
    → is_provider_error err ≡ false
    → (describe err).status ≡ some s
    → (describe err).code ≡ other_code
    → (describe err).is_interrupted ≡ false
    → (permanent (classify number_text describe err) ≡ true) ↔ ((400 ≤ s) × (s < 500) × (s ≢ 429))
unfolding classify
classify-permanent number_text describe err s u t c n =
    let same = status_lem number_text (describe err) s t c n in
    rw u (λ h. refused_status s (sym same ∙ h), λ h. same ∙ status_refused s h)
