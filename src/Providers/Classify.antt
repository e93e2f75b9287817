-- ===== src/Providers/Classify.antt =====
-- providers/error-classifier.ts: the taxonomy of provider errors and `classify`.
use dead_switch.Common.{
  ℕ, String, Bool, true, false, not, ◌&&◌, ◌||◌, Option, none, some, leb, ltb, ◌==◌, template, [],
  ◌∷◌, if◌then◌else◌,
}
use dead_switch.Schema.{Error, config_error, client_error, transient_infra, ambiguous_outcome}

pub data BreakerImpact : Type 0 where
  no_impact failure ambiguous isolate_immediately : BreakerImpact

-- `code` of an error: the text EAUTH, a number, or anything else.
pub data ProviderCode : Type 0 where
  eauth other_code : ProviderCode
  number_code : ℕ → ProviderCode

-- What `classify` reads of an error that is no ProviderError. `is_interrupted` is the answer of
-- the regular expression on the message.
pub record Described : Type 0 where
  pub message : String
  pub is_interrupted : Bool
  pub status : Option ℕ
  pub code : ProviderCode

unfoldable pub is_provider_error : Error → Bool
is_provider_error (config_error m) = true
is_provider_error (client_error m) = true
is_provider_error (transient_infra m) = true
is_provider_error (ambiguous_outcome m) = true
is_provider_error _ = false

unfoldable pub breaker_impact : Error → BreakerImpact
breaker_impact (config_error m) = isolate_immediately
breaker_impact (client_error m) = no_impact
breaker_impact (transient_infra m) = failure
breaker_impact (ambiguous_outcome m) = ambiguous
breaker_impact _ = failure

unfoldable pub permanent : Error → Bool
permanent (config_error m) = true
permanent (client_error m) = true
permanent _ = false

abbrev pub is_auth : ProviderCode → Option ℕ → Bool
is_auth eauth status = true
is_auth code none = false
is_auth code (some s) = s == 401 || s == 403

abbrev pub is_client : Option ℕ → Bool
is_client none = false
is_client (some s) = leb 400 s && (ltb s 500 && not (s == 429))

abbrev pub is_known_permanent : ProviderCode → Bool
is_known_permanent (number_code n) = n == 21211 || (n == 21610 || n == 21612)
is_known_permanent _ = false

abbrev status_text : (ℕ → String) → Option ℕ → String
status_text number_text none = ""
status_text number_text (some s) = number_text s

abbrev code_text : (ℕ → String) → ProviderCode → String
code_text number_text (number_code n) = number_text n
code_text number_text _ = ""

-- What follows the first branch. `number_text` is the runtime's rendering of a number.
unfoldable pub classify_unknown : (ℕ → String) → Described → Error
classify_unknown number_text d =
    if d.is_interrupted
    then ambiguous_outcome d.message
    else if is_auth d.code d.status
    then config_error (template ("auth: " ∷ d.message ∷ []))
    else if is_client d.status
    then client_error
        (template ("client " ∷ status_text number_text d.status ∷ ": " ∷ d.message ∷ []))
    else if is_known_permanent d.code
    then client_error
        (template ("provider permanent " ∷ code_text number_text d.code ∷ ": " ∷ d.message ∷ []))
    else transient_infra d.message

-- `describe` tells what the runtime shows of an error.
unfoldable pub classify : (ℕ → String) → (Error → Described) → Error → Error
classify number_text describe err =
    if is_provider_error err then err else classify_unknown number_text (describe err)
