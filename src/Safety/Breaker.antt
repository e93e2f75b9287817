-- ===== src/Safety/Breaker.antt =====
-- safety/circuit-breaker.service.ts: the breaker of each provider, in the database and in the
-- memory of the process.
use text.Mathlib.Text.{starts_with}
use dead_switch.Common.{
  ℕ, ◌+◌, ◌-◌, ◌*◌, min, max, String, Bool, false, not, ◌&&◌, ◌||◌, List, [], ◌∷◌, ◌++◌, Option,
  none, some, leb, length, str_eq, template, if◌then◌else◌, find_first, find_many, count_where,
  update_many, ◌==◌,
}
use dead_switch.Schema.{CircuitState, circuit_eq, ProviderCircuitBreaker, circuit_open, Error}
use dead_switch.World.{Db}
use dead_switch.Effect.{
  M, pure, throw, ◌>>=◌, ◌>>◌, gets, clock, recall, remember, modify, when, require, with_option,
}
use dead_switch.Safety.Mode.{is_provider_isolated, isolate_provider, unisolate_provider}

pub record BreakerConfig : Type 0 where
  pub consec_failure_threshold : ℕ
  pub failure_window_count : ℕ
  pub failure_window_ms : ℕ
  pub ambiguous_window_count : ℕ
  pub ambiguous_window_ms : ℕ
  pub initial_cooldown_ms : ℕ
  pub max_cooldown_ms : ℕ

abbrev pub defaults : BreakerConfig
defaults = record {
  consec_failure_threshold = 10;
  failure_window_count = 25;
  failure_window_ms = 300000;
  ambiguous_window_count = 5;
  ambiguous_window_ms = 300000;
  initial_cooldown_ms = 60000;
  max_cooldown_ms = 600000;
}

abbrev pub kms : BreakerConfig
kms = record defaults {
  consec_failure_threshold = 2;
  initial_cooldown_ms = 15000;
  max_cooldown_ms = 120000;
}

abbrev pub voice : BreakerConfig
voice = record defaults {
  consec_failure_threshold = 8;
  failure_window_count = 15;
  ambiguous_window_count = 3;
  initial_cooldown_ms = 90000;
}

abbrev pub social : BreakerConfig
social = record defaults {
  consec_failure_threshold = 15;
  initial_cooldown_ms = 120000;
  max_cooldown_ms = 900000;
}

unfoldable pub configs : List (String × BreakerConfig)
configs =
    ("sendgrid", defaults)
    ∷ ("twilio-sms", defaults)
    ∷ ("twilio-voice", voice)
    ∷ ("kms-decrypt", kms)
    ∷ ("social-*", social)
    ∷ []

unfoldable pub lookup_config : String → List (String × BreakerConfig) → Option BreakerConfig
lookup_config provider [] = none
lookup_config provider ((p, c) ∷ rest) =
    if str_eq p provider then some c else lookup_config provider rest

abbrev pub or_by_prefix : Option BreakerConfig → Bool → BreakerConfig
or_by_prefix none is_social = if is_social then social else defaults
or_by_prefix (some c) is_social = c

unfoldable pub config_for : String → BreakerConfig
config_for provider = or_by_prefix (lookup_config provider configs) (starts_with provider "social-")

unfoldable pub is_of : String → ProviderCircuitBreaker → Bool
is_of provider b = str_eq b.provider provider

unfoldable pub find_breaker : String → Db → Option ProviderCircuitBreaker
find_breaker provider db = find_first (is_of provider) db.breakers

unfoldable pub update_breaker : String → (ProviderCircuitBreaker → ProviderCircuitBreaker) → Db → Db
update_breaker provider f db = record db { breakers = update_many (is_of provider) f db.breakers }

unfoldable pub append_breaker : ProviderCircuitBreaker → Db → Db
append_breaker b db = record db { breakers = db.breakers ++ b ∷ [] }

-- providerCircuitBreaker.upsert, which answers with the row that it wrote.
unfoldable pub upsert_breaker :
    String
    → ProviderCircuitBreaker
    → (ProviderCircuitBreaker → ProviderCircuitBreaker)
    → M ProviderCircuitBreaker
upsert_breaker provider create update = do
  found ← gets (find_breaker provider)
  with_option found (modify (append_breaker create) >> pure create)
      (λ b. modify (update_breaker provider update) >> pure (update b))

-- A row with the defaults of the schema.
abbrev pub new_breaker : String → ProviderCircuitBreaker
new_breaker provider = record {
  provider = provider;
  state = CircuitState.closed;
  failure_count = 0;
  ambiguous_count = 0;
  last_failure_at = none;
  last_success_at = none;
  opened_at = none;
  next_probe_at = none;
  consecutive_probes = 0;
  reason = none;
}

abbrev reached : Option ℕ → ℕ → Bool
reached none now = false
reached (some t) now = leb t now

abbrev promotable : String → ℕ → ProviderCircuitBreaker → Bool
promotable provider now b =
    is_of provider b
    && (circuit_eq b.state CircuitState.open_circuit && reached b.next_probe_at now)

abbrev promote : ProviderCircuitBreaker → ProviderCircuitBreaker
promote b = record b { state = CircuitState.half_open; consecutive_probes = 0 }

unfoldable pub promote_breakers : String → ℕ → Db → Db
promote_breakers provider now db = record db {
  breakers = update_many (promotable provider now) promote db.breakers;
}

unfoldable pub probe : String → ProviderCircuitBreaker → M (Unit {0})
probe provider st = do
  now ← clock
  require (reached st.next_probe_at now) (circuit_open provider st.next_probe_at)
  n ← gets (λ db. count_where (promotable provider now) db.breakers)
  modify (promote_breakers provider now)
  require (n == 1) (circuit_open provider st.next_probe_at)

unfoldable pub assert_closed : String → M (Unit {0})
assert_closed provider = do
  isolated ← is_provider_isolated provider
  require (not isolated) (circuit_open provider none)
  found ← gets (find_breaker provider)
  with_option found (pure tt)
      (λ st. when (circuit_eq st.state CircuitState.open_circuit) (probe provider st))

-- Map<string, number[]>: get with a default, and set.
unfoldable pub get_window : String → List (String × List ℕ) → List ℕ
get_window provider [] = []
get_window provider ((p, ts) ∷ rest) = if str_eq p provider then ts else get_window provider rest

unfoldable pub set_window : String → List ℕ → List (String × List ℕ) → List (String × List ℕ)
set_window provider ts [] = (provider, ts) ∷ []
set_window provider ts ((p, us) ∷ rest) =
    let later = set_window provider ts rest in
    if str_eq p provider then (p, ts) ∷ rest else (p, us) ∷ later

-- The timestamps that are not older than the window.
unfoldable pub trim_window : ℕ → ℕ → List ℕ → List ℕ
trim_window now window_ms ts = find_many (λ t. leb (now - t) window_ms) ts

unfoldable pub record_success : String → M (Unit {0})
record_success provider = do
  remember (λ mem. record mem { in_mem_failures = set_window provider [] mem.in_mem_failures })
  remember (λ mem. record mem { in_mem_ambiguous = set_window provider [] mem.in_mem_ambiguous })
  now ← clock
  upsert_breaker provider (record (new_breaker provider) { last_success_at = some now })
        (λ b. record b {
          state = CircuitState.closed;
          failure_count = 0;
          ambiguous_count = 0;
          last_success_at = some now;
          next_probe_at = none;
          opened_at = none;
          reason = none;
        })
      >>= λ _. unisolate_provider provider "system"

abbrev last_cooldown : BreakerConfig → Option ℕ → Option ℕ → ℕ
last_cooldown cfg (some opened) (some probe_at) = probe_at - opened
last_cooldown cfg _ _ = cfg.initial_cooldown_ms

abbrev pub last_cooldown_of : BreakerConfig → Option ProviderCircuitBreaker → ℕ
last_cooldown_of cfg none = cfg.initial_cooldown_ms
last_cooldown_of cfg (some b) = last_cooldown cfg b.opened_at b.next_probe_at

unfoldable pub next_cooldown : BreakerConfig → Option ProviderCircuitBreaker → ℕ
next_cooldown cfg st =
    min cfg.max_cooldown_ms (max cfg.initial_cooldown_ms (last_cooldown_of cfg st * 2))

-- providerCircuitBreaker.update rejects where there is no row.
unfoldable pub open_breaker : String → String → M (Unit {0})
open_breaker provider reason = do
  st ← gets (find_breaker provider)
  now ← clock
  let probe_at = now + next_cooldown (config_for provider) st
  with_option st (throw (Error.plain "Record to update not found")) (λ b. modify (
      update_breaker provider (λ r. record r {
        state = CircuitState.open_circuit;
        opened_at = some now;
        next_probe_at = some probe_at;
        reason = some reason;
      })))
  isolate_provider provider reason "system"

unfoldable pub record_failure : String → String → M (Unit {0})
record_failure provider reason = do
  let cfg = config_for provider
  now ← clock
  before ← recall (λ mem. get_window provider mem.in_mem_failures)
  let arr = trim_window now cfg.failure_window_ms before ++ now ∷ []
  remember (λ mem. record mem { in_mem_failures = set_window provider arr mem.in_mem_failures })
  st ←
      upsert_breaker provider
        (record (new_breaker provider) {
          failure_count = 1;
          last_failure_at = some now;
          reason = some reason;
        })
        (λ b. record b {
          failure_count = b.failure_count + 1;
          last_failure_at = some now;
          reason = some reason;
        })
  when
      (leb cfg.consec_failure_threshold (st.failure_count + 1)
        || (leb cfg.failure_window_count (length arr)
            || circuit_eq st.state CircuitState.half_open))
      (open_breaker provider reason)

unfoldable pub record_ambiguous : String → String → M (Unit {0})
record_ambiguous provider reason = do
  let cfg = config_for provider
  now ← clock
  before ← recall (λ mem. get_window provider mem.in_mem_ambiguous)
  let arr = trim_window now cfg.ambiguous_window_ms before ++ now ∷ []
  remember (λ mem. record mem { in_mem_ambiguous = set_window provider arr mem.in_mem_ambiguous })
  upsert_breaker provider
        (record (new_breaker provider) {
          ambiguous_count = 1;
          last_failure_at = some now;
          reason = some reason;
        })
        (λ b. record b {
          ambiguous_count = b.ambiguous_count + 1;
          last_failure_at = some now;
          reason = some reason;
        })
      >>= λ _.
          when (leb cfg.ambiguous_window_count (length arr))
            (open_breaker provider (template ("ambiguous spike: " ∷ reason ∷ [])))
