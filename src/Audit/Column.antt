-- ===== src/Audit/Column.antt =====
-- The payload of an event in its JSONB column: what audit/audit.service.ts hashes is the value that
-- it is given, and what verifyChain hashes is what the column gives back.
use dead_switch.Common.{ℕ, ◌≡◌, refl, String, Bool, true, false, ◌&&◌}
use dead_switch.Schema.{
  Value, Values, Fields, null, integer, text, boolean, array, object, nil, cons, end, field,
}
use dead_switch.World.{Env}
use dead_switch.Audit.CanonicalJson.{normalize, canonicalize}
use dead_switch.Audit.Service.{Entry, hash_input, hash_of}

-- The values of JSON itself. A date, bytes, a bigint and what JSON cannot hold are not among them.
unfoldable mutual
  pub is_json : Value → Bool
  is_json null = true
  is_json (integer n) = true
  is_json (text s) = true
  is_json (boolean b) = true
  is_json (array vs) = are_json vs
  is_json (object fs) = fields_json fs
  is_json _ = false

  pub are_json : Values → Bool
  are_json nil = true
  are_json (cons v vs) = is_json v && are_json vs

  pub fields_json : Fields → Bool
  fields_json end = true
  fields_json (field k v fs) = is_json v && fields_json fs

-- JSONB gives a value of JSON back up to the order of keys, which `normalize` takes away.
pub record KeepsJson (env : Env) : Type 0 where
  pub keeps : (v : Value) → is_json v ≡ true → normalize env (env.json_column v) ≡ normalize env v

abbrev pub read_back : Env → Entry → Entry
read_back env e = record e { payload = env.json_column e.payload }

pub hash_of-read_back :
    (env : Env) (scope : String) (seq : ℕ) (e : Entry) (prev_hash : String)
    → KeepsJson env
    → is_json e.payload ≡ true
    → hash_of env scope seq (read_back env e) prev_hash ≡ hash_of env scope seq e prev_hash
unfolding hash_of hash_input canonicalize normalize
hash_of-read_back env scope seq e prev_hash k j = rw (k.keeps e.payload j) refl
