-- ===== src/Audit/CanonicalJson.antt =====
-- audit/canonical-json.ts. The rendering of a text, a number or bytes is the runtime's, and is
-- taken from `Env`; `none` stands for the exceptions of `normalize`. Keys are compared as texts.
use Prim.Native.Nat.{Ordering}
use Prim.Native.String.{compare}
use dead_switch.Common.{String, true, false, [], ◌∷◌, Option, none, some, template}
use dead_switch.Schema.{
  Value, Values, Fields, null, undefined, function, symbol, date, bytes, array, integer, non_finite,
  text, boolean, bigint, object, nil, cons, end, field,
}
use dead_switch.World.{Env}

infixl 5 ◌>>=◌
abbrev ◌>>=◌ : {A B : Type 0} → Option A → (A → Option B) → Option B
none >>= f = none
some a >>= f = f a

-- The keys in order, as `Object.keys(v).sort()` visits them.
unfoldable pub insert_field : String → Value → Fields → Fields
insert_field k v end = field k v end
insert_field k v (field j w fs) = elim (compare k j) [
  | Ordering.gt ↦ field j w (insert_field k v fs)
  | _ ↦ field k v (field j w fs)
]

unfoldable pub sort_fields : Fields → Fields
unfolding insert_field
sort_fields end = end
sort_fields (field k v fs) = insert_field k v (sort_fields fs)

unfoldable mutual
  unfolding sort_fields

  pub normalize : Env → Value → Option Value
  normalize env null = some null
  normalize env undefined = none
  normalize env function = none
  normalize env symbol = none
  normalize env (date t) = some (text (env.to_iso_string t))
  normalize env (bytes b) = some (text (template ("b64:" ∷ env.base64 b ∷ [])))
  normalize env (array vs) = normalize_values env vs >>= λ ws. some (array ws)
  normalize env (integer n) = some (integer n)
  normalize env non_finite = none
  normalize env (text s) = some (text s)
  normalize env (boolean b) = some (boolean b)
  normalize env (bigint n) = some (text (env.number_text n))
  normalize env (object fs) = normalize_fields env fs >>= λ gs. some (object (sort_fields gs))

  pub normalize_values : Env → Values → Option Values
  normalize_values env nil = some nil
  normalize_values env (cons v vs) =
      normalize env v >>= λ w. normalize_values env vs >>= λ ws. some (cons w ws)

  pub normalize_fields : Env → Fields → Option Fields
  normalize_fields env end = some end
  normalize_fields env (field k v fs) =
      normalize env v >>= λ w. normalize_fields env fs >>= λ gs. some (field k w gs)

-- Only the values that `normalize` returns occur; the others have no text.
unfoldable mutual
  pub stringify : Env → Value → String
  stringify env null = "null"
  stringify env (integer n) = env.number_text n
  stringify env (boolean true) = "true"
  stringify env (boolean false) = "false"
  stringify env (text s) = env.json_string s
  stringify env (array vs) = template ("[" ∷ stringify_values env vs ∷ "]" ∷ [])
  stringify env (object fs) = template ("{" ∷ stringify_fields env fs ∷ "}" ∷ [])
  stringify env _ = ""

  pub stringify_values : Env → Values → String
  stringify_values env nil = ""
  stringify_values env (cons v nil) = stringify env v
  stringify_values env (cons v (cons w vs)) =
      template (stringify env v ∷ "," ∷ stringify_values env (cons w vs) ∷ [])

  pub stringify_fields : Env → Fields → String
  stringify_fields env end = ""
  stringify_fields env (field k v end) = template (env.json_string k ∷ ":" ∷ stringify env v ∷ [])
  stringify_fields env (field k v (field j w fs)) =
      template
        (env.json_string k ∷ ":" ∷ stringify env v ∷ "," ∷ stringify_fields env (field j w fs) ∷ [])

unfoldable pub canonicalize : Env → Value → Option String
unfolding normalize stringify
canonicalize env v = normalize env v >>= λ w. some (stringify env w)
