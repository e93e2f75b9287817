-- ===== src/Schema/Json.antt =====
-- JavaScript values as audit payloads and job payloads hold them.
use dead_switch.Common.{ℕ, String, Bool, List}

mutual
  pub data Value : Type 0 where
    null undefined function symbol : Value
    date : ℕ → Value
    bytes : List ℕ → Value
    array : Values → Value
    integer : ℕ → Value
    non_finite : Value
    text : String → Value
    boolean : Bool → Value
    bigint : ℕ → Value
    object : Fields → Value

  pub data Values : Type 0 where
    nil : Values
    cons : Value → Values → Values

  pub data Fields : Type 0 where
    end : Fields
    field : String → Value → Fields → Fields
