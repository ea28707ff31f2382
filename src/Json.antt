-- ===== src/Json.antt =====
-- JSON values as the LLM code handles them. Numbers are natural, as counts of tokens are; any other
-- number is only passed on. `int` of Python raises on what is neither a number nor the text of one.
use key_hub.Common.{
  ℕ, zero, suc, String, str_eq, Bool, true, false, not, Option, none, some, if◌then◌else◌,
}

mutual
  pub data Fields : Type 0 where
    end : Fields
    field : String → Value → Fields → Fields

  pub data Items : Type 0 where
    no_items : Items
    item : (first : Value) (others : Items) → Items

  pub data Value : Type 0 where
    obj : (fields : Fields) → Value
    arr : (items : Items) → Value
    text : (s : String) → Value
    num : (n : ℕ) → Value
    bool : (b : Bool) → Value
    null : Value

-- `d.get(k)` on the fields of an object, each key there once.
unfoldable pub get_field : String → Fields → Option Value
get_field k end = none
get_field k (field j v fs) = if str_eq j k then some v else get_field k fs

-- `d.get(k, default)`
abbrev pub get_or : String → Value → Fields → Value
get_or k other fs = elim (get_field k fs) [ none ↦ other | some v ↦ v ]

-- The truth of a value.
unfoldable pub is_truthy : Value → Bool
is_truthy null = false
is_truthy (bool b) = b
is_truthy (num n) = elim n [ zero ↦ false | suc m ↦ true ]
is_truthy (text s) = not (str_eq s "")
is_truthy (arr no_items) = false
is_truthy (arr (item v vs)) = true
is_truthy (obj end) = false
is_truthy (obj (field k v fs)) = true
