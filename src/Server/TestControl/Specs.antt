-- ===== src/Server/TestControl/Specs.antt =====
-- What a setup request says of tokens and operator inputs: `role_for_placeholder`, `install_tokens` and
-- `extract_input_specs` of crates/lumencast-server/src/test_control.rs.
use lumencast_rs.Prelude.{
  ℕ, List, [], ◌∷◌, ◌++◌, Option, none, some, Text, codes, text_eq, Map, is_empty, ltb,
  if◌then◌else◌, ◌^◌,
}
use lumencast_rs.Protocol.Json.{
  Number, Value, number, string, object, Items, nil, cons, Members, get, as_str, as_u64, as_array,
  as_object,
}
use lumencast_rs.Server.Role.{Role}
use lumencast_rs.Server.Auth.{MapAuthenticator, insert_identity}
use lumencast_rs.Server.Input.{
  InputType, InputSpec, new_spec, with_kind, with_max_length, with_min, with_max, with_values,
}

unfoldable pub role_for_placeholder : Text → Option Role
role_for_placeholder placeholder =
    if text_eq placeholder (codes "$TOKEN_OPERATOR")
    then some Role.operator
    else if text_eq placeholder (codes "$TOKEN_VIEWER")
    then some Role.viewer
    else if text_eq placeholder (codes "$TOKEN_SERVICE")
    then some Role.service
    else if text_eq placeholder (codes "$TOKEN_TEST")
    then some Role.test
    else none

abbrev pub install : Text → Text → Option Role → MapAuthenticator → MapAuthenticator
install placeholder value none auth = auth
install placeholder value (some role) auth =
    insert_identity value (record { subject = placeholder; role = role; paths = none }) auth

unfoldable pub install_tokens : Map Text → MapAuthenticator → MapAuthenticator
install_tokens [] auth = auth
install_tokens ((placeholder, value) ∷ tokens) auth = install_tokens tokens (
    if text_eq placeholder (codes "$TOKEN_INVALID")
    then auth
    else install placeholder value (role_for_placeholder placeholder) auth)

-- `Value::get` and the accessors after it.
abbrev pub member_of : Text → Value → Option Value
member_of k (object ms) = get k ms
member_of k _ = none

abbrev pub str_of : Option Value → Option Text
str_of none = none
str_of (some v) = as_str v

abbrev items_of : Option Value → Option Items
items_of none = none
items_of (some v) = as_array v

abbrev pub members_of : Option Value → Option Members
members_of none = none
members_of (some v) = as_object v

abbrev pub u64_of : Option Value → Option ℕ
u64_of none = none
u64_of (some v) = as_u64 v

unfoldable pub strings_of : Items → List Text
strings_of nil = []
strings_of (cons (string s) vs) = s ∷ strings_of vs
strings_of (cons _ vs) = strings_of vs

-- `if let Some(x) = … { spec = … }`
abbrev also {ℓ} : {A : Type ℓ} → (A → InputSpec → InputSpec) → Option A → InputSpec → InputSpec
also f none spec = spec
also f (some a) spec = f a spec

abbrev with_u32_length : ℕ → InputSpec → InputSpec
with_u32_length n spec = if ltb n (2 ^ 32) then with_max_length n spec else spec

abbrev with_strings : Items → InputSpec → InputSpec
with_strings items spec =
    if is_empty (strings_of items) then spec else with_values (strings_of items) spec

-- The derived reading of an input type, and `Number::as_f64`.
pub record Readers : Type 0 where
  pub input_type : Text → Option InputType
  pub to_f64 : Number → Option ℕ

module _ (readers : Readers) where
  abbrev f64_of : Option Value → Option ℕ
  f64_of (some (number n)) = readers.to_f64 n
  f64_of _ = none

  abbrev type_of : Option Text → Option InputType
  type_of none = none
  type_of (some t) = readers.input_type t

  abbrev constrained : Members → InputSpec → InputSpec
  constrained cs spec = also with_strings (items_of (get (codes "values") cs)) (
      also with_max (f64_of (get (codes "max") cs)) (
        also with_min (f64_of (get (codes "min") cs))
          (also with_u32_length (u64_of (get (codes "maxLength") cs)) spec)))

  abbrev spec_of : Members → Text → InputSpec
  spec_of obj path = also constrained (members_of (get (codes "constraints") obj)) (
      also with_kind (type_of (str_of (get (codes "type") obj)))
        (new_spec (record { text = path })))

  abbrev entry_specs : Members → Option Text → List InputSpec
  entry_specs obj none = []
  entry_specs obj (some path) = spec_of obj path ∷ []

  -- The loop of `extract_input_specs`, which skips what is malformed.
  unfoldable pub specs_of : Items → List InputSpec
  specs_of nil = []
  specs_of (cons (object obj) vs) = entry_specs obj (str_of (get (codes "path") obj)) ++ specs_of vs
  specs_of (cons _ vs) = specs_of vs

  abbrev some_specs : List InputSpec → Option (List InputSpec)
  some_specs [] = none
  some_specs (s ∷ ss) = some (s ∷ ss)

  abbrev specs_of? : Option Items → Option (List InputSpec)
  specs_of? none = none
  specs_of? (some items) = some_specs (specs_of items)

  unfoldable pub extract_input_specs : Value → Option (List InputSpec)
  extract_input_specs inline = specs_of? (items_of (member_of (codes "operator_inputs") inline))
