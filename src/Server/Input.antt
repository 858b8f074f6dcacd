-- ===== src/Server/Input.antt =====
-- crates/lumencast-server/src/input.rs. `Number::as_f64` is code of `serde_json`: a parameter.
pub mod Doubles
pub mod Laws
mod Tests
use lumencast_rs.Prelude.{
  ℕ, ◌-◌, ◌/◌, ◌%◌, ◌^◌, Bool, true, false, not, ◌&&◌, ◌||◌, List, [], ◌∷◌, Option, none, some,
  Text, String, codes, text_eq, length, keep, is_empty, any, ltb, leb, ◌==◌, if◌then◌else◌,
}
use lumencast_rs.Protocol.Json.{Number, Value, is_string, is_number, is_boolean}
use lumencast_rs.Protocol.Errors.{Message, filled, measured}
use lumencast_rs.Protocol.LeafPath.{LeafPath}

pub data InputType : Type 0 where
  string number boolean enum color date time path_ref image_ref : InputType

-- `min` and `max` are doubles, kept as their bits.
pub record InputSpec : Type 0 where
  pub path : LeafPath
  pub kind : Option InputType
  pub max_length : Option ℕ
  pub min : Option ℕ
  pub max : Option ℕ
  pub values : List Text

abbrev pub new_spec : LeafPath → InputSpec
new_spec path = record {
  path = path;
  kind = none;
  max_length = none;
  min = none;
  max = none;
  values = [];
}

abbrev pub with_kind : InputType → InputSpec → InputSpec
with_kind kind s = record s { kind = some kind }

abbrev pub with_max_length : ℕ → InputSpec → InputSpec
with_max_length n s = record s { max_length = some n }

abbrev pub with_min : ℕ → InputSpec → InputSpec
with_min n s = record s { min = some n }

abbrev pub with_max : ℕ → InputSpec → InputSpec
with_max n s = record s { max = some n }

abbrev pub with_values : List Text → InputSpec → InputSpec
with_values vs s = record s { values = vs }

-- `<` on doubles, by their bits: a sign, and a magnitude that grows with the bits below it.
abbrev pub f64_sign : ℕ → Bool
f64_sign x = leb (2 ^ 63) x

abbrev pub f64_magnitude : ℕ → ℕ
f64_magnitude x = x % 2 ^ 63

abbrev pub is_nan : ℕ → Bool
is_nan x = ltb 0x7ff0000000000000 (f64_magnitude x)

abbrev pub f64_lt_signed : Bool → Bool → ℕ → ℕ → Bool
f64_lt_signed false false x y = ltb x y
f64_lt_signed true true x y = ltb y x
f64_lt_signed true false x y = not (x == 0 && y == 0)
f64_lt_signed false true x y = false

unfoldable pub f64_lt : ℕ → ℕ → Bool
f64_lt x y =
    if is_nan x || is_nan y
    then false
    else f64_lt_signed (f64_sign x) (f64_sign y) (f64_magnitude x) (f64_magnitude y)

-- `chars().count()`: the bytes that begin a character.
abbrev pub is_continuation : ℕ → Bool
is_continuation b = leb 128 b && ltb b 192

abbrev pub chars_count : Text → ℕ
chars_count s = length (keep (λ b. not (is_continuation b)) s)

-- `{kind:?}`
unfoldable pub kind_debug : InputType → Text
kind_debug string = codes "String"
kind_debug number = codes "Number"
kind_debug boolean = codes "Boolean"
kind_debug enum = codes "Enum"
kind_debug color = codes "Color"
kind_debug date = codes "Date"
kind_debug time = codes "Time"
kind_debug path_ref = codes "PathRef"
kind_debug image_ref = codes "ImageRef"

unfoldable pub json_kind_label : Value → Text
json_kind_label Value.null = codes "null"
json_kind_label (Value.boolean b) = codes "boolean"
json_kind_label (Value.number n) = codes "number"
json_kind_label (Value.string s) = codes "string"
json_kind_label (Value.array xs) = codes "array"
json_kind_label (Value.object ms) = codes "object"

abbrev pub has_type : InputType → Value → Bool
has_type number value = is_number value
has_type boolean value = is_boolean value
has_type _ value = is_string value

unfoldable pub check_type : InputType → Value → Option Message
check_type kind value =
    if has_type kind value
    then none
    else some
        (filled "expected {kind:?} type, got {}" (kind_debug kind ∷ json_kind_label value ∷ []))

abbrev pub length_check : Option ℕ → Text → Option Message
length_check none s = none
length_check (some max) s =
    if ltb max (chars_count s)
    then some (measured "string length {count} exceeds max_length {max}" (chars_count s ∷ max ∷ []))
    else none

unfoldable pub check_string : InputSpec → Value → Option Message
check_string spec (Value.string s) = length_check spec.max_length s
check_string spec _ = none

abbrev pub below : ℕ → Option ℕ → Bool
below n none = false
below n (some min) = f64_lt n min

abbrev pub above : ℕ → Option ℕ → Bool
above n none = false
above n (some max) = f64_lt max n

-- `bits` of an optional bound, for the message.
abbrev pub bits_of : Option ℕ → List ℕ
bits_of none = []
bits_of (some b) = b ∷ []

abbrev pub range_check : InputSpec → Option ℕ → Option Message
range_check spec none = none
range_check spec (some n) =
    if below n spec.min
    then some (measured "value {n} below min {min}" (n ∷ bits_of spec.min))
    else if above n spec.max
    then some (measured "value {n} above max {max}" (n ∷ bits_of spec.max))
    else none

abbrev pub as_f64 : (Number → Option ℕ) → Value → Option ℕ
as_f64 to_f64 (Value.number n) = to_f64 n
as_f64 to_f64 _ = none

unfoldable pub check_number : (Number → Option ℕ) → InputSpec → Value → Option Message
check_number to_f64 spec value = range_check spec (as_f64 to_f64 value)

unfoldable pub check_enum : InputSpec → Value → Option Message
check_enum spec (Value.string s) =
    if is_empty spec.values
    then none
    else if not (any (λ v. text_eq v s) spec.values)
    then some (filled "value {s:?} not in enum {:?}" (s ∷ spec.values))
    else none
check_enum spec _ = none

-- The checks by kind, once the type fits.
abbrev pub check_kind : (Number → Option ℕ) → InputType → InputSpec → Value → Option Message
check_kind to_f64 string spec value = check_string spec value
check_kind to_f64 number spec value = check_number to_f64 spec value
check_kind to_f64 enum spec value = check_enum spec value
check_kind to_f64 _ spec value = none

abbrev pub or_else : Option Message → Option Message → Option Message
or_else none later = later
or_else (some m) later = some m

abbrev pub check_kind? : (Number → Option ℕ) → Option InputType → InputSpec → Value → Option Message
check_kind? to_f64 none spec value = none
check_kind? to_f64 (some kind) spec value =
    or_else (check_type kind value) (check_kind to_f64 kind spec value)

unfoldable pub check_constraint : (Number → Option ℕ) → InputSpec → Value → Option Message
check_constraint to_f64 spec value = check_kind? to_f64 spec.kind spec value
