-- ===== src/Protocol/Json.antt =====
-- `serde_json::Value` with the accessors that the program calls. An object lists its members in
-- the order of `serde_json::Map`, which holds no key twice.
use lumencast_rs.Prelude.{ℕ, Bool, true, false, Option, none, some, Text, text_eq, if◌then◌else◌}

-- `u64`, negative `i64` and `f64` numbers, as `serde_json::Number` keeps them apart. `negative n`
-- is -(n + 1), and `float` has the bits of the double.
pub data Number : Type 0 where
  positive negative float : ℕ → Number

mutual
  pub data Value : Type 0 where
    null : Value
    boolean : Bool → Value
    number : Number → Value
    string : Text → Value
    array : Items → Value
    object : Members → Value

  pub data Items : Type 0 where
    nil : Items
    cons : Value → Items → Items

  pub data Members : Type 0 where
    end : Members
    member : Text → Value → Members → Members

abbrev pub is_object : Value → Bool
is_object (object ms) = true
is_object _ = false

abbrev pub is_string : Value → Bool
is_string (string s) = true
is_string _ = false

abbrev pub is_number : Value → Bool
is_number (number n) = true
is_number _ = false

abbrev pub is_boolean : Value → Bool
is_boolean (boolean b) = true
is_boolean _ = false

abbrev pub as_str : Value → Option Text
as_str (string s) = some s
as_str _ = none

abbrev pub as_object : Value → Option Members
as_object (object ms) = some ms
as_object _ = none

abbrev pub as_array : Value → Option Items
as_array (array items) = some items
as_array _ = none

abbrev pub as_u64 : Value → Option ℕ
as_u64 (number (positive n)) = some n
as_u64 _ = none

-- `Map::get` and `Map::insert`.
unfoldable pub get : Text → Members → Option Value
get k end = none
get k (member j v ms) = if text_eq j k then some v else get k ms

unfoldable pub insert_member : Text → Value → Members → Members
insert_member k v end = member k v end
insert_member k v (member j w ms) =
    if text_eq j k then member k v ms else member j w (insert_member k v ms)

-- Some member has the key and the value.
pub data Has (k : Text) (v : Value) : Members → Type 0 where
  first : {ms : Members} → Has k v (member k v ms)
  later : {j : Text} {w : Value} {ms : Members} → Has k v ms → Has k v (member j w ms)
