-- ===== src/Conformance/Matching.antt =====
-- The comparison of frames, and the shadow state that the player keeps, of
-- crates/lumencast-conformance/src/player.rs.
pub mod Laws
pub mod Shadow
mod Tests
use lumencast_rs.Prelude.{
  ℕ, ◌+◌, ◌%◌, ◌^◌, Bool, true, false, not, ◌&&◌, ◌||◌, List, [], ◌∷◌, Option, none, some, Text,
  codes, text_eq, Map, insert, insert_all, length, all, ◌==◌, if◌then◌else◌, strip_prefix, Result,
  ok, err, ◌>>=◌, ◌>>◌, map_err,
}
use lumencast_rs.Protocol.Json.{
  Number, positive, negative, float, Value, null, boolean, number, string, array, object, Items,
  nil, cons, Members, end, member, get, as_str, as_array, as_object,
}
use lumencast_rs.Protocol.Types.{is_ascii_hexdigit}
use lumencast_rs.Server.Input.{is_nan, f64_magnitude}
use lumencast_rs.Conformance.Scenario.{str_of}

-- What the text of a mismatch says.
pub data Mismatch : Type 0 where
  hash_of : (actual : Value) → Mismatch
  no_hash : (actual : Text) → Mismatch
  missing_key : Text → Mismatch
  at_key : Text → Mismatch → Mismatch
  array_length : ℕ → ℕ → Mismatch
  at_index : ℕ → Mismatch → Mismatch
  expected : Value → Value → Mismatch

-- `PartialEq`: doubles are compared as numbers.
abbrev same_bool : Bool → Bool → Bool
same_bool true b = b
same_bool false b = not b

abbrev f64_eq : ℕ → ℕ → Bool
f64_eq x y =
    not (is_nan x) && not (is_nan y) && (x == y || (f64_magnitude x == 0 && f64_magnitude y == 0))

abbrev number_eq : Number → Number → Bool
number_eq (positive m) (positive n) = m == n
number_eq (negative m) (negative n) = m == n
number_eq (float x) (float y) = f64_eq x y
number_eq _ _ = false

unfoldable mutual
  pub value_eq : Value → Value → Bool
  value_eq null null = true
  value_eq (boolean a) (boolean b) = same_bool a b
  value_eq (number m) (number n) = number_eq m n
  value_eq (string s) (string t) = text_eq s t
  value_eq (array vs) (array ws) = items_eq vs ws
  value_eq (object ms) (object ns) = members_eq ms ns
  value_eq _ _ = false

  pub items_eq : Items → Items → Bool
  items_eq nil nil = true
  items_eq (cons v vs) (cons w ws) = value_eq v w && items_eq vs ws
  items_eq _ _ = false

  pub members_eq : Members → Members → Bool
  members_eq end end = true
  members_eq (member j v ms) (member k w ns) = (text_eq j k && value_eq v w) && members_eq ms ns
  members_eq _ _ = false

abbrev hex_rest : Option Text → Bool
hex_rest none = false
hex_rest (some hex) = length hex == 64 && all is_ascii_hexdigit hex

unfoldable pub is_sha256_hash : Text → Bool
is_sha256_hash s = hex_rest (strip_prefix (codes "sha256:") s)

abbrev pub any_sentinel : Text
any_sentinel = codes "$ANY"

abbrev pub hash_sentinel : Text
hash_sentinel = codes "$ANY_HASH"

abbrev pub match_hash : Value → Result Mismatch (Unit {0})
match_hash (string s) = if is_sha256_hash s then ok tt else err (no_hash s)
match_hash actual = err (hash_of actual)

abbrev pub match_equal : Value → Value → Result Mismatch (Unit {0})
match_equal e a = if value_eq e a then ok tt else err (expected e a)

unfoldable pub match_string : Text → Value → Result Mismatch (Unit {0})
match_string s a =
    if text_eq s any_sentinel
    then ok tt
    else if text_eq s hash_sentinel
    then match_hash a
    else match_equal (string s) a

abbrev pub count : Items → ℕ
count nil = 0
count (cons v vs) = 1 + count vs

-- One member of the template, with the value that is found under its key.
abbrev pub match_member :
    Text → (Value → Result Mismatch (Unit {0})) → Option Value → Result Mismatch (Unit {0})
match_member k matches none = err (missing_key k)
match_member k matches (some av) = map_err (at_key k) (matches av)

unfoldable mutual
  pub structural_match : Value → Value → Result Mismatch (Unit {0})
  structural_match (string s) a = match_string s a
  structural_match (object e) (object a) = match_members e a
  structural_match (array e) (array a) =
      if not (count e == count a) then err (array_length (count e) (count a)) else match_items 0 e a
  structural_match e a = match_equal e a

  pub match_members : Members → Members → Result Mismatch (Unit {0})
  match_members end a = ok tt
  match_members (member k ev ms) a =
      match_member k (structural_match ev) (get k a) >> match_members ms a

  -- `zip` ends with the shorter array.
  pub match_items : ℕ → Items → Items → Result Mismatch (Unit {0})
  match_items i (cons ev es) (cons av avs) =
      map_err (at_index i) (structural_match ev av) >> match_items (i + 1) es avs
  match_items i nil _ = ok tt
  match_items i (cons ev es) nil = ok tt

-- `update_shadow_from_frame`: the pairs of an object, and those of a list of patches that are whole.
abbrev pub pairs_of_members : Members → List (Text × Value)
pairs_of_members end = []
pairs_of_members (member k v ms) = (k, v) ∷ pairs_of_members ms

abbrev pub get_of : Text → Value → Option Value
get_of k (object ms) = get k ms
get_of k _ = none

abbrev patch_pair : Option Text → Option Value → List (Text × Value)
patch_pair (some path) (some value) = (path, value) ∷ []
patch_pair (some path) none = []
patch_pair none _ = []

unfoldable pub put_patches : Items → Map Value → Map Value
put_patches nil shadow = shadow
put_patches (cons patch patches) shadow = put_patches patches (
    insert_all (patch_pair (str_of (get_of (codes "path") patch)) (get_of (codes "value") patch))
      shadow)

abbrev put_state : Option Value → Map Value → Map Value
put_state (some (object state)) shadow = insert_all (pairs_of_members state) shadow
put_state _ shadow = shadow

abbrev put_delta : Option Value → Map Value → Map Value
put_delta (some (array patches)) shadow = put_patches patches shadow
put_delta _ shadow = shadow

abbrev update_typed : Option Text → Members → Map Value → Map Value
update_typed none obj shadow = shadow
update_typed (some t) obj shadow =
    if text_eq t (codes "snapshot")
    then put_state (get (codes "state") obj) []
    else if text_eq t (codes "delta")
    then put_delta (get (codes "patches") obj) shadow
    else shadow

unfoldable pub update_shadow_from_frame : Value → Map Value → Map Value
update_shadow_from_frame (object obj) shadow =
    update_typed (str_of (get (codes "type") obj)) obj shadow
update_shadow_from_frame _ shadow = shadow
