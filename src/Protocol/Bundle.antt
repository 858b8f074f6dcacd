-- ===== src/Protocol/Bundle.antt =====
-- crates/lumencast-protocol/src/bundle.rs, less parsing and static checks (Protocol/Layout.antt): the
-- bundle and its content hash. `serde` and SHA-256 are parameters.
pub mod Hash
mod Tests
use lumencast_rs.Prelude.{
  ℕ, ◌+◌, ◌/◌, ◌%◌, Bool, String, List, [], ◌∷◌, ◌++◌, Option, none, some, Text, codes, text_eq,
  Map, get_elem?, Result, ok, err, ◌>>=◌, ◌>>◌, map_err, zero, suc,
}
use lumencast_rs.Protocol.Json.{Value, string, object, Members, insert_member}
use lumencast_rs.Protocol.Errors.{Message, filled, within, opaque}
use lumencast_rs.Protocol.Types.{SceneId, SceneVersion}
use lumencast_rs.Protocol.Codec.{SerdeJson, Derived}

pub data BundleError : Type 0 where
  json : Text → BundleError
  invalid : Message → BundleError
  incompatible : (got : Text) → BundleError
  hash_mismatch : (declared computed : Text) → BundleError

-- `Display` of the error.
unfoldable pub bundle_error_message : BundleError → Message
bundle_error_message (json e) = within "invalid JSON: {0}" (opaque e)
bundle_error_message (invalid m) = within "invalid bundle: {0}" m
bundle_error_message (incompatible got) =
    filled "incompatible LSML version: {got} (supported: 1.x)" (got ∷ [])
bundle_error_message (hash_mismatch declared computed) =
    filled "content hash mismatch: bundle declares {declared}, computed {computed}"
      (declared ∷ computed ∷ [])

pub record OperatorInput : Type 0 where
  pub path : Text
  pub label : Text
  pub kind : Text
  pub constraints : Option Value
  pub writable_by : List Text
  pub group : Option Text
  pub values : Option Value

pub record Bundle : Type 0 where
  pub lsml : Text
  pub scene_id : SceneId
  pub scene_version : SceneVersion
  pub layout : Value
  pub operator_inputs : List OperatorInput
  pub external_adapters : List Value
  pub defaults : Map Value
  pub assets : Option Value
  pub i18n : Option Value
  pub metadata : Option Value

-- `for _ in 0..n { s.push('0') }`
unfoldable pub push_zeros : ℕ → Text → Text
push_zeros zero s = s
push_zeros (suc n) s = push_zeros n (s ++ b'0' ∷ [])

unfoldable pub placeholder_hash : Text
unfolding push_zeros
placeholder_hash = push_zeros 64 (codes "sha256:")

abbrev pub byte_or_zero : Option ℕ → ℕ
byte_or_zero none = 0
byte_or_zero (some b) = b

-- `HEX[n]`; the callers index below 16.
unfoldable pub hex_digit : ℕ → ℕ
hex_digit n = byte_or_zero (get_elem? (codes "0123456789abcdef") n)

unfoldable pub write_hex_byte : Text → ℕ → Text
write_hex_byte out byte = (out ++ hex_digit (byte / 16) ∷ []) ++ hex_digit (byte % 16) ∷ []

unfoldable pub write_hex : Text → Text → Text
write_hex out [] = out
write_hex out (byte ∷ digest) = write_hex (write_hex_byte out byte) digest

unfoldable pub hash_to_scene_version : (Text → Text) → Text → SceneVersion
hash_to_scene_version sha256 canonical = write_hex (codes "sha256:") (sha256 canonical)

abbrev pub scene_version_key : Text
scene_version_key = codes "scene_version"

-- `if let Some(obj) = value.as_object_mut() { obj.insert(…) }`
abbrev pub with_placeholder : Value → Value
with_placeholder (object ms) = object (insert_member scene_version_key (string placeholder_hash) ms)
with_placeholder value = value

module _ (s : SerdeJson) (d : Derived Bundle) (sha256 : Text → Text) where
  unfoldable pub to_canonical_bytes : Bundle → Result BundleError Text
  to_canonical_bytes b = do value ← map_err json (d.to_value b); map_err json (s.to_vec value)

  unfoldable pub to_canonical_bytes_for_hashing : Bundle → Result BundleError Text
  to_canonical_bytes_for_hashing b = do
    value ← map_err json (d.to_value b)
    map_err json (s.to_vec (with_placeholder value))

  unfoldable pub compute_content_hash : Bundle → Result BundleError SceneVersion
  unfolding to_canonical_bytes_for_hashing
  compute_content_hash b = do
    bytes ← to_canonical_bytes_for_hashing b
    ok (hash_to_scene_version sha256 bytes)

  unfoldable pub is_self_consistent : Bundle → Result BundleError Bool
  is_self_consistent b = do computed ← compute_content_hash b; ok (text_eq computed b.scene_version)

  unfoldable pub with_computed_version : Bundle → Result BundleError Bundle
  with_computed_version b = do
    version ← compute_content_hash b
    ok (record b { scene_version = version })
