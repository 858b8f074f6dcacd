-- ===== src/Protocol/Codec.antt =====
-- crates/lumencast-protocol/src/codec.rs. The JSON text of a value and the derived conversions of
-- the frames are `serde_json` and `serde` code: parameters here.
pub mod Laws
mod Tests
use lumencast_rs.Prelude.{
  ℕ, Bool, true, false, not, List, [], ◌∷◌, Option, none, some, Text, codes, ◌==◌, if◌then◌else◌,
  Result, ok, err, ◌>>=◌, ◌>>◌, map_err, is_some, is_empty,
}
use lumencast_rs.Protocol.Json.{
  Value, number, positive, object, Members, is_object, as_u64, get, insert_member,
}
use lumencast_rs.Protocol.Errors.{
  LumencastError, json, invalid_envelope, version_mismatch, Message, plain, filled, value_error,
  value_error_at,
}
use lumencast_rs.Protocol.Types.{Patch, is_value_legal}
use lumencast_rs.Protocol.Frames.{
  State, ServerFrame, snapshot, delta, ClientFrame, input, protocol_version,
}

-- `serde_json::{from_slice, to_vec, to_string}`; a failure is its message.
pub record SerdeJson : Type 0 where
  pub from_slice : Text → Result Text Value
  pub to_vec : Value → Result Text Text
  pub to_string : Value → Result Text Text

-- The derived `Serialize` and `Deserialize` of a frame type.
pub record Derived {ℓ} (T : Type ℓ) : Type ℓ where
  pub to_value : T → Result Text Value
  pub from_value : Value → Result Text T

abbrev pub v_key : Text
v_key = codes "v"

abbrev pub type_key : Text
type_key = codes "type"

unfoldable pub inject_version : Value → Result LumencastError Value
inject_version (object ms) =
    ok (object (insert_member v_key (number (positive protocol_version)) ms))
inject_version _ = err (invalid_envelope (plain "frame must serialize to a JSON object"))

-- `ok_or_else`
abbrev pub ok_or {ℓ} : {A : Type ℓ} → Option A → LumencastError → Result LumencastError A
ok_or none e = err e
ok_or (some a) e = ok a

abbrev version_of : Option Value → Option ℕ
version_of none = none
version_of (some v) = as_u64 v

abbrev members_of : Value → Option Members
members_of (object ms) = some ms
members_of _ = none

-- The checks of the envelope that `decode_with_envelope` makes.
unfoldable pub check_envelope : Value → Result LumencastError (Unit {0})
check_envelope raw = do
  obj ← ok_or (members_of raw) (invalid_envelope (plain "frame must be a JSON object"))
  v ← ok_or (version_of (get v_key obj)) (invalid_envelope (plain "envelope missing `v` field"))
  if not (v == protocol_version)
      then err (version_mismatch v)
      else if not (is_some (get type_key obj))
      then err (invalid_envelope (plain "envelope missing `type` field"))
      else ok tt

module _ {ℓ} (s : SerdeJson) {T : Type ℓ} (d : Derived T) where
  unfoldable pub encode_with_envelope : T → Result LumencastError Text
  encode_with_envelope frame = do
    value ← map_err json (d.to_value frame)
    value' ← inject_version value
    map_err json (s.to_vec value')

  unfoldable pub encode_str_with_envelope : T → Result LumencastError Text
  encode_str_with_envelope frame = do
    value ← map_err json (d.to_value frame)
    value' ← inject_version value
    map_err json (s.to_string value')

  unfoldable pub decode_with_envelope : Text → Result LumencastError T
  decode_with_envelope bytes = do
    raw ← map_err json (s.from_slice bytes)
    check_envelope raw
    map_err json (d.from_value raw)

unfoldable pub validate_patches : List Patch → Result LumencastError (Unit {0})
validate_patches [] = ok tt
validate_patches (p ∷ ps) =
    let rest = validate_patches ps in
    if not (is_value_legal p)
    then err (
        value_error_at p.path.text
          (filled "patch at {}: value MUST NOT be a JSON object" (p.path.text ∷ [])))
    else rest

unfoldable pub validate_state : State → Result LumencastError (Unit {0})
validate_state [] = ok tt
validate_state ((path, value) ∷ state) =
    let rest = validate_state state in
    if is_object value
    then err (
        value_error (filled "snapshot state at {:?}: leaf value MUST NOT be an object" (path ∷ [])))
    else rest

unfoldable pub validate_server : ServerFrame → Result LumencastError ServerFrame
validate_server (delta d) = validate_patches d.patches >> ok (delta d)
validate_server (snapshot f) = validate_state f.state >> ok (snapshot f)
validate_server frame = ok frame

unfoldable pub validate_client : ClientFrame → Result LumencastError ClientFrame
validate_client (input i) =
    if is_empty i.patches
    then err (value_error (plain "input frame patches MUST NOT be empty"))
    else (validate_patches i.patches >> ok (input i))
validate_client frame = ok frame

unfoldable pub encode_server :
    SerdeJson → Derived ServerFrame → ServerFrame → Result LumencastError Text
encode_server s d frame = encode_with_envelope s d frame

unfoldable pub decode_server :
    SerdeJson → Derived ServerFrame → Text → Result LumencastError ServerFrame
decode_server s d bytes = decode_with_envelope s d bytes >>= validate_server

unfoldable pub encode_client :
    SerdeJson → Derived ClientFrame → ClientFrame → Result LumencastError Text
encode_client s d frame = encode_with_envelope s d frame

unfoldable pub decode_client :
    SerdeJson → Derived ClientFrame → Text → Result LumencastError ClientFrame
decode_client s d bytes = decode_with_envelope s d bytes >>= validate_client

-- The `_str` forms read and write the UTF-8 text of the same JSON.
unfoldable pub encode_server_str :
    SerdeJson → Derived ServerFrame → ServerFrame → Result LumencastError Text
encode_server_str s d frame = encode_str_with_envelope s d frame

unfoldable pub decode_server_str :
    SerdeJson → Derived ServerFrame → Text → Result LumencastError ServerFrame
decode_server_str s d text = decode_server s d text

unfoldable pub encode_client_str :
    SerdeJson → Derived ClientFrame → ClientFrame → Result LumencastError Text
encode_client_str s d frame = encode_str_with_envelope s d frame

unfoldable pub decode_client_str :
    SerdeJson → Derived ClientFrame → Text → Result LumencastError ClientFrame
decode_client_str s d text = decode_client s d text
