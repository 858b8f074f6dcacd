-- ===== src/Protocol/Errors.antt =====
-- crates/lumencast-protocol/src/errors.rs
pub mod Laws
mod Tests
use lumencast_rs.Prelude.{
  ℕ, String, Bool, true, false, List, [], ◌∷◌, Option, none, some, Text, codes,
}

pub data ErrorCode : Type 0 where
  auth_denied write_forbidden scene_not_found bundle_fetch_failed bundle_incompatible version_gap
        version_mismatch unknown_path invalid_value rate_limit test_session_expired internal :
      ErrorCode

unfoldable pub default_recoverable : ErrorCode → Bool
default_recoverable write_forbidden = true
default_recoverable bundle_fetch_failed = true
default_recoverable version_gap = true
default_recoverable unknown_path = true
default_recoverable invalid_value = true
default_recoverable rate_limit = true
default_recoverable auth_denied = false
default_recoverable scene_not_found = false
default_recoverable bundle_incompatible = false
default_recoverable version_mismatch = false
default_recoverable test_session_expired = false
default_recoverable internal = false

unfoldable pub as_wire_str : ErrorCode → Text
as_wire_str auth_denied = codes "AUTH_DENIED"
as_wire_str write_forbidden = codes "WRITE_FORBIDDEN"
as_wire_str scene_not_found = codes "SCENE_NOT_FOUND"
as_wire_str bundle_fetch_failed = codes "BUNDLE_FETCH_FAILED"
as_wire_str bundle_incompatible = codes "BUNDLE_INCOMPATIBLE"
as_wire_str version_gap = codes "VERSION_GAP"
as_wire_str version_mismatch = codes "VERSION_MISMATCH"
as_wire_str unknown_path = codes "UNKNOWN_PATH"
as_wire_str invalid_value = codes "INVALID_VALUE"
as_wire_str rate_limit = codes "RATE_LIMIT"
as_wire_str test_session_expired = codes "TEST_SESSION_EXPIRED"
as_wire_str internal = codes "INTERNAL"

-- A message as the template of its `format!` call and the texts that fill it. `within` is a
-- template around another message; `measured` is filled with numbers (a double by its bits), and
-- `opaque` is a text of a library.
pub data Message : Type 0 where
  plain : String → Message
  filled : String → List Text → Message
  within : String → Message → Message
  measured : String → List ℕ → Message
  opaque : Text → Message

pub data LumencastError : Type 0 where
  json : Text → LumencastError
  invalid_envelope : Message → LumencastError
  version_mismatch : (got : ℕ) → LumencastError
  sequence_gap : (expected got : ℕ) → LumencastError
  invalid_value : (code : ErrorCode) (message : Message) (path : Option Text) → LumencastError

-- `LumencastError::invalid_value` and `LumencastError::invalid_value_at`.
abbrev pub value_error : Message → LumencastError
value_error message = LumencastError.invalid_value ErrorCode.invalid_value message none

abbrev pub value_error_at : Text → Message → LumencastError
value_error_at path message =
    LumencastError.invalid_value ErrorCode.invalid_value message (some path)

-- `Display` of the error.
unfoldable pub error_message : LumencastError → Message
error_message (json e) = within "invalid JSON: {0}" (opaque e)
error_message (invalid_envelope m) = within "invalid envelope: {0}" m
error_message (LumencastError.version_mismatch got) =
    measured "version mismatch: expected v=1, got v={got}" (got ∷ [])
error_message (sequence_gap expected got) =
    measured "sequence gap: expected seq={expected}, got seq={got}" (expected ∷ got ∷ [])
error_message (LumencastError.invalid_value code message path) =
    within "invalid value: {message}" message
