-- ===== src/Protocol/Types.antt =====
-- crates/lumencast-protocol/src/types.rs
pub mod Laws
mod Tests
use lumencast_rs.Prelude.{
  ℕ, Bool, true, false, not, ◌&&◌, ◌||◌, String, List, Option, none, some, Text, codes,
  strip_prefix, ltb, leb, ◌==◌, if◌then◌else◌, Result, ok, err, all, length,
}
use lumencast_rs.Protocol.Json.{Value, is_object}
use lumencast_rs.Protocol.LeafPath.{LeafPath, is_ascii_digit}

abbrev pub Token : Type 0
Token = Text

abbrev pub SceneId : Type 0
SceneId = Text

abbrev pub SceneVersion : Type 0
SceneVersion = Text

abbrev pub SessionId : Type 0
SessionId = Text

-- `u8::is_ascii_hexdigit`
abbrev pub is_ascii_hexdigit : ℕ → Bool
is_ascii_hexdigit b = is_ascii_digit b || ((leb b'a' b && leb b b'f') || (leb b'A' b && leb b b'F'))

abbrev well_formed_rest : Option Text → Bool
well_formed_rest none = false
well_formed_rest (some rest) = length rest == 64 && all is_ascii_hexdigit rest

-- `SceneVersion::is_well_formed`
unfoldable pub is_well_formed : SceneVersion → Bool
is_well_formed v = well_formed_rest (strip_prefix (codes "sha256:") v)

pub data Easing : Type 0 where
  linear ease_in ease_out ease_in_out : Easing

-- The doubles of a spring are kept as their bits.
pub data TransitionSpec : Type 0 where
  tween : (duration_ms : Option ℕ) (easing : Option Easing) → TransitionSpec
  spring : (stiffness damping : Option ℕ) → TransitionSpec
  snap : TransitionSpec

pub record Patch : Type 0 where
  pub path : LeafPath
  pub value : Value
  pub transition : Option TransitionSpec

pub record Cause : Type 0 where
  pub source : Text
  pub input_id : Option Text

pub record SceneTransition : Type 0 where
  pub kind : Text
  pub duration_ms : Option ℕ

-- `Patch::new` and `Patch::with_transition`.
abbrev pub new_patch : LeafPath → Value → Patch
new_patch path value = record { path = path; value = value; transition = none }

abbrev pub with_transition : LeafPath → Value → TransitionSpec → Patch
with_transition path value spec = record { path = path; value = value; transition = some spec }

abbrev pub is_value_legal : Patch → Bool
is_value_legal p = not (is_object p.value)

abbrev pub check_leaf_value : Value → Result String (Unit {0})
check_leaf_value value =
    if is_object value then err "leaf value MUST NOT be a JSON object" else ok tt
