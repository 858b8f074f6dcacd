-- ===== src/Protocol/LeafPath.antt =====
-- crates/lumencast-protocol/src/leaf_path.rs. Byte offsets into a text never fall inside a
-- character here, since every cut is next to an ASCII byte.
pub mod Grammar
pub mod Segments
pub mod Prefix
pub mod Scopes
mod Tests
use lumencast_rs.Prelude.{
  ℕ, zero, suc, ◌+◌, ◌-◌, Bool, true, false, not, ◌&&◌, ◌||◌, List, [], ◌∷◌, ◌++◌, Option, none,
  some, Text, codes, text_eq, strip_prefix, split, ltb, leb, ◌==◌, if◌then◌else◌, Result, ok, err,
  ◌>>◌, ◌>>=◌, is_empty, all, any, drop, length, is_some,
}
use lumencast_rs.Protocol.Errors.{
  ErrorCode, LumencastError, Message, plain, filled, within, value_error,
}

pub data Namespace : Type 0 where
  inputs system test schema user : Namespace

abbrev pub dot : ℕ
dot = b'.'

-- `split('.').next().unwrap_or("")`
unfoldable pub first_segment : List Text → Text
first_segment [] = []
first_segment (w ∷ ws) = w

unfoldable pub namespace_of_head : Text → Namespace
namespace_of_head head =
    if text_eq head (codes "inputs")
    then inputs
    else if text_eq head (codes "system")
    then system
    else if text_eq head (codes "test")
    then test
    else if text_eq head (codes "schema")
    then schema
    else user

abbrev pub namespace_of_rest : Option Text → Namespace
namespace_of_rest (some rest) = namespace_of_head (first_segment (split dot rest))
namespace_of_rest none = user

-- `Namespace::of`
unfoldable pub namespace_of : Text → Namespace
namespace_of path = namespace_of_rest (strip_prefix (codes "__") path)

pub record LeafPath : Type 0 where
  pub text : Text

unfoldable pub namespace : LeafPath → Namespace
unfolding namespace_of
namespace p = namespace_of p.text

abbrev pub starts_with_dot : Text → Bool
starts_with_dot [] = false
starts_with_dot (b ∷ s) = b == dot

abbrev pub starts_with_dot? : Option Text → Bool
starts_with_dot? none = false
starts_with_dot? (some rest) = starts_with_dot rest

unfoldable pub starts_with_prefix : LeafPath → Text → Bool
starts_with_prefix p prefix =
    if text_eq p.text prefix then true else starts_with_dot? (strip_prefix prefix p.text)

unfoldable pub has_scope : LeafPath → Bool
has_scope p = any (λ b. b == b'{') p.text

-- `str::replace` for a needle that is not empty: of a match the first byte writes `to`, and the
-- others are skipped.
unfoldable pub replace_from : Text → Text → ℕ → Text → Text
replace_from needle to k [] = []
replace_from needle to (suc k) (b ∷ s) = replace_from needle to k s
replace_from needle to zero (b ∷ s) =
    let matched = to ++ replace_from needle to (length needle - 1) s in
    let other = b ∷ replace_from needle to 0 s in
    if is_some (strip_prefix needle (b ∷ s)) then matched else other

-- `format!("{{{name}}}")`
abbrev pub placeholder : Text → Text
placeholder name = b'{' ∷ name ++ b'}' ∷ []

unfoldable pub substitute_text : List (Text × Text) → Text → Text
substitute_text [] out = out
substitute_text ((name, replacement) ∷ bindings) out =
    substitute_text bindings (replace_from (placeholder name) replacement 0 out)

unfoldable pub substitute : LeafPath → List (Text × Text) → LeafPath
unfolding substitute_text replace_from
substitute p bindings = record { text = substitute_text bindings p.text }

-- `u8::is_ascii_digit` and its like.
abbrev pub is_ascii_digit : ℕ → Bool
is_ascii_digit b = leb b'0' b && leb b b'9'

abbrev pub is_ascii_alphabetic : ℕ → Bool
is_ascii_alphabetic b = (leb b'a' b && leb b b'z') || (leb b'A' b && leb b b'Z')

unfoldable pub is_ident_byte : ℕ → Bool
is_ident_byte b = (is_ascii_digit b || is_ascii_alphabetic b) || b == b'_'

unfoldable pub is_identifier : Text → Bool
is_identifier [] = false
is_identifier (first ∷ bytes) =
    if not (is_ascii_alphabetic first || first == b'_') then false else all is_ident_byte bytes

unfoldable pub is_index : Text → Bool
is_index seg = not (is_empty seg) && all is_ascii_digit seg

unfoldable pub is_segment_token : Text → Bool
is_segment_token seg = is_index seg || is_identifier seg

-- `ends_with('}')`
unfoldable pub ends_with : ℕ → Text → Bool
ends_with c [] = false
ends_with c (b ∷ []) = b == c
ends_with c (b ∷ s) = ends_with c s

abbrev pub starts_with : ℕ → Text → Bool
starts_with c [] = false
starts_with c (b ∷ s) = b == c

unfoldable pub is_scope_placeholder : Text → Bool
is_scope_placeholder seg = starts_with b'{' seg && ends_with b'}' seg && leb 2 (length seg)

-- `&seg[1..seg.len() - 1]`
unfoldable pub init : Text → Text
init [] = []
init (b ∷ []) = []
init (b ∷ s) = b ∷ init s

abbrev pub inner_of : Text → Text
inner_of seg = init (drop 1 seg)

-- `LumencastError::invalid_path`
abbrev pub invalid_path : Message → LumencastError
invalid_path msg = value_error (within "invalid leaf path: {}" msg)

abbrev pub starts_with_reserved : Text → Bool
starts_with_reserved seg = is_some (strip_prefix (codes "__") seg)

-- One round of the loop of `validate`, over segment `i`.
unfoldable pub validate_segment : ℕ → Text → Result LumencastError (Unit {0})
validate_segment i segment =
    if is_empty segment
    then err (invalid_path (plain "empty segment (consecutive dots)"))
    else if is_scope_placeholder segment
    then if is_empty (inner_of segment) || not (all is_ident_byte (inner_of segment))
      then err (invalid_path (plain "scope placeholder must wrap a non-empty identifier"))
      else ok tt
    else if i == 0 && starts_with_reserved segment
    then if is_empty (drop 2 segment) || not (is_identifier (drop 2 segment))
      then err (invalid_path (plain "reserved namespace head is invalid"))
      else ok tt
    else if not (is_segment_token segment)
    then err (invalid_path (filled "invalid segment: {:?}" (segment ∷ [])))
    else ok tt

unfoldable pub validate_segments : ℕ → List Text → Result LumencastError (Unit {0})
validate_segments i [] = ok tt
validate_segments i (segment ∷ rest) = validate_segment i segment >> validate_segments (i + 1) rest

unfoldable pub validate : Text → Result LumencastError (Unit {0})
unfolding validate_segments validate_segment
validate s =
    if is_empty s
    then err (invalid_path (plain "empty leaf path"))
    else validate_segments 0 (split dot s)

-- `LeafPath::parse`
unfoldable pub parse : Text → Result LumencastError LeafPath
parse s = do validate s; ok (record { text = s })
