-- ===== src/Protocol/Errors/Laws.antt =====
-- The wire form of an error code (errors.rs).
use lumencast_rs.Prelude.{
  ◌≡◌, refl, sym, ap, ◌∙◌, List, [], ◌∷◌, Option, none, some, Text, if◌then◌else◌, text_eq,
}
use lumencast_rs.Protocol.Errors.{
  ErrorCode, auth_denied, write_forbidden, scene_not_found, bundle_fetch_failed,
  bundle_incompatible, version_gap, version_mismatch, unknown_path, invalid_value, rate_limit,
  test_session_expired, internal, as_wire_str,
}

abbrev all_codes : List ErrorCode
all_codes =
    auth_denied ∷ write_forbidden ∷ scene_not_found ∷ bundle_fetch_failed ∷ bundle_incompatible
    ∷ version_gap ∷ version_mismatch ∷ unknown_path ∷ invalid_value ∷ rate_limit
    ∷ test_session_expired ∷ internal ∷ []

-- The first code of a list with a given wire form.
code_among : List ErrorCode → Text → Option ErrorCode
code_among [] s = none
code_among (c ∷ cs) s = if text_eq (as_wire_str c) s then some c else code_among cs s

code_of : Text → Option ErrorCode
unfolding code_among as_wire_str text_eq
code_of = code_among all_codes

code_of-as_wire_str : (c : ErrorCode) → code_of (as_wire_str c) ≡ some c
unfolding code_of
code_of-as_wire_str auth_denied = refl
code_of-as_wire_str _ = refl

-- Two error codes with the same wire string are the same code.
as_wire_str-injective : (a b : ErrorCode) → as_wire_str a ≡ as_wire_str b → a ≡ b
as_wire_str-injective a b e =
    cc (sym (code_of-as_wire_str a) ∙ ap code_of e ∙ code_of-as_wire_str b)
