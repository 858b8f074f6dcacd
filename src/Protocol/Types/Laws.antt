-- ===== src/Protocol/Types/Laws.antt =====
-- The format of a content hash (types.rs).
use lumencast_rs.Prelude.{
  ◌≡◌, refl, ◌↔◌, true, ◌++◌, Option, none, some, Text, codes, strip_prefix, strip_prefix_iff, All,
  all_sound, all_complete, length, arith,
}
use lumencast_rs.Protocol.Types.{SceneVersion, is_ascii_hexdigit, well_formed_rest, is_well_formed}

-- `sha256:` and 64 hexadecimal digits, of either case.
abbrev pub IsHash : SceneVersion → Type 0
IsHash v =
    (hex : Text) × (v ≡ codes "sha256:" ++ hex)
    × (length hex ≡ 64)
    × All (λ b. is_ascii_hexdigit b ≡ true) hex

-- A version is well formed exactly if it is `sha256:` and 64 hexadecimal digits.
pub is_well_formed_iff : (v : SceneVersion) → (is_well_formed v ≡ true) ↔ IsHash v
unfolding is_well_formed
is_well_formed_iff v = (go (strip_prefix (codes "sha256:") v) refl, back)
  where
    go :
        (o : Option Text)
        → strip_prefix (codes "sha256:") v ≡ o
        → well_formed_rest o ≡ true
        → IsHash v
    go none e h = cc
    go (some hex) e h = (
      hex,
      (strip_prefix_iff (codes "sha256:") v hex).0 e,
      ground arith,
      all_sound is_ascii_hexdigit hex (ground arith),
    )

    back : IsHash v → well_formed_rest (strip_prefix (codes "sha256:") v) ≡ true
    back (hex, e, len, digits) = rw (
      (strip_prefix_iff (codes "sha256:") v hex).1 e,
      len,
      all_complete is_ascii_hexdigit hex digits,
    )
