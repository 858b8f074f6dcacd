-- ===== src/Server/Role.antt =====
-- crates/lumencast-server/src/role.rs
pub mod Laws
mod Tests
use lumencast_rs.Prelude.{
  Bool, true, false, not, List, [], ◌∷◌, Option, none, some, Text, codes, if◌then◌else◌, any,
}
use lumencast_rs.Protocol.LeafPath.{LeafPath, starts_with_prefix}

pub data Role : Type 0 where
  viewer operator service test : Role

abbrev pub can_input : Role → Bool
can_input viewer = false
can_input _ = true

abbrev pub inputs_prefix : Text
inputs_prefix = codes "__inputs"

abbrev pub test_prefix : Text
test_prefix = codes "__test"

-- The `match scoped` of a service: no list, or an empty one, is no restriction.
abbrev pub in_scope : LeafPath → Option (List Text) → Bool
in_scope path none = true
in_scope path (some []) = true
in_scope path (some (p ∷ ps)) = any (starts_with_prefix path) (p ∷ ps)

unfoldable pub can_write : Role → LeafPath → Option (List Text) → Bool
can_write viewer path scoped = false
can_write operator path scoped = starts_with_prefix path inputs_prefix
can_write service path scoped =
    if not (starts_with_prefix path inputs_prefix) then false else in_scope path scoped
can_write test path scoped = starts_with_prefix path test_prefix

-- `Display`
unfoldable pub role_str : Role → Text
role_str viewer = codes "viewer"
role_str operator = codes "operator"
role_str service = codes "service"
role_str test = codes "test"
