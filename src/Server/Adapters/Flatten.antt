-- ===== src/Server/Adapters/Flatten.antt =====
-- crates/lumencast-server/src/adapters/flatten.rs
pub mod Leaves
use lumencast_rs.Prelude.{List, [], ◌∷◌, ◌++◌, Text, is_empty, if◌then◌else◌}
use lumencast_rs.Protocol.Json.{Value, object, Members, end, member}
use lumencast_rs.Protocol.LeafPath.{dot}

-- The path of a member: `format!("{path}.{k}")`, or the key alone at the root.
abbrev pub child_path : Text → Text → Text
child_path path k = if is_empty path then k else path ++ dot ∷ k

abbrev pub push_leaf : Text → Value → List (Text × Value) → List (Text × Value)
push_leaf path v out = if is_empty path then out else out ++ (path, v) ∷ []

unfoldable mutual
  pub walk : Text → Value → List (Text × Value) → List (Text × Value)
  walk path (object ms) out = walk_members path ms out
  walk path v out = push_leaf path v out

  pub walk_members : Text → Members → List (Text × Value) → List (Text × Value)
  walk_members path end out = out
  walk_members path (member k v ms) out = walk_members path ms (walk (child_path path k) v out)

unfoldable pub flatten_into_pairs : Text → Value → List (Text × Value)
flatten_into_pairs prefix value = walk prefix value []
