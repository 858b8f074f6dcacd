-- ===== src/Server/Store.antt =====
-- crates/lumencast-server/src/store.rs. Each operation holds the lock of the map from its first
-- step to its last.
pub mod Laws
mod Tests
use lumencast_rs.Prelude.{
  List, [], ◌∷◌, Option, none, some, Text, Map, lookup, insert, remove, insert_all,
}
use lumencast_rs.Protocol.Json.{Value}
use lumencast_rs.Protocol.Frames.{State}

pub record Store : Type 0 where
  pub inner : Map Value

abbrev pub new_store : Store
new_store = record { inner = [] }

unfoldable pub set_value : Text → Value → Store → Store × Option Value
set_value path value s = (record { inner = insert path value s.inner }, lookup path s.inner)

unfoldable pub apply : List (Text × Value) → Store → Store
apply patches s = record { inner = insert_all patches s.inner }

unfoldable pub remove_value : Text → Store → Store × Option Value
remove_value path s = (record { inner = remove path s.inner }, lookup path s.inner)

-- A new map, filled entry by entry.
unfoldable pub snapshot : Store → State
snapshot s = insert_all s.inner []

unfoldable pub seed : List (Text × Value) → Store → Store
seed defaults s = record { inner = insert_all defaults s.inner }
