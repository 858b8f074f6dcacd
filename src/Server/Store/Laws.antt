-- ===== src/Server/Store/Laws.antt =====
-- The state store as a map (store.rs).
use lumencast_rs.Prelude.{
  ◌≡◌, refl, ◌∙◌, List, [], Option, none, some, Text, lookup, IsUnique, last_value,
  lookup-insert_all, last_value_unique, insert-IsUnique, insert_all-IsUnique, is_some,
  if◌then◌else◌,
}
use lumencast_rs.Protocol.Json.{Value}
use lumencast_rs.Server.Store.{Store, set_value, apply, snapshot, seed}

abbrev pub IsValid : Store → Type 0
IsValid s = IsUnique s.inner

if_some_same : (o : Option Value) → (if is_some o then o else none) ≡ o
if_some_same none = refl
if_some_same (some v) = refl

-- A snapshot has the value of the store at every path.
pub lookup-snapshot :
    (s : Store) (path : Text) → IsValid s → lookup path (snapshot s) ≡ lookup path s.inner
unfolding snapshot lookup
lookup-snapshot s path u =
    lookup-insert_all path s.inner []
    ∙ last_value_unique path s.inner none u
    ∙ if_some_same (lookup path s.inner)

set_value-IsValid :
    (path : Text) (v : Value) (s : Store) → IsValid s → IsValid (set_value path v s).0
unfolding set_value
set_value-IsValid path v s u = insert-IsUnique path v s.inner u

pub apply-IsValid : (ps : List (Text × Value)) (s : Store) → IsValid s → IsValid (apply ps s)
unfolding apply
apply-IsValid ps s u = insert_all-IsUnique ps s.inner u

pub seed-IsValid : (ps : List (Text × Value)) (s : Store) → IsValid s → IsValid (seed ps s)
unfolding seed
seed-IsValid ps s u = insert_all-IsUnique ps s.inner u

snapshot-IsUnique : (s : Store) → IsUnique (snapshot s)
unfolding snapshot
snapshot-IsUnique s = insert_all-IsUnique s.inner [] tt

-- Applying patches gives each path the value of its last patch, and leaves the others alone.
pub lookup-apply :
    (ps : List (Text × Value)) (s : Store) (path : Text)
    → lookup path (apply ps s).inner ≡ last_value path ps (lookup path s.inner)
unfolding apply
lookup-apply ps s path = lookup-insert_all path ps s.inner
