-- ===== src/Server/Store/Tests.antt =====
-- The state store at work (store.rs).
use lumencast_rs.Prelude.{◌≡◌, refl, List, [], ◌∷◌, Option, none, some, codes, lookup}
use lumencast_rs.Protocol.Json.{number, positive}
use lumencast_rs.Server.Store.{Store, new_store, apply, remove_value, snapshot}

abbrev two : Store
two =
    apply
      ((codes "a", number (positive 1))
        ∷ (codes "b", number (positive 2))
        ∷ (codes "a", number (positive 3))
        ∷ [])
      new_store

two-snapshot : lookup (codes "a") (snapshot two) ≡ some (number (positive 3))
unfolding snapshot apply lookup lumencast_rs.Prelude.insert_all lumencast_rs.Prelude.insert
    lumencast_rs.Prelude.text_eq
two-snapshot = refl

two-remove_value : lookup (codes "b") (remove_value (codes "b") two).0.inner ≡ none
unfolding remove_value apply lookup lumencast_rs.Prelude.remove lumencast_rs.Prelude.insert_all
    lumencast_rs.Prelude.insert lumencast_rs.Prelude.text_eq
two-remove_value = refl
