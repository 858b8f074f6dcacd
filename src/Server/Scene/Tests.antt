-- ===== src/Server/Scene/Tests.antt =====
-- Scenes at work (scene.rs).
use lumencast_rs.Prelude.{
  ◌<◌, ◌≡◌, ◌⊎◌, List, [], ◌∷◌, ◌++◌, none, Text, codes, lookup, insert_all, last_value, All, ok,
  err, arith,
}
use lumencast_rs.Protocol.Json.{Value, number, positive, object, end}
use lumencast_rs.Server.Replay.{ReplayRecord}
use lumencast_rs.Server.Scene.{Scene, ServerError, new_scene, emit_with_cause, snapshot_state}
use lumencast_rs.Server.Scene.Laws.{IsLegalPair, emit_atomic}
use lumencast_rs.Server.Scene.Mirror.{Op, sets, emits, history, pairs_of}
use lumencast_rs.Server.Scene.Converge.{earlier, later, snapshot_then_deltas}

abbrev one : Value
one = number (positive 1)

abbrev pairs : List (Text × Value)
pairs = (codes "a", one) ∷ (codes "b", object end) ∷ []

abbrev studio : Scene
studio = new_scene (codes "studio") (codes "v")

emit_atomic_example :
    ((All IsLegalPair pairs)
      × ((emit_with_cause pairs none studio).1 ≡ ok tt)
      × ((path : Text)
          → lookup path (emit_with_cause pairs none studio).0.store.inner
            ≡ last_value path pairs (lookup path studio.store.inner)))
    ⊎ ((¬ All IsLegalPair pairs)
        × (e : ServerError) × (emit_with_cause pairs none studio ≡ (studio, err e)))
emit_atomic_example = emit_atomic pairs none studio

abbrev before : List Op
before = sets (codes "a") one ∷ []

abbrev after : List Op
after = emits ((codes "b", one) ∷ (codes "c", one) ∷ []) none ∷ sets (codes "a") one ∷ []

abbrev at_snapshot : Scene
at_snapshot = earlier (codes "studio") (codes "v") ((codes "d", one) ∷ []) before after

abbrev at_end : Scene
at_end = later (codes "studio") (codes "v") ((codes "d", one) ∷ []) before after

snapshot_then_deltas_example :
    (news : List ReplayRecord) × (history at_end ≡ history at_snapshot ++ news)
    × (All (λ r. at_snapshot.seq < r.seq) news)
    × ((path : Text)
        → lookup path (insert_all (pairs_of news) (snapshot_state at_snapshot))
          ≡ lookup path (snapshot_state at_end))
snapshot_then_deltas_example =
    snapshot_then_deltas (codes "studio") (codes "v") ((codes "d", one) ∷ []) before after
      (omega arith)
