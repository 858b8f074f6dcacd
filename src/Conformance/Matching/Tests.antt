-- ===== src/Conformance/Matching/Tests.antt =====
-- Frames against templates, and the shadow state (player.rs).
use lumencast_rs.Prelude.{
  ◌≡◌, refl, ◌↔◌, List, [], ◌∷◌, ◌++◌, none, some, Text, codes, Map, lookup, ok, Result, arith,
}
use lumencast_rs.Protocol.Json.{Value, string, array, object, nil, cons, end, member}
use lumencast_rs.Protocol.Types.{new_patch}
use lumencast_rs.Server.Replay.{ReplayRecord}
use lumencast_rs.Server.Scene.{Scene, snapshot_state}
use lumencast_rs.Server.Scene.Mirror.{Op, sets, history}
use lumencast_rs.Server.Scene.Converge.{earlier, later}
use lumencast_rs.Conformance.Matching.{structural_match}
use lumencast_rs.Conformance.Matching.Laws.{Matches, structural_match_iff}
use lumencast_rs.Conformance.Matching.Shadow.{update_all, shadow_converges}
use lumencast_rs.Conformance.Fixtures.{one, snapshot, template}

structural_match_iff_example :
    (structural_match template snapshot ≡ ok tt) ↔ Matches template snapshot
structural_match_iff_example = structural_match_iff template snapshot

abbrev before : List Op
before = sets (codes "a") one ∷ []

abbrev after : List Op
after = sets (codes "b") one ∷ []

abbrev then_ : Scene
then_ = earlier (codes "studio") (codes "v") [] before after

abbrev now : Scene
now = later (codes "studio") (codes "v") [] before after

abbrev news : List ReplayRecord
news =
    record { seq = 3; patches = new_patch (record { text = codes "b" }) one ∷ []; cause = none }
    ∷ []

abbrev delta : Value
delta = object (
    member (codes "type") (string (codes "delta")) (
      member (codes "patches")
        (array (
          cons
            (object (member (codes "path") (string (codes "b")) (member (codes "value") one end)))
            nil))
        end))

news-split : history now ≡ history then_ ++ news
unfolding lumencast_rs.Server.Scene.Mirror.perform_all lumencast_rs.Server.Scene.Mirror.perform
    lumencast_rs.Server.Scene.set lumencast_rs.Server.Scene.check_pair
    lumencast_rs.Protocol.LeafPath.parse lumencast_rs.Protocol.LeafPath.validate
    lumencast_rs.Prelude.split lumencast_rs.Protocol.LeafPath.is_scope_placeholder
    lumencast_rs.Prelude.strip_prefix lumencast_rs.Protocol.LeafPath.is_segment_token
    lumencast_rs.Protocol.LeafPath.is_index lumencast_rs.Protocol.LeafPath.is_identifier
    lumencast_rs.Server.Scene.publish lumencast_rs.Server.Scene.seed
    lumencast_rs.Server.Scene.new_scene lumencast_rs.Server.Store.seed
    lumencast_rs.Server.Store.set_value lumencast_rs.Server.Store.snapshot snapshot_state
    lumencast_rs.Prelude.insert lumencast_rs.Prelude.insert_all lumencast_rs.Prelude.text_eq
news-split = refl

snapshot-state : (codes "a", one) ∷ [] ≡ snapshot_state then_
unfolding lumencast_rs.Server.Scene.Mirror.perform_all lumencast_rs.Server.Scene.Mirror.perform
    lumencast_rs.Server.Scene.set lumencast_rs.Server.Scene.check_pair
    lumencast_rs.Protocol.LeafPath.parse lumencast_rs.Protocol.LeafPath.validate
    lumencast_rs.Prelude.split lumencast_rs.Protocol.LeafPath.is_scope_placeholder
    lumencast_rs.Prelude.strip_prefix lumencast_rs.Protocol.LeafPath.is_segment_token
    lumencast_rs.Protocol.LeafPath.is_index lumencast_rs.Protocol.LeafPath.is_identifier
    lumencast_rs.Server.Scene.publish lumencast_rs.Server.Scene.seed
    lumencast_rs.Server.Scene.new_scene lumencast_rs.Server.Store.seed
    lumencast_rs.Server.Store.set_value lumencast_rs.Server.Store.snapshot snapshot_state
    lumencast_rs.Prelude.insert lumencast_rs.Prelude.insert_all lumencast_rs.Prelude.text_eq
snapshot-state = refl

shadow_converges_example :
    lookup (codes "b") (update_all (snapshot ∷ delta ∷ []) [])
    ≡ lookup (codes "b") (snapshot_state now)
unfolding lumencast_rs.Protocol.Json.get lumencast_rs.Prelude.text_eq
shadow_converges_example =
    shadow_converges (codes "studio") (codes "v") [] before after snapshot (delta ∷ []) news []
      (omega arith) news-split (_, _, refl, refl, refl, snapshot-state)
      ((_, _, refl, refl, refl, ((refl, refl), tt)), tt) (codes "b")
