-- ===== src/Conformance/Matching/Shadow.antt =====
-- The shadow state that the player rebuilds from frames is the scene's (player.rs, with scene.rs).
use mathlib.Core.List.{append_cancel_left}
use lumencast_rs.Prelude.{
  ◌+◌, ◌<◌, ◌≡◌, refl, sym, ap, ◌∙◌, List, [], ◌∷◌, ◌++◌, Option, none, some, Text, text_eq, codes,
  Map, lookup, insert, insert_all, last_value, last_value_unique, lookup-insert_all,
  insert_all-IsUnique, IsUnique, map, length, is_some, if◌then◌else◌,
}
use lumencast_rs.Protocol.Json.{Value, string, array, object, Items, nil, cons, Members, get}
use lumencast_rs.Protocol.Types.{SceneId, SceneVersion, Patch}
use lumencast_rs.Protocol.Sequence.{u64_mod}
use lumencast_rs.Server.Replay.{ReplayRecord}
use lumencast_rs.Server.Scene.{Scene, pair_of, snapshot_state}
use lumencast_rs.Server.Scene.Mirror.{Op, history, pairs_of}
use lumencast_rs.Server.Scene.Converge.{earlier, later, snapshot_then_deltas}
use lumencast_rs.Conformance.Matching.{
  get_of, pairs_of_members, put_patches, update_shadow_from_frame,
}

-- The JSON of a snapshot, of patches and of a delta, as far as the player reads it.
abbrev IsSnapshotOf : Map Value → Value → Type 0
IsSnapshotOf state v =
    (ms : Members) × (st : Members) × (v ≡ object ms)
    × (get (codes "type") ms ≡ some (string (codes "snapshot")))
    × (get (codes "state") ms ≡ some (object st))
    × (pairs_of_members st ≡ state)

abbrev ArePatches : List Patch → Items → Type 0
ArePatches [] nil = Unit
ArePatches (p ∷ ps) (cons v vs) =
    ((get_of (codes "path") v ≡ some (string p.path.text))
      × (get_of (codes "value") v ≡ some p.value))
    × ArePatches ps vs
ArePatches _ _ = ⊥

abbrev IsDeltaOf : ReplayRecord → Value → Type 0
IsDeltaOf r v =
    (ms : Members) × (items : Items) × (v ≡ object ms)
    × (get (codes "type") ms ≡ some (string (codes "delta")))
    × (get (codes "patches") ms ≡ some (array items))
    × ArePatches r.patches items

abbrev AreDeltas : List ReplayRecord → List Value → Type 0
AreDeltas [] [] = Unit
AreDeltas (r ∷ rs) (v ∷ vs) = IsDeltaOf r v × AreDeltas rs vs
AreDeltas _ _ = ⊥

-- The shadow after frame upon frame.
unfoldable pub update_all : List Value → Map Value → Map Value
update_all [] shadow = shadow
update_all (v ∷ vs) shadow = update_all vs (update_shadow_from_frame v shadow)

put_patches_lem :
    (ps : List Patch) (items : Items) (shadow : Map Value)
    → ArePatches ps items
    → put_patches items shadow ≡ insert_all (map pair_of ps) shadow
unfolding put_patches insert_all
put_patches_lem [] nil shadow h = refl
put_patches_lem [] (cons v vs) shadow h = elim h [ ]
put_patches_lem (p ∷ ps) nil shadow h = elim h [ ]
put_patches_lem (p ∷ ps) (cons v vs) shadow ((at_path, at_value), rest) =
    rw (at_path, at_value) (put_patches_lem ps vs (insert p.path.text p.value shadow) rest)

update-snapshot :
    (state : Map Value) (v : Value) (shadow : Map Value)
    → IsSnapshotOf state v
    → update_shadow_from_frame v shadow ≡ insert_all state []
unfolding update_shadow_from_frame text_eq
update-snapshot state v shadow (ms, st, is_v, type_, at, same) = rw (is_v, type_, at, same) refl

update-delta :
    (r : ReplayRecord) (v : Value) (shadow : Map Value)
    → IsDeltaOf r v
    → update_shadow_from_frame v shadow ≡ insert_all (map pair_of r.patches) shadow
unfolding update_shadow_from_frame text_eq
update-delta r v shadow (ms, items, is_v, type_, at, patches) =
    rw (is_v, type_, at) (put_patches_lem r.patches items shadow patches)

insert_all-append :
    (xs ys : List (Text × Value)) (m : Map Value)
    → insert_all (xs ++ ys) m ≡ insert_all ys (insert_all xs m)
unfolding insert_all
insert_all-append [] ys m = refl
insert_all-append ((k, v) ∷ xs) ys m = insert_all-append xs ys (insert k v m)

update_all-deltas :
    (rs : List ReplayRecord) (vs : List Value) (shadow : Map Value)
    → AreDeltas rs vs
    → update_all vs shadow ≡ insert_all (pairs_of rs) shadow
unfolding update_all
update_all-deltas [] [] shadow h = unfold insert_all in refl
update_all-deltas [] (v ∷ vs) shadow h = elim h [ ]
update_all-deltas (r ∷ rs) [] shadow h = elim h [ ]
update_all-deltas (r ∷ rs) (v ∷ vs) shadow h =
    ap (update_all vs) (update-delta r v shadow h.0)
    ∙ update_all-deltas rs vs (insert_all (map pair_of r.patches) shadow) h.1
    ∙ sym (insert_all-append (map pair_of r.patches) (pairs_of rs) shadow)

-- A copy of a map answers as the map.
lookup-copy :
    (path : Text) (state : Map Value)
    → IsUnique state
    → lookup path (insert_all state []) ≡ lookup path state
unfolding lookup
lookup-copy path state u =
    lookup-insert_all path state [] ∙ last_value_unique path state none u ∙ kept (lookup path state)
  where
    kept : (o : Option Value) → (if is_some o then o else none) ≡ o
    kept none = refl
    kept (some v) = refl

snapshot_state-IsUnique : (s : Scene) → IsUnique (snapshot_state s)
unfolding snapshot_state lumencast_rs.Server.Store.snapshot
snapshot_state-IsUnique s = insert_all-IsUnique s.store.inner [] tt

module _ (id : SceneId) (version : SceneVersion) (defaults : List (Text × Value))
    (before after : List Op) where
  -- Whatever its shadow was, a player that reads the frame of a scene's snapshot and then the frames
  -- of all deltas that the scene emits after it, in order, has the scene's own value at every path of
  -- its shadow, whatever calls were made before and after the snapshot (fewer than 2^64 - 2 in all).
  pub shadow_converges :
      (snapshot : Value) (deltas : List Value) (news : List ReplayRecord) (old : Map Value)
      → 2 + (length before + length after) < u64_mod
      → history (later id version defaults before after)
        ≡ history (earlier id version defaults before after) ++ news
      → IsSnapshotOf (snapshot_state (earlier id version defaults before after)) snapshot
      → AreDeltas news deltas
      → (path : Text)
      → lookup path (update_all (snapshot ∷ deltas) old)
        ≡ lookup path (snapshot_state (later id version defaults before after))
  unfolding update_all
  shadow_converges snapshot deltas news old small split is_snapshot are_deltas path =
      let s = earlier id version defaults before after in
      let (news', split', above, mirrored) =
        snapshot_then_deltas id version defaults before after small in
      let same : news' ≡ news = append_cancel_left (history s) news' news (sym split' ∙ split) in
      ap (λ m. lookup path (update_all deltas m)) (update-snapshot _ snapshot old is_snapshot)
      ∙ ap (lookup path)
          (update_all-deltas news deltas (insert_all (snapshot_state s) []) are_deltas)
      ∙ lookup-insert_all path (pairs_of news) (insert_all (snapshot_state s) [])
      ∙ ap (last_value path (pairs_of news))
          (lookup-copy path (snapshot_state s) (snapshot_state-IsUnique s))
      ∙ sym (lookup-insert_all path (pairs_of news) (snapshot_state s))
      ∙ ap (λ rs. lookup path (insert_all (pairs_of rs) (snapshot_state s))) (sym same)
      ∙ mirrored path
