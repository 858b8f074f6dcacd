-- ===== src/Server/Scene/Converge.antt =====
-- A subscriber's copy of a scene converges to the scene (scene.rs, replay_buffer.rs): by a snapshot
-- and the deltas after it, or by the records that the replay buffer returns for a resume.
use lumencast_rs.Prelude.{
  ℕ, ◌+◌, ◌≤◌, ◌<◌, ◌≡◌, refl, sym, ap, ◌∙◌, true, List, [], ◌∷◌, ◌++◌, Text, lookup, insert_all,
  last_value, last_value-append, lookup-insert_all, All, All-mono, length, keep, ltb, arith,
}
use lumencast_rs.Protocol.Json.{Value}
use lumencast_rs.Protocol.Types.{SceneId, SceneVersion}
use lumencast_rs.Protocol.Frames.{State}
use lumencast_rs.Protocol.Sequence.{u64_mod}
use lumencast_rs.Server.Store.Laws.{seed-IsValid, lookup-snapshot}
use lumencast_rs.Server.Replay.{ReplayRecord, default_replay_buffer_size}
use lumencast_rs.Server.Replay.Laws.{since_complete, new_buffer-Holds, new_buffer-cap_pos}
use lumencast_rs.Server.Scene.{Scene, new_scene, seed, snapshot_state, replay_since}
use lumencast_rs.Server.Scene.Mirror.{
  Op, perform, perform_all, history, pairs_of, pairs_of-append, IsCoherent, perform-IsCoherent,
}
use lumencast_rs.Server.Scene.Extends.{perform-seq, perform_all-Extends, perform_all-seq}

perform_all-IsCoherent :
    (base : State) (os : List Op) (s : Scene)
    → s.seq + length os < u64_mod
    → IsCoherent base s
    → IsCoherent base (perform_all os s)
unfolding perform_all
perform_all-IsCoherent base [] s small c = c
perform_all-IsCoherent base (o ∷ os) s small c =
    let step = perform-seq o s (omega arith) in
    perform_all-IsCoherent base os (perform o s) (omega arith)
      (perform-IsCoherent base o s (omega arith) c)

-- A scene as it is registered: empty, or seeded with the defaults of a bundle.
seed-IsCoherent :
    (id : SceneId) (version : SceneVersion) (defaults : List (Text × Value))
    → IsCoherent
        (seed defaults (new_scene id version)).store.inner
        (seed defaults (new_scene id version))
unfolding seed new_scene last_value
seed-IsCoherent id version defaults = record {
  unique = seed-IsValid defaults _ tt;
  room = new_buffer-cap_pos default_replay_buffer_size;
  held = new_buffer-Holds default_replay_buffer_size;
  grows = tt;
  reached = (omega arith, tt);
  mirrored = λ path. refl;
}

keep_all_above :
    (n : ℕ) (rs : List ReplayRecord) → All (λ r. n < r.seq) rs → keep (λ r. ltb n r.seq) rs ≡ rs
keep_all_above n [] h = refl
keep_all_above n (r ∷ rs) h = ground (arith, h.0, keep_all_above n rs h.1)

keep_none_above :
    (n : ℕ) (rs tail : List ReplayRecord)
    → All (λ r. r.seq ≤ n) rs
    → keep (λ r. ltb n r.seq) (rs ++ tail) ≡ keep (λ r. ltb n r.seq) tail
keep_none_above n [] tail h = refl
keep_none_above n (r ∷ rs) tail h = ground (arith, h.0, keep_none_above n rs tail h.1)

-- A coherent scene, with the deltas that calls add to it.
news-snapshot :
    (base : State) (s s' : Scene) (news : List ReplayRecord) (path : Text)
    → IsCoherent base s
    → IsCoherent base s'
    → history s' ≡ history s ++ news
    → lookup path (insert_all (pairs_of news) (snapshot_state s)) ≡ lookup path (snapshot_state s')
unfolding snapshot_state
news-snapshot base s s' news path c c' split =
    lookup-insert_all path (pairs_of news) _
    ∙ ap (last_value path (pairs_of news)) (lookup-snapshot s.store path c.unique ∙ c.mirrored path)
    ∙ sym (last_value-append path (pairs_of (history s)) (pairs_of news) (lookup path base))
    ∙ ap (λ kvs. last_value path kvs (lookup path base)) (sym (pairs_of-append (history s) news))
    ∙ ap (λ rs. last_value path (pairs_of rs) (lookup path base)) (sym split)
    ∙ sym (c'.mirrored path)
    ∙ sym (lookup-snapshot s'.store path c'.unique)

module _ (id : SceneId) (version : SceneVersion) (defaults : List (Text × Value))
    (before after : List Op) where
  -- A scene that has served some calls since it was registered, and the same scene some calls later.
  abbrev pub earlier : Scene
  earlier = perform_all before (seed defaults (new_scene id version))

  abbrev pub later : Scene
  later = perform_all after earlier

  module _ (small : 2 + (length before + length after) < u64_mod) where
    room_after : earlier.seq + 1 + length after < u64_mod
    unfolding seed new_scene
    room_after = omega (
      arith,
      small,
      perform_all-seq before (seed defaults (new_scene id version)) (omega (arith, small)),
    )

    earlier-IsCoherent : IsCoherent (seed defaults (new_scene id version)).store.inner earlier
    unfolding seed new_scene
    earlier-IsCoherent =
        perform_all-IsCoherent _ before (seed defaults (new_scene id version))
          (omega (arith, small)) (seed-IsCoherent id version defaults)

    later-IsCoherent : IsCoherent (seed defaults (new_scene id version)).store.inner later
    later-IsCoherent =
        perform_all-IsCoherent _ after earlier (omega (arith, room_after)) earlier-IsCoherent

    -- A subscriber that takes a snapshot of a scene at any moment, and then applies the deltas that
    -- the scene broadcasts after it, in order, has the scene's own value at every path, whatever
    -- calls were made before and after the snapshot (fewer than 2^64 - 2 in all). The numbers of those
    -- deltas are above the snapshot's.
    pub snapshot_then_deltas :
        (news : List ReplayRecord) × (history later ≡ history earlier ++ news)
        × (All (λ r. earlier.seq < r.seq) news)
        × ((path : Text)
            → lookup path (insert_all (pairs_of news) (snapshot_state earlier))
              ≡ lookup path (snapshot_state later))
    snapshot_then_deltas =
        let e = perform_all-Extends after earlier (omega (arith, room_after)) in
        (
          e.news,
          e.split,
          e.above,
          λ path.
              news-snapshot _ earlier later e.news path earlier-IsCoherent later-IsCoherent e.split,
        )

    -- A subscriber that holds the state of an earlier moment of a scene, when no number above `n`
    -- had been broadcast and `n` was at most the scene's number, may resume at `n`: if the replay
    -- buffer says that it covers `n`, applying the records that it returns gives the scene's own
    -- value at every path. The scene has served fewer than 2^64 - 2 calls.
    pub resume_converges :
        (n : ℕ)
        → All (λ r. r.seq ≤ n) (history earlier)
        → n ≤ earlier.seq
        → (replay_since later n).covered ≡ true
        → (path : Text)
        → lookup path
            (insert_all (pairs_of (replay_since later n).records) (snapshot_state earlier))
          ≡ lookup path (snapshot_state later)
    unfolding replay_since
    resume_converges n seen low covered path =
        let e = perform_all-Extends after earlier (omega (arith, room_after)) in
        let c = later-IsCoherent in
        let complete =
          since_complete n 1 (history later) later.replay (omega (arith, low, room_after)) c.room
            c.grows c.held covered in
        let news_only =
          ap (keep (λ r. ltb n r.seq)) e.split
          ∙ keep_none_above n (history earlier) e.news seen
          ∙ keep_all_above n e.news
              (All-mono _ _ (λ r lt. omega (arith, low, lt)) e.news e.above) in
        ap (λ rs. lookup path (insert_all (pairs_of rs) (snapshot_state earlier)))
          (complete ∙ news_only)
        ∙ news-snapshot _ earlier later e.news path earlier-IsCoherent later-IsCoherent e.split
