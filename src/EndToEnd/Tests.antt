-- ===== src/EndToEnd/Tests.antt =====
-- A server and its clients at work: two scenes, and two sessions of the first.
use lumencast_rs.Prelude.{◌≡◌, refl, true, [], ◌∷◌, ◌++◌, none, some, codes, arith}
use lumencast_rs.Protocol.Errors.{rate_limit, plain}
use lumencast_rs.Protocol.Frames.{SceneChanged, ErrorFrame, ServerFrame}
use lumencast_rs.Server.Role.{viewer}
use lumencast_rs.Server.Scene.{Scene, new_scene, current_seq}
use lumencast_rs.Server.Registry.{ServerInner, new_server, default_config}
use lumencast_rs.Server.Connection.{Clock, frame, Connection, send_error_with_path}
use lumencast_rs.Server.Connection.Session.{Live, on_swap, snapshot_frame, new_connection}
use lumencast_rs.Client.Manager.{handle_frame}
use lumencast_rs.Client.Manager.Tracking.{going}
use lumencast_rs.EndToEnd.{error_frame-dropped, second_swap-gap}

abbrev clock : Clock
clock = record { now = 10; iso = codes "1970-01-01T00:00:00Z" }

abbrev studio : Scene
studio = new_scene (codes "studio") (codes "v")

abbrev news : Scene
news = new_scene (codes "news") (codes "v")

abbrev two_scenes : ServerInner
two_scenes = record (new_server default_config) {
  heap = studio ∷ news ∷ [];
  scenes = (codes "studio", 0) ∷ (codes "news", 1) ∷ [];
  active = some (codes "news");
}

abbrev watching : Connection
watching = record (new_connection clock two_scenes) { current_scene = some 0 }

abbrev watcher : Live
watcher = record {
  server = two_scenes;
  conn = watching;
  current = 0;
  identity = record { subject = codes "bob"; role = viewer; paths = none };
}

error_frame-dropped_example :
    (f : ErrorFrame) × ((send_error_with_path two_scenes clock rate_limit
        (plain "input rate limit exceeded")
        true
        none
        watching).out
      ≡ [] ++ frame (ServerFrame.error f) ∷ [])
    × (f.seq ≡ current_seq studio)
    × (handle_frame (ServerFrame.error f) (record { last = 1 }) [] ≡ going 1 [])
unfolding new_scene
error_frame-dropped_example =
    error_frame-dropped two_scenes watching clock rate_limit (plain "input rate limit exceeded")
      true none studio 1 [] refl (omega arith) (omega arith) (omega arith)

second_swap-gap_example :
    (f : SceneChanged) × ((on_swap clock
        (record watcher { server = (on_swap clock watcher (some 1)).server })
        (some 1)).conn.out
      ≡ []
        ++ frame (ServerFrame.scene_changed f)
          ∷ frame (ServerFrame.snapshot (snapshot_frame clock news))
          ∷ [])
    × ((handle_frame (ServerFrame.scene_changed f) (record { last = current_seq studio }) []).gap
        ≡ true)
unfolding new_scene
second_swap-gap_example =
    second_swap-gap clock watcher watcher 1 studio news [] refl refl
      (λ e. absurd (omega (arith, e))) refl (omega arith) (omega arith)
