-- ===== src/Server/Connection/Tests.antt =====
-- Sessions at work (ws_handler.rs): one scene, an operator, and a JSON library that reads every text
-- as the same `input`, or as the same `subscribe`.
use lumencast_rs.Prelude.{
  ℕ, ◌+◌, ◌<◌, ◌≤◌, ◌≡◌, refl, Bool, true, false, List, [], ◌∷◌, ◌++◌, Option, none, some, Text,
  codes, lookup, length, Result, ok, err, arith,
}
use lumencast_rs.Protocol.Json.{Value, number, positive, string, object, end, member}
use lumencast_rs.Protocol.LeafPath.{LeafPath}
use lumencast_rs.Protocol.Types.{SceneId, new_patch}
use lumencast_rs.Protocol.Frames.{ClientFrame, Input, Subscribe, input, subscribe}
use lumencast_rs.Protocol.Codec.{Derived, v_key, type_key}
use lumencast_rs.Protocol.Bundle.{Bundle}
use lumencast_rs.Server.Role.{operator, can_write}
use lumencast_rs.Server.Auth.{Identity}
use lumencast_rs.Server.Scene.{Scene, new_scene}
use lumencast_rs.Server.Scene.Converge.{earlier, later}
use lumencast_rs.Server.Scene.Mirror.{Op, sets}
use lumencast_rs.Server.Registry.{ServerInner, new_server, default_config, deref}
use lumencast_rs.Server.Registry.Calls.{Call, creates, activates, serve_all}
use lumencast_rs.Server.Connection.{Env, Clock, handle_input}
use lumencast_rs.Server.Connection.Inputs.{Outcome, value_at, handle_input-Outcome}
use lumencast_rs.Server.Connection.Confined.{server_of, run_confined}
use lumencast_rs.Server.Connection.Handshake.{Greeting, handshake-Greeting}
use lumencast_rs.Server.Connection.Resume.{Converges, MayResume, send_initial-Converges}
use lumencast_rs.Server.Connection.Resolve.{resolve_scene-named}
use lumencast_rs.Server.Connection.Session.{
  Received, Message, Live, live, Event, received, run, handshake, new_connection, asked_or_active,
  resolve_scene, send_initial,
}
use lumencast_rs.Server.Scene.{snapshot_state}

abbrev one : Value
one = number (positive 1)

abbrev an_input : Input
an_input = record {
  patches = new_patch (record { text = codes "__inputs.gain" }) one ∷ [];
  client_msg_id = some (codes "m1");
}

abbrev a_subscribe : Subscribe
a_subscribe = record { token = codes "t"; scene = none; session = none; since_sequence = none }

abbrev alice : Identity
alice = record { subject = codes "alice"; role = operator; paths = none }

abbrev toy_env : ClientFrame → Env
toy_env f = record {
  json = record {
    from_slice =
        λ bytes. ok (object (member v_key one (member type_key (string (codes "input")) end)));
    to_vec = λ v. err [];
    to_string = λ v. err [];
  };
  client_frames = record { to_value = λ g. err []; from_value = λ v. ok f };
  to_f64 = λ n. none;
  auth = record { authenticate = λ token. ok alice };
}

abbrev clock : Clock
clock = record { now = 10; iso = codes "1970-01-01T00:00:00Z" }

abbrev studio : Scene
studio = new_scene (codes "studio") (codes "v")

abbrev one_scene : ServerInner
one_scene = record (new_server default_config) {
  heap = studio ∷ [];
  scenes = (codes "studio", 0) ∷ [];
  active = some (codes "studio");
}

abbrev joined : Live
joined = record {
  server = one_scene;
  conn = record (new_connection clock one_scene) { current_scene = some 0 };
  current = 0;
  identity = alice;
}

abbrev title : Text
title = codes "show.title"

abbrev inputs_ : List (Clock × Event)
inputs_ = (clock, received (Message.text (codes "{}"))) ∷ (clock, received Message.close) ∷ []

title-can_write : can_write operator (record { text = title }) none ≡ false
unfolding can_write lumencast_rs.Protocol.LeafPath.starts_with_prefix lumencast_rs.Prelude.text_eq
    lumencast_rs.Prelude.strip_prefix
title-can_write = refl

run_confined_example :
    value_at (server_of (run (toy_env (input an_input)) inputs_ (live joined))) 0 title
    ≡ value_at one_scene 0 title
run_confined_example =
    run_confined (toy_env (input an_input)) alice title title-can_write inputs_ joined 0 refl

handle_input-Outcome_example :
    Outcome one_scene
      (handle_input
        (toy_env (input an_input))
        clock
        0
        alice
        an_input
        studio
        one_scene
        joined.conn).0
      joined.conn
      (handle_input
        (toy_env (input an_input))
        clock
        0
        alice
        an_input
        studio
        one_scene
        joined.conn).1
      studio
      0
      alice
      an_input
handle_input-Outcome_example =
    handle_input-Outcome (toy_env (input an_input)) clock 0 alice an_input studio one_scene refl
      joined.conn

handshake-Greeting_example :
    Greeting
      (toy_env (subscribe a_subscribe))
      clock
      (Received.message (Message.text (codes "{}")))
      one_scene
      (handshake
        (toy_env (subscribe a_subscribe))
        clock
        (Received.message (Message.text (codes "{}")))
        one_scene)
handshake-Greeting_example =
    handshake-Greeting (toy_env (subscribe a_subscribe)) clock
      (Received.message (Message.text (codes "{}"))) one_scene

abbrev after : List Op
after = sets (codes "a") one ∷ sets (codes "b") one ∷ []

abbrev at_start : Scene
at_start = earlier (codes "studio") (codes "v") ((codes "d", one) ∷ []) [] after

abbrev at_end : Scene
at_end = later (codes "studio") (codes "v") ((codes "d", one) ∷ []) [] after

-- A client that saw the first snapshot of the scene, number 1.
start-MayResume :
    MayResume
      (codes "studio")
      (codes "v")
      ((codes "d", one) ∷ [])
      []
      after
      (some 1)
      (snapshot_state at_start)
unfolding lumencast_rs.Server.Scene.Mirror.perform_all lumencast_rs.Server.Scene.seed new_scene
start-MayResume = (tt, omega arith, refl)

send_initial-Converges_example :
    Converges clock at_end
      (codes "b")
      joined.conn
      (snapshot_state at_start)
      (send_initial clock at_end (some 1) joined.conn)
send_initial-Converges_example =
    send_initial-Converges (codes "studio") (codes "v") ((codes "d", one) ∷ []) [] after clock
      joined.conn (some 1) (snapshot_state at_start) (codes "b") (omega arith) start-MayResume

abbrev bundles : Derived Bundle
bundles = record { to_value = λ b. err []; from_value = λ v. err [] }

abbrev toy_hash : Text → Text
toy_hash bytes = bytes

abbrev calls : List (Call (toy_env (input an_input)).json bundles toy_hash)
calls = creates (codes "studio") ∷ creates (codes "news") ∷ activates (codes "news") ∷ []

abbrev two_scenes : ServerInner
two_scenes =
    serve_all (toy_env (input an_input)).json bundles toy_hash calls (new_server default_config)

resolve_scene-named_example :
    ((h : ℕ)
      → resolve_scene two_scenes a_subscribe ≡ some h
      → (sc : Scene) × (deref two_scenes h ≡ some sc)
        × (asked_or_active none two_scenes.active ≡ some sc.id))
    × ((id : SceneId)
        → a_subscribe.scene ≡ none
        → two_scenes.active ≡ some id
        → (h : ℕ) × (resolve_scene two_scenes a_subscribe ≡ some h))
resolve_scene-named_example =
    resolve_scene-named (toy_env (input an_input)).json bundles toy_hash default_config calls
      a_subscribe
