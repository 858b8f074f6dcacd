-- ===== src/Server/Connection/Session.antt =====
-- `Connection::run` and `handle` of crates/lumencast-server/src/ws_handler.rs: the handshake, and
-- the main loop as a step for each event that `select!` hands over. The environment chooses the
-- events; `biased` only makes some of its choices impossible.
use lumencast_rs.Prelude.{
  ℕ, true, false, ◌&&◌, List, [], ◌∷◌, ◌++◌, Option, none, some, Text, ltb, leb, if◌then◌else◌,
  Result, ok, err, ◌>>=◌, map_err,
}
use lumencast_rs.Protocol.Errors.{ErrorCode, LumencastError, plain}
use lumencast_rs.Protocol.Types.{SceneId}
use lumencast_rs.Protocol.Frames.{Snapshot, ServerFrame, ClientFrame, Subscribe, subscribe}
use lumencast_rs.Protocol.Codec.{decode_client_str}
use lumencast_rs.Server.Auth.{AuthError, Identity}
use lumencast_rs.Server.Rate.{new_bucket}
use lumencast_rs.Server.Replay.{ReplayRecord, ReplaySlice}
use lumencast_rs.Server.Scene.{
  Scene, DeltaPayload, SceneRejection, current_seq, snapshot_state, replay_since, advance_seq,
}
use lumencast_rs.Server.Registry.{ServerInner, ServerEvent, scene_swap, deref, scene, put}
use lumencast_rs.Server.Connection.{
  Env, Clock, ws_pong, close_normal, Connection, send, send_error, send_delta, Action, continue,
  stop, Turn, handle_text_frame,
}

pub data HandlerError : Type 0 where
  websocket : HandlerError
  protocol : LumencastError → HandlerError
  subscribe_timeout closed expected_text not_subscribe : HandlerError

pub data Message : Type 0 where
  text : Text → Message
  binary : Message
  ping pong : Text → Message
  close : Message

-- What the wait for the first frame yields.
pub data Received : Type 0 where
  timed_out ended failed : Received
  message : Message → Received

unfoldable pub subscribe_of : ClientFrame → Result HandlerError Subscribe
subscribe_of (subscribe f) = ok f
subscribe_of _ = err not_subscribe

unfoldable pub recv_subscribe : Env → Received → Result HandlerError Subscribe
recv_subscribe env timed_out = err subscribe_timeout
recv_subscribe env ended = err closed
recv_subscribe env failed = err websocket
recv_subscribe env (message (text t)) =
    map_err protocol (decode_client_str env.json env.client_frames t) >>= subscribe_of
recv_subscribe env (message close) = err closed
recv_subscribe env (message _) = err expected_text

-- The handle that `resolve_scene` finds: of the scene that is asked for, or of the active one.
abbrev pub scene_of? : ServerInner → Option SceneId → Option ℕ
scene_of? s none = none
scene_of? s (some id) = scene id s

abbrev pub asked_or_active : Option SceneId → Option SceneId → Option SceneId
asked_or_active none active = active
asked_or_active (some id) active = some id

unfoldable pub resolve_scene : ServerInner → Subscribe → Option ℕ
resolve_scene s sub = scene_of? s (asked_or_active sub.scene s.active)

unfoldable pub snapshot_frame : Clock → Scene → Snapshot
snapshot_frame t sc = record {
  seq = current_seq sc;
  scene_id = sc.id;
  scene_version = sc.version;
  state = snapshot_state sc;
  ts = some t.iso;
}

unfoldable pub send_snapshot : Clock → Scene → Connection → Connection
unfolding send snapshot_frame
send_snapshot t sc c = send (ServerFrame.snapshot (snapshot_frame t sc)) c

unfoldable pub send_scene_changed : Clock → Scene → ℕ → Connection → Connection
unfolding send
send_scene_changed t next seq c =
    send
      (ServerFrame.scene_changed (record {
        seq = seq;
        scene_id = next.id;
        scene_version = next.version;
        ts = some t.iso;
        from_scene_id = none;
        transition = none;
      }))
      c

unfoldable pub send_records : List ReplayRecord → Connection → Connection
unfolding send_delta
send_records [] c = c
send_records (r ∷ rs) c = send_records rs (send_delta r.seq r.patches r.cause c)

abbrev pub send_slice : Clock → Scene → ReplaySlice → Connection → Connection
send_slice t sc slice c =
    if slice.covered then send_records slice.records c else send_snapshot t sc c

-- Step 5 of `run`: the missed deltas if the replay buffer has them all, else a snapshot.
unfoldable pub send_initial : Clock → Scene → Option ℕ → Connection → Connection
send_initial t sc none c = send_snapshot t sc c
send_initial t sc (some since) c =
    if ltb 0 since && leb since (current_seq sc)
    then send_slice t sc (replay_since sc since) c
    else send_snapshot t sc c

-- A connection in the main loop: the server, the wire, the handle `current`, and who is connected.
pub record Live : Type 0 where
  pub server : ServerInner
  pub conn : Connection
  pub current : ℕ
  pub identity : Identity

pub data Run : Type 0 where
  live : Live → Run
  done : ServerInner → Connection → Result HandlerError (Unit {0}) → Run

-- Steps 3 bis to 5.
abbrev pub welcome :
    Clock
    → ServerInner
    → Identity
    → Subscribe
    → ℕ
    → Scene
    → Option SceneRejection
    → Connection
    → Run
welcome t s identity sub h sc (some r) c = done s (send_error s t r.code r.message false c) (ok tt)
welcome t s identity sub h sc none c = live (record {
  server = s;
  conn = send_initial t sc sub.since_sequence c;
  current = h;
  identity = identity;
})

abbrev pub unknown : Clock → ServerInner → Connection → Run
unknown t s c =
    done s (send_error s t ErrorCode.scene_not_found (plain "scene unknown") false c) (ok tt)

-- Step 3, with the scene behind the handle.
abbrev pub enter_scene :
    Clock → ServerInner → Identity → Subscribe → ℕ → Connection → Option Scene → Run
enter_scene t s identity sub h c none = unknown t s c
enter_scene t s identity sub h c (some sc) =
    welcome t s identity sub h sc sc.rejection (record c { current_scene = some h })

abbrev pub enter : Clock → ServerInner → Identity → Subscribe → Option ℕ → Connection → Run
enter t s identity sub none c = unknown t s c
enter t s identity sub (some h) c = enter_scene t s identity sub h c (deref s h)

abbrev pub new_connection : Clock → ServerInner → Connection
new_connection t s = record {
  current_scene = none;
  rate = new_bucket s.config.input_rate_per_sec t.now;
  out = [];
}

-- Step 2, with the answer of the authenticator.
abbrev pub admit : Clock → ServerInner → Subscribe → Result AuthError Identity → Run
admit t s sub (err _) =
    done s (send_error s t ErrorCode.auth_denied (plain "invalid token") false (new_connection t s))
      (ok tt)
admit t s sub (ok identity) = enter t s identity sub (resolve_scene s sub) (new_connection t s)

abbrev pub on_subscribe : Env → Clock → ServerInner → Result HandlerError Subscribe → Run
on_subscribe env t s (err e) = done s (new_connection t s) (err e)
on_subscribe env t s (ok sub) = admit t s sub (env.auth.authenticate sub.token)

-- Steps 1 to 5.
unfoldable pub handshake : Env → Clock → Received → ServerInner → Run
handshake env t received s = on_subscribe env t s (recv_subscribe env received)

pub data Event : Type 0 where
  received : Message → Event
  socket_ended socket_failed : Event
  server_event : ServerEvent → Event
  events_lagged events_closed : Event
  delta : DeltaPayload → Event
  deltas_lagged deltas_closed : Event

abbrev pub acted : Live → ServerInner → Connection → Action → Run
acted l s c continue = live (record l { server = s; conn = c })
acted l s c stop = done s c (ok tt)

abbrev pub after_turn : Live → Turn → Run
after_turn l t = acted l t.server t.conn t.action

-- The swap: the old scene's number advances once more, then the new scene's snapshot.
unfoldable pub swap : Clock → Live → ℕ → Scene → Scene → Live
swap t l h old new =
    let (old', prev_seq) = advance_seq old in
    let s' = put l.server l.current old' in
    record l {
      server = s';
      conn = record (send_snapshot t new (send_scene_changed t new prev_seq l.conn)) {
        current_scene = some h;
      };
      current = h;
    }

-- The new scene is read after the old one has advanced: they may be one.
abbrev pub swap_onto : Clock → Live → ℕ → Scene → Option Scene → Live
swap_onto t l h old none = l
swap_onto t l h old (some new) = swap t l h old new

abbrev pub swap_to : Clock → Live → ℕ → Option Scene → Live
swap_to t l h none = l
swap_to t l h (some old) =
    swap_onto t l h old (deref (put l.server l.current (advance_seq old).0) h)

abbrev pub on_swap : Clock → Live → Option ℕ → Live
on_swap t l none = l
on_swap t l (some h) = swap_to t l h (deref l.server l.current)

abbrev pub stopped : Live → Connection → Run
stopped l c = done l.server c (ok tt)

-- A text frame, with the current scene.
abbrev pub on_text : Env → Clock → Text → Live → Option Scene → Run
on_text env t m l none = live l
on_text env t m l (some sc) =
    after_turn l (handle_text_frame env t l.current l.identity m sc l.server l.conn)

-- One round of the main loop.
unfoldable pub step : Env → Clock → Event → Live → Run
step env t (received (text m)) l = on_text env t m l (deref l.server l.current)
step env t (received binary) l =
    stopped l
      (send_error l.server t ErrorCode.internal (plain "binary frames forbidden") false l.conn)
step env t (received (ping p)) l =
    live (record l { conn = record l.conn { out = l.conn.out ++ ws_pong p ∷ [] } })
step env t (received (pong p)) l = live l
step env t (received close) l = stopped l l.conn
step env t socket_ended l = stopped l l.conn
step env t socket_failed l = done l.server l.conn (err websocket)
step env t (server_event (scene_swap id)) l = live (on_swap t l (scene id l.server))
step env t events_lagged l =
    stopped l
      (send_error l.server t ErrorCode.internal (plain "server event stream lagged") true l.conn)
step env t events_closed l = stopped l l.conn
step env t (delta p) l = live (record l { conn = send_delta p.seq p.patches p.cause l.conn })
step env t deltas_lagged l =
    stopped l (send_error l.server t ErrorCode.internal (plain "delta stream lagged") true l.conn)
step env t deltas_closed l = stopped l l.conn

-- The main loop over the events of a connection.
unfoldable pub run : Env → List (Clock × Event) → Run → Run
run env [] r = r
run env (e ∷ es) (done s c o) = done s c o
run env ((t, e) ∷ es) (live l) = run env es (step env t e l)

-- `handle`: whatever ends the run, a normal close follows.
unfoldable pub close_run : Run → Run
close_run (live l) = live l
close_run (done s c o) = done s (record c { out = c.out ++ close_normal ∷ [] }) o
