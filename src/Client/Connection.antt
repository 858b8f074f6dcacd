-- ===== src/Client/Connection.antt =====
-- `Connection::open` of crates/lumencast-client/src/connection.rs, after the URL is parsed and the
-- socket dialled: the `subscribe` frame, and the wait for the snapshot.
use lumencast_rs.Prelude.{List, [], ◌∷◌, Option, none, Text, Result, ok, err, ◌>>=◌, ◌>>◌, map_err}
use lumencast_rs.Protocol.Errors.{LumencastError}
use lumencast_rs.Protocol.Types.{Token, SceneId, SessionId}
use lumencast_rs.Protocol.Frames.{
  Snapshot, ErrorFrame, ServerFrame, snapshot, delta, scene_changed, error, pong, ClientFrame,
  subscribe,
}
use lumencast_rs.Protocol.Codec.{SerdeJson, Derived, decode_server_str, encode_client_str}

pub data ConnectError : Type 0 where
  url : Text → ConnectError
  handshake : ConnectError
  encode : LumencastError → ConnectError
  closed : ConnectError
  server_error : ErrorFrame → ConnectError
  unexpected_frame : ServerFrame → ConnectError

-- What the socket yields: a message, or an error of the transport.
pub data Incoming : Type 0 where
  text : Text → Incoming
  ping pong_ close binary failed : Incoming

abbrev expect_snapshot : ServerFrame → Result ConnectError Snapshot
expect_snapshot (snapshot s) = ok s
expect_snapshot (error e) = err (server_error e)
expect_snapshot (delta d) = err (unexpected_frame (delta d))
expect_snapshot (scene_changed c) = err (unexpected_frame (scene_changed c))
expect_snapshot (pong p) = err (unexpected_frame (pong p))

module _ (json : SerdeJson) (server_frames : Derived ServerFrame)
    (client_frames : Derived ClientFrame) where
  -- The loop; a list that ends is a socket that ends.
  unfoldable await_snapshot : List Incoming → Result ConnectError Snapshot
  await_snapshot [] = err closed
  await_snapshot (text t ∷ ms) =
      map_err encode (decode_server_str json server_frames t) >>= expect_snapshot
  await_snapshot (ping ∷ ms) = await_snapshot ms
  await_snapshot (pong_ ∷ ms) = await_snapshot ms
  await_snapshot (close ∷ ms) = err closed
  await_snapshot (binary ∷ ms) = err handshake
  await_snapshot (failed ∷ ms) = err handshake

  -- The number of the last frame is never sent: the client does not resume.
  abbrev subscribe_frame : Token → Option SceneId → Option SessionId → ClientFrame
  subscribe_frame token scene session =
      subscribe (record { token = token; scene = scene; session = session; since_sequence = none })

  unfoldable open_connection :
      Token
      → Option SceneId
      → Option SessionId
      → Result ConnectError (Unit {0})
      → List Incoming
      → Result ConnectError Snapshot
  unfolding await_snapshot
  open_connection token scene session dialled incoming = do
    dialled
    sent ←
        map_err encode (encode_client_str json client_frames (subscribe_frame token scene session))
    await_snapshot incoming
