-- ===== src/Lib.antt =====
-- LSDP/1 in Rust: the Lumencast protocol, its server and its client. A server keeps scenes, each a map
-- of leaf paths to JSON values. A client opens a WebSocket session, subscribes with a token, receives a
-- snapshot of a scene and then deltas with growing numbers; an operator's client writes leaves by
-- `input` frames. When a client comes back it may give the last number it saw, and gets the missed
-- deltas from a replay buffer, or a snapshot.
--
-- Files, under crates/lumencast-protocol/src unless a crate is named:
-- - Prelude: shared names, lists, results, texts (lists of bytes) and maps (association lists).
-- - Protocol/Json: the values of serde_json.
-- - Protocol/Errors: errors.rs. Protocol/Types: types.rs. Protocol/Frames: frames.rs, envelope.rs.
-- - Protocol/LeafPath: leaf_path.rs, with its grammar (Segments, Grammar), prefixes (Prefix) and scopes (Scopes).
-- - Protocol/Sequence: sequence.rs. Protocol/Codec: codec.rs. Protocol/Bundle (hash) and
--   Protocol/Layout (parsing and static checks): bundle.rs. Layout/Major and Layout/Nodes say what a
--   version and a node must be; Checks, Kinds, Walk and Validate have the proofs.
-- - Server/Role, Auth, Store, Replay, Input, Scene: role.rs, auth.rs, store.rs, replay_buffer.rs,
--   input.rs and scene.rs of crates/lumencast-server/src. Scene/Mirror has the calls on a scene as
--   data, Scene/Extends what they add to its history, and Scene/Converge what a subscriber rebuilds.
-- - Server/Registry: server.rs, config.rs and bundle_route.rs of the same crate. `ServerInner` has a
--   heap of scenes, and a scene handle is an index of it, since the code shares a scene by reference.
--   Registry/Calls has the calls on a server as data.
-- - Server/Input/Doubles: the numbers that doubles stand for, with their order.
-- - Server/Calendar, Server/Rate, Server/Connection, Server/Connection/Session: ws_handler.rs. `handle_input` and
--   `handle_text_frame` are functions of the server and the connection; `Connection::run` is a handshake
--   and a step for each event that `select!` hands over (Handshake, Resume, Resolve, Inputs, Confined).
-- - Client/Backoff, Client/Connection, Client/Manager: backoff.rs, connection.rs, manager.rs and
--   events.rs of crates/lumencast-client/src. `drive` is a step over events; `connect_with_retry` is a
--   recursion on the attempts that the network makes possible (Manager/Tracking, Contiguous, Retry).
-- - Server/Adapters: adapters/ of crates/lumencast-server/src: the periodic task (mod.rs), Flatten
--   (flatten.rs), HttpPoll (http_poll.rs) and WsSubscribe (websocket_subscribe.rs). A task is a step over
--   events, among them what other holders of its scene do; Laws, Polls, Backoff and Flatten/Leaves have
--   the theorems.
-- - Server/TestControl: test_control.rs of the same crate. A handler takes and returns the server and the
--   tokens; Specs has what it reads of a request.
-- - EndToEnd: the frames of a server's session in a client's manager.
-- - Conformance: crates/lumencast-conformance/src. Placeholders (placeholders.rs), Scenario (scenario.rs),
--   Control (control.rs), Harness (harness.rs); player.rs is Matching (the comparison of frames and the
--   shadow state), Setup (the setup request) and Player (the step interpreter). Effects is the monad of
--   computations against a world that they change and that may fail. Fixtures has test data.
-- - Cli: the conformance command of crates/lumencast-cli/src/main.rs, with the search for its scenarios
--   (Bases, Candidates, Directory).
--
-- State is passed explicitly; what a session writes to its socket is the list `out`, what a scene
-- broadcasts the list `sent`, what a client publishes the list `events`. A `u64` or `u32` counter wraps.
-- A call on a scene or a server is one step. The source takes the locks of a scene's store, number and
-- replay buffer and the broadcast one after another, so that calls of several holders can interleave
-- within a call: this is not modelled. Loops are structural recursions on the list of what is left to read. The walk over a layout takes as
-- fuel the number of values in it, which is enough: each round leaves fewer on the stack.
--
-- Parameters: serde_json, YAML and the derived conversions (`SerdeJson`, `Derived`, `Readers`, `Files`),
-- SHA-256, the conversion of JSON numbers to doubles, the authenticator, the clock, the floating-point
-- jitter, what the network yields, and for the conformance suite the socket and the HTTP client.
--
-- Not modelled: TLS, routing and listening, the negotiation of the WebSocket subprotocol, sends that
-- fail, the printing of time stamps, the client's builder, the server's builder and the serve command, the
-- parsing of arguments, logging and printing, and the fixtures of the codec (local.rs).
pub mod Prelude
pub mod Protocol
pub mod Server
pub mod Client
pub mod EndToEnd
pub mod Conformance
pub mod Cli
