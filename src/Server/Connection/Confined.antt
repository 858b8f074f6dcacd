-- ===== src/Server/Connection/Confined.antt =====
-- A client writes nothing that its role does not let it write, whatever it sends and however its
-- session goes (ws_handler.rs).
use lumencast_rs.Prelude.{
  ℕ, ◌≡◌, refl, ap, ◌∙◌, false, List, [], ◌∷◌, Option, none, some, Text, map, last_value-keep,
  Result, ok, err,
}
use lumencast_rs.Protocol.Errors.{LumencastError, invalid_envelope, version_mismatch, sequence_gap}
use lumencast_rs.Protocol.Frames.{ClientFrame, subscribe, input, ping, unsubscribe, Input}
use lumencast_rs.Protocol.Codec.{decode_client_str}
use lumencast_rs.Server.Role.{can_write}
use lumencast_rs.Server.Auth.{Identity}
use lumencast_rs.Server.Scene.{Scene, pair_of, advance_seq}
use lumencast_rs.Server.Scene.Laws.{lookup-emitted}
use lumencast_rs.Server.Registry.{ServerInner, scene_swap, deref, put, scene}
use lumencast_rs.Server.Connection.{
  Env, Clock, Connection, Turn, Action, continue, stop, handle_frame, refuse_frame, on_decoded,
  handle_text_frame, cause_of,
}
use lumencast_rs.Server.Connection.Inputs.{
  value_at, value_at-put, not_named, Outcome, refused, applied, handle_input-Outcome,
}
use lumencast_rs.Server.Connection.Session.{
  Message, text, binary, close, Live, Run, live, done, swap, swap_to, swap_onto, acted, on_text,
  pong, on_swap, after_turn, Event, received, socket_ended, socket_failed, server_event,
  events_lagged, events_closed, delta, deltas_lagged, deltas_closed, step, run,
}

-- The leaf `path` may not be written by the identity.
abbrev pub IsClosed : Identity → Text → Type 0
IsClosed identity path = can_write identity.role (record { text = path }) identity.paths ≡ false

module _ (env : Env) (t : Clock) (h : ℕ) (identity : Identity) (path : Text)
    (closed : IsClosed identity path) (sc : Scene) (s : ServerInner)
    (at : deref s h ≡ some sc) where
  outcome-value_at :
      (s' : ServerInner) (c c' : Connection) (i : Input) (k : ℕ)
      → Outcome s s' c c' sc h identity i
      → value_at s' k path ≡ value_at s k path
  outcome-value_at s' c c' i k (refused e same out) = ap (λ x. value_at x k path) same
  outcome-value_at s' c c' i k (applied some_patch writable legal is_put out) =
      ap (λ x. value_at x k path) is_put
      ∙ value_at-put s h k sc _ path at (
          lookup-emitted (map pair_of i.patches) (cause_of identity i.client_msg_id) sc path
          ∙ last_value-keep path (map pair_of i.patches) _
              (not_named env sc identity path i.patches closed writable))

  frame-value_at :
      (f : ClientFrame) (c : Connection) (k : ℕ)
      → value_at (handle_frame env t h identity f sc s c).server k path ≡ value_at s k path
  unfolding handle_frame
  frame-value_at (subscribe f) c k = refl
  frame-value_at (ping p) c k = refl
  frame-value_at unsubscribe c k = refl
  frame-value_at (input i) c k =
      outcome-value_at _ c _ i k (handle_input-Outcome env t h identity i sc s at c)

  refuse-value_at :
      (e : LumencastError) (c : Connection) (k : ℕ)
      → value_at (refuse_frame t e s c).server k path ≡ value_at s k path
  unfolding refuse_frame
  refuse-value_at (LumencastError.invalid_value code message where_) c k = refl
  refuse-value_at (LumencastError.json e) c k = refl
  refuse-value_at (invalid_envelope m) c k = refl
  refuse-value_at (version_mismatch n) c k = refl
  refuse-value_at (sequence_gap e g) c k = refl

  text-value_at :
      (m : Text) (c : Connection) (k : ℕ)
      → value_at (handle_text_frame env t h identity m sc s c).server k path ≡ value_at s k path
  unfolding handle_text_frame
  text-value_at m c k = go (decode_client_str env.json env.client_frames m)
    where
      go :
          (r : Result LumencastError ClientFrame)
          → value_at (on_decoded env t h identity sc s c r).server k path ≡ value_at s k path
      go (err e) = refuse-value_at e c k
      go (ok f) = frame-value_at f c k

-- The server at the end of a run.
abbrev pub server_of : Run → ServerInner
server_of (live l) = l.server
server_of (done s c o) = s

-- A run that is still live is of the same identity.
abbrev pub IsOf : Identity → Run → Type 0
IsOf identity (live l) = l.identity ≡ identity
IsOf identity (done s c o) = Unit

-- A run that has kept a leaf behind every handle.
abbrev pub Keeps : Identity → Text → ServerInner → Run → Type 0
Keeps identity path s r =
    IsOf identity r × ((k : ℕ) → value_at (server_of r) k path ≡ value_at s k path)

module _ (env : Env) (identity : Identity) (path : Text) (closed : IsClosed identity path) where
  turn-Keeps :
      (l : Live) (t : Turn)
      → l.identity ≡ identity
      → ((k : ℕ) → value_at t.server k path ≡ value_at l.server k path)
      → Keeps identity path l.server (after_turn l t)
  turn-Keeps l t who kept = go t.action
    where
      go : (a : Action) → Keeps identity path l.server (acted l t.server t.conn a)
      go continue = (who, kept)
      go stop = (tt, kept)

  swap-Keeps :
      (t : Clock) (l : Live) (h : ℕ) (old new : Scene)
      → deref l.server l.current ≡ some old
      → l.identity ≡ identity
      → Keeps identity path l.server (live (swap t l h old new))
  unfolding swap advance_seq
  swap-Keeps t l h old new at who = (who, λ k. value_at-put l.server l.current k old _ path at refl)

  swap_to-Keeps :
      (t : Clock) (l : Live) (h : ℕ) (o : Option Scene)
      → deref l.server l.current ≡ o
      → l.identity ≡ identity
      → Keeps identity path l.server (live (swap_to t l h o))
  swap_to-Keeps t l h none at who = (who, λ k. refl)
  swap_to-Keeps t l h (some old) at who = go (deref (put l.server l.current (advance_seq old).0) h)
    where
      go : (o : Option Scene) → Keeps identity path l.server (live (swap_onto t l h old o))
      go none = (who, λ k. refl)
      go (some new) = swap-Keeps t l h old new at who

  on_swap-Keeps :
      (t : Clock) (l : Live) (o : Option ℕ)
      → l.identity ≡ identity
      → Keeps identity path l.server (live (on_swap t l o))
  on_swap-Keeps t l none who = (who, λ k. refl)
  on_swap-Keeps t l (some h) who = swap_to-Keeps t l h (deref l.server l.current) refl who

  on_text-Keeps :
      (t : Clock) (m : Text) (l : Live) (o : Option Scene)
      → deref l.server l.current ≡ o
      → l.identity ≡ identity
      → Keeps identity path l.server (on_text env t m l o)
  on_text-Keeps t m l none at who = (who, λ k. refl)
  on_text-Keeps t m l (some sc) at who =
      turn-Keeps l _ who (λ k.
        text-value_at env t l.current l.identity path (rw who closed) sc l.server at m l.conn k)

  step-Keeps :
      (t : Clock) (e : Event) (l : Live)
      → l.identity ≡ identity
      → Keeps identity path l.server (step env t e l)
  unfolding step
  step-Keeps t (received (text m)) l who = on_text-Keeps t m l (deref l.server l.current) refl who
  step-Keeps t (received binary) l who = (tt, λ k. refl)
  step-Keeps t (received (Message.ping p)) l who = (who, λ k. refl)
  step-Keeps t (received (pong p)) l who = (who, λ k. refl)
  step-Keeps t (received close) l who = (tt, λ k. refl)
  step-Keeps t socket_ended l who = (tt, λ k. refl)
  step-Keeps t socket_failed l who = (tt, λ k. refl)
  step-Keeps t (server_event (scene_swap id)) l who = on_swap-Keeps t l (scene id l.server) who
  step-Keeps t events_lagged l who = (tt, λ k. refl)
  step-Keeps t events_closed l who = (tt, λ k. refl)
  step-Keeps t (delta p) l who = (who, λ k. refl)
  step-Keeps t deltas_lagged l who = (tt, λ k. refl)
  step-Keeps t deltas_closed l who = (tt, λ k. refl)

  run-Keeps :
      (es : List (Clock × Event)) (r : Run)
      → IsOf identity r
      → Keeps identity path (server_of r) (run env es r)
  unfolding run
  run-Keeps [] r who = (who, λ k. refl)
  run-Keeps (e ∷ es) (done s c o) who = (tt, λ k. refl)
  run-Keeps ((t, e) ∷ es) (live l) who =
      let (who', kept) = step-Keeps t e l who in
      let (who'', kept') = run-Keeps es (step env t e l) who' in (who'', λ k. kept' k ∙ kept k)

  -- Whatever a client sends, and whatever events its session is given meanwhile, the session
  -- changes no leaf, behind any handle, that the client's role and scope do not let it write.
  pub run_confined :
      (es : List (Clock × Event)) (l : Live) (k : ℕ)
      → l.identity ≡ identity
      → value_at (server_of (run env es (live l))) k path ≡ value_at l.server k path
  run_confined es l k who = (run-Keeps es (live l) who).1 k
