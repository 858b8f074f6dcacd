-- ===== src/EndToEnd.antt =====
-- The server's session (crates/lumencast-server/src/ws_handler.rs) and the client's manager
-- (crates/lumencast-client/src/manager.rs) together: what a client does with the frames of a server.
mod Tests
use lumencast_rs.Prelude.{
  ℕ, ◌+◌, ◌%◌, ◌≤◌, ◌<◌, ◌≡◌, refl, sym, ap, subst, ◌∙◌, Bool, true, false, List, [], ◌∷◌, ◌++◌,
  append_assoc, Option, none, some, Text, get_elem?-set_same, get_elem?-set_other, if◌then◌else◌,
  arith,
}
use lumencast_rs.Protocol.Errors.{ErrorCode, Message}
use lumencast_rs.Protocol.Frames.{SceneChanged, ErrorFrame, ServerFrame}
use lumencast_rs.Protocol.Sequence.{u64_mod, observe_seq}
use lumencast_rs.Server.Scene.{Scene, advance_seq, current_seq}
use lumencast_rs.Server.Registry.{ServerInner, deref, put, scene_at}
use lumencast_rs.Server.Connection.{
  Clock, Sent, frame, Connection, error_frame, send_error_with_path, send,
}
use lumencast_rs.Server.Connection.Session.{
  Live, on_swap, swap, swap_to, swap_onto, send_snapshot, snapshot_frame, send_scene_changed,
}
use lumencast_rs.Client.Manager.{Event, Dispatch, handle_frame}
use lumencast_rs.Client.Manager.Tracking.{going}

-- An error that a server writes in a session, whatever its code and message, is one frame with the
-- number that the session's scene has. A client which has seen that number, or a later one, drops the
-- frame: it reports no event, and neither its number nor its connection changes. The client's number
-- is positive and below 2^64 - 1.
pub error_frame-dropped :
    (s : ServerInner) (c : Connection) (t : Clock) (code : ErrorCode) (message : Message)
    (recoverable : Bool) (path : Option Text) (sc : Scene) (n : ℕ) (es : List Event)
    → scene_at s c.current_scene ≡ some sc
    → 0 < n
    → n + 1 < u64_mod
    → current_seq sc ≤ n
    → (f : ErrorFrame) × ((send_error_with_path s t code message recoverable path c).out
        ≡ c.out ++ frame (ServerFrame.error f) ∷ [])
      × (f.seq ≡ current_seq sc)
      × (handle_frame (ServerFrame.error f) (record { last = n }) es ≡ going n es)
unfolding handle_frame send_error_with_path error_frame send observe_seq
error_frame-dropped s c t code message recoverable path sc n es at pos small seen =
    let f = error_frame s c t code message recoverable path in
    let is_seq : f.seq ≡ current_seq sc = rw at refl in (f, refl, is_seq, dropped f (is_seq))
  where
    dropped :
        (f : ErrorFrame)
        → f.seq ≡ current_seq sc
        → handle_frame (ServerFrame.error f) (record { last = n }) es ≡ going n es
    dropped f e = ground arith

abbrev advanced : Scene → Scene
advanced old = (advance_seq old).0

-- A session whose server has the scene `old` behind its handle and `new` behind another, `h`.
swap_frames :
    (t : Clock) (l : Live) (h : ℕ) (old new : Scene)
    → deref l.server l.current ≡ some old
    → deref l.server h ≡ some new
    → ¬ (l.current ≡ h)
    → on_swap t l (some h) ≡ swap t l h old new
swap_frames t l h old new at there apart =
    ap (swap_to t l h) at
    ∙ ap (swap_onto t l h old)
        (get_elem?-set_other l.server.heap l.current h (advance_seq old).0 apart ∙ there)

swap-out :
    (t : Clock) (l : Live) (h : ℕ) (old new : Scene)
    → (f : SceneChanged) × (f.seq ≡ (advance_seq old).1)
      × ((swap t l h old new).conn.out
          ≡ l.conn.out
            ++ frame (ServerFrame.scene_changed f)
              ∷ frame (ServerFrame.snapshot (snapshot_frame t new))
              ∷ [])
unfolding swap send_snapshot send_scene_changed send snapshot_frame
swap-out t l h old new =
    (_, refl, append_assoc l.conn.out _ (frame (ServerFrame.snapshot (snapshot_frame t new)) ∷ []))

advanced_twice :
    (old : Scene) → old.seq + 2 < u64_mod → (advance_seq (advanced old)).1 ≡ old.seq + 2
unfolding advance_seq
advanced_twice old small = omega arith

gap_at :
    (n : ℕ) (f : SceneChanged) (es : List Event)
    → 0 < n
    → n + 2 < u64_mod
    → f.seq ≡ n + 2
    → (handle_frame (ServerFrame.scene_changed f) (record { last = n }) es).gap ≡ true
unfolding handle_frame observe_seq
gap_at n f es pos small e = ground arith

swap-server :
    (t : Clock) (l : Live) (h : ℕ) (old new : Scene)
    → (swap t l h old new).server ≡ put l.server l.current (advanced old)
unfolding swap advance_seq
swap-server t l h old new = refl

-- Two sessions of one scene both hear that another scene is active, and each takes a number of the
-- old scene for its `scene_changed`. The second client, which has seen all that the old scene
-- emitted, is told the number after the next: it takes that for a gap and reconnects. The old
-- scene's number is positive and below 2^64 - 2.
pub second_swap-gap :
    (t : Clock) (first second : Live) (h : ℕ) (old new : Scene) (es : List Event)
    → deref first.server first.current ≡ some old
    → deref first.server h ≡ some new
    → ¬ (first.current ≡ h)
    → second.current ≡ first.current
    → 0 < current_seq old
    → current_seq old + 2 < u64_mod
    → (f : SceneChanged) × ((on_swap t
          (record second { server = (on_swap t first (some h)).server })
          (some h)).conn.out
        ≡ second.conn.out
          ++ frame (ServerFrame.scene_changed f)
            ∷ frame (ServerFrame.snapshot (snapshot_frame t new))
            ∷ [])
      × ((handle_frame (ServerFrame.scene_changed f) (record { last = current_seq old }) es).gap
          ≡ true)
second_swap-gap t first second h old new es at there apart same pos small =
    let s' : ServerInner = put first.server first.current (advanced old) in
    let server_is : (on_swap t first (some h)).server ≡ s' =
      ap (λ l. l.server) (swap_frames t first h old new at there apart)
      ∙ swap-server t first h old new in
    let l' : Live = record second { server = s' } in
    let at' : deref s' second.current ≡ some (advanced old) =
      ap (deref s') same
      ∙ get_elem?-set_same first.server.heap first.current old (advanced old) at in
    let there' : deref s' h ≡ some new =
      get_elem?-set_other first.server.heap first.current h (advanced old) apart ∙ there in
    let swapped = swap_frames t l' h (advanced old) new at' there' (λ e. apart (sym same ∙ e)) in
    let (f, is_seq, out) = swap-out t l' h (advanced old) new in
    (
      f,
      ap (λ s. (on_swap t (record second { server = s }) (some h)).conn.out) server_is
          ∙ ap (λ l. l.conn.out) swapped
          ∙ out,
      gap_at (current_seq old) f es pos small (is_seq ∙ advanced_twice old small),
    )
