-- ===== src/Server/Connection/Resume.antt =====
-- The first frames of a session (`Connection::run`, step 5, of ws_handler.rs): what they give a client.
use lumencast_rs.Prelude.{
  append_laws, ℕ, ◌+◌, ◌≤◌, ◌<◌, ◌≡◌, refl, sym, ap, subst, ◌∙◌, true, ◌&&◌, List, [], ◌∷◌, ◌++◌,
  append-nil, Option, none, some, Text, lookup, insert, insert_all, map, All, length, ltb, leb,
  if-cases, arith,
}
use lumencast_rs.Protocol.Json.{Value}
use lumencast_rs.Protocol.Types.{SceneId, SceneVersion}
use lumencast_rs.Protocol.Frames.{ServerFrame, State}
use lumencast_rs.Protocol.Sequence.{u64_mod}
use lumencast_rs.Server.Replay.{ReplayRecord}
use lumencast_rs.Server.Scene.{Scene, pair_of, snapshot_state, replay_since, current_seq}
use lumencast_rs.Server.Scene.Mirror.{Op, history, pairs_of}
use lumencast_rs.Server.Scene.Converge.{earlier, later, resume_converges}
use lumencast_rs.Server.Connection.{Clock, Sent, frame, Connection, send, send_delta}
use lumencast_rs.Server.Connection.Session.{
  send_snapshot, snapshot_frame, send_records, send_initial,
}

-- What a client does with the frames that it receives (LSDP/1 §5): a snapshot is its state, and a
-- delta overwrites leaves.
abbrev pub receive : List Sent → State → State
receive [] st = st
receive (frame (ServerFrame.snapshot f) ∷ fs) st = receive fs f.state
receive (frame (ServerFrame.delta d) ∷ fs) st = receive fs (insert_all (map pair_of d.patches) st)
receive (_ ∷ fs) st = receive fs st

abbrev delta_of : ReplayRecord → Sent
delta_of r =
    frame
      (ServerFrame.delta (record { seq = r.seq; patches = r.patches; ts = none; cause = r.cause }))

insert_all-append :
    (xs ys : List (Text × Value)) (m : State)
    → insert_all (xs ++ ys) m ≡ insert_all ys (insert_all xs m)
unfolding insert_all
insert_all-append [] ys m = refl
insert_all-append ((k, v) ∷ xs) ys m = insert_all-append xs ys (insert k v m)

receive-deltas :
    (rs : List ReplayRecord) (st : State)
    → receive (map delta_of rs) st ≡ insert_all (pairs_of rs) st
unfolding insert_all
receive-deltas [] st = refl
receive-deltas (r ∷ rs) st =
    receive-deltas rs _ ∙ sym (insert_all-append (map pair_of r.patches) (pairs_of rs) st)

send_records-out :
    (rs : List ReplayRecord) (c : Connection) → (send_records rs c).out ≡ c.out ++ map delta_of rs
unfolding send_records send_delta send
send_records-out [] c = sym (append-nil c.out)
send_records-out (r ∷ rs) c = send_records-out rs _ ∙ simp append_laws

module _ (t : Clock) (sc : Scene) (path : Text) (c : Connection) (st : State) where
  -- The frames that are sent after `c` give a client with the state `st` the scene's value.
  abbrev pub Converges : Connection → Type 0
  Converges c' =
      (sent : List Sent) × (c'.out ≡ c.out ++ sent)
      × (lookup path (receive sent st) ≡ lookup path (snapshot_state sc))

  snapshot-Converges : Converges (send_snapshot t sc c)
  unfolding send_snapshot send snapshot_frame
  snapshot-Converges = (frame (ServerFrame.snapshot (snapshot_frame t sc)) ∷ [], refl, refl)

  records-Converges :
      (rs : List ReplayRecord)
      → lookup path (insert_all (pairs_of rs) st) ≡ lookup path (snapshot_state sc)
      → Converges (send_records rs c)
  records-Converges rs e =
      (map delta_of rs, send_records-out rs c, ap (lookup path) (receive-deltas rs st) ∙ e)

  initial-Converges :
      (since_sequence : Option ℕ)
      → ((n : ℕ)
          → since_sequence ≡ some n
          → (replay_since sc n).covered ≡ true
          → lookup path (insert_all (pairs_of (replay_since sc n).records) st)
            ≡ lookup path (snapshot_state sc))
      → Converges (send_initial t sc since_sequence c)
  unfolding send_initial
  initial-Converges none resumes = snapshot-Converges
  initial-Converges (some n) resumes =
      if-cases Converges (ltb 0 n && leb n (current_seq sc)) _ _
        (λ near.
          if-cases Converges (replay_since sc n).covered _ _
            (λ covered. records-Converges (replay_since sc n).records (resumes n refl covered))
            (λ gone. snapshot-Converges))
        (λ far. snapshot-Converges)

module _ (id : SceneId) (version : SceneVersion) (defaults : List (Text × Value))
    (before after : List Op) where
  -- What a client has when it subscribes: anything, if it gives no number; with the number `n`, the
  -- state of an earlier moment of the scene, which had broadcast no number above `n`.
  abbrev pub MayResume : Option ℕ → State → Type 0
  MayResume none st = Unit
  MayResume (some n) st =
      (All (λ r. r.seq ≤ n) (history (earlier id version defaults before after)))
      × (n ≤ (earlier id version defaults before after).seq)
      × (st ≡ snapshot_state (earlier id version defaults before after))

  -- However a client starts, the first frames of its session give it the scene's own value at every
  -- path, whether the replay buffer still has the missed deltas or not. It starts afresh, from any
  -- state; or it gives the number `n` and holds the state of an earlier moment of the scene, when
  -- no number above `n` had been broadcast and `n` was at most the scene's number. The scene has
  -- served fewer than 2^64 - 2 calls.
  pub send_initial-Converges :
      (t : Clock) (c : Connection) (since_sequence : Option ℕ) (st : State) (path : Text)
      → 2 + (length before + length after) < u64_mod
      → MayResume since_sequence st
      → Converges t
          (later id version defaults before after)
          path
          c
          st
          (send_initial t (later id version defaults before after) since_sequence c)
  send_initial-Converges t c none st path small may =
      initial-Converges t _ path c st none (λ m e covered. absurd (cc))
  send_initial-Converges t c (some n) st path small (seen, low, is_earlier) =
      initial-Converges t _ path c st (some n) (λ m e covered.
        let same : n ≡ m = cc in
        ap
          (λ x. lookup path (
            insert_all (pairs_of (replay_since (later id version defaults before after) m).records)
              x))
          is_earlier
        ∙ resume_converges id version defaults before after small m
            (subst (λ x. All (λ r. r.seq ≤ x) (history (earlier id version defaults before after)))
              same seen)
            (omega (arith, low, same)) covered path)
