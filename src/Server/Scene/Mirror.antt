-- ===== src/Server/Scene/Mirror.antt =====
-- What a subscriber can rebuild of a scene from a snapshot and the broadcast deltas (scene.rs,
-- with store.rs and replay_buffer.rs): the calls on a scene, in any order.
use lumencast_rs.Prelude.{
  append_laws, ℕ, ◌+◌, ◌%◌, ◌≤◌, ◌<◌, ◌≡◌, refl, sym, ap, subst, ◌∙◌, List, [], ◌∷◌, ◌++◌,
  append-nil, Option, none, Text, lookup, last_value, last_value-append, IsUnique, map, All,
  All-append, All-mono, arith,
}
use lumencast_rs.Protocol.Json.{Value}
use lumencast_rs.Protocol.Errors.{ErrorCode, Message}
use lumencast_rs.Protocol.LeafPath.{LeafPath}
use lumencast_rs.Protocol.Types.{Patch, Cause}
use lumencast_rs.Protocol.Frames.{State}
use lumencast_rs.Protocol.Sequence.{u64_mod}
use lumencast_rs.Server.Store.{apply}
use lumencast_rs.Server.Store.Laws.{apply-IsValid, lookup-apply}
use lumencast_rs.Server.Replay.{ReplayRecord}
use lumencast_rs.Server.Replay.Laws.{Holds, IsIncreasing, push-Holds, push-cap}
use lumencast_rs.Server.Input.{InputSpec}
use lumencast_rs.Server.Scene.{
  DeltaPayload, Scene, advance_seq, publish, pair_of, set, emit_with_cause, emit,
  attach_bundle_bytes, reject, with_operator_inputs, with_declared_inputs,
}
use lumencast_rs.Server.Scene.Laws.{emit_checked_cases, set-emit}

-- The calls on a scene that is being served. `seed` stands before: it runs at construction, before
-- any subscriber is attached.
pub data Op : Type 0 where
  sets : Text → Value → Op
  emits : List (Text × Value) → Option Cause → Op
  advances : Op
  attaches : Text → Op
  rejects : ErrorCode → Message → Op
  declares : List InputSpec → Op
  declares_paths : List LeafPath → Op

unfoldable pub perform : Op → Scene → Scene
perform (sets path value) s = (set path value s).0
perform (emits pairs cause) s = (emit_with_cause pairs cause s).0
perform advances s = (advance_seq s).0
perform (attaches bytes) s = attach_bundle_bytes bytes s
perform (rejects code message) s = reject code message s
perform (declares specs) s = with_operator_inputs specs s
perform (declares_paths paths) s = with_declared_inputs paths s

unfoldable pub perform_all : List Op → Scene → Scene
perform_all [] s = s
perform_all (o ∷ os) s = perform_all os (perform o s)

abbrev pub record_of : DeltaPayload → ReplayRecord
record_of p = record { seq = p.seq; patches = p.patches; cause = p.cause }

-- All that a scene has broadcast.
abbrev pub history : Scene → List ReplayRecord
history s = map record_of s.sent

-- The pairs that a list of deltas writes, patch by patch.
abbrev pub pairs_of : List ReplayRecord → List (Text × Value)
pairs_of [] = []
pairs_of (r ∷ rs) = map pair_of r.patches ++ pairs_of rs

pub pairs_of-append : (xs ys : List ReplayRecord) → pairs_of (xs ++ ys) ≡ pairs_of xs ++ pairs_of ys
pairs_of-append [] ys = refl
pairs_of-append (x ∷ xs) ys =
    ap (◌++◌ (map pair_of x.patches)) (pairs_of-append xs ys) ∙ simp append_laws

-- A scene whose state is its initial state with all broadcast deltas applied, whose numbers grow
-- and whose replay buffer holds the end of what it broadcast.
pub record IsCoherent (base : State) (s : Scene) : Type 0 where
  pub unique : IsUnique s.store.inner
  pub room : 0 < s.replay.cap
  pub held : Holds (history s) s.replay
  pub grows : IsIncreasing 1 (history s)
  pub reached : (1 ≤ s.seq) × All (λ r. r.seq ≤ s.seq) (history s)
  pub mirrored :
      (path : Text)
      → lookup path s.store.inner ≡ last_value path (pairs_of (history s)) (lookup path base)

map-append_one :
    (f : DeltaPayload → ReplayRecord) (ps : List DeltaPayload) (p : DeltaPayload)
    → map f (ps ++ p ∷ []) ≡ map f ps ++ f p ∷ []
map-append_one f [] p = refl
map-append_one f (q ∷ ps) p = ap (◌∷◌ (f q)) (map-append_one f ps p)

IsIncreasing-append_one :
    (n : ℕ) (rs : List ReplayRecord) (r : ReplayRecord)
    → n < r.seq
    → IsIncreasing n rs
    → All (λ q. q.seq < r.seq) rs
    → IsIncreasing n (rs ++ r ∷ [])
IsIncreasing-append_one n [] r low h below = (low, tt)
IsIncreasing-append_one n (q ∷ rs) r low h below =
    (h.0, IsIncreasing-append_one q.seq rs r below.0 h.1 below.1)

-- The record of an emission that takes the number `n`.
abbrev pub record_at : ℕ → List Patch → Option Cause → ReplayRecord
record_at n ps cause = record { seq = n; patches = ps; cause = cause }

pub history-publish :
    (s : Scene) (ps : List Patch) (cause : Option Cause)
    → s.seq + 1 < u64_mod
    → history (publish ps cause (record s { store = apply (map pair_of ps) s.store }))
      ≡ history s ++ record_at (s.seq + 1) ps cause ∷ []
unfolding publish advance_seq
history-publish s ps cause small =
    let e : (s.seq + 1) % u64_mod ≡ s.seq + 1 = omega arith in
    map-append_one record_of s.sent _ ∙ rw e

last_value-history :
    (path : Text) (rs : List ReplayRecord) (ps : List Patch) (r : ReplayRecord) (d : Option Value)
    → r.patches ≡ ps
    → last_value path (pairs_of (rs ++ r ∷ [])) d
      ≡ last_value path (map pair_of ps) (last_value path (pairs_of rs) d)
last_value-history path rs ps r d e =
    ap (λ kvs. last_value path kvs d) (pairs_of-append rs (r ∷ []) ∙ rw (append-nil, e))
    ∙ last_value-append path (pairs_of rs) (map pair_of ps) d

publish-IsCoherent :
    (base : State) (s : Scene) (ps : List Patch) (cause : Option Cause)
    → s.seq + 1 < u64_mod
    → IsCoherent base s
    → IsCoherent base (publish ps cause (record s { store = apply (map pair_of ps) s.store }))
unfolding publish advance_seq
publish-IsCoherent base s ps cause small c =
    let e : (s.seq + 1) % u64_mod ≡ s.seq + 1 = omega arith in
    let h = history-publish s ps cause small in
    record {
      unique = apply-IsValid (map pair_of ps) s.store c.unique;
      room = rw (push-cap (record_at ((s.seq + 1) % u64_mod) ps cause) s.replay) c.room;
      held =
          rw (h, e)
            (push-Holds (history s) (record_at (s.seq + 1) ps cause) s.replay c.room c.held);
      grows = rw h (
          IsIncreasing-append_one 1 (history s) (record_at (s.seq + 1) ps cause)
            (omega (arith, c.reached.0)) c.grows
            (All-mono _ _ (λ r le. omega (arith, le)) (history s) c.reached.1));
      reached =
          rw (h, e)
            (
              omega (arith, c.reached.0),
              All-append _ (history s) (record_at (s.seq + 1) ps cause ∷ [])
                  (All-mono _ _ (λ r le. omega (arith, le)) (history s) c.reached.1)
                  (omega arith, tt),
            );
      mirrored = λ path.
          lookup-apply (map pair_of ps) s.store path
          ∙ ap (last_value path (map pair_of ps)) (c.mirrored path)
          ∙ sym (
              last_value-history path (history s) ps (record_at (s.seq + 1) ps cause)
                (lookup path base) refl)
          ∙ ap (λ rs. last_value path (pairs_of rs) (lookup path base)) (sym h);
    }

advance-IsCoherent :
    (base : State) (s : Scene)
    → s.seq + 1 < u64_mod
    → IsCoherent base s
    → IsCoherent base (advance_seq s).0
unfolding advance_seq
advance-IsCoherent base s small c =
    let e : (s.seq + 1) % u64_mod ≡ s.seq + 1 = omega arith in
    record {
      unique = c.unique;
      room = c.room;
      held = c.held;
      grows = c.grows;
      reached = rw e (
        omega (arith, c.reached.0),
        All-mono _ _ (λ r le. omega (arith, le)) (history s) c.reached.1,
      );
      mirrored = c.mirrored;
    }

emit-IsCoherent :
    (base : State) (pairs : List (Text × Value)) (cause : Option Cause) (s : Scene)
    → s.seq + 1 < u64_mod
    → IsCoherent base s
    → IsCoherent base (emit_with_cause pairs cause s).0
emit-IsCoherent base pairs cause s small c =
    emit_checked_cases (IsCoherent base) pairs cause s c
      (λ ps. publish-IsCoherent base s ps cause small c)

same_history :
    (base : State) (s s' : Scene)
    → IsCoherent base s
    → s'.store ≡ s.store
    → s'.sent ≡ s.sent
    → s'.seq ≡ s.seq
    → s'.replay ≡ s.replay
    → IsCoherent base s'
same_history base s s' c store_ sent_ seq_ replay_ = record {
  unique = rw store_ c.unique;
  room = rw replay_ c.room;
  held = rw (replay_, sent_) c.held;
  grows = rw sent_ c.grows;
  reached = rw (seq_, sent_) c.reached;
  mirrored = rw (store_, sent_) c.mirrored;
}

-- A call on a scene keeps it coherent, as long as the numbers do not wrap.
pub perform-IsCoherent :
    (base : State) (o : Op) (s : Scene)
    → s.seq + 1 < u64_mod
    → IsCoherent base s
    → IsCoherent base (perform o s)
unfolding perform emit with_operator_inputs with_declared_inputs
perform-IsCoherent base (sets path value) s small c =
    subst (λ r. IsCoherent base r.0) (sym (set-emit path value s))
      (emit-IsCoherent base ((path, value) ∷ []) none s small c)
perform-IsCoherent base (emits pairs cause) s small c = emit-IsCoherent base pairs cause s small c
perform-IsCoherent base advances s small c = advance-IsCoherent base s small c
perform-IsCoherent base (attaches bytes) s small c = same_history base s _ c refl refl refl refl
perform-IsCoherent base (rejects code message) s small c =
    same_history base s _ c refl refl refl refl
perform-IsCoherent base (declares specs) s small c = same_history base s _ c refl refl refl refl
perform-IsCoherent base (declares_paths paths) s small c =
    same_history base s _ c refl refl refl refl
