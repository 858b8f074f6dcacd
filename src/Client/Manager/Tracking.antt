-- ===== src/Client/Manager/Tracking.antt =====
-- Which frames the client's manager forwards as events (`handle_frame` of manager.rs).
use lumencast_rs.Prelude.{
  ℕ, suc, ◌+◌, ◌≤◌, ◌<◌, ◌≡◌, refl, sym, ap, ap₂, ◌∙◌, false, List, [], ◌∷◌, ◌++◌, append_assoc,
  append-nil, map, length, if◌then◌else◌, arith,
}
use lumencast_rs.Protocol.Frames.{Delta, ErrorFrame, ServerFrame}
use lumencast_rs.Protocol.Sequence.{u64_mod, observe_seq}
use lumencast_rs.Protocol.Sequence.Laws.{observe_seq-next}
use lumencast_rs.Client.Manager.{Event, Dispatch, handle_frame}

-- Frame after frame, until one asks for a reconnection, as `drive` does it.
unfoldable pub handle_all : List ServerFrame → Dispatch → Dispatch
unfolding handle_frame
handle_all [] d = d
handle_all (f ∷ fs) d =
    let rest = handle_all fs (handle_frame f d.tracker d.events) in if d.gap then d else rest

-- Deltas with the numbers after `n`.
abbrev IsNext : ℕ → List Delta → Type 0
IsNext n [] = Unit
IsNext n (d ∷ ds) = (d.seq ≡ n + 1) × IsNext (n + 1) ds

abbrev pub going : ℕ → List Event → Dispatch
going n es = record { tracker = record { last = n }; events = es; gap = false }

handle_delta :
    (n : ℕ) (d : Delta) (es : List Event)
    → n + 1 < u64_mod
    → d.seq ≡ n + 1
    → handle_frame (ServerFrame.delta d) (record { last = n }) es
      ≡ going (n + 1) (es ++ Event.delta d ∷ [])
unfolding handle_frame
handle_delta n d es small e = rw (e, observe_seq-next n small) refl

-- A client that has seen the number `n` forwards all deltas with the next numbers, in order, each
-- once, and asks for no reconnection, as long as the numbers stay below 2^64.
pub deltas_delivered :
    (n : ℕ) (ds : List Delta) (es : List Event)
    → n + length ds < u64_mod
    → IsNext n ds
    → handle_all (map ServerFrame.delta ds) (going n es)
      ≡ going (n + length ds) (es ++ map Event.delta ds)
unfolding handle_all
deltas_delivered n [] es small next =
    ap₂ going (let e : n ≡ n + 0 = omega arith in e) (sym (append-nil es))
deltas_delivered n (d ∷ ds) es small next =
    ap (handle_all (map ServerFrame.delta ds)) (handle_delta n d es (omega arith) next.0)
    ∙ deltas_delivered (n + 1) ds (es ++ Event.delta d ∷ []) (omega arith) next.1
    ∙ ap₂ going (let e : (n + 1) + length ds ≡ n + suc (length ds) = omega arith in e)
        (append_assoc es (Event.delta d ∷ []) (map Event.delta ds))

-- A client that has seen a number, below 2^64 - 1, drops an error frame with a number that is not
-- above it. It forwards an error frame with the next number, and then drops the delta with that
-- number, without asking for a reconnection.
pub error_numbered :
    (n : ℕ) (e : ErrorFrame) (d : Delta) (es : List Event)
    → 0 < n
    → n + 1 < u64_mod
    → d.seq ≡ e.seq
    → ((e.seq ≤ n) → handle_frame (ServerFrame.error e) (record { last = n }) es ≡ going n es)
      × ((e.seq ≡ n + 1)
          → handle_all (ServerFrame.error e ∷ ServerFrame.delta d ∷ []) (going n es)
            ≡ going (n + 1) (es ++ Event.error e ∷ []))
unfolding handle_all handle_frame observe_seq
error_numbered n e d es pos small same = (λ old. ground arith, λ next. ground arith)
