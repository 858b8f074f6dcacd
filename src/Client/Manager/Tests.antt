-- ===== src/Client/Manager/Tests.antt =====
-- The client's manager at work (manager.rs).
use lumencast_rs.Prelude.{
  ℕ, ◌+◌, ◌≤◌, ◌≡◌, refl, true, List, [], ◌∷◌, ◌++◌, none, some, codes, replicate, ok, err, arith,
}
use lumencast_rs.Protocol.Errors.{rate_limit, plain}
use lumencast_rs.Protocol.Frames.{Snapshot, Delta, ErrorFrame, ServerFrame, pong}
use lumencast_rs.Protocol.Sequence.Laws.{count_up}
use lumencast_rs.Client.Connection.{closed}
use lumencast_rs.Client.Manager.{
  Event, status, connecting, is_live, elapsed, other_command, Attempt, connected, exhausted,
  ManagerState, handle_frame, connect_with_retry,
}
use lumencast_rs.Client.Manager.Tracking.{handle_all, going, error_numbered}
use lumencast_rs.Client.Manager.Contiguous.{numbers, handle_all-contiguous}
use lumencast_rs.Client.Manager.Retry.{connect_with_retry-succeeds, connect_with_retry-exhausts}

abbrev a_delta : ℕ → Delta
a_delta n = record { seq = n; patches = []; ts = none; cause = none }

abbrev an_error : ℕ → ErrorFrame
an_error n = record {
  seq = n;
  code = rate_limit;
  message = plain "input rate limit exceeded";
  recoverable = true;
  retry_after_ms = none;
  path = none;
  ts = none;
}

-- A replay, a heartbeat, a delta in order, a delta too far ahead, and one after the gap.
abbrev frames : List ServerFrame
frames =
    ServerFrame.delta (a_delta 5)
    ∷ pong (record { nonce = none })
    ∷ ServerFrame.delta (a_delta 6)
    ∷ ServerFrame.delta (a_delta 9)
    ∷ ServerFrame.delta (a_delta 7)
    ∷ []

handle_all-contiguous_example :
    (count : ℕ) × (numbers (handle_all frames (going 5 [])).events ≡ count_up 6 count)
    × ((handle_all frames (going 5 [])).tracker.last ≡ 5 + count)
handle_all-contiguous_example =
    handle_all-contiguous 5 frames (omega arith) (omega arith)
      (refl, (refl, (refl, (refl, (refl, tt)))))

error_numbered_example :
    ((6 ≤ 5) → handle_frame (ServerFrame.error (an_error 6)) (record { last = 5 }) [] ≡ going 5 [])
    × ((6 ≡ 5 + 1)
        → handle_all
            (ServerFrame.error (an_error 6) ∷ ServerFrame.delta (a_delta 6) ∷ [])
            (going 5 [])
          ≡ going 6 (Event.error (an_error 6) ∷ []))
error_numbered_example =
    error_numbered 5 (an_error 6) (a_delta 6) [] (omega arith) (omega arith) refl

abbrev a_snapshot : Snapshot
a_snapshot = record {
  seq = 1;
  scene_id = codes "studio";
  scene_version = codes "v";
  state = [];
  ts = none;
}

abbrev failure : Attempt
failure = record { opened = err closed; wait = elapsed }

abbrev interrupted : Attempt
interrupted = record { opened = err closed; wait = other_command }

abbrev success : Attempt
success = record { opened = ok a_snapshot; wait = elapsed }

abbrev three_tries : ManagerState
three_tries = record {
  token = codes "t";
  scene = none;
  session = none;
  max_reconnect_attempts = some 3;
}

connect_with_retry-succeeds_example :
    connect_with_retry (λ b. b) three_tries ((failure ∷ interrupted ∷ []) ++ success ∷ []) ≡ (
      replicate 3 (status connecting) ++ status is_live ∷ Event.snapshot a_snapshot ∷ [],
      connected a_snapshot,
    )
connect_with_retry-succeeds_example =
    connect_with_retry-succeeds (λ b. b) three_tries (failure ∷ interrupted ∷ []) [] success
      a_snapshot (omega arith) (omega arith) (((closed, refl), refl), (((closed, refl), refl), tt))
      refl

connect_with_retry-exhausts_example :
    connect_with_retry (λ b. b) three_tries (failure ∷ failure ∷ interrupted ∷ failure ∷ [])
    ≡ (replicate 3 (status connecting), exhausted)
connect_with_retry-exhausts_example =
    connect_with_retry-exhausts (λ b. b) three_tries 3
      (failure ∷ failure ∷ interrupted ∷ failure ∷ []) refl (omega arith) (omega arith)
      (omega arith)
      (
        ((closed, refl), refl),
        (((closed, refl), refl), (((closed, refl), refl), (((closed, refl), refl), tt))),
      )
