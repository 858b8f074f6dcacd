-- ===== src/Server/Replay/Tests.antt =====
-- The replay buffer at work (replay_buffer.rs).
use lumencast_rs.Prelude.{ℕ, ◌≡◌, refl, inr, false, List, [], ◌∷◌, none, keep, ltb, arith}
use lumencast_rs.Server.Replay.{ReplayRecord, ReplayBuffer, new_buffer, push, since}
use lumencast_rs.Server.Replay.Laws.{Holds, push_all, since_complete}

abbrev rec_ : ℕ → ReplayRecord
rec_ n = record { seq = n; patches = []; cause = none }

abbrev log : List ReplayRecord
log = rec_ 2 ∷ rec_ 3 ∷ rec_ 4 ∷ []

-- A buffer of two records after three pushes.
abbrev small : ReplayBuffer
small = record { cap = 2; records = rec_ 3 ∷ rec_ 4 ∷ [] }

small-push_all : push_all log (new_buffer 2) ≡ small
unfolding push_all push new_buffer
small-push_all = refl

small-Holds : Holds log small
small-Holds = record { dropped = rec_ 2 ∷ []; end = refl; bounded = omega arith; full = inr refl }

-- Number 1 is lost: 2 was dropped.
lost-since : (since 1 small).covered ≡ false
unfolding since
lost-since = refl

since_complete_example : (since 2 small).records ≡ keep (λ r. ltb 2 r.seq) log
unfolding since
since_complete_example =
    since_complete 2 1 log small (omega arith) (omega arith)
      (omega arith, (omega arith, (omega arith, tt))) small-Holds refl
