-- ===== src/Protocol/Sequence/Tests.antt =====
-- Allocators and trackers at work (sequence.rs).
use lumencast_rs.Prelude.{◌≡◌, refl, [], ◌∷◌, some}
use lumencast_rs.Protocol.Sequence.{SequenceTracker, SequenceAllocator}
use lumencast_rs.Protocol.Sequence.Laws.{accept_all}

-- A replay of 5 and of 6 between the numbers 6 and 7.
replay-accept_all :
    accept_all (record { last = 5 }) (6 ∷ 5 ∷ 6 ∷ 7 ∷ []) ≡ some (record { last = 7 }, 6 ∷ 7 ∷ [])
unfolding accept_all lumencast_rs.Protocol.Sequence.observe_seq
replay-accept_all = refl
