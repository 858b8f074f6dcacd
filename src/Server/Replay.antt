-- ===== src/Server/Replay.antt =====
-- crates/lumencast-server/src/replay_buffer.rs
pub mod Laws
mod Tests
use lumencast_rs.Prelude.{
  ℕ, Bool, true, false, List, [], ◌∷◌, ◌++◌, Option, none, some, length, keep, ltb, ◌==◌,
  if◌then◌else◌,
}
use lumencast_rs.Protocol.Types.{Patch, Cause}
use lumencast_rs.Protocol.Sequence.{add_u64}

abbrev pub default_replay_buffer_size : ℕ
default_replay_buffer_size = 256

pub record ReplayRecord : Type 0 where
  pub seq : ℕ
  pub patches : List Patch
  pub cause : Option Cause

pub record ReplaySlice : Type 0 where
  pub records : List ReplayRecord
  pub covered : Bool

pub record ReplayBuffer : Type 0 where
  pub cap : ℕ
  pub records : List ReplayRecord

unfoldable pub new_buffer : ℕ → ReplayBuffer
new_buffer capacity = record {
  cap = if capacity == 0 then default_replay_buffer_size else capacity;
  records = [];
}

-- `pop_front`
abbrev pub pop_front : List ReplayRecord → List ReplayRecord
pop_front [] = []
pop_front (r ∷ rs) = rs

unfoldable pub push : ReplayRecord → ReplayBuffer → ReplayBuffer
push record_ b = record b {
  records = (if length b.records == b.cap then pop_front b.records else b.records) ++ record_ ∷ [];
}

abbrev pub since_records : ℕ → List ReplayRecord → ReplaySlice
since_records since_seq [] = record { records = []; covered = true }
since_records since_seq (r ∷ rs) =
    if ltb (add_u64 since_seq 1) r.seq
    then record { records = []; covered = false }
    else record { records = keep (λ q. ltb since_seq q.seq) (r ∷ rs); covered = true }

unfoldable pub since : ℕ → ReplayBuffer → ReplaySlice
since since_seq b = since_records since_seq b.records
