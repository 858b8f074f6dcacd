-- ===== src/Protocol/Sequence.antt =====
-- crates/lumencast-protocol/src/sequence.rs. A `u64` counter wraps, as in a release build.
pub mod Laws
mod Tests
use lumencast_rs.Prelude.{
  ℕ, ◌+◌, ◌%◌, ◌^◌, Bool, Option, none, some, ltb, leb, ◌&&◌, not, ◌==◌, if◌then◌else◌, Result, ok,
  err,
}
use lumencast_rs.Protocol.Errors.{LumencastError, sequence_gap}
use lumencast_rs.Protocol.Frames.{ServerFrame, seq_of}

abbrev pub u64_mod : ℕ
u64_mod = 2 ^ 64

abbrev pub add_u64 : ℕ → ℕ → ℕ
add_u64 a b = (a + b) % u64_mod

pub record SequenceAllocator : Type 0 where
  pub last : ℕ

abbrev pub new_allocator : SequenceAllocator
new_allocator = record { last = 0 }

unfoldable pub next : SequenceAllocator → SequenceAllocator × ℕ
next a = (record { last = add_u64 a.last 1 }, add_u64 a.last 1)

unfoldable pub reset_allocator : SequenceAllocator → SequenceAllocator
reset_allocator a = record a { last = 0 }

pub record SequenceTracker : Type 0 where
  pub last : ℕ

pub data Observation : Type 0 where
  accepted duplicate heartbeat : Observation

abbrev pub new_tracker : SequenceTracker
new_tracker = record { last = 0 }

unfoldable pub observe_seq :
    SequenceTracker → ℕ → SequenceTracker × Result LumencastError Observation
observe_seq t seq =
    if t.last == 0 && ltb seq 1
    then (t, err (sequence_gap 1 seq))
    else if t.last == 0
    then (record { last = seq }, ok accepted)
    else if leb seq t.last
    then (t, ok duplicate)
    else if not (seq == add_u64 t.last 1)
    then (t, err (sequence_gap (add_u64 t.last 1) seq))
    else (record { last = seq }, ok accepted)

abbrev observe_seq? :
    SequenceTracker → Option ℕ → SequenceTracker × Result LumencastError Observation
observe_seq? t none = (t, ok heartbeat)
observe_seq? t (some seq) = observe_seq t seq

unfoldable pub observe :
    SequenceTracker → ServerFrame → SequenceTracker × Result LumencastError Observation
unfolding observe_seq
observe t frame = observe_seq? t (seq_of frame)

unfoldable pub observe_snapshot : SequenceTracker → ℕ → SequenceTracker
observe_snapshot t seq = if leb 1 seq then record { last = seq } else t

unfoldable pub reset_tracker : SequenceTracker → SequenceTracker
reset_tracker t = record { last = 0 }
