-- ===== src/Protocol/Sequence/Laws.antt =====
-- What a stream of sequence numbers looks like behind the tracker (sequence.rs).
use lumencast_rs.Prelude.{
  ℕ, zero, suc, ◌+◌, ◌<◌, ◌≡◌, ◌==◌, leb, Bool-cases, refl, List, [], ◌∷◌, Option, none, some,
  length, Result, ok, err, arith, ◌⊎◌, inl, inr,
}
use lumencast_rs.Protocol.Errors.{LumencastError, sequence_gap}
use lumencast_rs.Protocol.Sequence.{
  u64_mod, add_u64, SequenceAllocator, next, SequenceTracker, Observation, accepted, duplicate,
  heartbeat, observe_seq,
}

-- `n`, `n + 1`, … , `k` numbers.
unfoldable pub count_up : ℕ → ℕ → List ℕ
count_up n zero = []
count_up n (suc k) = n ∷ count_up (n + 1) k

abbrev pub Outcome : Type 0
Outcome = Option (SequenceTracker × List ℕ)

abbrev keep_accepted : ℕ → Result LumencastError Observation → Outcome → Outcome
keep_accepted s (err e) rest = none
keep_accepted s (ok accepted) none = none
keep_accepted s (ok accepted) (some (t, xs)) = some (t, s ∷ xs)
keep_accepted s (ok duplicate) rest = rest
keep_accepted s (ok heartbeat) rest = rest

-- The numbers that a client accepts from a stream; `none` once a gap makes it reconnect.
unfoldable pub accept_all : SequenceTracker → List ℕ → Outcome
accept_all t [] = some (t, [])
accept_all t (s ∷ ss) = let (t', r) = observe_seq t s in keep_accepted s r (accept_all t' ss)

-- One step: the number is the next one, or is dropped, or ends the run.
pub observe_seq-step :
    (t : SequenceTracker) (s : ℕ)
    → 0 < t.last
    → t.last + 1 < u64_mod
    → ((s ≡ t.last + 1) × (observe_seq t s ≡ (record { last = s }, ok accepted)))
      ⊎ (observe_seq t s ≡ (t, ok duplicate))
      ⊎ ((e : LumencastError) × (observe_seq t s ≡ (t, err e)))
unfolding observe_seq
observe_seq-step t s h k = elim (Bool-cases (leb s t.last)) [
  | inl old ↦ inr (inl (ground arith))
  | inr new ↦ elim (Bool-cases (s == t.last + 1)) [
    | inl hit ↦ inl (ground arith, ground arith)
    | inr miss ↦ inr (inr (sequence_gap (t.last + 1) s, ground arith))
  ]
]

accepted_first :
    (t : SequenceTracker) (s : ℕ) (xs : List ℕ) (t' : SequenceTracker) (rest : Outcome)
    → s ≡ t.last + 1
    → ((ys : List ℕ) (u : SequenceTracker)
        → rest ≡ some (u, ys)
        → (ys ≡ count_up (s + 1) (length ys)) × (u.last ≡ s + length ys))
    → keep_accepted s (ok accepted) rest ≡ some (t', xs)
    → (xs ≡ count_up (t.last + 1) (length xs)) × (t'.last ≡ t.last + length xs)
unfolding count_up
accepted_first t s xs t' none here ih h = absurd (cc)
accepted_first t s xs t' (some (u, ys)) here ih h = ground (arith, ih ys u refl)

-- From a tracker that has seen a frame, the numbers that a client accepts, if no gap ends the run,
-- are the next ones in order, with none missing and none twice, and the tracker ends at the last of
-- them, as long as the numbers stay below 2^64.
pub accept_all_contiguous :
    (t : SequenceTracker) (ss xs : List ℕ) (t' : SequenceTracker)
    → 0 < t.last
    → t.last + length ss < u64_mod
    → accept_all t ss ≡ some (t', xs)
    → (xs ≡ count_up (t.last + 1) (length xs)) × (t'.last ≡ t.last + length xs)
unfolding accept_all count_up
accept_all_contiguous t [] xs t' pos small h = ground arith
accept_all_contiguous t (s ∷ ss) xs t' pos small h = elim (observe_seq-step t s pos (omega arith)) [
  | inl (here, e) ↦
      accepted_first t s xs t' (accept_all (record { last = s }) ss) here
        (λ ys u f.
          accept_all_contiguous (record { last = s }) ss ys u (omega arith) (omega arith) f)
        (rw e at h)
  | inr (inl e) ↦ accept_all_contiguous t ss xs t' pos (omega arith) (rw e at h)
  | inr (inr (_, e)) ↦ absurd (cc (rw e at h))
]

-- The allocator's numbers.
unfoldable pub allocate : ℕ → SequenceAllocator → List ℕ
unfolding next
allocate zero a = []
allocate (suc n) a = let (a', s) = next a in s ∷ allocate n a'

pub observe_seq-next :
    (last : ℕ)
    → last + 1 < u64_mod
    → observe_seq (record { last = last }) (last + 1) ≡ (record { last = last + 1 }, ok accepted)
unfolding observe_seq
observe_seq-next last h = ground arith

-- A tracker in step with an allocator that has given out a number accepts each of the next numbers
-- that it gives out, below 2^64.
accept_all-allocate :
    (n : ℕ) (a : SequenceAllocator)
    → 0 < a.last
    → a.last + n < u64_mod
    → accept_all (record { last = a.last }) (allocate n a)
      ≡ some (record { last = a.last + n }, allocate n a)
unfolding accept_all allocate next
accept_all-allocate zero a pos small = ground arith
accept_all-allocate (suc n) a pos small =
    let fits : add_u64 a.last 1 ≡ a.last + 1 = ground arith in
    rw (fits, observe_seq-next a.last (omega arith))
      (ground (arith, accept_all-allocate n (record { last = a.last + 1 })))
