-- ===== src/Server/Replay/Laws.antt =====
-- The replay buffer against the whole history of a scene's emissions (replay_buffer.rs).
use lumencast_rs.Prelude.{
  ℕ, ◌+◌, ◌≤◌, ◌<◌, ◌≡◌, refl, sym, ap, ◌∙◌, ◌⊎◌, inl, inr, true, false, List, [], ◌∷◌, ◌++◌,
  append-nil, append_laws, append_assoc, length, length-append, keep, All, ltb, ◌==◌, Bool-cases,
  arith,
}
use lumencast_rs.Protocol.Sequence.{u64_mod, add_u64}
use lumencast_rs.Server.Replay.{ReplayRecord, ReplayBuffer, new_buffer, push, since_records, since}

-- Numbers that grow, all above `n`. A scene change takes a number without a record.
abbrev pub IsIncreasing : ℕ → List ReplayRecord → Type 0
IsIncreasing n [] = Unit
IsIncreasing n (r ∷ rs) = (n < r.seq) × IsIncreasing r.seq rs

-- Numbers one after the other, the first after `n`.
abbrev pub IsRun : ℕ → List ReplayRecord → Type 0
IsRun n [] = Unit
IsRun n (r ∷ rs) = (r.seq ≡ n + 1) × IsRun (n + 1) rs

unfoldable pub push_all : List ReplayRecord → ReplayBuffer → ReplayBuffer
push_all [] b = b
push_all (r ∷ rs) b = push_all rs (push r b)

-- The buffer holds the end of the history, and as much of it as it may.
pub record Holds (log : List ReplayRecord) (b : ReplayBuffer) : Type 0 where
  pub dropped : List ReplayRecord
  pub end : log ≡ dropped ++ b.records
  pub bounded : length b.records ≤ b.cap
  pub full : (dropped ≡ []) ⊎ (length b.records ≡ b.cap)

pub push-cap : (r : ReplayRecord) (b : ReplayBuffer) → (push r b).cap ≡ b.cap
unfolding push
push-cap r b = refl

push_full :
    (log dropped rs : List ReplayRecord) (q r : ReplayRecord)
    → log ≡ dropped ++ q ∷ rs
    → log ++ r ∷ [] ≡ (dropped ++ q ∷ []) ++ (rs ++ r ∷ [])
push_full log dropped rs q r e = rw e (simp append_laws)

push_room :
    (log : List ReplayRecord) (r : ReplayRecord) (b : ReplayBuffer)
    → (length b.records == b.cap) ≡ false
    → Holds log b
    → Holds (log ++ r ∷ []) (push r b)
unfolding push
push_room log r b room h = record {
  dropped = h.dropped;
  end = rw room (ap (λ l. l ++ r ∷ []) h.end ∙ append_assoc h.dropped b.records (r ∷ []));
  bounded = ground (arith, length-append b.records (r ∷ []));
  full = ground arith;
}

push_over :
    (log : List ReplayRecord) (r : ReplayRecord) (cap : ℕ) (rs : List ReplayRecord)
    → 0 < cap
    → (length rs == cap) ≡ true
    → Holds log (record { cap = cap; records = rs })
    → Holds (log ++ r ∷ []) (push r (record { cap = cap; records = rs }))
unfolding push
push_over log r cap [] pos full h = absurd (ground arith)
push_over log r cap (q ∷ rs) pos full h = record {
  dropped = h.dropped ++ q ∷ [];
  end = rw full (push_full log h.dropped rs q r h.end);
  bounded = ground (arith, length-append rs (r ∷ []));
  full = inr (ground (arith, length-append rs (r ∷ [])));
}

pub push-Holds :
    (log : List ReplayRecord) (r : ReplayRecord) (b : ReplayBuffer)
    → 0 < b.cap
    → Holds log b
    → Holds (log ++ r ∷ []) (push r b)
push-Holds log r b pos h = elim (Bool-cases (length b.records == b.cap)) [
  | inl full ↦ push_over log r b.cap b.records pos full h
  | inr room ↦ push_room log r b room h
]

-- Whatever is pushed to a buffer with room that holds the end of a history, it holds the end of the
-- longer history and never more than its capacity, and it drops a record only to stay full.
pub push_all-Holds :
    (log rs : List ReplayRecord) (b : ReplayBuffer)
    → 0 < b.cap
    → Holds log b
    → Holds (log ++ rs) (push_all rs b)
unfolding push_all
push_all-Holds log [] b pos h = rw append-nil h
push_all-Holds log (r ∷ rs) b pos h = rw (← append_assoc log (r ∷ []) rs) (
    push_all-Holds (log ++ r ∷ []) rs (push r b) (rw (push-cap r b) pos) (push-Holds log r b pos h))

pub new_buffer-cap_pos : (n : ℕ) → 0 < (new_buffer n).cap
unfolding new_buffer
new_buffer-cap_pos n = ground arith

pub new_buffer-Holds : (n : ℕ) → Holds [] (new_buffer n)
unfolding new_buffer
new_buffer-Holds n = record { dropped = []; end = refl; bounded = ground arith; full = inl refl }

below_later :
    (n : ℕ) (xs rs : List ReplayRecord) (r : ReplayRecord)
    → IsIncreasing n (xs ++ r ∷ rs)
    → n < r.seq
below_later n [] rs r h = h.0
below_later n (x ∷ xs) rs r h = omega (arith, h.0, below_later x.seq xs rs r h.1)

all_below_later :
    (n : ℕ) (xs rs : List ReplayRecord) (r : ReplayRecord)
    → IsIncreasing n (xs ++ r ∷ rs)
    → All (λ q. q.seq < r.seq) xs
all_below_later n [] rs r h = tt
all_below_later n (x ∷ xs) rs r h =
    (below_later x.seq xs rs r h.1, all_below_later x.seq xs rs r h.1)

keep_old :
    (s n : ℕ) (xs ys : List ReplayRecord)
    → All (λ r. r.seq < n) xs
    → n ≤ s + 1
    → keep (λ r. ltb s r.seq) (xs ++ ys) ≡ keep (λ r. ltb s r.seq) ys
keep_old s n [] ys h le = refl
keep_old s n (x ∷ xs) ys h le = ground (arith, h.0, keep_old s n xs ys h.1 le)

-- What `since` answers, with the dropped records at hand.
since_records_complete :
    (s n : ℕ) (dropped rs : List ReplayRecord) (cap : ℕ)
    → s + 1 < u64_mod
    → IsIncreasing n (dropped ++ rs)
    → (dropped ≡ []) ⊎ (length rs ≡ cap)
    → 0 < cap
    → (since_records s rs).covered ≡ true
    → (since_records s rs).records ≡ keep (λ r. ltb s r.seq) (dropped ++ rs)
since_records_complete s n dropped [] cap small run (inl none_dropped) pos c = rw none_dropped
since_records_complete s n dropped [] cap small run (inr full) pos c = absurd (omega arith)
since_records_complete s n dropped (r ∷ rs) cap small run full pos c =
    elim (Bool-cases (ltb (add_u64 s 1) r.seq)) [
      | inl gone ↦ absurd (ground arith)
      | inr held ↦ rw held (
          sym
            (keep_old s r.seq dropped (r ∷ rs) (all_below_later n dropped rs r run) (ground arith)))
    ]

-- When the buffer says that it covers a resume point, it returns every emission of the whole
-- history after that point, in order and with none missing, provided that the buffer has room,
-- holds the end of the history, the history's numbers grow, and the point is below 2^64 - 1.
pub since_complete :
    (s n : ℕ) (log : List ReplayRecord) (b : ReplayBuffer)
    → s + 1 < u64_mod
    → 0 < b.cap
    → IsIncreasing n log
    → Holds log b
    → (since s b).covered ≡ true
    → (since s b).records ≡ keep (λ r. ltb s r.seq) log
unfolding since
since_complete s n log b small pos run h c =
    rw h.end
      (since_records_complete s n h.dropped b.records b.cap small (rw h.end at run) h.full pos c)

-- Where the first record after `dropped` stands in a history without holes.
first_of_run :
    (n : ℕ) (xs rs : List ReplayRecord) (r : ReplayRecord)
    → IsRun n (xs ++ r ∷ rs)
    → r.seq ≡ n + length xs + 1
first_of_run n [] rs r h = omega (arith, h.0)
first_of_run n (x ∷ xs) rs r h = omega (arith, first_of_run (n + 1) xs rs r h.1)

since_records-covered :
    (s n : ℕ) (dropped rs : List ReplayRecord) (cap : ℕ)
    → s + 1 < u64_mod
    → IsRun n (dropped ++ rs)
    → (dropped ≡ []) ⊎ (length rs ≡ cap)
    → n ≤ s
    → n + (length dropped + length rs) ≤ s + cap
    → (since_records s rs).covered ≡ true
since_records-covered s n dropped [] cap small run full low near = refl
since_records-covered s n dropped (r ∷ rs) cap small run (inl e) low near =
    let first = first_of_run n dropped rs r run in
    let none_dropped : length dropped ≡ 0 = ap length e in ground arith
since_records-covered s n dropped (r ∷ rs) cap small run (inr full) low near =
    let first = first_of_run n dropped rs r run in ground arith

-- A resume point `s` is always covered if at most as many emissions follow it as the buffer may
-- hold: the history has no hole in its numbers and starts after number `n`, the buffer holds its
-- end, and `s` is at least `n` and below 2^64 - 1.
pub since-covered :
    (s n : ℕ) (log : List ReplayRecord) (b : ReplayBuffer)
    → s + 1 < u64_mod
    → IsRun n log
    → Holds log b
    → n ≤ s
    → n + length log ≤ s + b.cap
    → (since s b).covered ≡ true
unfolding since
since-covered s n log b small run h low near =
    since_records-covered s n h.dropped b.records b.cap small (rw h.end at run) h.full low
      (omega (arith, ap length h.end, length-append h.dropped b.records))
