-- ===== src/Client/Manager/Retry.antt =====
-- How often the client's manager tries to connect (`connect_with_retry` of manager.rs).
use lumencast_rs.Prelude.{
  ℕ, suc, ◌+◌, ◌-◌, ◌^◌, ◌≤◌, ◌<◌, ◌≡◌, refl, sym, ap, ◌∙◌, false, List, [], ◌∷◌, ◌++◌, Option,
  none, some, All, length, replicate, leb, Bool-cases, inl, inr, ok, err, arith,
}
use lumencast_rs.Protocol.Frames.{Snapshot}
use lumencast_rs.Client.Connection.{ConnectError}
use lumencast_rs.Client.Manager.{
  Event, status, connecting, is_live, is_cancelled, Attempt, ConnectOutcome, connected, exhausted,
  ManagerState, add_u32, announce, after_open, connect_from, connect_with_retry,
}

-- An attempt that fails, and whose wait no command to stop ends.
abbrev IsFailure : Attempt → Type 0
IsFailure a = ((e : ConnectError) × (a.opened ≡ err e)) × (is_cancelled a.wait ≡ false)

-- The limit, if there is one, lets the attempt `n` be made.
abbrev IsAllowed : Option ℕ → ℕ → Type 0
IsAllowed none n = Unit
IsAllowed (some max) n = n ≤ max

module _ (jitter : ℕ → ℕ) where
  failure-goes_on :
      (max : Option ℕ) (attempt : ℕ) (a : Attempt) (rest : List Event × ConnectOutcome)
      → IsFailure a
      → IsAllowed max (attempt + 1)
      → after_open jitter max attempt a.wait rest a.opened ≡ rest
  failure-goes_on none attempt a rest ((e, failed), quiet) may = rw (failed, quiet) (ground arith)
  failure-goes_on (some max) attempt a rest ((e, failed), quiet) may =
      rw (failed, quiet) (ground arith)

  failure-stops :
      (max : ℕ) (a : Attempt) (rest : List Event × ConnectOutcome)
      → IsFailure a
      → after_open jitter (some max) max a.wait rest a.opened ≡ ([], exhausted)
  failure-stops max a rest ((e, failed), quiet) = rw failed (ground arith)

  IsAllowed-below : (max : Option ℕ) (n k : ℕ) → k ≤ n → IsAllowed max n → IsAllowed max k
  IsAllowed-below none n k le may = tt
  IsAllowed-below (some max) n k le may = omega (arith, le, may)

  connect_from-succeeds :
      (max : Option ℕ) (attempt : ℕ) (fails rest : List Attempt) (last : Attempt) (s : Snapshot)
      → attempt + length fails < 2 ^ 32
      → IsAllowed max (attempt + length fails)
      → All IsFailure fails
      → last.opened ≡ ok s
      → connect_from jitter max attempt (fails ++ last ∷ rest) ≡ (
        replicate (length fails + 1) (status connecting) ++ status is_live ∷ Event.snapshot s ∷ [],
        connected s,
      )
  unfolding connect_from
  connect_from-succeeds max attempt [] rest last s small may fails_ won = rw won refl
  connect_from-succeeds max attempt (a ∷ fails) rest last s small may (fail, fails_) won =
      let next : add_u32 attempt 1 ≡ attempt + 1 = omega arith in
      let e : suc (length fails) + 1 ≡ suc (length fails + 1) = omega arith in
      ap (announce (status connecting)) (
        failure-goes_on max attempt a _ fail (IsAllowed-below max _ _ (omega arith) may)
        ∙ ap (λ n. connect_from jitter max n (fails ++ last ∷ rest)) next
        ∙ connect_from-succeeds max (attempt + 1) fails rest last s (omega arith)
            (IsAllowed-below max _ _ (omega arith) may) fails_ won)
      ∙ ap
          (λ n. (
            replicate n (status connecting) ++ status is_live ∷ Event.snapshot s ∷ [],
            connected s,
          ))
          (sym e)

  connect_from-exhausts :
      (max attempt : ℕ) (fails : List Attempt)
      → max < 2 ^ 32
      → attempt ≤ max
      → max < attempt + length fails
      → All IsFailure fails
      → connect_from jitter (some max) attempt fails
        ≡ (replicate (max - attempt + 1) (status connecting), exhausted)
  unfolding connect_from
  connect_from-exhausts max attempt [] small le enough fails_ = absurd (omega arith)
  connect_from-exhausts max attempt (a ∷ fails) small le enough (fail, fails_) =
      elim (Bool-cases (leb max attempt)) [
        | inl last ↦
            let e : attempt ≡ max = ground arith in
            let one : 1 ≡ max - attempt + 1 = omega (arith, e) in
            ap (announce (status connecting)) (
              ap
                (λ n.
                  after_open jitter (some max) n a.wait
                    (connect_from jitter (some max) (add_u32 attempt 1) fails) a.opened)
                e
              ∙ failure-stops max a _ fail)
            ∙ ap (λ n. (replicate n (status connecting), exhausted)) one
        | inr more ↦
            let lt : attempt < max = ground arith in
            let next : add_u32 attempt 1 ≡ attempt + 1 = omega arith in
            let e : suc (max - (attempt + 1) + 1) ≡ max - attempt + 1 = omega arith in
            ap (announce (status connecting)) (
              failure-goes_on (some max) attempt a _ fail (omega arith)
              ∙ ap (λ n. connect_from jitter (some max) n fails) next
              ∙ connect_from-exhausts max (attempt + 1) fails small (omega arith) (omega arith)
                  fails_)
            ∙ ap (λ n. (replicate n (status connecting), exhausted)) e
      ]

  module _ (state : ManagerState) where
    -- If the first attempts fail, uninterrupted, and the limit (if there is one) lets the next be
    -- made, the manager makes it: when it succeeds, the client has announced each attempt, and is
    -- live with the snapshot. Fewer than 2^32 attempts are made.
    pub connect_with_retry-succeeds :
        (fails rest : List Attempt) (last : Attempt) (s : Snapshot)
        → 1 + length fails < 2 ^ 32
        → IsAllowed state.max_reconnect_attempts (1 + length fails)
        → All IsFailure fails
        → last.opened ≡ ok s
        → connect_with_retry jitter state (fails ++ last ∷ rest) ≡ (
          replicate (length fails + 1) (status connecting)
              ++ status is_live ∷ Event.snapshot s ∷ [],
          connected s,
        )
    unfolding connect_with_retry
    connect_with_retry-succeeds fails rest last s small may fails_ won =
        connect_from-succeeds state.max_reconnect_attempts 1 fails rest last s small may fails_ won

    -- With a limit of `max` attempts, at least one and below 2^32, the manager makes exactly that
    -- many when all fail and no command to stop interrupts it, and then gives up.
    pub connect_with_retry-exhausts :
        (max : ℕ) (fails : List Attempt)
        → state.max_reconnect_attempts ≡ some max
        → 1 ≤ max
        → max < 2 ^ 32
        → max ≤ length fails
        → All IsFailure fails
        → connect_with_retry jitter state fails ≡ (replicate max (status connecting), exhausted)
    unfolding connect_with_retry
    connect_with_retry-exhausts max fails limit pos small enough fails_ =
        let e : max - 1 + 1 ≡ max = omega arith in
        ap (λ m. connect_from jitter m 1 fails) limit
        ∙ connect_from-exhausts max 1 fails small pos (omega arith) fails_
        ∙ ap (λ n. (replicate n (status connecting), exhausted)) e
