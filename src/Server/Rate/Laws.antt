-- ===== src/Server/Rate/Laws.antt =====
-- How many inputs the bucket lets through (`RateBucket` of ws_handler.rs).
use lumencast_rs.Prelude.{
  ℕ, zero, suc, ◌+◌, ◌-◌, ◌≤◌, ◌<◌, ◌≡◌, ap, ◌∙◌, Bool, true, false, List, [], ◌∷◌, ◌++◌, All,
  length, replicate, length-replicate, All-replicate, min, dec_lt, arith,
}
use lumencast_rs.Server.Rate.{second, RateBucket, new_bucket, allow}

abbrev one_if : Bool → ℕ
one_if true = 1
one_if false = 0

-- How many of the calls at these instants are allowed, and the bucket after them.
unfoldable pub count_allowed : List ℕ → RateBucket → ℕ
count_allowed [] r = 0
count_allowed (now ∷ later) r = let (r', yes_) = allow now r in one_if yes_ + count_allowed later r'

unfoldable pub allow_all : List ℕ → RateBucket → RateBucket
allow_all [] r = r
allow_all (now ∷ later) r = allow_all later (allow now r).0

allow_within :
    (now : ℕ) (r : RateBucket)
    → 0 < r.limit
    → now < r.window_start + second
    → r.used < r.limit
    → allow now r ≡ (record r { used = r.used + 1 }, true)
unfolding allow
allow_within now r pos h room = ground arith

allow_exhausted :
    (now : ℕ) (r : RateBucket)
    → 0 < r.limit
    → now < r.window_start + second
    → r.limit ≤ r.used
    → allow now r ≡ (r, false)
unfolding allow
allow_exhausted now r pos h over = ground arith

-- A call after the window is over opens a new window and is allowed.
pub allow_rolled :
    (now : ℕ) (r : RateBucket)
    → 0 < r.limit
    → r.window_start + second ≤ now
    → allow now r ≡ (record { limit = r.limit; used = 1; window_start = now }, true)
unfolding allow
allow_rolled now r pos h = ground arith

-- In a window of a bucket with a limit that is not exceeded, as many inputs pass as arrive, up to
-- what the limit leaves.
pub count_allowed-window :
    (times : List ℕ) (r : RateBucket)
    → 0 < r.limit
    → r.used ≤ r.limit
    → All (λ t. t < r.window_start + second) times
    → count_allowed times r ≡ min (length times) (r.limit - r.used)
unfolding count_allowed
count_allowed-window [] r pos fits h = omega arith
count_allowed-window (now ∷ later) r pos fits h = elim (dec_lt r.used r.limit) [
  | yes room ↦ rw (allow_within now r pos h.0 room) (
      omega
        (arith, count_allowed-window later (record r { used = r.used + 1 }) pos (omega arith) h.1))
  | no over ↦
      rw (allow_exhausted now r pos h.0 (omega arith))
        (omega (arith, count_allowed-window later r pos fits h.1))
]

allow_all-within :
    (k now : ℕ) (r : RateBucket)
    → 0 < r.limit
    → now < r.window_start + second
    → r.used + k ≤ r.limit
    → allow_all (replicate k now) r ≡ record r { used = r.used + k }
unfolding allow_all
allow_all-within zero now r pos h fits = ground arith
allow_all-within (suc k) now r pos h fits =
    ap (λ (q : RateBucket × Bool). allow_all (replicate k now) q.0)
      (allow_within now r pos h (omega arith))
    ∙ allow_all-within k now (record r { used = r.used + 1 }) pos h (omega arith)
    ∙ ap (λ u. record r { used = u }) (omega arith)

count_allowed-append :
    (xs ys : List ℕ) (r : RateBucket)
    → count_allowed (xs ++ ys) r ≡ count_allowed xs r + count_allowed ys (allow_all xs r)
unfolding count_allowed allow_all
count_allowed-append [] ys r = omega arith
count_allowed-append (x ∷ xs) ys r = omega (arith, count_allowed-append xs ys (allow x r).0)

later_half :
    (k start : ℕ)
    → count_allowed
        (replicate (suc k) (start + second))
        (record { limit = suc k; used = suc k; window_start = start })
      ≡ suc k
unfolding count_allowed
later_half k start =
    rw
      (allow_rolled (start + second) (record { limit = suc k; used = suc k; window_start = start })
        (omega arith) (omega arith))
      (omega (
        arith,
        count_allowed-window (replicate k (start + second))
            (record { limit = suc k; used = 1; window_start = start + second }) (omega arith)
            (omega arith) (All-replicate _ k _ (omega arith)),
        length-replicate k (start + second),
      ))

-- Across the end of a window twice the limit passes within a nanosecond, if there is a limit: the
-- bucket counts fixed windows.
pub count_allowed_double :
    (limit start : ℕ)
    → 0 < limit
    → count_allowed
        (replicate limit (start + second - 1) ++ replicate limit (start + second))
        (new_bucket limit start)
      ≡ limit + limit
count_allowed_double zero start pos = elim pos [ ]
count_allowed_double (suc k) start pos =
    let bucket = new_bucket (suc k) start in
    let before = replicate (suc k) (start + second - 1) in
    let first : count_allowed before bucket ≡ suc k =
      count_allowed-window before bucket pos (omega arith) (All-replicate _ (suc k) _ (omega arith))
      ∙ omega (arith, length-replicate (suc k) (start + second - 1)) in
    let after : allow_all before bucket ≡ record bucket { used = suc k } =
      allow_all-within (suc k) _ bucket pos (omega arith) (omega arith)
      ∙ ap (λ u. record bucket { used = u }) (omega arith) in
    count_allowed-append before (replicate (suc k) (start + second)) bucket
    ∙ omega (
      arith,
      first,
      ap (count_allowed (replicate (suc k) (start + second))) after,
      later_half k start,
    )
