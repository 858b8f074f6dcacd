-- ===== src/Server/Input/Doubles.antt =====
-- What the comparison of doubles in `check_number` (input.rs) says of the numbers that they stand for.
use native.Mathlib.Nat.{
  mul-le-mul_left, mul-le-mul_right, mul-lt-mul_of_pos_right, pow-le-pow_right, one-le-pow,
}
use native.Mathlib.Omega.{pow_step}
use lumencast_rs.Prelude.{
  ℕ, zero, suc, ◌+◌, ◌*◌, ◌/◌, ◌%◌, ◌^◌, ◌≤◌, ◌<◌, ◌≡◌, refl, ◌↔◌, ◌⊎◌, inl, inr, if◌then◌else◌,
  ◌||◌, Bool, true, false, Bool-cases, ltb, leb, ◌==◌, ==_iff, arith,
}
use lumencast_rs.Server.Input.{is_nan, f64_sign, f64_magnitude, f64_lt_signed, f64_lt}

-- The size of a double by its exponent and its fraction, in units of the least positive one.
unfoldable pub scale : ℕ → ℕ → ℕ
scale zero frac = frac
scale (suc e) frac = (2 ^ 52 + frac) * 2 ^ e

unfoldable pub scaled : ℕ → ℕ
scaled m = scale (m / 2 ^ 52) (m % 2 ^ 52)

pow-pos : (e : ℕ) → 0 < 2 ^ e
pow-pos e = one-le-pow e 2 (omega arith)

scale_below : (e f : ℕ) → f < 2 ^ 52 → scale e f < 2 ^ 52 * 2 ^ e
unfolding scale
scale_below zero f h = omega arith
scale_below (suc e) f h =
    let less : 2 ^ 52 + f < 2 ^ 53 = omega arith in
    let more = mul-lt-mul_of_pos_right {k = 2 ^ e} less (pow-pos e) in
    omega (arith, pow_step 2 e, more)

scale_above : (e f : ℕ) → 2 ^ 52 * 2 ^ e ≤ scale (suc e) f
unfolding scale
scale_above e f = mul-le-mul_right (2 ^ e) (omega arith)

scale_less : (e d f g : ℕ) → f < 2 ^ 52 → e < d → scale e f < scale d g
scale_less e zero f g h less = absurd (omega arith)
scale_less e (suc d) f g h less =
    let wider : 2 ^ 52 * 2 ^ e ≤ 2 ^ 52 * 2 ^ d =
      mul-le-mul_left (2 ^ 52)
        (pow-le-pow_right {n = 2} (omega arith) {i = e} {j = d} (omega arith)) in
    omega (arith, scale_below e f h, wider, scale_above d g)

scale_same : (e f g : ℕ) → f < g → scale e f < scale e g
unfolding scale
scale_same zero f g h = h
scale_same (suc e) f g h = mul-lt-mul_of_pos_right {k = 2 ^ e} (omega arith) (pow-pos e)

-- The size grows with the bits.
scaled_less : (m n : ℕ) → m < n → scaled m < scaled n
unfolding scaled
scaled_less m n h = elim (order (m / 2 ^ 52) (n / 2 ^ 52)) [
  | inl less ↦ scale_less (m / 2 ^ 52) (n / 2 ^ 52) (m % 2 ^ 52) (n % 2 ^ 52) (omega arith) less
  | inr (inl same) ↦ rw same (scale_same (n / 2 ^ 52) (m % 2 ^ 52) (n % 2 ^ 52) (omega arith))
  | inr (inr more) ↦ absurd (omega arith)
]
  where
    order : (a b : ℕ) → (a < b) ⊎ ((a ≡ b) ⊎ (b < a))
    order a b = elim (Bool-cases (ltb a b)) [
      | inl less ↦ inl (ground arith)
      | inr not_less ↦ elim (Bool-cases (a == b)) [
        | inl same ↦ inr (inl ((==_iff a b).0 same))
        | inr other ↦ inr (inr (ground arith))
      ]
    ]

scaled_iff : (m n : ℕ) → (m ≤ n) ↔ (scaled m ≤ scaled n)
scaled_iff m n = elim (Bool-cases (ltb n m)) [
  | inl more ↦
      let less : n < m = ground arith in
      let smaller = scaled_less n m less in (λ h. absurd (omega arith), λ h. absurd (omega arith))
  | inr at_most ↦ elim (Bool-cases (m == n)) [
    | inl same ↦ rw ((==_iff m n).0 same) (λ h. omega arith, λ h. omega arith)
    | inr other ↦
        let less : m < n = ground arith in
        let smaller = scaled_less m n less in (λ h. omega arith, λ h. omega arith)
  ]
]

abbrev pub IsNan : ℕ → Type 0
IsNan x = 0x7ff0000000000000 < x % 2 ^ 63

-- The order of two numbers by their signs, true for a negative one, and their sizes.
abbrev pub IsInOrder : Bool → Bool → ℕ → ℕ → Type 0
IsInOrder false false a b = a ≤ b
IsInOrder true true a b = b ≤ a
IsInOrder true false a b = Unit
IsInOrder false true a b = (a ≡ 0) × (b ≡ 0)

-- Two doubles whose numbers are in order, equal ones included, or one of which is no number.
abbrev pub IsAtMost : ℕ → ℕ → Type 0
IsAtMost x y =
    IsNan x
    ⊎ (IsNan y
        ⊎ IsInOrder (leb (2 ^ 63) x) (leb (2 ^ 63) y) (scaled (x % 2 ^ 63)) (scaled (y % 2 ^ 63)))

scaled-zero_iff : (m : ℕ) → (scaled m ≡ 0) ↔ (m ≡ 0)
scaled-zero_iff m =
    let (to, from) = scaled_iff m 0 in
    let zero_size : scaled 0 ≡ 0 = unfold scaled in unfold scale in refl in
    (λ h. omega (arith, from (omega arith)), λ h. omega (arith, to (omega arith)))

-- The comparison of the signs and magnitudes of two numbers.
signed_iff :
    (sy sx : Bool) (n m : ℕ)
    → (f64_lt_signed sy sx n m ≡ false) ↔ IsInOrder sx sy (scaled m) (scaled n)
signed_iff false false n m =
    let (to, from) = scaled_iff m n in (λ h. to (ground arith), λ h. ground (arith, from h))
signed_iff true true n m =
    let (to, from) = scaled_iff n m in (λ h. to (ground arith), λ h. ground (arith, from h))
signed_iff true false n m =
    let (to, from) = scaled-zero_iff m in
    let (into, back) = scaled-zero_iff n in
    (λ h. (from (ground arith), back (ground arith)), λ (a, b). ground (arith, to a, into b))
signed_iff false true n m = (λ h. tt, λ h. refl)

if-or_iff :
    (p q b : Bool)
    → ((if p || q then false else b) ≡ false) ↔ ((q ≡ true) ⊎ ((p ≡ true) ⊎ (b ≡ false)))
if-or_iff true true b = (λ h. inl refl, λ h. refl)
if-or_iff true false b = (λ h. inr (inl refl), λ h. refl)
if-or_iff false true b = (λ h. inl refl, λ h. refl)
if-or_iff false false b = (λ h. inr (inr h), of)
  where
    of : (false ≡ true) ⊎ ((false ≡ true) ⊎ (b ≡ false)) → b ≡ false
    of (inl e) = absurd (cc)
    of (inr (inl e)) = absurd (cc)
    of (inr (inr h)) = h

IsNan-iff : (x : ℕ) → (is_nan x ≡ true) ↔ IsNan x
IsNan-iff x = ground arith

pub f64_lt_iff : (x y : ℕ) → (f64_lt y x ≡ false) ↔ IsAtMost x y
unfolding f64_lt
f64_lt_iff x y =
    let lt = f64_lt_signed (f64_sign y) (f64_sign x) (f64_magnitude y) (f64_magnitude x) in
    let (to, from) = if-or_iff (is_nan y) (is_nan x) lt in
    let (into, back) = signed_iff (f64_sign y) (f64_sign x) (f64_magnitude y) (f64_magnitude x) in
    (
      λ h. elim (to h) [
        | inl nan ↦ inl ((IsNan-iff x).0 nan)
        | inr (inl nan) ↦ inr (inl ((IsNan-iff y).0 nan))
        | inr (inr less) ↦ inr (inr (into less))
      ],
      λ h. from (elim h [
        | inl nan ↦ inl ((IsNan-iff x).1 nan)
        | inr (inl nan) ↦ inr (inl ((IsNan-iff y).1 nan))
        | inr (inr less) ↦ inr (inr (back less))
      ]),
    )
