-- ===== src/Protocol/Layout/Major.antt =====
-- Which versions of the language `parse_major` of bundle.rs takes for major version 1.
use lumencast_rs.Prelude.{
  ℕ, zero, suc, ◌+◌, ◌*◌, ◌-◌, ◌^◌, ◌≤◌, ◌≡◌, refl, sym, ap, ap₂, ◌↔◌, ◌⊎◌, inl, inr, true, false,
  not, ◌||◌, List, [], ◌∷◌, ◌++◌, some, Text, split, join, replicate, head?, join-split,
  split-append_cut, split-uncut, split-cons, All, all, is_empty, ltb, ◌==◌, ==_iff, Bool-cases,
  arith,
}
use lumencast_rs.Protocol.LeafPath.{is_ascii_digit, dot}
use lumencast_rs.Protocol.Layout.{digits_value, parse_digits, parse_u32, parse_first, parse_major}

-- The digit 1 after that number of zeros.
abbrev pub unit : ℕ → Text
unit n = replicate n b'0' ++ b'1' ∷ []

abbrev IsUnit : Text → Type 0
IsUnit s = (n : ℕ) × (s ≡ unit n)

-- The number 1: with a plus sign before it, or none.
abbrev pub IsOne : Text → Type 0
IsOne w = IsUnit w ⊎ ((s : Text) × (w ≡ b'+' ∷ s) × IsUnit s)

-- The part before the first dot, or the whole where there is none, is the number 1.
abbrev pub IsMajorOne : Text → Type 0
IsMajorOne lsml = (w : Text) × IsOne w × ((lsml ≡ w) ⊎ ((rest : Text) × (lsml ≡ w ++ b'.' ∷ rest)))

digits_value-grows : (n : ℕ) (s : Text) → n ≤ digits_value n s
digits_value-grows n [] = omega arith
digits_value-grows n (b ∷ s) = let more = digits_value-grows (10 * n + (b - 48)) s in omega arith

-- A digit that is not zero and makes 1 has no digit after it.
alone : (s : Text) (d : ℕ) → digits_value d s ≡ 1 → 1 ≤ d → (s ≡ []) × (d ≡ 1)
alone [] d h least = (refl, h)
alone (c ∷ s) d h least =
    let more = digits_value-grows (10 * d + (c - 48)) s in absurd (omega arith)

IsUnit-sound : (s : Text) → all is_ascii_digit s ≡ true → digits_value 0 s ≡ 1 → IsUnit s
IsUnit-sound [] d h = absurd (omega arith)
IsUnit-sound (b ∷ s) d h = elim (Bool-cases (b == 48)) [
  | inl zero_ ↦
      let at : b ≡ 48 = (==_iff b 48).0 zero_ in
      let (n, e) = IsUnit-sound s (ground arith) (rw at at h) in (suc n, ap₂ ◌∷◌ at e)
  | inr digit ↦
      let (end_, one) = alone s (b - 48) (rw (ten_times b) at h) (ground arith) in
      (0, ap₂ ◌∷◌ (ground arith) end_)
]
  where
    ten_times : (b : ℕ) → 10 * 0 + (b - 48) ≡ b - 48
    ten_times b = omega arith

unit_complete : (n : ℕ) → (all is_ascii_digit (unit n) ≡ true) × (digits_value 0 (unit n) ≡ 1)
unit_complete zero = (refl, refl)
unit_complete (suc n) = unit_complete n

parse_digits_iff : (s : Text) → (parse_digits s ≡ some 1) ↔ IsUnit s
parse_digits_iff s = (to, from)
  where
    to : parse_digits s ≡ some 1 → IsUnit s
    to h = elim (Bool-cases (is_empty s || not (all is_ascii_digit s))) [
      | inl bad ↦ absurd (cc (rw bad at h))
      | inr good ↦ elim (Bool-cases (ltb (digits_value 0 s) (2 ^ 32))) [
        | inl fits ↦
            let read : some (digits_value 0 s) ≡ some 1 = rw (good, fits) at h in
            IsUnit-sound s (ground arith) (cc)
        | inr large ↦ absurd (cc (rw (good, large) at h))
      ]
    ]

    filled_ : (n : ℕ) → is_empty (unit n) ≡ false
    filled_ zero = refl
    filled_ (suc n) = refl

    from : IsUnit s → parse_digits s ≡ some 1
    from (n, e) = let (digits, value) = unit_complete n in rw (e, filled_ n, digits, value) refl

unit_head : (n b : ℕ) (s : Text) → b ∷ s ≡ unit n → (b == 43) ≡ false
unit_head zero b s e = let at : b ≡ 49 = cc in rw at refl
unit_head (suc n) b s e = let at : b ≡ 48 = cc in rw at refl

unit-filled : (n : ℕ) → ¬ ([] ≡ unit n)
unit-filled zero e = cc
unit-filled (suc n) e = cc

parse_u32_iff : (w : Text) → (parse_u32 w ≡ some 1) ↔ IsOne w
parse_u32_iff [] = (λ h. absurd (cc), none_)
  where
    none_ : IsOne [] → parse_u32 [] ≡ some 1
    none_ (inl (n, e)) = absurd (unit-filled n e)
    none_ (inr (s, e, u)) = absurd (cc)
parse_u32_iff (b ∷ s) = elim (Bool-cases (b == b'+')) [
  | inl plus ↦ rw plus (
    λ h. inr (s, ap (λ x. x ∷ s) ((==_iff b b'+').0 plus), (parse_digits_iff s).0 h),
    λ o. elim o [
      | inl (n, e) ↦ let apart = unit_head n b s e in absurd (cc)
      | inr (t, e, u) ↦ let same : t ≡ s = cc in (parse_digits_iff s).1 (rw same at u)
    ],
  )
  | inr other ↦ rw other (
    λ h. inl ((parse_digits_iff (b ∷ s)).0 h),
    λ o. elim o [
      | inl u ↦ (parse_digits_iff (b ∷ s)).1 u
      | inr (t, e, u) ↦ let at : b ≡ b'+' = cc in let plus = (==_iff b b'+').1 at in absurd (cc)
    ],
  )
]

abbrev IsUncut : Text → Type 0
IsUncut w = All (λ b. (b == dot) ≡ false) w

unit-IsUncut : (n : ℕ) → IsUncut (unit n)
unit-IsUncut zero = (refl, tt)
unit-IsUncut (suc n) = (refl, unit-IsUncut n)

one-IsUncut : (w : Text) → IsOne w → IsUncut w
one-IsUncut w (inl (n, e)) = rw e (unit-IsUncut n)
one-IsUncut w (inr (s, e, (n, u))) = rw (e, u) (refl, unit-IsUncut n)

pub parse_major_iff : (lsml : Text) → (parse_major lsml ≡ some 1) ↔ IsMajorOne lsml
unfolding parse_major
parse_major_iff lsml = (to, from)
  where
    parts :
        (w : Text) (ws : List Text)
        → join dot (w ∷ ws) ≡ lsml
        → (lsml ≡ w) ⊎ ((rest : Text) × (lsml ≡ w ++ b'.' ∷ rest))
    parts w [] e = inl (sym (unfold join in e))
    parts w (v ∷ vs) e = inr (join dot (v ∷ vs), sym (unfold join in e))

    to : parse_first (head? (split dot lsml)) ≡ some 1 → IsMajorOne lsml
    to h =
        let (w, ws, e) = split-cons dot lsml in
        let read : parse_u32 w ≡ some 1 = rw e at h in
        (w, (parse_u32_iff w).0 read, parts w ws (rw (← e) (join-split dot lsml)))

    from : IsMajorOne lsml → parse_first (head? (split dot lsml)) ≡ some 1
    from (w, one, inl e) = rw (e, split-uncut dot w (one-IsUncut w one)) ((parse_u32_iff w).1 one)
    from (w, one, inr (rest, e)) =
        rw (e, split-append_cut dot w rest (one-IsUncut w one)) ((parse_u32_iff w).1 one)
