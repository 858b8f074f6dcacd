-- ===== src/Prelude/Lists.antt =====
-- Lists measured by native numbers, Boolean quantifiers and the predicate that holds of each item.
use Prim.Native.Nat.{ℕ, zero, suc, ◌+◌}
use mathlib.Core.Path.{◌≡◌, refl, ap}
use mathlib.Core.Logic.{◌⊎◌, inl, inr}
use mathlib.Core.Bool.{Bool, true, false, ◌&&◌, ◌||◌}
use mathlib.Core.List.{List, [], ◌∷◌, ◌++◌, append-nil, append_assoc}
use mathlib.Core.Option.{Option, none, some}
use native.Mathlib.Omega.{arith}
use lumencast_rs.Prelude.Tests.{if◌then◌else◌, Bool-cases}

module _ {ℓ} {A : Type ℓ} where
  abbrev pub length : List A → ℕ
  length [] = 0
  length (x ∷ xs) = suc (length xs)

  abbrev pub is_empty : List A → Bool
  is_empty [] = true
  is_empty (x ∷ xs) = false

  abbrev pub all : (A → Bool) → List A → Bool
  all p [] = true
  all p (x ∷ xs) = p x && all p xs

  abbrev pub any : (A → Bool) → List A → Bool
  any p [] = false
  any p (x ∷ xs) = p x || any p xs

  -- `iter().filter(p)`
  abbrev pub keep : (A → Bool) → List A → List A
  keep p [] = []
  keep p (x ∷ xs) = if p x then x ∷ keep p xs else keep p xs

  abbrev pub head? : List A → Option A
  head? [] = none
  head? (x ∷ xs) = some x

  abbrev pub drop : ℕ → List A → List A
  drop zero xs = xs
  drop (suc n) [] = []
  drop (suc n) (x ∷ xs) = drop n xs

  abbrev pub get_elem? : List A → ℕ → Option A
  get_elem? [] i = none
  get_elem? (x ∷ xs) zero = some x
  get_elem? (x ∷ xs) (suc i) = get_elem? xs i

  -- A write out of bounds changes nothing.
  abbrev pub set : List A → ℕ → A → List A
  set [] i v = []
  set (x ∷ xs) zero v = v ∷ xs
  set (x ∷ xs) (suc i) v = x ∷ set xs i v

  pub length-append : (xs ys : List A) → length (xs ++ ys) ≡ length xs + length ys
  length-append [] ys = omega arith
  length-append (x ∷ xs) ys = omega (arith, length-append xs ys)

  pub get_elem?-set_same :
      (xs : List A) (i : ℕ) (x v : A) → get_elem? xs i ≡ some x → get_elem? (set xs i v) i ≡ some v
  get_elem?-set_same [] i x v h = absurd (cc)
  get_elem?-set_same (y ∷ ys) zero x v h = refl
  get_elem?-set_same (y ∷ ys) (suc i) x v h = get_elem?-set_same ys i x v h

  pub get_elem?-set_other :
      (xs : List A) (i j : ℕ) (v : A) → ¬ (i ≡ j) → get_elem? (set xs i v) j ≡ get_elem? xs j
  get_elem?-set_other [] i j v h = refl
  get_elem?-set_other (y ∷ ys) zero zero v h = absurd (h refl)
  get_elem?-set_other (y ∷ ys) zero (suc j) v h = refl
  get_elem?-set_other (y ∷ ys) (suc i) zero v h = refl
  get_elem?-set_other (y ∷ ys) (suc i) (suc j) v h =
      get_elem?-set_other ys i j v (λ e. h (ap suc e))

module _ {ℓ κ} {A : Type ℓ} (P : A → Type κ) where
  abbrev pub All : List A → Type κ
  All [] = Unit
  All (x ∷ xs) = P x × All xs

  pub All-append : (xs ys : List A) → All xs → All ys → All (xs ++ ys)
  All-append [] ys hx hy = hy
  All-append (x ∷ xs) ys hx hy = (hx.0, All-append xs ys hx.1 hy)

module _ {ℓ} {A : Type ℓ} (p : A → Bool) where
  pub all_sound : (xs : List A) → all p xs ≡ true → All (λ x. p x ≡ true) xs
  all_sound [] h = tt
  all_sound (x ∷ xs) h = (ground arith, all_sound xs (ground arith))

  pub all_complete : (xs : List A) → All (λ x. p x ≡ true) xs → all p xs ≡ true
  all_complete [] h = refl
  all_complete (x ∷ xs) h = rw (h.0) (all_complete xs h.1)

pub All-mono {ℓ κ μ} :
    {A : Type ℓ} (P : A → Type κ) (Q : A → Type μ) (f : (x : A) → P x → Q x) (xs : List A)
    → All P xs
    → All Q xs
All-mono P Q f [] h = tt
All-mono P Q f (x ∷ xs) h = (f x h.0, All-mono P Q f xs h.1)

pub data Empty {ℓ} : Type ℓ where

-- Some item has the property.
abbrev pub Any {ℓ κ} : {A : Type ℓ} → (A → Type κ) → List A → Type κ
Any P [] = Empty
Any P (x ∷ xs) = P x ⊎ Any P xs

module _ {ℓ κ} {A : Type ℓ} (p : A → Bool) (P : A → Type κ) (sound : (x : A) → p x ≡ true → P x)
    (complete : (x : A) → P x → p x ≡ true) where
  pub any_sound : (xs : List A) → any p xs ≡ true → Any P xs
  any_sound [] h = absurd (cc)
  any_sound (x ∷ xs) h = elim (Bool-cases (p x)) [
    | inl here ↦ inl (sound x here)
    | inr later ↦ inr (any_sound xs (rw later at h))
  ]

  pub any_complete : (xs : List A) → Any P xs → any p xs ≡ true
  any_complete [] h = elim h [ ]
  any_complete (x ∷ xs) (inl here) = rw (complete x here)
  any_complete (x ∷ xs) (inr later) = ground (arith, any_complete xs later)

module _ {ℓ κ} {A : Type ℓ} (P : A → Type κ) where
  pub Any-append_left : (xs ys : List A) → Any P xs → Any P (xs ++ ys)
  Any-append_left [] ys h = elim h [ ]
  Any-append_left (x ∷ xs) ys (inl here) = inl here
  Any-append_left (x ∷ xs) ys (inr later) = inr (Any-append_left xs ys later)

  pub Any-append_right : (xs ys : List A) → Any P ys → Any P (xs ++ ys)
  Any-append_right [] ys h = h
  Any-append_right (x ∷ xs) ys h = inr (Any-append_right xs ys h)

  pub Any-append : (xs ys : List A) → Any P (xs ++ ys) → Any P xs ⊎ Any P ys
  Any-append [] ys h = inr h
  Any-append (x ∷ xs) ys (inl here) = inl (inl here)
  Any-append (x ∷ xs) ys (inr later) = elim (Any-append xs ys later) [
    | inl left ↦ inl (inr left)
    | inr right ↦ inr right
  ]

module _ {ℓ} {A : Type ℓ} where
  abbrev pub replicate : ℕ → A → List A
  replicate zero a = []
  replicate (suc n) a = a ∷ replicate n a

  pub length-replicate : (n : ℕ) (a : A) → length (replicate n a) ≡ n
  length-replicate zero a = refl
  length-replicate (suc n) a = ap suc (length-replicate n a)

  pub All-replicate {κ} : (P : A → Type κ) (n : ℕ) (a : A) → P a → All P (replicate n a)
  All-replicate P zero a h = tt
  All-replicate P (suc n) a h = (h, All-replicate P n a h)

-- To bring appended lists into one form.
pub ruleset append_laws = (append-nil, append_assoc)
