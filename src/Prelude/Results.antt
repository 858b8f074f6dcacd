-- ===== src/Prelude/Results.antt =====
-- `Result`, with the early return of `?` as bind.
use mathlib.Core.Path.{◌≡◌, refl}
use mathlib.Core.Logic.{◌⊎◌, inl, inr}

pub data Result {ℓ κ} (E : Type ℓ) (A : Type κ) : Type (ℓ ⊔ κ) where
  ok : A → Result E A
  err : E → Result E A

module _ {ℓ κ} {E : Type ℓ} {A : Type κ} where
  -- To split on a computed result and keep the equation.
  pub Result-cases : (r : Result E A) → ((a : A) × (r ≡ ok a)) ⊎ ((e : E) × (r ≡ err e))
  Result-cases (ok a) = inl (a, refl)
  Result-cases (err e) = inr (e, refl)

  pub err-ne-ok : {e : E} {a : A} → ¬ (◌≡◌ {A = Result E A} (err e) (ok a))
  err-ne-ok h = absurd (cc)

  abbrev pub map_err {μ} : {F : Type μ} → (E → F) → Result E A → Result F A
  map_err wrap (ok a) = ok a
  map_err wrap (err e) = err (wrap e)

  pub map_err-eq-ok {μ} :
      {F : Type μ} (wrap : E → F) (r : Result E A) {a : A} → map_err wrap r ≡ ok a → r ≡ ok a
  map_err-eq-ok wrap (ok b) same = cc
  map_err-eq-ok wrap (err e) same = cc

module _ {ℓ κ μ} {E : Type ℓ} {A : Type κ} {B : Type μ} where
  infixl 5 ◌>>=◌
  abbrev pub ◌>>=◌ : Result E A → (A → Result E B) → Result E B
  err e >>= next = err e
  ok a >>= next = next a

  -- Both halves of a chain that succeeds.
  pub >>=-eq-ok :
      (first : Result E A) (next : A → Result E B) {b : B}
      → (first >>= next) ≡ ok b
      → (a : A) × (first ≡ ok a) × (next a ≡ ok b)
  >>=-eq-ok (err e) next same = cc
  >>=-eq-ok (ok a) next same = (a, refl, same)

infixl 5 ◌>>◌
abbrev pub ◌>>◌ {ℓ κ} : {E : Type ℓ} {B : Type κ} → Result E (Unit {0}) → Result E B → Result E B
check >> next = check >>= λ _. next
