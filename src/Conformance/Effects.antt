-- ===== src/Conformance/Effects.antt =====
-- Computations of the player against a world (the server under test and the network), which they
-- change, and which may fail (player.rs, control.rs).
use lumencast_rs.Prelude.{◌≡◌, refl, ap, Result, ok, err}

abbrev pub Eff : Type 0 → Type 0 → Type 0 → Type 0
Eff W E A = W → W × Result E A

abbrev pub after : {W E A B : Type 0} → (A → Eff W E B) → W × Result E A → W × Result E B
after f (w, ok a) = f a w
after f (w, err e) = (w, err e)

infixl 5 ◌>>=◌
abbrev pub ◌>>=◌ : {W E A B : Type 0} → Eff W E A → (A → Eff W E B) → Eff W E B
◌>>=◌ m f w = after f (m w)

infixl 5 ◌>>◌
abbrev pub ◌>>◌ : {W E B : Type 0} → Eff W E (Unit {0}) → Eff W E B → Eff W E B
◌>>◌ m k = m >>= λ _. k

abbrev pub pure : {W E A : Type 0} → A → Eff W E A
pure a w = (w, ok a)

abbrev pub lift : {W E A : Type 0} → Result E A → Eff W E A
lift r w = (w, r)

abbrev pub fail : {W E A : Type 0} → E → Eff W E A
fail e w = (w, err e)

abbrev wrap_err : {W E F A : Type 0} → (E → F) → W × Result E A → W × Result F A
wrap_err wrap (w, ok a) = (w, ok a)
wrap_err wrap (w, err e) = (w, err (wrap e))

-- `?` with the `From` of another error.
abbrev pub mapping : {W E F A : Type 0} → (E → F) → Eff W E A → Eff W F A
mapping wrap m w = wrap_err wrap (m w)

-- The parts of a chain that succeeds, by its first step.
module _ {W E A B : Type 0} (f : A → Eff W E B) (w w' : W) (b : B) where
  pub after-eq-ok :
      (r : W × Result E A)
      → after f r ≡ (w', ok b)
      → (a : A) × (w₁ : W) × (r ≡ (w₁, ok a)) × (f a w₁ ≡ (w', ok b))
  after-eq-ok (w₁, ok a) h = (a, w₁, refl, h)
  after-eq-ok (w₁, err e) h = absurd (cc)

  pub lift_then :
      (r : Result E A) → (lift r >>= f) w ≡ (w', ok b) → (a : A) × (r ≡ ok a) × (f a w ≡ (w', ok b))
  lift_then (ok a) h = (a, refl, h)
  lift_then (err e) h = absurd (cc)

  pub mapping_then :
      {F : Type 0} (wrap : F → E) (m : Eff W F A)
      → (mapping wrap m >>= f) w ≡ (w', ok b)
      → (a : A) × (w₁ : W) × (m w ≡ (w₁, ok a)) × (f a w₁ ≡ (w', ok b))
  mapping_then {F} wrap m h = go (m w) h
    where
      go :
          (r : W × Result F A)
          → after f (wrap_err wrap r) ≡ (w', ok b)
          → (a : A) × (w₁ : W) × (r ≡ (w₁, ok a)) × (f a w₁ ≡ (w', ok b))
      go (w₁, ok a) e = (a, w₁, refl, e)
      go (w₁, err x) e = absurd (cc)

pub pure-eq-ok :
    {W E A : Type 0} (a b : A) (w w' : W)
    → ◌≡◌ {A = W × Result E A} (pure a w) (w', ok b)
    → (w ≡ w') × (b ≡ a)
pure-eq-ok a b w w' h = (ap (λ q. q.0) h, cc)

pub mapping-eq-ok :
    {W E F A : Type 0} (wrap : E → F) (m : Eff W E A) (w w' : W) (a : A)
    → mapping wrap m w ≡ (w', ok a)
    → m w ≡ (w', ok a)
mapping-eq-ok {W} {E} {F} {A} wrap m w w' a h = go (m w) h
  where
    go : (r : W × Result E A) → wrap_err wrap r ≡ (w', ok a) → r ≡ (w', ok a)
    go (w₁, ok b) e = cc
    go (w₁, err x) e = cc
