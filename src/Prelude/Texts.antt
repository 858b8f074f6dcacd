-- ===== src/Prelude/Texts.antt =====
-- A Rust `str` is the list of its UTF-8 bytes. The operations of `str` that the program uses.
use Prim.Native.Char.{code}
use Prim.Native.Nat.{ℕ}
use Prim.Native.String.{String}
use mathlib.Core.Path.{◌≡◌, refl, sym, ap, ap₂, ◌∙◌}
use mathlib.Core.Logic.{◌↔◌, inl, inr}
use mathlib.Core.Bool.{Bool, true, false, ◌&&◌}
use mathlib.Core.List.{List, [], ◌∷◌, ◌++◌}
use mathlib.Core.Option.{Option, none, some}
use native.Mathlib.Omega.{arith}
use lumencast_rs.Prelude.Tests.{◌==◌, if◌then◌else◌, ==_iff, Bool-cases}
use lumencast_rs.Prelude.Lists.{All}

abbrev pub Text : Type 0
Text = List ℕ

-- The bytes of an ASCII literal.
abbrev pub codes : String → Text
codes String.[] = []
codes (String.◌∷◌ c s) = code c ∷ codes s

unfoldable pub text_eq : Text → Text → Bool
text_eq [] [] = true
text_eq (a ∷ s) (b ∷ t) = a == b && text_eq s t
text_eq _ _ = false

pub text_eq_iff : (s t : Text) → (text_eq s t ≡ true) ↔ (s ≡ t)
unfolding text_eq
text_eq_iff [] [] = ground arith
text_eq_iff [] (b ∷ t) = ground arith
text_eq_iff (a ∷ s) [] = ground arith
text_eq_iff (a ∷ s) (b ∷ t) = ground (arith, text_eq_iff s t)

pub text_eq_refl : (s : Text) → text_eq s s ≡ true
text_eq_refl s = (text_eq_iff s s).1 refl

-- `str::strip_prefix`
unfoldable pub strip_prefix : Text → Text → Option Text
strip_prefix [] s = some s
strip_prefix (a ∷ p) [] = none
strip_prefix (a ∷ p) (b ∷ s) = let rest = strip_prefix p s in if a == b then rest else none

pub strip_prefix_iff : (p s rest : Text) → (strip_prefix p s ≡ some rest) ↔ (s ≡ p ++ rest)
unfolding strip_prefix
strip_prefix_iff [] s rest = ground arith
strip_prefix_iff (a ∷ p) [] rest = ground arith
strip_prefix_iff (a ∷ p) (b ∷ s) rest = ground (arith, strip_prefix_iff p s rest)

-- `str::split` at a byte, and its inverse.
abbrev pub onto_first : ℕ → List Text → List Text
onto_first b [] = (b ∷ []) ∷ []
onto_first b (w ∷ ws) = (b ∷ w) ∷ ws

unfoldable pub split : ℕ → Text → List Text
split c [] = [] ∷ []
split c (b ∷ s) = if b == c then [] ∷ split c s else onto_first b (split c s)

unfoldable pub join : ℕ → List Text → Text
join c [] = []
join c (w ∷ []) = w
join c (w ∷ ws) = w ++ c ∷ join c ws

-- Cutting at a byte and joining again.
pub split-cons : (c : ℕ) (s : Text) → (w : Text) × (ws : List Text) × (split c s ≡ w ∷ ws)
unfolding split
split-cons c [] = ([], [], refl)
split-cons c (b ∷ s) = elim (Bool-cases (b == c)) [
  | inl cut ↦ ([], split c s, rw cut)
  | inr more ↦ let (w, ws, e) = split-cons c s in (b ∷ w, ws, rw (more, e))
]

join-onto_first :
    (c b : ℕ) (w : Text) (ws : List Text) → join c (onto_first b (w ∷ ws)) ≡ b ∷ join c (w ∷ ws)
unfolding join
join-onto_first c b w [] = refl
join-onto_first c b w (v ∷ ws) = refl

join-cons_empty : (c : ℕ) (w : Text) (ws : List Text) → join c ([] ∷ w ∷ ws) ≡ c ∷ join c (w ∷ ws)
unfolding join
join-cons_empty c w ws = refl

pub join-split : (c : ℕ) (s : Text) → join c (split c s) ≡ s
unfolding split
join-split c [] = refl_join c
  where
    refl_join : (c : ℕ) → join c ([] ∷ []) ≡ []
    refl_join c = unfold join in refl
join-split c (b ∷ s) =
    let (w, ws, e) = split-cons c s in
    let ih : join c (w ∷ ws) ≡ s = rw (← e) (join-split c s) in
    elim (Bool-cases (b == c)) [
      | inl cut ↦ rw (cut, e) (join-cons_empty c w ws ∙ ap₂ ◌∷◌ (sym ((==_iff b c).0 cut)) ih)
      | inr more ↦ rw (more, e) (join-onto_first c b w ws ∙ ap (◌∷◌ b) ih)
    ]

pub split-append_cut :
    (c : ℕ) (w s : Text) → All (λ b. (b == c) ≡ false) w → split c (w ++ c ∷ s) ≡ w ∷ split c s
unfolding split
split-append_cut c [] s h = rw ((==_iff c c).1 refl)
split-append_cut c (b ∷ w) s h = rw (h.0, split-append_cut c w s h.1)

pub split-uncut : (c : ℕ) (w : Text) → All (λ b. (b == c) ≡ false) w → split c w ≡ w ∷ []
unfolding split
split-uncut c [] h = refl
split-uncut c (b ∷ w) h = rw (h.0, split-uncut c w h.1)

pub split-join :
    (c : ℕ) (w : Text) (ws : List Text)
    → All (λ v. All (λ b. (b == c) ≡ false) v) (w ∷ ws)
    → split c (join c (w ∷ ws)) ≡ w ∷ ws
unfolding join
split-join c w [] h = split-uncut c w h.0
split-join c w (v ∷ ws) h =
    split-append_cut c w (join c (v ∷ ws)) h.0 ∙ ap (◌∷◌ w) (split-join c v ws h.1)
