-- ===== src/Prelude/Maps.antt =====
-- A map with text keys as an association list, for `HashMap`, `BTreeMap` and `DashMap`.
use mathlib.Core.Path.{◌≡◌, refl, ap, ◌∙◌}
use mathlib.Core.Bool.{Bool, false}
use mathlib.Core.List.{List, [], ◌∷◌, ◌++◌}
use mathlib.Core.Option.{Option, none, some}
use native.Mathlib.Omega.{arith}
use lumencast_rs.Prelude.Tests.{if◌then◌else◌, is_some}
use lumencast_rs.Prelude.Lists.{All}
use lumencast_rs.Prelude.Texts.{Text, text_eq, text_eq_iff}

abbrev pub Map {ℓ} : Type ℓ → Type ℓ
Map V = List (Text × V)

module _ {ℓ} {V : Type ℓ} where
  unfoldable pub lookup : Text → Map V → Option V
  lookup k [] = none
  lookup k ((j, v) ∷ m) = if text_eq j k then some v else lookup k m

  unfoldable pub insert : Text → V → Map V → Map V
  insert k v [] = (k, v) ∷ []
  insert k v ((j, w) ∷ m) = if text_eq j k then (k, v) ∷ m else (j, w) ∷ insert k v m

  unfoldable pub remove : Text → Map V → Map V
  remove k [] = []
  remove k ((j, w) ∷ m) = if text_eq j k then m else (j, w) ∷ remove k m

  abbrev pub contains_key : Text → Map V → Bool
  contains_key k m = is_some (lookup k m)

  -- A loop that inserts pair after pair.
  unfoldable pub insert_all : List (Text × V) → Map V → Map V
  insert_all [] m = m
  insert_all ((k, v) ∷ kvs) m = insert_all kvs (insert k v m)

  -- No key stands twice.
  abbrev pub IsUnique : Map V → Type ℓ
  IsUnique [] = Unit
  IsUnique ((k, v) ∷ m) = (lookup k m ≡ none) × IsUnique m

  pub lookup-insert :
      (k j : Text) (v : V) (m : Map V)
      → lookup j (insert k v m) ≡ (if text_eq k j then some v else lookup j m)
  unfolding lookup insert
  lookup-insert k j v [] = refl
  lookup-insert k j v ((i, w) ∷ m) =
      ground (arith, text_eq_iff k j, text_eq_iff i k, text_eq_iff i j, lookup-insert k j v m)

  pub insert-IsUnique : (k : Text) (v : V) (m : Map V) → IsUnique m → IsUnique (insert k v m)
  unfolding insert lookup
  insert-IsUnique k v [] u = (refl, tt)
  insert-IsUnique k v ((i, w) ∷ m) u =
      ground
        (arith, text_eq_iff i k, text_eq_iff k i, lookup-insert k i v m, insert-IsUnique k v m u.1)

  -- The value that a list of pairs gives a key: that of the last pair with the key.
  unfoldable pub last_value : Text → List (Text × V) → Option V → Option V
  last_value k [] old = old
  last_value k ((j, v) ∷ kvs) old = last_value k kvs (if text_eq j k then some v else old)

  pub lookup-insert_all :
      (k : Text) (kvs : List (Text × V)) (m : Map V)
      → lookup k (insert_all kvs m) ≡ last_value k kvs (lookup k m)
  unfolding insert_all last_value
  lookup-insert_all k [] m = refl
  lookup-insert_all k ((j, v) ∷ kvs) m =
      lookup-insert_all k kvs (insert j v m) ∙ ap (last_value k kvs) (lookup-insert j k v m)

  pub insert_all-IsUnique :
      (kvs : List (Text × V)) (m : Map V) → IsUnique m → IsUnique (insert_all kvs m)
  unfolding insert_all
  insert_all-IsUnique [] m u = u
  insert_all-IsUnique ((k, v) ∷ kvs) m u = insert_all-IsUnique kvs _ (insert-IsUnique k v m u)

  -- Of pairs with no key twice, the last with a key is the first.
  pub last_value_unique :
      (k : Text) (m : Map V) (old : Option V)
      → IsUnique m
      → last_value k m old ≡ (if is_some (lookup k m) then lookup k m else old)
  unfolding last_value lookup
  last_value_unique k [] old u = refl
  last_value_unique k ((j, v) ∷ m) old u =
      ground
        (arith, text_eq_iff j k, last_value_unique k m (some v) u.1, last_value_unique k m old u.1)

  pub lookup-remove :
      (k j : Text) (m : Map V)
      → IsUnique m
      → lookup j (remove k m) ≡ (if text_eq k j then none else lookup j m)
  unfolding lookup remove
  lookup-remove k j [] u = ground arith
  lookup-remove k j ((i, w) ∷ m) u =
      ground (arith, text_eq_iff k j, text_eq_iff i k, text_eq_iff i j, lookup-remove k j m u.1)

  -- A key that no pair has keeps its value.
  pub last_value-keep :
      (k : Text) (kvs : List (Text × V)) (old : Option V)
      → All (λ p. text_eq p.0 k ≡ false) kvs
      → last_value k kvs old ≡ old
  unfolding last_value
  last_value-keep k [] old h = refl
  last_value-keep k ((j, v) ∷ kvs) old h = rw h.0 (last_value-keep k kvs old h.1)

  pub last_value-append :
      (k : Text) (xs ys : List (Text × V)) (old : Option V)
      → last_value k (xs ++ ys) old ≡ last_value k ys (last_value k xs old)
  unfolding last_value
  last_value-append k [] ys old = refl
  last_value-append k ((j, v) ∷ xs) ys old = last_value-append k xs ys _
