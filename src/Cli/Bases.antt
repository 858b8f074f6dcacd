-- ===== src/Cli/Bases.antt =====
-- The directories that the search for scenarios starts from (`Path::ancestors`, main.rs).
use lumencast_rs.Prelude.{
  ℕ, zero, suc, ◌≤◌, ◌<◌, ◌≡◌, ◌↔◌, ◌⊎◌, inl, inr, refl, sym, ap, ap₂, subst, List, [], ◌∷◌, ◌++◌,
  Option, none, some, Text, map, length, Any, Any-append, Any-append_left, Any-append_right, Empty,
  arith,
}
use lumencast_rs.Cli.{DirPath, ancestors, take, ancestors_of, bases}

take-nil {ℓ} : {A : Type ℓ} (n : ℕ) → take {A = A} n [] ≡ []
take-nil zero = refl
take-nil (suc n) = refl

length-map_snoc {ℓ κ} :
    {A : Type ℓ} {B : Type κ} (f : A → B) (xs : List A) (y : B)
    → length (map f xs ++ y ∷ []) ≡ suc (length xs)
length-map_snoc f [] y = refl
length-map_snoc f (x ∷ xs) y = ap suc (length-map_snoc f xs y)

length-ancestors : (p : DirPath) → length (ancestors p) ≡ suc (length p)
unfolding ancestors
length-ancestors [] = refl
length-ancestors (a ∷ p) = rw (length-map_snoc (◌∷◌ a) (ancestors p) [], length-ancestors p) refl

module _ {ℓ κ μ} {A : Type ℓ} {B : Type κ} (P : B → Type μ) (f : A → B) (y : B) where
  -- What the first items of a mapped list and one item more hold.
  take-map_snoc :
      (k : ℕ) (xs : List A)
      → Any P (take k (map f xs ++ y ∷ []))
        ↔ (Any (λ x. P (f x)) (take k xs) ⊎ (P y × (length xs < k)))
  take-map_snoc zero xs = (λ h. elim h [ ], nothing)
    where
      nothing : Empty {μ} ⊎ (P y × (length xs < 0)) → Empty {μ}
      nothing (inl h) = h
      nothing (inr (_, less)) = absurd (omega arith)
  take-map_snoc (suc k) [] = (to, from)
    where
      to : P y ⊎ Any P (take k []) → Empty {μ} ⊎ (P y × (0 < suc k))
      to (inl h) = inr (h, omega arith)
      to (inr h) = elim (rw (take-nil {A = B} k) at h) [ ]

      from : Empty {μ} ⊎ (P y × (0 < suc k)) → P y ⊎ Any P (take k [])
      from (inl h) = elim h [ ]
      from (inr (h, _)) = inl h
  take-map_snoc (suc k) (x ∷ xs) =
      let (to, from) = take-map_snoc k xs in
      (
        λ h. elim h [
          | inl here ↦ inl (inl here)
          | inr later ↦ elim (to later) [
            | inl some_ ↦ inl (inr some_)
            | inr (last, less) ↦ inr (last, omega arith)
          ]
        ],
        λ h. elim h [
          | inl (inl here) ↦ inl here
          | inl (inr some_) ↦ inr (from (inl some_))
          | inr (last, less) ↦ inr (from (inr (last, omega arith)))
        ],
      )

-- A directory at most so many steps above a path.
abbrev pub IsUp : ℕ → DirPath → DirPath → Type 0
IsUp k p b = (rest : DirPath) × (p ≡ b ++ rest) × (length rest ≤ k)

abbrev IsNear : ℕ → DirPath → DirPath → Type 0
IsNear k p b = Any (λ d. d ≡ b) (take k (ancestors p))

-- An item below a directory equals a path that begins with the directory.
Any-cons :
    (a c : Text) (b : DirPath) (ds : List DirPath)
    → Any (λ d. a ∷ d ≡ c ∷ b) ds
    → (a ≡ c) × Any (λ d. d ≡ b) ds
Any-cons a c b [] h = elim h [ ]
Any-cons a c b (d ∷ ds) (inl here) = (cc, inl (cc))
Any-cons a c b (d ∷ ds) (inr later) = let (same, h) = Any-cons a c b ds later in (same, inr h)

cons-Any :
    (a : Text) (b : DirPath) (ds : List DirPath) → Any (λ d. d ≡ b) ds → Any (λ d. a ∷ d ≡ a ∷ b) ds
cons-Any a b [] h = elim h [ ]
cons-Any a b (d ∷ ds) (inl here) = inl (ap (◌∷◌ a) here)
cons-Any a b (d ∷ ds) (inr later) = inr (cons-Any a b ds later)

Any-empty : (a : Text) (ds : List DirPath) → Any (λ d. a ∷ d ≡ []) ds → Empty {0}
Any-empty a [] h = elim h [ ]
Any-empty a (d ∷ ds) (inl here) = absurd (cc)
Any-empty a (d ∷ ds) (inr later) = Any-empty a ds later

near-IsUp : (k : ℕ) (p b : DirPath) → IsNear (suc k) p b → IsUp k p b
unfolding ancestors
near-IsUp k [] b (inl here) = ([], rw (sym here) refl, omega arith)
near-IsUp k [] b (inr later) = elim (rw (take-nil {A = DirPath} k) at later) [ ]
near-IsUp k (a ∷ p) [] h =
    elim ((take-map_snoc (λ d. d ≡ []) (◌∷◌ a) [] (suc k) (ancestors p)).0 h) [
      | inl below ↦ elim (Any-empty a _ below) [ ]
      | inr (_, less) ↦ (a ∷ p, refl, near (rw (length-ancestors p) at less))
    ]
  where
    near : suc (length p) < suc k → suc (length p) ≤ k
    near less = omega arith
near-IsUp k (a ∷ p) (c ∷ b) h =
    elim ((take-map_snoc (λ d. d ≡ c ∷ b) (◌∷◌ a) [] (suc k) (ancestors p)).0 h) [
      | inl below ↦
          let (same, near) = Any-cons a c b _ below in
          let (rest, e, less) = near-IsUp k p b near in (rest, ap₂ ◌∷◌ same e, less)
      | inr (e, _) ↦ absurd (cc)
    ]

up-IsNear : (k : ℕ) (p b : DirPath) → IsUp k p b → IsNear (suc k) p b
unfolding ancestors
up-IsNear k [] [] u = inl refl
up-IsNear k [] (c ∷ b) (rest, e, less) = absurd (cc)
up-IsNear k (a ∷ p) [] (rest, e, less) =
    (take-map_snoc (λ d. d ≡ []) (◌∷◌ a) [] (suc k) (ancestors p)).1
      (inr (refl, rw (length-ancestors p) (within (rw (← e) at less))))
  where
    within : suc (length p) ≤ k → suc (length p) < suc k
    within h = omega arith
up-IsNear k (a ∷ p) (c ∷ b) (rest, e, less) =
    let same : a ≡ c = cc in
    let below : p ≡ b ++ rest = cc in
    (take-map_snoc (λ d. d ≡ c ∷ b) (◌∷◌ a) [] (suc k) (ancestors p)).1
      (inl (rw (← same) (cons-Any a b _ (up-IsNear k p b (rest, below, less)))))

near_iff :
    (k : ℕ) (o : Option DirPath) (b : DirPath)
    → Any (λ d. d ≡ b) (ancestors_of (suc k) o) ↔ ((p : DirPath) × (o ≡ some p) × IsUp k p b)
near_iff k none b = (λ h. elim h [ ], λ (p, e, _). absurd (cc))
near_iff k (some p) b = (
  λ h. (p, refl, near-IsUp k p b h),
  λ (q, e, up). let same : p ≡ q = cc in up-IsNear k p b (rw same up),
)

-- The working directory or at most three steps above it, or the program's directory or at most five
-- above it.
abbrev pub IsBase : (cwd exe_dir : Option DirPath) → DirPath → Type 0
IsBase cwd exe_dir b =
    ((p : DirPath) × (cwd ≡ some p) × IsUp 3 p b)
    ⊎ ((p : DirPath) × (exe_dir ≡ some p) × IsUp 5 p b)

pub bases_iff :
    (cwd exe_dir : Option DirPath) (b : DirPath)
    → Any (λ d. d ≡ b) (bases cwd exe_dir) ↔ IsBase cwd exe_dir b
unfolding bases
bases_iff cwd exe_dir b = (to, from)
  where
    to : Any (λ d. d ≡ b) (ancestors_of 4 cwd ++ ancestors_of 6 exe_dir) → IsBase cwd exe_dir b
    to h = elim (Any-append (λ d. d ≡ b) (ancestors_of 4 cwd) (ancestors_of 6 exe_dir) h) [
      | inl near ↦ inl ((near_iff 3 cwd b).0 near)
      | inr near ↦ inr ((near_iff 5 exe_dir b).0 near)
    ]

    from : IsBase cwd exe_dir b → Any (λ d. d ≡ b) (ancestors_of 4 cwd ++ ancestors_of 6 exe_dir)
    from (inl up) =
        Any-append_left (λ d. d ≡ b) (ancestors_of 4 cwd) (ancestors_of 6 exe_dir)
          ((near_iff 3 cwd b).1 up)
    from (inr up) =
        Any-append_right (λ d. d ≡ b) (ancestors_of 4 cwd) (ancestors_of 6 exe_dir)
          ((near_iff 5 exe_dir b).1 up)

abbrev Named : (DirPath → Type 0) → List DirPath → Type 0
Named P ds = (b : DirPath) × Any (λ x. x ≡ b) ds × P b

-- Some item has the property, by naming the item.
pub Any-Named : (P : DirPath → Type 0) (bs : List DirPath) → Any P bs ↔ Named P bs
Any-Named P [] = (λ h. elim h [ ], λ (b, h, _). elim h [ ])
Any-Named P (d ∷ bs) = (to (Any-Named P bs).0, from (Any-Named P bs).1)
  where
    to : (Any P bs → Named P bs) → Any P (d ∷ bs) → Named P (d ∷ bs)
    to ih (inl h) = (d, inl refl, h)
    to ih (inr h) = let (b, there, holds) = ih h in (b, inr there, holds)

    from : (Named P bs → Any P bs) → Named P (d ∷ bs) → Any P (d ∷ bs)
    from ih (b, inl same, h) = inl (subst P (sym same) h)
    from ih (b, inr there, h) = inr (ih (b, there, h))
