-- ===== src/Cli/Candidates.antt =====
-- Where the command looks for scenarios (main.rs).
use lumencast_rs.Prelude.{
  ◌≡◌, ◌↔◌, ◌⊎◌, inl, inr, refl, sym, ◌∙◌, true, false, ◌||◌, Bool-cases, List, [], ◌∷◌, ◌++◌,
  append_assoc, Option, codes, text_eq_iff, any, Any, any_sound, any_complete, Any-append,
  Any-append_left, Any-append_right, arith,
}
use lumencast_rs.Cli.{
  DirPath, path_eq, direct, sibling, bases, push_new, push_candidates, scenario_dir_candidates,
}
use lumencast_rs.Cli.Bases.{IsBase, bases_iff, Any-Named}

path_eq_iff : (p q : DirPath) → (path_eq p q ≡ true) ↔ (p ≡ q)
unfolding path_eq
path_eq_iff [] [] = ground arith
path_eq_iff [] (b ∷ q) = ground arith
path_eq_iff (a ∷ p) [] = ground arith
path_eq_iff (a ∷ p) (b ∷ q) = ground (arith, text_eq_iff a b, path_eq_iff p q)

-- No path stands twice.
abbrev IsNew : DirPath → List DirPath → Type 0
IsNew c out = any (path_eq c) out ≡ false

abbrev IsFresh : List DirPath → Type 0
IsFresh [] = Unit
IsFresh (c ∷ cs) = IsNew c cs × IsFresh cs

path_eq_comm : (p q : DirPath) → path_eq p q ≡ false → path_eq q p ≡ false
path_eq_comm p q h = elim (Bool-cases (path_eq q p)) [
  | inl same ↦ absurd (cc ((path_eq_iff p q).1 (sym ((path_eq_iff q p).0 same))))
  | inr other ↦ other
]

still-IsNew :
    (c x : DirPath) (xs : List DirPath) → path_eq c x ≡ false → IsNew x xs → IsNew x (xs ++ c ∷ [])
still-IsNew c x [] apart n = rw (path_eq_comm c x apart) refl
still-IsNew c x (y ∷ ys) apart n = rw (left n) (still-IsNew c x ys apart (rw (left n) at n))
  where
    left : path_eq x y || any (path_eq x) ys ≡ false → path_eq x y ≡ false
    left h = ground arith

snoc-IsFresh :
    (c : DirPath) (out : List DirPath) → IsNew c out → IsFresh out → IsFresh (out ++ c ∷ [])
snoc-IsFresh c [] n d = (refl, tt)
snoc-IsFresh c (x ∷ xs) n d =
    (still-IsNew c x xs (ground arith) d.0, snoc-IsFresh c xs (ground arith) d.1)

push_new-IsFresh : (c : DirPath) (out : List DirPath) → IsFresh out → IsFresh (push_new c out)
unfolding push_new
push_new-IsFresh c out d = elim (Bool-cases (any (path_eq c) out)) [
  | inl old ↦ rw old d
  | inr new ↦ rw new (snoc-IsFresh c out new d)
]

push_candidates-IsFresh : (bs out : List DirPath) → IsFresh out → IsFresh (push_candidates bs out)
unfolding push_candidates
push_candidates-IsFresh [] out d = d
push_candidates-IsFresh (b ∷ bs) out d =
    push_candidates-IsFresh bs _
      (push_new-IsFresh (sibling b) _ (push_new-IsFresh (direct b) out d))

abbrev pub IsDistinct : List DirPath → Type 0
IsDistinct [] = Unit
IsDistinct (c ∷ cs) = (¬ Any (λ d. d ≡ c) cs) × IsDistinct cs

fresh-IsDistinct : (cs : List DirPath) → IsFresh cs → IsDistinct cs
fresh-IsDistinct [] h = tt
fresh-IsDistinct (c ∷ cs) (new, rest) = (absent, fresh-IsDistinct cs rest)
  where
    absent : ¬ Any (λ d. d ≡ c) cs
    absent there =
        let again =
          any_complete (path_eq c) (λ d. d ≡ c) (λ d e. sym ((path_eq_iff c d).0 e))
            (λ d e. (path_eq_iff c d).1 (sym e)) cs there in
        absurd (cc)

-- What is pushed is there, with what was there before, and nothing else is.
module _ (c : DirPath) where
  abbrev IsIn : List DirPath → Type 0
  IsIn out = Any (λ d. d ≡ c) out

  push_new_iff : (d : DirPath) (out : List DirPath) → IsIn (push_new d out) ↔ (IsIn out ⊎ (d ≡ c))
  unfolding push_new
  push_new_iff d out = elim (Bool-cases (any (path_eq d) out)) [
    | inl old ↦ rw old (λ h. inl h, kept old)
    | inr new ↦ rw new (split_, back)
  ]
    where
      kept : any (path_eq d) out ≡ true → IsIn out ⊎ (d ≡ c) → IsIn out
      kept old (inl h) = h
      kept old (inr same) =
          any_sound (path_eq d) (λ x. x ≡ c) (λ x e. sym ((path_eq_iff d x).0 e) ∙ same)
            (λ x e. (path_eq_iff d x).1 (same ∙ sym e)) out old

      split_ : IsIn (out ++ d ∷ []) → IsIn out ⊎ (d ≡ c)
      split_ h = elim (Any-append (λ x. x ≡ c) out (d ∷ []) h) [
        | inl before ↦ inl before
        | inr last ↦ inr (only last)
      ]
        where
          only : IsIn (d ∷ []) → d ≡ c
          only (inl e) = e
          only (inr e) = elim e [ ]

      back : IsIn out ⊎ (d ≡ c) → IsIn (out ++ d ∷ [])
      back (inl h) = Any-append_left (λ x. x ≡ c) out (d ∷ []) h
      back (inr same) = Any-append_right (λ x. x ≡ c) out (d ∷ []) (inl same)

  -- The conventional place below a base, or in a checkout beside it.
  abbrev pub IsBelow : DirPath → Type 0
  IsBelow b = (direct b ≡ c) ⊎ (sibling b ≡ c)

  push_candidates_iff :
      (bs out : List DirPath) → IsIn (push_candidates bs out) ↔ (IsIn out ⊎ Any IsBelow bs)
  unfolding push_candidates
  push_candidates_iff [] out = (inl, empty_)
    where
      empty_ : IsIn out ⊎ Any IsBelow [] → IsIn out
      empty_ (inl h) = h
      empty_ (inr h) = elim h [ ]
  push_candidates_iff (b ∷ bs) out =
      let outer = push_new_iff (sibling b) (push_new (direct b) out) in
      let inner = push_new_iff (direct b) out in
      let rest = push_candidates_iff bs (push_new (sibling b) (push_new (direct b) out)) in
      (
        λ h. elim (rest.0 h) [
          | inr below ↦ inr (inr below)
          | inl pushed ↦ elim (outer.0 pushed) [
            | inr at ↦ inr (inl (inr at))
            | inl before ↦ elim (inner.0 before) [ inl old ↦ inl old | inr at ↦ inr (inl (inl at)) ]
          ]
        ],
        λ h. rest.1 (elim h [
          | inl old ↦ inl (outer.1 (inl (inner.1 (inl old))))
          | inr (inl (inl at)) ↦ inl (outer.1 (inl (inner.1 (inr at))))
          | inr (inl (inr at)) ↦ inl (outer.1 (inr at))
          | inr (inr below) ↦ inr below
        ]),
      )

-- `conformance/v1/scenarios` below a directory, or below `lumencast-protocol` in it.
abbrev pub IsPlace : DirPath → DirPath → Type 0
IsPlace c b =
    (c ≡ b ++ codes "conformance" ∷ codes "v1" ∷ codes "scenarios" ∷ [])
    ⊎ (c
        ≡ b
          ++ codes "lumencast-protocol" ∷ codes "conformance" ∷ codes "v1" ∷ codes "scenarios" ∷ [])

IsBelow-iff : (c b : DirPath) → IsBelow c b ↔ IsPlace c b
IsBelow-iff c b = (to, from)
  where
    at :
        (b ++ codes "lumencast-protocol" ∷ [])
          ++ codes "conformance" ∷ codes "v1" ∷ codes "scenarios" ∷ []
        ≡ b
          ++ codes "lumencast-protocol" ∷ codes "conformance" ∷ codes "v1" ∷ codes "scenarios" ∷ []
    at = append_assoc b (codes "lumencast-protocol" ∷ []) _

    to : IsBelow c b → IsPlace c b
    to (inl e) = inl (sym e)
    to (inr e) = inr (sym e ∙ at)

    from : IsPlace c b → IsBelow c b
    from (inl e) = inl (sym e)
    from (inr e) = inr (at ∙ sym e)

-- The candidates for the directory of scenarios are, without repetition, exactly these places:
-- `conformance/v1/scenarios`, below a base or below `lumencast-protocol` in a base. A base is the
-- working directory or at most three steps above it, or the program's directory or at most five
-- steps above it; a directory that is not known has no bases.
pub scenario_dir_candidates_iff :
    (cwd exe_dir : Option DirPath)
    → IsDistinct (scenario_dir_candidates cwd exe_dir)
      × ((c : DirPath)
          → Any (λ d. d ≡ c) (scenario_dir_candidates cwd exe_dir)
            ↔ ((b : DirPath) × IsBase cwd exe_dir b × IsPlace c b))
unfolding scenario_dir_candidates
scenario_dir_candidates_iff cwd exe_dir =
    (fresh-IsDistinct _ (push_candidates-IsFresh (bases cwd exe_dir) [] tt), λ c. (to c, from c))
  where
    in_bases :
        (c : DirPath)
        → Any (λ d. d ≡ c) [] ⊎ Any (IsBelow c) (bases cwd exe_dir)
        → Any (IsBelow c) (bases cwd exe_dir)
    in_bases c (inl h) = elim h [ ]
    in_bases c (inr h) = h

    to :
        (c : DirPath)
        → Any (λ d. d ≡ c) (push_candidates (bases cwd exe_dir) [])
        → (b : DirPath) × IsBase cwd exe_dir b × IsPlace c b
    to c h =
        let pushed = (push_candidates_iff c (bases cwd exe_dir) []).0 h in
        let (b, there, below) = (Any-Named (IsBelow c) _).0 (in_bases c pushed) in
        (b, (bases_iff cwd exe_dir b).0 there, (IsBelow-iff c b).0 below)

    from :
        (c : DirPath)
        → ((b : DirPath) × IsBase cwd exe_dir b × IsPlace c b)
        → Any (λ d. d ≡ c) (push_candidates (bases cwd exe_dir) [])
    from c (b, base, place) = (push_candidates_iff c (bases cwd exe_dir) []).1 (
        inr (
          (Any-Named (IsBelow c) _).1
            (b, (bases_iff cwd exe_dir b).1 base, (IsBelow-iff c b).1 place)))
