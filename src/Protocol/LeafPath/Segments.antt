-- ===== src/Protocol/LeafPath/Segments.antt =====
-- The segments of a leaf path, from the documentation of `LeafPath`, and `validate` on each of them.
use lumencast_rs.Prelude.{
  ℕ, ◌≡◌, refl, ap, ap₂, ◌≢◌, inl, inr, Bool, true, false, ◌&&◌, ◌||◌, [], ◌∷◌, ◌++◌, Text, codes,
  strip_prefix, strip_prefix_iff, ◌==◌, ==_iff, All, all_sound, all_complete, all, drop, is_empty,
  length-append, Bool-cases, Option-cases, arith, ok,
}
use lumencast_rs.Protocol.LeafPath.{
  is_ascii_digit, is_ascii_alphabetic, is_ident_byte, is_identifier, is_index, is_segment_token,
  is_scope_placeholder, ends_with, init, inner_of, placeholder, starts_with_reserved,
  validate_segment,
}

-- A letter or an underscore, then letters, digits and underscores.
abbrev pub IsIdentifier : Text → Type 0
IsIdentifier s =
    (b : ℕ) × (rest : Text) × (s ≡ b ∷ rest)
    × ((is_ascii_alphabetic b || b == b'_') ≡ true)
    × All (λ c. is_ident_byte c ≡ true) rest

abbrev pub IsReserved : Text → Type 0
IsReserved s = (head : Text) × (s ≡ codes "__" ++ head)

-- A segment, which may be the first of its path. All constructors but `numbered_scope` are those of
-- the documentation; that one is a placeholder whose name starts with a digit, and so is no
-- identifier, which the documentation does not have.
pub data IsSegment (first : Bool) (s : Text) : Type 0 where
  index : s ≢ [] → All (λ c. is_ascii_digit c ≡ true) s → IsSegment first s
  scope : (name : Text) → IsIdentifier name → s ≡ placeholder name → IsSegment first s
  numbered_scope :
      (digit : ℕ) (rest : Text)
      → is_ascii_digit digit ≡ true
      → All (λ c. is_ident_byte c ≡ true) rest
      → s ≡ placeholder (digit ∷ rest)
      → IsSegment first s
  identifier : (first ≡ true → ¬ IsReserved s) → IsIdentifier s → IsSegment first s
  reserved :
      (head : Text) → first ≡ true → IsIdentifier head → s ≡ codes "__" ++ head → IsSegment first s

is_identifier_sound : (s : Text) → is_identifier s ≡ true → IsIdentifier s
unfolding is_identifier
is_identifier_sound [] h = cc
is_identifier_sound (b ∷ rest) h =
    (b, rest, refl, ground arith, all_sound is_ident_byte rest (ground arith))

is_identifier_complete : (s : Text) → IsIdentifier s → is_identifier s ≡ true
unfolding is_identifier
is_identifier_complete s (b, rest, e, head, tail) =
    rw (e, head) (all_complete is_ident_byte rest tail)

init-append : (s : Text) (b : ℕ) → init (s ++ b ∷ []) ≡ s
unfolding init
init-append [] b = refl
init-append (c ∷ []) b = refl
init-append (c ∷ d ∷ s) b = ap (◌∷◌ c) (init-append (d ∷ s) b)

ends_with-append : (c : ℕ) (s : Text) → ends_with c (s ++ c ∷ []) ≡ true
unfolding ends_with
ends_with-append c [] = (==_iff c c).1 refl
ends_with-append c (b ∷ []) = (==_iff c c).1 refl
ends_with-append c (b ∷ d ∷ s) = ends_with-append c (d ∷ s)

append-init : (c b : ℕ) (s : Text) → ends_with c (b ∷ s) ≡ true → b ∷ s ≡ init (b ∷ s) ++ c ∷ []
unfolding ends_with init
append-init c b [] h = ap (λ d. d ∷ []) ((==_iff b c).0 h)
append-init c b (d ∷ s) h = ap (◌∷◌ b) (append-init c d s h)

scope_placeholder : (name : Text) → is_scope_placeholder (placeholder name) ≡ true
unfolding is_scope_placeholder
scope_placeholder name = rw (ends_with-brace name) (ground (arith, length-append name (b'}' ∷ [])))
  where
    ends_with-brace : (name : Text) → ends_with b'}' (placeholder name) ≡ true
    ends_with-brace name = ends_with-append b'}' (b'{' ∷ name)

placeholder-inner_of : (s : Text) → is_scope_placeholder s ≡ true → s ≡ placeholder (inner_of s)
unfolding is_scope_placeholder ends_with
placeholder-inner_of [] h = cc
placeholder-inner_of (b ∷ []) h = ground arith
placeholder-inner_of (b ∷ c ∷ s) h =
    ap₂ ◌∷◌ ((==_iff b b'{').0 (ground arith)) (append-init b'}' c s (ground arith))

not_scope : (b : ℕ) (s : Text) → (b == b'{') ≡ false → is_scope_placeholder (b ∷ s) ≡ false
unfolding is_scope_placeholder
not_scope b s h = rw h

is_segment_token_sound :
    (first : Bool) (s : Text)
    → (first ≡ true → ¬ IsReserved s)
    → is_segment_token s ≡ true
    → IsSegment first s
unfolding is_segment_token is_index is_identifier
is_segment_token_sound first [] r h = absurd (cc)
is_segment_token_sound first (b ∷ s) r h = elim (Bool-cases (all is_ascii_digit (b ∷ s))) [
  | inl digits ↦ index (λ e. cc) (all_sound is_ascii_digit (b ∷ s) digits)
  | inr other ↦ identifier r (is_identifier_sound (b ∷ s) (rw other at h))
]

reserved_sound : (s : Text) → starts_with_reserved s ≡ true → s ≡ codes "__" ++ drop 2 s
reserved_sound s h = elim (Option-cases (strip_prefix (codes "__") s)) [
  | inl e ↦ cc
  | inr (rest, e) ↦ let f = (strip_prefix_iff (codes "__") s rest).0 e in rw f refl
]

reserved_complete : (s : Text) → IsReserved s → starts_with_reserved s ≡ true
reserved_complete s (head, e) = rw ((strip_prefix_iff (codes "__") s head).1 e)

ne-nil : (s : Text) → is_empty s ≡ false → s ≢ []
ne-nil [] h e = cc
ne-nil (b ∷ s) h e = cc

is_empty_ne : (s : Text) → s ≢ [] → is_empty s ≡ false
is_empty_ne [] h = absurd (h refl)
is_empty_ne (b ∷ s) h = refl

-- A name of identifier bytes is an identifier, or starts with a digit.
name_of_scope :
    {first : Bool} {s : Text} (name : Text)
    → name ≢ []
    → All (λ c. is_ident_byte c ≡ true) name
    → s ≡ placeholder name
    → IsSegment first s
name_of_scope [] full word e = absurd (full refl)
name_of_scope (b ∷ rest) full word e = elim (Bool-cases (is_ascii_digit b)) [
  | inl digit ↦ numbered_scope b rest digit word.1 e
  | inr other ↦
      let head : (is_ascii_alphabetic b || b == b'_') ≡ true =
        let w = word.0 in unfold is_ident_byte in ground arith in
      scope (b ∷ rest) (b, rest, refl, head, word.1) e
]

identifier_word : (s : Text) → IsIdentifier s → All (λ c. is_ident_byte c ≡ true) s
unfolding is_ident_byte
identifier_word s (b, rest, e, head, tail) = rw e (ground arith, tail)

validate_scope :
    (i b : ℕ) (s : Text)
    → is_scope_placeholder (b ∷ s) ≡ true
    → validate_segment i (b ∷ s) ≡ ok tt
    → IsSegment (i == 0) (b ∷ s)
unfolding validate_segment
validate_scope i b s held h =
    let (full, word) : (is_empty (inner_of (b ∷ s)) ≡ false)
        × (all is_ident_byte (inner_of (b ∷ s)) ≡ true) =
      (ground arith, ground arith) in
    name_of_scope (inner_of (b ∷ s)) (ne-nil _ full) (all_sound is_ident_byte _ word)
      (placeholder-inner_of (b ∷ s) held)

validate_plain :
    (i b : ℕ) (s : Text)
    → is_scope_placeholder (b ∷ s) ≡ false
    → validate_segment i (b ∷ s) ≡ ok tt
    → IsSegment (i == 0) (b ∷ s)
unfolding validate_segment
validate_plain i b s other h = elim (Bool-cases (i == 0 && starts_with_reserved (b ∷ s))) [
  | inl both ↦
      let word : is_identifier (drop 1 s) ≡ true = ground arith in
      reserved (drop 1 s) (ground arith) (is_identifier_sound _ word)
        (reserved_sound (b ∷ s) (ground arith))
  | inr neither ↦
      is_segment_token_sound (i == 0) (b ∷ s)
        (λ first r. ground (arith, reserved_complete (b ∷ s) r)) (ground arith)
]

-- Each round of the loop accepts exactly the segments of the grammar.
pub validate_segment_sound :
    (i : ℕ) (s : Text) → validate_segment i s ≡ ok tt → IsSegment (i == 0) s
validate_segment_sound i [] h = absurd (unfold validate_segment in cc)
validate_segment_sound i (b ∷ s) h = elim (Bool-cases (is_scope_placeholder (b ∷ s))) [
  | inl held ↦ validate_scope i b s held h
  | inr other ↦ validate_plain i b s other h
]

-- What `validate_segment` answers for a segment that is no placeholder and not reserved.
validate_token :
    (i b : ℕ) (s : Text)
    → (b == b'{') ≡ false
    → (i == 0 && starts_with_reserved (b ∷ s)) ≡ false
    → is_segment_token (b ∷ s) ≡ true
    → validate_segment i (b ∷ s) ≡ ok tt
unfolding validate_segment
validate_token i b s brace free token = rw (not_scope b s brace, free, token)

reserved_head : (b : ℕ) (s : Text) → starts_with_reserved (b ∷ s) ≡ true → b ≡ b'_'
reserved_head b s h = cc (reserved_sound (b ∷ s) h)

index_complete :
    (i : ℕ) (s : Text)
    → s ≢ []
    → All (λ c. is_ascii_digit c ≡ true) s
    → validate_segment i s ≡ ok tt
unfolding is_segment_token is_index
index_complete i [] h d = absurd (h refl)
index_complete i (b ∷ s) h d =
    validate_token i b s (ground (arith, d.0)) (ground (arith, d.0, reserved_head b s))
      (ground (arith, all_complete is_ascii_digit (b ∷ s) d))

identifier_complete :
    (i : ℕ) (s : Text)
    → ((i == 0) ≡ true → ¬ IsReserved s)
    → IsIdentifier s
    → validate_segment i s ≡ ok tt
unfolding is_segment_token
identifier_complete i s free (b, rest, e, head, tail) = rw e (
    validate_token i b rest (ground arith) unreserved
      (ground (arith, is_identifier_complete (b ∷ rest) (b, rest, refl, head, tail))))
  where
    unreserved : (i == 0 && starts_with_reserved (b ∷ rest)) ≡ false
    unreserved = elim (Bool-cases (i == 0 && starts_with_reserved (b ∷ rest))) [
      | inl both ↦ absurd (free (ground arith) (drop 2 s, reserved_sound s (rw e (ground arith))))
      | inr neither ↦ neither
    ]

scope_complete :
    (i : ℕ) (name : Text)
    → name ≢ []
    → All (λ c. is_ident_byte c ≡ true) name
    → validate_segment i (placeholder name) ≡ ok tt
unfolding validate_segment
scope_complete i name full word = rw (
  scope_placeholder name,
  init-append name b'}',
  is_empty_ne name full,
  all_complete is_ident_byte name word,
)

pub identifier_ne : (s : Text) → IsIdentifier s → s ≢ []
identifier_ne s (b, rest, e, _, _) f = cc

reserved_first_complete :
    (i : ℕ) (head : Text)
    → (i == 0) ≡ true
    → IsIdentifier head
    → validate_segment i (codes "__" ++ head) ≡ ok tt
unfolding validate_segment strip_prefix
reserved_first_complete i head first word = rw (
  not_scope b'_' (b'_' ∷ head) refl,
  first,
  is_empty_ne head (identifier_ne head word),
  is_identifier_complete head word,
)

pub validate_segment_complete :
    (i : ℕ) (s : Text) → IsSegment (i == 0) s → validate_segment i s ≡ ok tt
validate_segment_complete i s (index full digits) = index_complete i s full digits
validate_segment_complete i s (scope name word e) =
    rw e (scope_complete i name (identifier_ne name word) (identifier_word name word))
validate_segment_complete i s (numbered_scope digit rest d word e) =
    rw e
      (scope_complete i (digit ∷ rest) (λ f. cc) (unfold is_ident_byte in ground (arith, d), word))
validate_segment_complete i s (identifier free word) = identifier_complete i s free word
validate_segment_complete i s (reserved head first word e) =
    rw e (reserved_first_complete i head first word)
