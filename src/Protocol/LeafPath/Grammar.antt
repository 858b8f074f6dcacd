-- ===== src/Protocol/LeafPath/Grammar.antt =====
-- The grammar of leaf paths, from the documentation of `LeafPath` and what `validate` accepts beside it.
use lumencast_rs.Prelude.{
  ℕ, ◌+◌, ◌≡◌, refl, sym, ◌↔◌, ◌≢◌, Bool, true, false, List, [], ◌∷◌, Text, split, join, join-split,
  split-join, ◌==◌, All, All-append, All-mono, is_empty, arith, ok,
}
use lumencast_rs.Protocol.LeafPath.{
  dot, is_ident_byte, validate_segment, validate_segments, validate, parse,
}
use lumencast_rs.Protocol.LeafPath.Segments.{
  index, scope, numbered_scope, identifier, reserved, IsIdentifier, IsSegment,
  validate_segment_sound, identifier_ne, validate_segment_complete,
}

-- A path is a first segment and later ones, joined by dots.
abbrev pub IsLeafPath : Text → Type 0
IsLeafPath s =
    (w : Text) × (ws : List Text) × (s ≡ join dot (w ∷ ws))
    × IsSegment true w
    × All (IsSegment false) ws

abbrev IsDotless : Text → Type 0
IsDotless = All (λ b. (b == dot) ≡ false)

word-IsDotless : (s : Text) → All (λ c. is_ident_byte c ≡ true) s → IsDotless s
word-IsDotless = All-mono _ _ (λ c h. unfold is_ident_byte in ground arith)

IsIdentifier-IsDotless : (s : Text) → IsIdentifier s → IsDotless s
IsIdentifier-IsDotless s (b, rest, e, head, tail) = rw e (ground arith, word-IsDotless rest tail)

IsSegment-IsDotless : (first : Bool) (s : Text) → IsSegment first s → IsDotless s
IsSegment-IsDotless first s (index full digits) = All-mono _ _ (λ c h. ground arith) s digits
IsSegment-IsDotless first s (scope name word e) =
    rw e (refl, All-append _ name (b'}' ∷ []) (IsIdentifier-IsDotless name word) (refl, tt))
IsSegment-IsDotless first s (numbered_scope digit rest d word e) = rw e (
  refl,
  All-append _ (digit ∷ rest) (b'}' ∷ []) (ground (arith, d), word-IsDotless rest word) (refl, tt),
)
IsSegment-IsDotless first s (identifier free word) = IsIdentifier-IsDotless s word
IsSegment-IsDotless first s (reserved head e word f) =
    rw f (refl, (refl, IsIdentifier-IsDotless head word))

IsSegment-ne : (first : Bool) (s : Text) → IsSegment first s → s ≢ []
IsSegment-ne first s (index full digits) = full
IsSegment-ne first s (scope name word e) = λ f. cc
IsSegment-ne first s (numbered_scope digit rest d word e) = λ f. cc
IsSegment-ne first s (identifier free word) = identifier_ne s word
IsSegment-ne first s (reserved head e word f) = λ g. cc

join-ne : (c : ℕ) (w : Text) (ws : List Text) → w ≢ [] → is_empty (join c (w ∷ ws)) ≡ false
unfolding join
join-ne c [] ws h = absurd (h refl)
join-ne c (b ∷ w) [] h = refl
join-ne c (b ∷ w) (v ∷ ws) h = refl

later_sound :
    (i : ℕ) (ws : List Text)
    → (i == 0) ≡ false
    → validate_segments i ws ≡ ok tt
    → All (IsSegment false) ws
unfolding validate_segments
later_sound i [] later h = tt
later_sound i (w ∷ ws) later h =
    let here : validate_segment i w ≡ ok tt = ground arith in
    (
      rw later at (validate_segment_sound i w here),
      later_sound (i + 1) ws (ground arith) (ground arith),
    )

later_complete :
    (i : ℕ) (ws : List Text)
    → (i == 0) ≡ false
    → All (IsSegment false) ws
    → validate_segments i ws ≡ ok tt
unfolding validate_segments
later_complete i [] later h = refl
later_complete i (w ∷ ws) later h =
    rw (validate_segment_complete i w (rw later h.0)) (later_complete (i + 1) ws (ground arith) h.1)

segments_sound :
    (s : Text) (ws : List Text)
    → join dot ws ≡ s
    → is_empty s ≡ false
    → validate_segments 0 ws ≡ ok tt
    → IsLeafPath s
unfolding validate_segments join
segments_sound s [] e full h = cc
segments_sound s (w ∷ ws) e full h =
    let here : validate_segment 0 w ≡ ok tt = ground arith in
    (w, ws, sym e, validate_segment_sound 0 w here, later_sound 1 ws refl (ground arith))

segments_complete :
    (w : Text) (ws : List Text)
    → IsSegment true w
    → All (IsSegment false) ws
    → validate_segments 0 (w ∷ ws) ≡ ok tt
unfolding validate_segments
segments_complete w ws head tail =
    rw (validate_segment_complete 0 w head) (later_complete 1 ws refl tail)

-- `LeafPath::parse` accepts a text exactly if it is segments joined by dots, each an index, an
-- identifier, a placeholder or, for the first, a reserved name, and keeps the text as it is. This is
-- the documented grammar but for two things: the name in a placeholder may also start with a digit, as
-- in `{9}`, and a placeholder is accepted in every path, inside a repeat template or not.
pub parse_iff : (s : Text) → (parse s ≡ ok (record { text = s })) ↔ IsLeafPath s
unfolding parse validate
parse_iff s = (sound, complete)
  where
    sound : parse s ≡ ok (record { text = s }) → IsLeafPath s
    sound h = segments_sound s (split dot s) (join-split dot s) (ground arith) (ground arith)

    complete : IsLeafPath s → parse s ≡ ok (record { text = s })
    complete (w, ws, e, head, tail) =
        let cut : split dot s ≡ w ∷ ws = rw e (
          split-join dot w ws
            (IsSegment-IsDotless true w head, All-mono _ _ (IsSegment-IsDotless false) ws tail)) in
        let full : is_empty s ≡ false = rw e (join-ne dot w ws (IsSegment-ne true w head)) in
        rw (full, cut) (rw (segments_complete w ws head tail))
