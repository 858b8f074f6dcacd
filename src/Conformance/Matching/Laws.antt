-- ===== src/Conformance/Matching/Laws.antt =====
-- A frame matches a template exactly if each part that the template names is there (player.rs).
use lumencast_rs.Prelude.{
  ℕ, ◌+◌, ◌≡◌, refl, ◌≢◌, sym, ap, ◌↔◌, ◌⊎◌, inl, inr, true, Option, none, some, Text, text_eq,
  text_eq_iff, text_eq_refl, ◌==◌, ==_iff, Bool-cases, Result, ok, err, ◌>>◌, map_err,
  map_err-eq-ok, arith,
}
use lumencast_rs.Protocol.Json.{
  Value, null, boolean, number, string, array, object, Items, nil, cons, Members, end, member, get,
}
use lumencast_rs.Conformance.Matching.{
  Mismatch, array_length, at_key, at_index, value_eq, is_sha256_hash, any_sentinel, hash_sentinel,
  match_hash, match_equal, match_string, match_member, count, structural_match, match_members,
  match_items,
}

abbrev IsHashText : Value → Type 0
IsHashText a = (t : Text) × (a ≡ string t) × (is_sha256_hash t ≡ true)

-- What a template says of a value, by the template's own shape.
abbrev pub IsText : Text → Value → Type 0
IsText s a =
    (s ≡ any_sentinel)
    ⊎ ((s ≡ hash_sentinel) × IsHashText a)
    ⊎ ((s ≢ hash_sentinel) × (a ≡ string s))

unfoldable mutual
  pub Matches : Value → Value → Type 0
  Matches (string s) a = IsText s a
  Matches (object e) a = (ms : Members) × (a ≡ object ms) × MatchesMembers e ms
  Matches (array e) a = (vs : Items) × (a ≡ array vs) × MatchesItems e vs
  Matches e a = value_eq e a ≡ true

  pub MatchesMembers : Members → Members → Type 0
  MatchesMembers end ms = Unit
  MatchesMembers (member k e es) ms =
      ((v : Value) × (get k ms ≡ some v) × Matches e v) × MatchesMembers es ms

  pub MatchesItems : Items → Items → Type 0
  MatchesItems nil nil = Unit
  MatchesItems (cons e es) (cons v vs) = Matches e v × MatchesItems es vs
  MatchesItems _ _ = ⊥

match_equal_iff : (e a : Value) → (match_equal e a ≡ ok tt) ↔ (value_eq e a ≡ true)
match_equal_iff e a = ground arith

match_hash_sound : (a : Value) → match_hash a ≡ ok tt → IsHashText a
match_hash_sound null h = absurd (cc)
match_hash_sound (boolean b) h = absurd (cc)
match_hash_sound (number n) h = absurd (cc)
match_hash_sound (string t) h = (t, refl, ground arith)
match_hash_sound (array vs) h = absurd (cc)
match_hash_sound (object ms) h = absurd (cc)

value_eq-string : (s : Text) (a : Value) → value_eq (string s) a ≡ true → a ≡ string s
unfolding value_eq
value_eq-string s null h = absurd (cc)
value_eq-string s (boolean b) h = absurd (cc)
value_eq-string s (number n) h = absurd (cc)
value_eq-string s (string t) h = ap string (sym ((text_eq_iff s t).0 h))
value_eq-string s (array vs) h = absurd (cc)
value_eq-string s (object ms) h = absurd (cc)

match_string_sound : (s : Text) (a : Value) → match_string s a ≡ ok tt → IsText s a
unfolding match_string
match_string_sound s a h = elim (Bool-cases (text_eq s any_sentinel)) [
  | inl is_any ↦ inl ((text_eq_iff s any_sentinel).0 is_any)
  | inr not_any ↦ elim (Bool-cases (text_eq s hash_sentinel)) [
    | inl is_hash ↦ inr (
        inl (
          (text_eq_iff s hash_sentinel).0 is_hash,
          match_hash_sound a (rw (not_any, is_hash) at h),
        ))
    | inr no_hash_ ↦ inr (
        inr (
          λ e. cc ((text_eq_iff s hash_sentinel).1 e),
          value_eq-string s a ((match_equal_iff (string s) a).0 (rw (not_any, no_hash_) at h)),
        ))
  ]
]

match_string_complete : (s : Text) (a : Value) → IsText s a → match_string s a ≡ ok tt
unfolding match_string value_eq text_eq
match_string_complete s a (inl is_any) = rw is_any refl
match_string_complete s a (inr (inl (is_hash, (t, at, good)))) = rw (is_hash, at, good) refl
match_string_complete s a (inr (inr (no_hash_, at))) = elim (Bool-cases (text_eq s any_sentinel)) [
  | inl is_any ↦ rw is_any refl
  | inr not_any ↦ elim (Bool-cases (text_eq s hash_sentinel)) [
    | inl is_hash ↦ absurd (no_hash_ ((text_eq_iff s hash_sentinel).0 is_hash))
    | inr other ↦ rw (not_any, other, at, text_eq_refl s) refl
  ]
]

match_member_sound :
    (k : Text) (m : Value → Result Mismatch (Unit {0})) (o : Option Value)
    → match_member k m o ≡ ok tt
    → (v : Value) × (o ≡ some v) × (m v ≡ ok tt)
match_member_sound k m none h = absurd (cc)
match_member_sound k m (some v) h = (v, refl, map_err-eq-ok (at_key k) (m v) h)

>>-eq-ok :
    (first next : Result Mismatch (Unit {0}))
    → (first >> next) ≡ ok tt
    → (first ≡ ok tt) × (next ≡ ok tt)
>>-eq-ok (ok tt) next h = (refl, h)
>>-eq-ok (err e) next h = absurd (cc)

-- An array of another length fails.
count-match : (vs ws : Items) → MatchesItems vs ws → count vs ≡ count ws
unfolding MatchesItems
count-match nil nil h = refl
count-match nil (cons w ws) h = elim h [ ]
count-match (cons v vs) nil h = elim h [ ]
count-match (cons v vs) (cons w ws) h = ap (◌+◌ 1) (count-match vs ws h.1)

abbrev fails : ℕ → ℕ → Result Mismatch (Unit {0})
fails m n = err (array_length m n)

mutual
  unfolding structural_match match_members match_items value_eq Matches MatchesMembers MatchesItems

  sound : (e a : Value) → structural_match e a ≡ ok tt → Matches e a
  sound null a h = (match_equal_iff null a).0 h
  sound (boolean b) a h = (match_equal_iff (boolean b) a).0 h
  sound (number n) a h = (match_equal_iff (number n) a).0 h
  sound (string s) a h = match_string_sound s a h
  sound (array e) (array a) h = elim (Bool-cases (count e == count a)) [
    | inl same ↦ (a, refl, sound_items 0 e a ((==_iff _ _).0 same) (rw same at h))
    | inr other ↦ let bad : fails (count e) (count a) ≡ ok tt = rw other at h in absurd (cc)
  ]
  sound (array e) null h = absurd (cc)
  sound (array e) (boolean b) h = absurd (cc)
  sound (array e) (number n) h = absurd (cc)
  sound (array e) (string s) h = absurd (cc)
  sound (array e) (object ms) h = absurd (cc)
  sound (object e) (object a) h = (a, refl, sound_members e a h)
  sound (object e) null h = absurd (cc)
  sound (object e) (boolean b) h = absurd (cc)
  sound (object e) (number n) h = absurd (cc)
  sound (object e) (string s) h = absurd (cc)
  sound (object e) (array vs) h = absurd (cc)

  sound_members : (e a : Members) → match_members e a ≡ ok tt → MatchesMembers e a
  sound_members end a h = tt
  sound_members (member k ev es) a h =
      let (here, rest) = >>-eq-ok (match_member k (structural_match ev) (get k a)) _ h in
      let (v, at, m) = match_member_sound k (structural_match ev) (get k a) here in
      ((v, at, sound ev v m), sound_members es a rest)

  sound_items :
      (i : ℕ) (e a : Items) → count e ≡ count a → match_items i e a ≡ ok tt → MatchesItems e a
  sound_items i nil nil same h = tt
  sound_items i nil (cons v vs) same h = absurd (omega (arith, same))
  sound_items i (cons e es) nil same h = absurd (omega (arith, same))
  sound_items i (cons e es) (cons v vs) same h =
      let (here, rest) = >>-eq-ok (map_err (at_index i) (structural_match e v)) _ h in
      (
        sound e v (map_err-eq-ok (at_index i) (structural_match e v) here),
        sound_items (i + 1) es vs (omega (arith, same)) rest,
      )

mutual
  unfolding structural_match match_members match_items Matches MatchesMembers MatchesItems

  complete : (e a : Value) → Matches e a → structural_match e a ≡ ok tt
  complete null a h = (match_equal_iff null a).1 h
  complete (boolean b) a h = (match_equal_iff (boolean b) a).1 h
  complete (number n) a h = (match_equal_iff (number n) a).1 h
  complete (string s) a h = match_string_complete s a h
  complete (array e) a (vs, at, m) =
      rw (at, (==_iff _ _).1 (count-match e vs m)) (complete_items 0 e vs m)
  complete (object e) a (ms, at, m) = rw at (complete_members e ms m)

  complete_members : (e a : Members) → MatchesMembers e a → match_members e a ≡ ok tt
  complete_members end a h = refl
  complete_members (member k ev es) a ((v, at, m), rest) =
      rw (at, complete ev v m) (complete_members es a rest)

  complete_items : (i : ℕ) (e a : Items) → MatchesItems e a → match_items i e a ≡ ok tt
  complete_items i nil nil h = refl
  complete_items i nil (cons v vs) h = elim h [ ]
  complete_items i (cons e es) nil h = elim h [ ]
  complete_items i (cons e es) (cons v vs) h =
      rw (complete e v h.0) (complete_items (i + 1) es vs h.1)

-- A frame matches a template exactly if everything that the template names is there: for each member
-- of an object a member with its key that matches it, whatever else the object has; for each item of
-- an array the item at its place, and no other; `$ANY` stands for every value, `$ANY_HASH` for every
-- content hash; any other value for an equal one.
pub structural_match_iff : (e a : Value) → (structural_match e a ≡ ok tt) ↔ Matches e a
structural_match_iff e a = (sound e a, complete e a)
