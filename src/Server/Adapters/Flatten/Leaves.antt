-- ===== src/Server/Adapters/Flatten/Leaves.antt =====
-- The pairs that a document is flattened into are its leaves (adapters/flatten.rs).
use lumencast_rs.Prelude.{
  ℕ, ◌≡◌, refl, sym, ap, subst, ◌∙◌, ◌↔◌, inl, inr, false, List, [], ◌∷◌, ◌++◌, append_assoc,
  append-nil, Text, is_empty, Any, Any-append, Any-append_left, Any-append_right, join, arith,
}
use lumencast_rs.Protocol.Json.{
  Value, null, boolean, number, string, array, object, Members, end, member, is_object, Has, first,
  later,
}
use lumencast_rs.Protocol.LeafPath.{dot}
use lumencast_rs.Server.Adapters.Flatten.{child_path, walk, walk_members, flatten_into_pairs}

-- A path of keys leads from a value to one inside it.
pub data Reaches (v : Value) : List Text → Value → Type 0 where
  stop : Reaches v [] v
  descend :
      {k : Text} {ks : List Text} {w : Value} {ms : Members}
      → Has k w ms
      → Reaches v ks w
      → Reaches v (k ∷ ks) (object ms)

-- A leaf of a document: no object, reached by keys that the path joins by dots after the prefix.
abbrev pub IsLeafAt : Text → Value → Text × Value → Type 0
IsLeafAt prefix root q =
    (ks : List Text) × (Reaches q.1 ks root)
    × (is_object q.1 ≡ false)
    × (q.0 ≡ join dot (prefix ∷ ks))

mutual
  unfolding walk walk_members

  walk-append :
      (path : Text) (v : Value) (out : List (Text × Value))
      → walk path v out ≡ out ++ walk path v []
  walk-append path null out = ground (arith, append-nil out)
  walk-append path (boolean b) out = ground (arith, append-nil out)
  walk-append path (number n) out = ground (arith, append-nil out)
  walk-append path (string s) out = ground (arith, append-nil out)
  walk-append path (array vs) out = ground (arith, append-nil out)
  walk-append path (object ms) out = walk_members-append path ms out

  walk_members-append :
      (path : Text) (ms : Members) (out : List (Text × Value))
      → walk_members path ms out ≡ out ++ walk_members path ms []
  walk_members-append path end out = sym (append-nil out)
  walk_members-append path (member k v ms) out =
      walk_members-append path ms (walk (child_path path k) v out)
      ∙ ap (λ xs. xs ++ walk_members path ms []) (walk-append (child_path path k) v out)
      ∙ append_assoc out (walk (child_path path k) v []) (walk_members path ms [])
      ∙ ap (◌++◌ out) (sym (walk_members-append path ms (walk (child_path path k) v [])))

-- A key goes to the end of the prefix, or to the front of the keys that follow.
join-child_path :
    (b : ℕ) (s k : Text) (ks : List Text)
    → join dot (child_path (b ∷ s) k ∷ ks) ≡ join dot ((b ∷ s) ∷ k ∷ ks)
unfolding join
join-child_path b s k [] = refl
join-child_path b s k (j ∷ ks) = ap (◌∷◌ b) (append_assoc s (dot ∷ k) (dot ∷ join dot (j ∷ ks)))

-- The leaves below a member, and those below the other members.
abbrev IsLeafOf : Text → Members → Text × Value → Type 0
IsLeafOf prefix ms q = IsLeafAt prefix (object ms) q

climb :
    (b : ℕ) (s k : Text) (w : Value) (ms : Members) (q : Text × Value)
    → Has k w ms
    → IsLeafAt (child_path (b ∷ s) k) w q
    → IsLeafOf (b ∷ s) ms q
climb b s k w ms q has (ks, way, leaf, at) =
    (k ∷ ks, descend has way, leaf, at ∙ join-child_path b s k ks)

widen :
    (p k : Text) (w : Value) (ms : Members) (q : Text × Value)
    → IsLeafOf p ms q
    → IsLeafOf p (member k w ms) q
widen p k w ms q ([], way, leaf, at) = absurd (stopped way leaf)
  where
    stopped : {v : Value} → Reaches v [] (object ms) → is_object v ≡ false → ⊥
    stopped stop leaf = cc
widen p k w ms q (j ∷ ks, way, leaf, at) = (j ∷ ks, onto way, leaf, at)
  where
    onto :
        {v : Value} → Reaches v (j ∷ ks) (object ms) → Reaches v (j ∷ ks) (object (member k w ms))
    onto (descend has rest) = descend (later has) rest

leaf_alone :
    (p : Text) (v : Value) (q : Text × Value)
    → is_object v ≡ false
    → Any (λ r. r ≡ q) ((p, v) ∷ [])
    → IsLeafAt p v q
leaf_alone p v q leaf (inl same) = subst (IsLeafAt p v) same ([], stop, leaf, unfold join in refl)
leaf_alone p v q leaf (inr none) = elim none [ ]

mutual
  unfolding walk walk_members

  walk_sound :
      (b : ℕ) (s : Text) (v : Value) (q : Text × Value)
      → Any (λ r. r ≡ q) (walk (b ∷ s) v [])
      → IsLeafAt (b ∷ s) v q
  walk_sound b s null q h = leaf_alone (b ∷ s) null q refl h
  walk_sound b s (boolean c) q h = leaf_alone (b ∷ s) (boolean c) q refl h
  walk_sound b s (number n) q h = leaf_alone (b ∷ s) (number n) q refl h
  walk_sound b s (string t) q h = leaf_alone (b ∷ s) (string t) q refl h
  walk_sound b s (array vs) q h = leaf_alone (b ∷ s) (array vs) q refl h
  walk_sound b s (object ms) q h = walk_members_sound b s ms q h

  walk_members_sound :
      (b : ℕ) (s : Text) (ms : Members) (q : Text × Value)
      → Any (λ r. r ≡ q) (walk_members (b ∷ s) ms [])
      → IsLeafOf (b ∷ s) ms q
  walk_members_sound b s end q h = elim h [ ]
  walk_members_sound b s (member k v ms) q h =
      elim (Any-append (λ r. r ≡ q) (walk (child_path (b ∷ s) k) v []) (walk_members (b ∷ s) ms [])
        (subst (Any (λ r. r ≡ q)) (walk_members-append (b ∷ s) ms _) h)) [
          | inl here ↦ climb b s k v (member k v ms) q first (walk_sound b (s ++ dot ∷ k) v q here)
          | inr there ↦ widen (b ∷ s) k v ms q (walk_members_sound b s ms q there)
        ]

-- Only an object has something below it.
leaf_pushed :
    (p : Text) (root : Value) (q : Text × Value)
    → is_object root ≡ false
    → IsLeafAt p root q
    → (p, root) ≡ q
unfolding join
leaf_pushed p root (path, v) leaf ([], way, _, at) = let same = ended way in cc
  where
    ended : {u w : Value} → Reaches w [] u → w ≡ u
    ended stop = refl
leaf_pushed p root (path, v) leaf (k ∷ ks, way, _, at) = absurd (below way leaf)
  where
    below : {u w : Value} → Reaches w (k ∷ ks) u → is_object u ≡ false → ⊥
    below (descend has rest) leaf = cc

mutual
  unfolding walk walk_members

  walk_complete :
      (b : ℕ) (s : Text) (v : Value) (q : Text × Value)
      → IsLeafAt (b ∷ s) v q
      → Any (λ r. r ≡ q) (walk (b ∷ s) v [])
  walk_complete b s null q h = inl (leaf_pushed _ null q refl h)
  walk_complete b s (boolean c) q h = inl (leaf_pushed _ (boolean c) q refl h)
  walk_complete b s (number n) q h = inl (leaf_pushed _ (number n) q refl h)
  walk_complete b s (string t) q h = inl (leaf_pushed _ (string t) q refl h)
  walk_complete b s (array vs) q h = inl (leaf_pushed _ (array vs) q refl h)
  walk_complete b s (object ms) q ([], stop, leaf, at) = absurd (cc)
  walk_complete b s (object ms) q (k ∷ ks, descend has way, leaf, at) =
      walk_members_complete b s ms q k ks has way leaf (at ∙ sym (join-child_path b s k ks))

  walk_members_complete :
      (b : ℕ) (s : Text) (ms : Members) (q : Text × Value) (k : Text) (ks : List Text) {w : Value}
      → Has k w ms
      → Reaches q.1 ks w
      → is_object q.1 ≡ false
      → q.0 ≡ join dot (child_path (b ∷ s) k ∷ ks)
      → Any (λ r. r ≡ q) (walk_members (b ∷ s) ms [])
  walk_members_complete b s end q k ks has way leaf at = elim has [ ]
  walk_members_complete b s (member k v ms) q _ ks first way leaf at =
      subst (Any (λ r. r ≡ q)) (sym (walk_members-append (b ∷ s) ms _)) (
        Any-append_left _ (walk (child_path (b ∷ s) k) v []) _
          (walk_complete b (s ++ dot ∷ k) v q (ks, way, leaf, at)))
  walk_members_complete b s (member j v ms) q k ks (later has) way leaf at =
      subst (Any (λ r. r ≡ q)) (sym (walk_members-append (b ∷ s) ms _)) (
        Any-append_right _ (walk (child_path (b ∷ s) j) v []) _
          (walk_members_complete b s ms q k ks has way leaf at))

-- Under a prefix that is not empty, a document is flattened into exactly its leaves: the pairs of a
-- value that is no object, and of the prefix and the keys that lead to the value, joined by dots.
pub flatten_into_pairs_iff :
    (prefix : Text) (root : Value) (q : Text × Value)
    → is_empty prefix ≡ false
    → Any (λ r. r ≡ q) (flatten_into_pairs prefix root) ↔ IsLeafAt prefix root q
unfolding flatten_into_pairs
flatten_into_pairs_iff [] root q h = absurd (cc)
flatten_into_pairs_iff (b ∷ s) root q h = (walk_sound b s root q, walk_complete b s root q)
