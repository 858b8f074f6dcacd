-- ===== src/Protocol/LeafPath/Prefix.antt =====
-- `starts_with_prefix`, and the reserved namespaces as prefixes (leaf_path.rs).
use lumencast_rs.Prelude.{
  ◌≡◌, refl, sym, ap, ◌∙◌, ◌↔◌, ◌≢◌, ◌⊎◌, inl, inr, true, false, List, [], ◌∷◌, ◌++◌, Option, none,
  some, Text, codes, text_eq, text_eq_iff, strip_prefix, strip_prefix_iff, split, join, join-split,
  split-append_cut, split-uncut, ◌==◌, ==_iff, All, Bool-cases, arith,
}
use lumencast_rs.Protocol.LeafPath.{
  LeafPath, Namespace, inputs, system, test, schema, user, dot, first_segment, namespace_of_head,
  namespace_of_rest, namespace_of, namespace, starts_with_dot?, starts_with_prefix,
}

-- A path lies under a prefix if it is the prefix, or the prefix, a dot and a rest.
abbrev pub IsUnder : Text → Text → Type 0
IsUnder prefix s = (s ≡ prefix) ⊎ ((rest : Text) × (s ≡ prefix ++ dot ∷ rest))

starts_with_dot?-sound :
    (prefix s : Text) (o : Option Text)
    → strip_prefix prefix s ≡ o
    → starts_with_dot? o ≡ true
    → IsUnder prefix s
starts_with_dot?-sound prefix s none e h = cc
starts_with_dot?-sound prefix s (some []) e h = cc
starts_with_dot?-sound prefix s (some (b ∷ rest)) e h = inr (
  rest,
  (strip_prefix_iff prefix s (b ∷ rest)).0 e ∙ ap (λ c. prefix ++ c ∷ rest) ((==_iff b dot).0 h),
)

starts_with_dot?-complete :
    (prefix s rest : Text)
    → s ≡ prefix ++ dot ∷ rest
    → starts_with_dot? (strip_prefix prefix s) ≡ true
starts_with_dot?-complete prefix s rest e = rw ((strip_prefix_iff prefix s (dot ∷ rest)).1 e) refl

-- `starts_with_prefix` accepts exactly the paths that are the prefix or continue it after a dot.
pub starts_with_prefix_iff :
    (p : LeafPath) (prefix : Text) → (starts_with_prefix p prefix ≡ true) ↔ IsUnder prefix p.text
unfolding starts_with_prefix
starts_with_prefix_iff p prefix = elim (Bool-cases (text_eq p.text prefix)) [
  | inl same ↦ (λ _. inl ((text_eq_iff p.text prefix).0 same), λ _. rw same)
  | inr other ↦ rw other (starts_with_dot?-sound prefix p.text _ refl, back other)
]
  where
    back :
        text_eq p.text prefix ≡ false
        → IsUnder prefix p.text
        → starts_with_dot? (strip_prefix prefix p.text) ≡ true
    back other (inl e) = cc ((text_eq_iff p.text prefix).1 e)
    back other (inr (rest, e)) = starts_with_dot?-complete prefix p.text rest e

-- The first segment of a text, told by a prefix.
first_segment_iff :
    (w s : Text) → All (λ b. (b == dot) ≡ false) w → (first_segment (split dot s) ≡ w) ↔ IsUnder w s
unfolding first_segment join
first_segment_iff w s h = (go (split dot s) refl, back)
  where
    go : (ws : List Text) → split dot s ≡ ws → first_segment ws ≡ w → IsUnder w s
    go [] e f = inl (sym (join-split dot s) ∙ ap (join dot) e ∙ f)
    go (v ∷ []) e f = inl (sym (join-split dot s) ∙ ap (join dot) e ∙ f)
    go (v ∷ u ∷ ws) e f = inr (
      join dot (u ∷ ws),
      sym (join-split dot s) ∙ ap (join dot) e ∙ ap (λ t. t ++ dot ∷ join dot (u ∷ ws)) f,
    )

    back : IsUnder w s → first_segment (split dot s) ≡ w
    back (inl e) = rw (e, split-uncut dot w h)
    back (inr (rest, e)) = rw (e, split-append_cut dot w rest h)

-- The name of a reserved namespace, after the two underscores.
abbrev pub word_of : Namespace → Text
word_of inputs = codes "inputs"
word_of system = codes "system"
word_of test = codes "test"
word_of schema = codes "schema"
word_of user = []

abbrev pub reserved_prefix : Namespace → Text
reserved_prefix n = codes "__" ++ word_of n

namespace_of_head_iff :
    (n : Namespace) (head : Text) → n ≢ user → (namespace_of_head head ≡ n) ↔ (head ≡ word_of n)
unfolding namespace_of_head
namespace_of_head_iff inputs head h = ground (
  arith,
  text_eq_iff head (codes "inputs"),
  text_eq_iff head (codes "system"),
  text_eq_iff head (codes "test"),
  text_eq_iff head (codes "schema"),
)
namespace_of_head_iff system head h = ground (
  arith,
  text_eq_iff head (codes "inputs"),
  text_eq_iff head (codes "system"),
  text_eq_iff head (codes "test"),
  text_eq_iff head (codes "schema"),
)
namespace_of_head_iff test head h = ground (
  arith,
  text_eq_iff head (codes "inputs"),
  text_eq_iff head (codes "system"),
  text_eq_iff head (codes "test"),
  text_eq_iff head (codes "schema"),
)
namespace_of_head_iff schema head h = ground (
  arith,
  text_eq_iff head (codes "inputs"),
  text_eq_iff head (codes "system"),
  text_eq_iff head (codes "test"),
  text_eq_iff head (codes "schema"),
)
namespace_of_head_iff user head h = absurd (h refl)

word_of-IsDotless : (n : Namespace) → All (λ b. (b == dot) ≡ false) (word_of n)
word_of-IsDotless inputs = ground arith
word_of-IsDotless system = ground arith
word_of-IsDotless test = ground arith
word_of-IsDotless schema = ground arith
word_of-IsDotless user = tt

IsUnder-reserved :
    (n : Namespace) (s : Text)
    → IsUnder (reserved_prefix n) s
    → (rest : Text) × (s ≡ codes "__" ++ rest) × IsUnder (word_of n) rest
IsUnder-reserved n s (inl e) = (word_of n, e, inl refl)
IsUnder-reserved n s (inr (rest, e)) = (word_of n ++ dot ∷ rest, e, inr (rest, refl))

reserved-IsUnder :
    (n : Namespace) (s rest : Text)
    → s ≡ codes "__" ++ rest
    → IsUnder (word_of n) rest
    → IsUnder (reserved_prefix n) s
reserved-IsUnder n s rest e (inl f) = inl (e ∙ ap (λ t. codes "__" ++ t) f)
reserved-IsUnder n s rest e (inr (r, f)) = inr (r, e ∙ ap (λ t. codes "__" ++ t) f)

namespace_of_head-IsUnder :
    (n : Namespace) (rest : Text)
    → n ≢ user
    → (namespace_of_head (first_segment (split dot rest)) ≡ n) ↔ IsUnder (word_of n) rest
namespace_of_head-IsUnder n rest h =
    let (to, from) = namespace_of_head_iff n (first_segment (split dot rest)) h in
    let (to', from') = first_segment_iff (word_of n) rest (word_of-IsDotless n) in
    (λ e. to' (to e), λ u. from (from' u))

namespace_of_iff :
    (n : Namespace) (s : Text) → n ≢ user → (namespace_of s ≡ n) ↔ IsUnder (reserved_prefix n) s
unfolding namespace_of
namespace_of_iff n s h = (go (strip_prefix (codes "__") s) refl, back)
  where
    go :
        (o : Option Text)
        → strip_prefix (codes "__") s ≡ o
        → namespace_of_rest o ≡ n
        → IsUnder (reserved_prefix n) s
    go none e f = absurd (h (sym f))
    go (some rest) e f =
        reserved-IsUnder n s rest ((strip_prefix_iff (codes "__") s rest).0 e)
          ((namespace_of_head-IsUnder n rest h).0 f)

    back : IsUnder (reserved_prefix n) s → namespace_of_rest (strip_prefix (codes "__") s) ≡ n
    back u =
        let (rest, e, v) = IsUnder-reserved n s u in
        ap namespace_of_rest ((strip_prefix_iff (codes "__") s rest).1 e)
        ∙ (namespace_of_head-IsUnder n rest h).1 v

-- A path is in a reserved namespace exactly if it is the namespace's prefix (`__inputs` and its
-- like) or continues it after a dot.
pub namespace_iff :
    (n : Namespace) (p : LeafPath)
    → n ≢ user
    → (namespace p ≡ n) ↔ (starts_with_prefix p (reserved_prefix n) ≡ true)
unfolding namespace
namespace_iff n p h =
    let (to, from) = namespace_of_iff n p.text h in
    let (to', from') = starts_with_prefix_iff p (reserved_prefix n) in
    (λ e. from' (to e), λ e. from (to' e))
