-- ===== src/Protocol/LeafPath/Scopes.antt =====
-- Scope placeholders and their substitution (leaf_path.rs).
use lumencast_rs.Prelude.{
  ℕ, ◌≡◌, refl, ap, ◌∙◌, false, List, [], ◌∷◌, ◌++◌, some, Text, strip_prefix, strip_prefix_iff,
  is_some, All, ◌==◌, any, arith, length, ◌-◌,
}
use lumencast_rs.Protocol.LeafPath.{replace_from, placeholder, substitute_text, substitute}

no_match :
    (b : ℕ) (name s : Text)
    → (b == b'{') ≡ false
    → is_some (strip_prefix (placeholder name) (b ∷ s)) ≡ false
unfolding strip_prefix
no_match b name s h = ground arith

abbrev pub IsBraceless : Text → Type 0
IsBraceless s = any (λ b. b == b'{') s ≡ false

-- A text without an opening brace is passed over.
replace_from-append :
    (name to w s : Text)
    → IsBraceless w
    → replace_from (placeholder name) to 0 (w ++ s) ≡ w ++ replace_from (placeholder name) to 0 s
unfolding replace_from
replace_from-append name to [] s h = refl
replace_from-append name to (b ∷ w) s h =
    rw (no_match b name (w ++ s) (ground arith))
      (ap (◌∷◌ b) (replace_from-append name to w s (ground arith)))

replace_from-braceless :
    (name to s : Text) → IsBraceless s → replace_from (placeholder name) to 0 s ≡ s
unfolding replace_from
replace_from-braceless name to [] h = refl
replace_from-braceless name to (b ∷ s) h =
    rw (no_match b name s (ground arith))
      (ap (◌∷◌ b) (replace_from-braceless name to s (ground arith)))

replace_from-skip :
    (needle to skipped s : Text)
    → replace_from needle to (length skipped) (skipped ++ s) ≡ replace_from needle to 0 s
unfolding replace_from
replace_from-skip needle to [] s = refl
replace_from-skip needle to (b ∷ skipped) s = replace_from-skip needle to skipped s

replace_from-hit :
    (name to s : Text)
    → replace_from (placeholder name) to 0 (placeholder name ++ s)
      ≡ to ++ replace_from (placeholder name) to 0 s
unfolding replace_from
replace_from-hit name to s =
    let found : strip_prefix (placeholder name) (placeholder name ++ s) ≡ some s =
      (strip_prefix_iff (placeholder name) _ s).1 refl in
    let skips : length (placeholder name) - 1 ≡ length (name ++ b'}' ∷ []) = omega arith in
    rw (found, skips) (ap (◌++◌ to) (replace_from-skip (placeholder name) to (name ++ b'}' ∷ []) s))

-- Texts without a brace, with a hole between each two.
unfoldable pub template : Text → Text → List Text → Text
template hole w [] = w
template hole w (v ∷ vs) = w ++ (hole ++ template hole v vs)

replace_from-template :
    (name to w : Text) (vs : List Text)
    → All IsBraceless (w ∷ vs)
    → replace_from (placeholder name) to 0 (template (placeholder name) w vs) ≡ template to w vs
unfolding template
replace_from-template name to w [] h = replace_from-braceless name to w h.0
replace_from-template name to w (v ∷ vs) h =
    replace_from-append name to w (placeholder name ++ template (placeholder name) v vs) h.0
    ∙ ap (◌++◌ w) (
        replace_from-hit name to (template (placeholder name) v vs)
        ∙ ap (◌++◌ to) (replace_from-template name to v vs h.1))

-- In a path that is free of braces but for occurrences of one placeholder, substitution replaces
-- each occurrence and nothing else, and does not read the replacement again.
pub substitute-template :
    (name to w : Text) (vs : List Text)
    → All IsBraceless (w ∷ vs)
    → substitute (record { text = template (placeholder name) w vs }) ((name, to) ∷ [])
      ≡ record { text = template to w vs }
unfolding substitute substitute_text
substitute-template name to w vs h =
    ap (λ t. record { text = t }) (replace_from-template name to w vs h)
