-- ===== src/Conformance/Placeholders/Laws.antt =====
-- What substitution replaces and what it leaves alone (placeholders.rs).
use mathlib.Core.List.{append_cancel_left, append_cancel_right}
use lumencast_rs.Prelude.{
  ◌≡◌, refl, sym, ap, ap₂, ◌∙◌, Bool, true, false, List, [], ◌∷◌, ◌++◌, Option, none, some, Text,
  codes, text_eq, text_eq_iff, Map, lookup, last_value, last_value_unique, last_value-keep,
  IsUnique, map, if◌then◌else◌, All, arith,
}
use lumencast_rs.Protocol.Json.{
  Value, null, boolean, number, string, array, object, Items, nil, cons, Members, end, member, get,
  insert_member,
}
use lumencast_rs.Conformance.Placeholders.{
  insert_sorted, insert_sorted_all, Substitutions, bundle_key, keyed_hash, new_substitutions,
  has_dollar, replace_str, apply, apply_items, apply_members,
}

lookup-insert_sorted :
    (k j v : Text) (m : Map Text)
    → lookup j (insert_sorted k v m) ≡ (if text_eq k j then some v else lookup j m)
unfolding lookup insert_sorted
lookup-insert_sorted k j v [] = refl
lookup-insert_sorted k j v ((i, w) ∷ m) =
    ground (arith, text_eq_iff k j, text_eq_iff i k, text_eq_iff i j, lookup-insert_sorted k j v m)

lookup-insert_sorted_all :
    (k : Text) (kvs : List (Text × Text)) (m : Map Text)
    → lookup k (insert_sorted_all kvs m) ≡ last_value k kvs (lookup k m)
unfolding insert_sorted_all last_value
lookup-insert_sorted_all k [] m = refl
lookup-insert_sorted_all k ((j, v) ∷ kvs) m =
    lookup-insert_sorted_all k kvs (insert_sorted j v m)
    ∙ ap (last_value k kvs) (lookup-insert_sorted j k v m)

-- A key that is a bundle's belongs to one bundle.
bundle_key-inj : (i j : Text) → text_eq (bundle_key i) (bundle_key j) ≡ text_eq i j
bundle_key-inj i j =
    both _ _
      (λ same.
        let key = (text_eq_iff (bundle_key i) (bundle_key j)).0 same in
        (text_eq_iff i j).1 (
          append_cancel_right i j (codes ".hash")
            (append_cancel_left (codes "$BUNDLE.") (i ++ codes ".hash") (j ++ codes ".hash") key)))
      (λ same.
        (text_eq_iff (bundle_key i) (bundle_key j)).1 (ap bundle_key ((text_eq_iff i j).0 same)))
  where
    both : (a b : Bool) → (a ≡ true → b ≡ true) → (b ≡ true → a ≡ true) → a ≡ b
    both true b f g = sym (f refl)
    both false true f g = g refl
    both false false f g = refl

last_value-keyed :
    (id : Text) (hashes : Map Text) (old : Option Text)
    → last_value (bundle_key id) (map keyed_hash hashes) old ≡ last_value id hashes old
unfolding last_value
last_value-keyed id [] old = refl
last_value-keyed id ((j, h) ∷ hashes) old =
    last_value-keyed id hashes _
    ∙ ap (λ b. last_value id hashes (if b then some h else old)) (bundle_key-inj j id)

-- A value that is the text of a key alone.
apply-key :
    (subs : Substitutions) (k v : Text)
    → has_dollar k ≡ true
    → lookup k subs.table ≡ some v
    → apply subs (string k) ≡ string v
unfolding apply replace_str
apply-key subs k v dollar found = ap string (rw (dollar, found) refl)

module _ (tokens hashes : Map Text) where
  lookup-new_substitutions :
      (k : Text)
      → lookup k (new_substitutions tokens hashes).table
        ≡ last_value k (map keyed_hash hashes) (last_value k tokens none)
  unfolding new_substitutions lookup
  lookup-new_substitutions k =
      lookup-insert_sorted_all k (map keyed_hash hashes) _
      ∙ ap (last_value k (map keyed_hash hashes)) (lookup-insert_sorted_all k tokens [])

  -- A placeholder that stands alone becomes what it stands for: that of a bundle the bundle's hash,
  -- even if a token has the same name, and any other token with a dollar the token's value. No id and
  -- no token is given twice.
  pub apply_resolves :
      IsUnique tokens
      → IsUnique hashes
      → ((id hash : Text)
          → lookup id hashes ≡ some hash
          → apply (new_substitutions tokens hashes) (string (bundle_key id)) ≡ string hash)
        × ((k token : Text)
            → has_dollar k ≡ true
            → All (λ q. text_eq (bundle_key q.0) k ≡ false) hashes
            → lookup k tokens ≡ some token
            → apply (new_substitutions tokens hashes) (string k) ≡ string token)
  apply_resolves once_t once_h = (
    λ id hash found. apply-key (new_substitutions tokens hashes) (bundle_key id) hash refl (
        lookup-new_substitutions (bundle_key id)
        ∙ last_value-keyed id hashes _
        ∙ last_value_unique id hashes _ once_h
        ∙ rw found refl),
    λ k token dollar apart found. apply-key (new_substitutions tokens hashes) k token dollar (
        lookup-new_substitutions k
        ∙ last_value-keep k (map keyed_hash hashes) _ (all_apart k hashes apart)
        ∙ last_value_unique k tokens none once_t
        ∙ rw found refl),
  )
    where
      all_apart :
          (k : Text) (hs : Map Text)
          → All (λ q. text_eq (bundle_key q.0) k ≡ false) hs
          → All (λ q. text_eq q.0 k ≡ false) (map keyed_hash hs)
      all_apart k [] h = tt
      all_apart k ((j, w) ∷ hs) h = (h.0, all_apart k hs h.1)

-- Members, with one more at the end and with more.
abbrev snoc : Members → Text → Value → Members
snoc end k v = member k v end
snoc (member j w ms) k v = member j w (snoc ms k v)

abbrev onto : Members → Members → Members
onto end ms = ms
onto (member j w ns) ms = member j w (onto ns ms)

insert_member-new :
    (k : Text) (v : Value) (ms : Members) → get k ms ≡ none → insert_member k v ms ≡ snoc ms k v
unfolding get insert_member
insert_member-new k v end h = refl
insert_member-new k v (member j w ms) h = ground (arith, insert_member-new k v ms)

onto-snoc :
    (out : Members) (k : Text) (v : Value) (ms : Members)
    → onto (snoc out k v) ms ≡ onto out (member k v ms)
onto-snoc end k v ms = refl
onto-snoc (member j w out) k v ms = ap (member j w) (onto-snoc out k v ms)

onto-end : (ms : Members) → onto ms end ≡ ms
onto-end end = refl
onto-end (member k v ms) = ap (member k v) (onto-end ms)

-- No string has a dollar, and no object has a key twice: each is new after those before it.
unfoldable mutual
  pub IsPlain : Value → Type 0
  IsPlain (string s) = has_dollar s ≡ false
  IsPlain (array items) = ArePlain items
  IsPlain (object ms) = AreNew end ms
  IsPlain _ = Unit

  pub ArePlain : Items → Type 0
  ArePlain nil = Unit
  ArePlain (cons v vs) = IsPlain v × ArePlain vs

  pub AreNew : Members → Members → Type 0
  AreNew before end = Unit
  AreNew before (member k v ms) = (get k before ≡ none) × IsPlain v × AreNew (snoc before k v) ms

mutual
  unfolding apply apply_items apply_members replace_str IsPlain ArePlain AreNew

  plain_value : (subs : Substitutions) (v : Value) → IsPlain v → apply subs v ≡ v
  plain_value subs null h = refl
  plain_value subs (boolean b) h = refl
  plain_value subs (number n) h = refl
  plain_value subs (string s) h = ap string (rw h refl)
  plain_value subs (array items) h = ap array (plain_items subs items h)
  plain_value subs (object ms) h = ap object (plain_members subs ms end h)

  plain_items :
      (subs : Substitutions) (items : Items) → ArePlain items → apply_items subs items ≡ items
  plain_items subs nil h = refl
  plain_items subs (cons v vs) h = ap₂ cons (plain_value subs v h.0) (plain_items subs vs h.1)

  plain_members :
      (subs : Substitutions) (ms out : Members)
      → AreNew out ms
      → apply_members subs ms out ≡ onto out ms
  plain_members subs end out h = sym (onto-end out)
  plain_members subs (member k v ms) out h =
      ap (λ w. apply_members subs ms (insert_member k w out)) (plain_value subs v h.1)
      ∙ ap (apply_members subs ms) (insert_member-new k v out h.0)
      ∙ plain_members subs ms (snoc out k v) h.2
      ∙ onto-snoc out k v ms

-- Substitution changes no value in which no string has a dollar, whatever is to be substituted, keys
-- included. No object of the value has a key twice.
apply-plain : (subs : Substitutions) (v : Value) → IsPlain v → apply subs v ≡ v
apply-plain subs v h = plain_value subs v h
