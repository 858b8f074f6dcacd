-- ===== src/Conformance/Placeholders.antt =====
-- crates/lumencast-conformance/src/placeholders.rs. A `BTreeMap` is an association list in the order of
-- its keys.
pub mod Laws
mod Tests
use lumencast_rs.Prelude.{
  ℕ, Bool, true, false, not, List, [], ◌∷◌, ◌++◌, Option, none, some, Text, codes, text_eq, Map,
  lookup, length, leb, ltb, ◌==◌, if◌then◌else◌, any, is_empty, is_some, strip_prefix, map, Result,
  ok, err,
}
use lumencast_rs.Protocol.Json.{
  Value, string, array, object, Items, nil, cons, Members, end, member, insert_member,
}
use lumencast_rs.Protocol.LeafPath.{replace_from}
use lumencast_rs.Protocol.Types.{SceneVersion}
use lumencast_rs.Protocol.Codec.{SerdeJson}
use lumencast_rs.Protocol.Bundle.{hash_to_scene_version}
use lumencast_rs.Server.Input.{is_continuation}

-- The order of `str`: byte by byte.
unfoldable pub text_lt : Text → Text → Bool
text_lt s [] = false
text_lt [] (b ∷ t) = true
text_lt (a ∷ s) (b ∷ t) = let rest = text_lt s t in if a == b then rest else ltb a b

-- `BTreeMap::insert`
unfoldable pub insert_sorted : Text → Text → Map Text → Map Text
insert_sorted k v [] = (k, v) ∷ []
insert_sorted k v ((j, w) ∷ m) =
    let rest = insert_sorted k v m in
    if text_eq j k then (k, v) ∷ m else if text_lt k j then (k, v) ∷ (j, w) ∷ m else (j, w) ∷ rest

unfoldable pub insert_sorted_all : List (Text × Text) → Map Text → Map Text
insert_sorted_all [] m = m
insert_sorted_all ((k, v) ∷ kvs) m = insert_sorted_all kvs (insert_sorted k v m)

pub record Substitutions : Type 0 where
  pub table : Map Text

-- `format!("$BUNDLE.{id}.hash")`
abbrev pub bundle_key : Text → Text
bundle_key id = codes "$BUNDLE." ++ (id ++ codes ".hash")

abbrev pub keyed_hash : Text × Text → Text × Text
keyed_hash (id, hash) = (bundle_key id, hash)

unfoldable pub new_substitutions : (tokens bundle_hashes : Map Text) → Substitutions
new_substitutions tokens bundle_hashes = record {
  table = insert_sorted_all (map keyed_hash bundle_hashes) (insert_sorted_all tokens []);
}

-- `str::contains` and `str::replace`. An empty needle matches at each character and at the end.
unfoldable pub contains : Text → Text → Bool
contains [] needle = is_empty needle
contains (b ∷ s) needle =
    let rest = contains s needle in if is_some (strip_prefix needle (b ∷ s)) then true else rest

unfoldable pub replace_empty : Text → Text → Text
replace_empty to [] = to
replace_empty to (b ∷ s) =
    if is_continuation b then b ∷ replace_empty to s else to ++ b ∷ replace_empty to s

unfoldable pub replace : (needle to : Text) → Text → Text
replace [] to s = replace_empty to s
replace (b ∷ needle) to s = replace_from (b ∷ needle) to 0 s

-- `sort_by_key(|b| Reverse(b.len()))`, which is stable.
unfoldable pub insert_by_length : Text × Text → List (Text × Text) → List (Text × Text)
insert_by_length q [] = q ∷ []
insert_by_length q (r ∷ rs) =
    if leb (length r.0) (length q.0) then q ∷ r ∷ rs else r ∷ insert_by_length q rs

unfoldable pub longest_first : List (Text × Text) → List (Text × Text)
longest_first [] = []
longest_first (q ∷ qs) = insert_by_length q (longest_first qs)

unfoldable pub replace_each : List (Text × Text) → Text → Text
replace_each [] out = out
replace_each ((key, to) ∷ qs) out =
    replace_each qs (if contains out key then replace key to out else out)

abbrev pub has_dollar : Text → Bool
has_dollar s = any (λ b. b == b'$') s

module _ (subs : Substitutions) where
  abbrev or_scan : Text → Option Text → Text
  or_scan s (some replacement) = replacement
  or_scan s none = replace_each (longest_first subs.table) s

  unfoldable pub replace_str : Text → Text
  replace_str s = if not (has_dollar s) then s else or_scan s (lookup s subs.table)

  unfoldable mutual
    pub apply : Value → Value
    apply (string s) = string (replace_str s)
    apply (array items) = array (apply_items items)
    apply (object ms) = object (apply_members ms end)
    apply other = other

    pub apply_items : Items → Items
    apply_items nil = nil
    apply_items (cons v vs) = cons (apply v) (apply_items vs)

    pub apply_members : Members → Members → Members
    apply_members end out = out
    apply_members (member k v ms) out = apply_members ms (insert_member k (apply v) out)

  -- `apply_to_map` (player.rs)
  unfoldable pub apply_to_map : Map Value → Map Value
  apply_to_map [] = []
  apply_to_map ((k, v) ∷ m) = (k, apply v) ∷ apply_to_map m

-- `to_vec(value).unwrap_or_default()`
abbrev or_default : Result Text Text → Text
or_default (ok bytes) = bytes
or_default (err e) = []

unfoldable pub hash_inline_bundle : SerdeJson → (Text → Text) → Value → SceneVersion
hash_inline_bundle sj sha256 value = hash_to_scene_version sha256 (or_default (sj.to_vec value))
