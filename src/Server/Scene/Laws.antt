-- ===== src/Server/Scene/Laws.antt =====
-- What `set` and `emit_with_cause` do to a scene (scene.rs).
use lumencast_rs.Prelude.{
  ◌≡◌, refl, ap, ◌∙◌, ◌⊎◌, inl, inr, false, List, [], ◌∷◌, Option, none, Text, lookup, insert_all,
  last_value, map, All, is_empty, if◌then◌else◌, Result, ok, err, ◌>>=◌, map_err, >>=-eq-ok,
  map_err-eq-ok, Result-cases, arith,
}
use lumencast_rs.Protocol.Json.{Value, is_object}
use lumencast_rs.Protocol.LeafPath.{LeafPath, validate, parse}
use lumencast_rs.Protocol.LeafPath.Grammar.{IsLeafPath, parse_iff}
use lumencast_rs.Protocol.Types.{Patch, Cause, new_patch}
use lumencast_rs.Server.Store.{set_value, apply}
use lumencast_rs.Server.Store.Laws.{lookup-apply}
use lumencast_rs.Server.Scene.{
  ServerError, protocol, Scene, publish, check_pair, set, check_pairs, pair_of, set_checked,
  emit_checked, emit_with_cause, emit,
}

-- A legal pair: a leaf path by the grammar, and no object for its value.
abbrev pub IsLegalPair : Text × Value → Type 0
IsLegalPair kv = IsLeafPath kv.0 × (is_object kv.1 ≡ false)

parse-text : (s : Text) (p : LeafPath) → parse s ≡ ok p → p ≡ record { text = s }
unfolding parse
parse-text s p h = let (u, _, e) = >>=-eq-ok (validate s) _ h in cc

check_pair_sound :
    (kv : Text × Value) (p : Patch)
    → check_pair kv ≡ ok p
    → IsLegalPair kv × (p ≡ new_patch (record { text = kv.0 }) kv.1)
unfolding check_pair
check_pair_sound (path, value) p h =
    let (q, parsed, h') = >>=-eq-ok (map_err protocol (parse path)) _ h in
    let is_parse = map_err-eq-ok protocol (parse path) parsed in
    let same = parse-text path q is_parse in
    let accepted = rw same at is_parse in
    (((parse_iff path).0 accepted, ground arith), ground arith)

check_pair_complete :
    (kv : Text × Value)
    → IsLegalPair kv
    → check_pair kv ≡ ok (new_patch (record { text = kv.0 }) kv.1)
unfolding check_pair
check_pair_complete (path, value) (legal, leaf) = rw ((parse_iff path).1 legal, leaf)

-- The patches of pairs, without a transition.
abbrev pub patches_of : List (Text × Value) → List Patch
patches_of [] = []
patches_of (kv ∷ kvs) = new_patch (record { text = kv.0 }) kv.1 ∷ patches_of kvs

map-pair_of : (kvs : List (Text × Value)) → map pair_of (patches_of kvs) ≡ kvs
map-pair_of [] = refl
map-pair_of (kv ∷ kvs) = ap (◌∷◌ kv) (map-pair_of kvs)

check_pairs_sound :
    (kvs : List (Text × Value)) (ps : List Patch)
    → check_pairs kvs ≡ ok ps
    → All IsLegalPair kvs × (ps ≡ patches_of kvs)
unfolding check_pairs
check_pairs_sound [] ps h = (tt, cc)
check_pairs_sound (kv ∷ kvs) ps h =
    let (p, here, h') = >>=-eq-ok (check_pair kv) _ h in
    let (qs, later, h'') = >>=-eq-ok (check_pairs kvs) _ h' in
    let (legal, is_p) = check_pair_sound kv p here in
    let (legals, is_qs) = check_pairs_sound kvs qs later in ((legal, legals), cc)

check_pairs_complete :
    (kvs : List (Text × Value)) → All IsLegalPair kvs → check_pairs kvs ≡ ok (patches_of kvs)
unfolding check_pairs
check_pairs_complete [] h = refl
check_pairs_complete (kv ∷ kvs) h = rw (check_pair_complete kv h.0, check_pairs_complete kvs h.1)

-- The scene and the result after a call that was given legal pairs.
unfoldable pub emitted :
    List (Text × Value) → Option Cause → Scene → Scene × Result ServerError (Unit {0})
emitted kvs cause s =
    if is_empty kvs
    then (s, ok tt)
    else (publish (patches_of kvs) cause (record s { store = apply kvs s.store }), ok tt)

patches_of-is_empty : (kvs : List (Text × Value)) → is_empty (patches_of kvs) ≡ is_empty kvs
patches_of-is_empty [] = refl
patches_of-is_empty (kv ∷ kvs) = refl

pub lookup-emitted :
    (kvs : List (Text × Value)) (cause : Option Cause) (s : Scene) (path : Text)
    → lookup path (emitted kvs cause s).0.store.inner
      ≡ last_value path kvs (lookup path s.store.inner)
unfolding emitted last_value publish
lookup-emitted [] cause s path = refl
lookup-emitted (kv ∷ kvs) cause s path = lookup-apply (kv ∷ kvs) s.store path

module _ (kvs : List (Text × Value)) (cause : Option Cause) (s : Scene) where
  pub emit_legal : All IsLegalPair kvs → emit_with_cause kvs cause s ≡ emitted kvs cause s
  unfolding emit_with_cause emitted
  emit_legal h =
      ap (emit_checked cause s) (check_pairs_complete kvs h)
      ∙ rw (patches_of-is_empty kvs, map-pair_of kvs)

  pub emit_illegal :
      (e : ServerError) → check_pairs kvs ≡ err e → emit_with_cause kvs cause s ≡ (s, err e)
  unfolding emit_with_cause
  emit_illegal e h = ap (emit_checked cause s) h

  emitted-ok : (emitted kvs cause s).1 ≡ ok tt
  unfolding emitted
  emitted-ok = ground arith

  -- `emit_with_cause` writes all pairs or none: either it succeeds, every pair is legal and each
  -- path has the value of the last pair that names it, or it fails, some pair is illegal, and the
  -- scene is as it was, its number, its replay buffer and its broadcasts included.
  pub emit_atomic :
      ((All IsLegalPair kvs)
        × ((emit_with_cause kvs cause s).1 ≡ ok tt)
        × ((path : Text)
            → lookup path (emit_with_cause kvs cause s).0.store.inner
              ≡ last_value path kvs (lookup path s.store.inner)))
      ⊎ ((¬ All IsLegalPair kvs) × (e : ServerError) × (emit_with_cause kvs cause s ≡ (s, err e)))
  emit_atomic = elim (Result-cases (check_pairs kvs)) [
    | inl (ps, e) ↦
        let legal = (check_pairs_sound kvs ps e).0 in
        inl (
          legal,
          rw (emit_legal legal) emitted-ok,
          λ path. rw (emit_legal legal) (lookup-emitted kvs cause s path),
        )
    | inr (e, failed) ↦ inr (λ legal. cc (check_pairs_complete kvs legal), e, emit_illegal e failed)
  ]

-- Setting one leaf is emitting one pair without a cause.
pub set-emit :
    (path : Text) (value : Value) (s : Scene) → set path value s ≡ emit ((path, value) ∷ []) s
unfolding set emit emit_with_cause check_pairs set_value apply insert_all
set-emit path value s = go (check_pair (path, value))
  where
    go :
        (r : Result ServerError Patch)
        → set_checked s r ≡ emit_checked none s (r >>= λ p. ok (p ∷ []))
    go (ok p) = refl
    go (err e) = refl

-- A call of `emit_with_cause` leaves the scene alone, or writes patches and publishes them.
pub emit_checked_cases {ℓ} :
    (P : Scene → Type ℓ) (kvs : List (Text × Value)) (cause : Option Cause) (s : Scene)
    → P s
    → ((ps : List Patch)
        → P (publish ps cause (record s { store = apply (map pair_of ps) s.store })))
    → P (emit_with_cause kvs cause s).0
unfolding emit_with_cause
emit_checked_cases P kvs cause s same written = go (check_pairs kvs)
  where
    go : (r : Result ServerError (List Patch)) → P (emit_checked cause s r).0
    go (err e) = same
    go (ok []) = same
    go (ok (p ∷ ps)) = written (p ∷ ps)
