-- ===== src/Server/Adapters/Polls.antt =====
-- What a poll of an endpoint leaves in the scene (adapters/http_poll.rs, flatten.rs).
use lumencast_rs.Prelude.{
  ℕ, ◌≡◌, refl, ap, ◌⊎◌, inl, inr, true, false, List, [], ◌∷◌, none, Text, lookup, last_value, All,
  All-append, All-mono, Empty, Bool-cases, ◌≤◌, ◌<◌, arith, Result, ok, err,
}
use lumencast_rs.Protocol.Json.{
  Value, null, boolean, number, string, array, object, Members, end, member, is_object,
}
use lumencast_rs.Protocol.LeafPath.Grammar.{IsLeafPath}
use lumencast_rs.Protocol.Codec.{SerdeJson}
use lumencast_rs.Server.Scene.{Scene, emit}
use lumencast_rs.Server.Scene.Laws.{IsLegalPair, emit_atomic}
use lumencast_rs.Server.Adapters.{emit_patches, Periodic, periodic_step, periodic_round}
use lumencast_rs.Server.Adapters.Flatten.{
  child_path, push_leaf, walk, walk_members, flatten_into_pairs,
}
use lumencast_rs.Server.Adapters.HttpPoll.{
  HttpPollConfig, Reply, request_failed, response, is_success, flatten_body, poll_once, polls,
  round_of,
}

abbrev IsLeafValue : Text × Value → Type 0
IsLeafValue q = is_object q.1 ≡ false

push_leaf-IsLeafValue :
    (path : Text) (v : Value) (out : List (Text × Value))
    → is_object v ≡ false
    → All IsLeafValue out
    → All IsLeafValue (push_leaf path v out)
push_leaf-IsLeafValue [] v out leaf h = h
push_leaf-IsLeafValue (b ∷ s) v out leaf h = All-append IsLeafValue out _ h (leaf, tt)

mutual
  unfolding walk walk_members

  walk-IsLeafValue :
      (path : Text) (v : Value) (out : List (Text × Value))
      → All IsLeafValue out
      → All IsLeafValue (walk path v out)
  walk-IsLeafValue path null out h = push_leaf-IsLeafValue path null out refl h
  walk-IsLeafValue path (boolean b) out h = push_leaf-IsLeafValue path (boolean b) out refl h
  walk-IsLeafValue path (number n) out h = push_leaf-IsLeafValue path (number n) out refl h
  walk-IsLeafValue path (string s) out h = push_leaf-IsLeafValue path (string s) out refl h
  walk-IsLeafValue path (array vs) out h = push_leaf-IsLeafValue path (array vs) out refl h
  walk-IsLeafValue path (object ms) out h = walk_members-IsLeafValue path ms out h

  walk_members-IsLeafValue :
      (path : Text) (ms : Members) (out : List (Text × Value))
      → All IsLeafValue out
      → All IsLeafValue (walk_members path ms out)
  walk_members-IsLeafValue path end out h = h
  walk_members-IsLeafValue path (member k v ms) out h =
      walk_members-IsLeafValue path ms _ (walk-IsLeafValue (child_path path k) v out h)

flatten-IsLeafValue : (path : Text) (v : Value) → All IsLeafValue (flatten_into_pairs path v)
unfolding flatten_into_pairs
flatten-IsLeafValue path v = walk-IsLeafValue path v [] tt

-- A response with a status of success, whose body is the document.
abbrev pub Reads : SerdeJson → Reply → Value → Type 0
Reads sj request_failed v = Empty
Reads sj (response status body) v = (200 ≤ status) × (status < 300) × (sj.from_slice body ≡ ok v)

module _ (sj : SerdeJson) (config : HttpPollConfig) where
  poll_once-Reads :
      (reply : Reply) (v : Value)
      → Reads sj reply v
      → poll_once sj config reply ≡ flatten_into_pairs config.writes_to v
  unfolding poll_once
  poll_once-Reads request_failed v h = elim h [ ]
  poll_once-Reads (response status body) v (low, high, e) =
      let good : is_success status ≡ true = ground arith in rw (good, e) refl

  poll_once-fails :
      (reply : Reply) → ¬ ((v : Value) × Reads sj reply v) → poll_once sj config reply ≡ []
  unfolding poll_once
  poll_once-fails request_failed h = refl
  poll_once-fails (response status body) h = elim (Bool-cases (is_success status)) [
    | inr bad ↦ rw bad refl
    | inl good ↦ rw good (of_body (sj.from_slice body) refl (ground arith) (ground arith))
  ]
    where
      of_body :
          (r : Result Text Value)
          → sj.from_slice body ≡ r
          → 200 ≤ status
          → status < 300
          → flatten_body sj config r ≡ []
      of_body (err e) same low high = refl
      of_body (ok v) same low high = absurd (h (v, (low, high, same)))

-- Legal by its path alone.
all_legal :
    (pairs : List (Text × Value))
    → All IsLeafValue pairs
    → All (λ q. IsLeafPath q.0) pairs
    → All IsLegalPair pairs
all_legal [] v h = tt
all_legal (q ∷ qs) v h = ((h.0, v.0), all_legal qs v.1 h.1)

paths_of_legal :
    (pairs : List (Text × Value)) → All IsLegalPair pairs → All (λ q. IsLeafPath q.0) pairs
paths_of_legal pairs h = All-mono IsLegalPair (λ q. IsLeafPath q.0) (λ q legal. legal.0) pairs h

-- The scene after patches that were accepted, and after patches that were not.
emit_patches_cases :
    (pairs : List (Text × Value)) (s : Scene)
    → All IsLeafValue pairs
    → ((All (λ q. IsLeafPath q.0) pairs)
        × ((path : Text)
            → lookup path (emit_patches pairs s).store.inner
              ≡ last_value path pairs (lookup path s.store.inner)))
      ⊎ ((¬ All (λ q. IsLeafPath q.0) pairs) × (emit_patches pairs s ≡ s))
unfolding emit_patches emit last_value
emit_patches_cases [] s leaf = inl (tt, λ path. refl)
emit_patches_cases (q ∷ qs) s leaf = elim (emit_atomic (q ∷ qs) none s) [
  | inl (legal, fine, written) ↦ inl (paths_of_legal (q ∷ qs) legal, written)
  | inr (illegal, e, refused) ↦
      inr (λ h. illegal (all_legal (q ∷ qs) leaf h), ap (λ r. r.0) refused)
]

-- A document is written whole, or its poll leaves the scene as it was.
abbrev pub Writes : Text → Value → (before after : Scene) → Type 0
Writes path v before after =
    ((All (λ q. IsLeafPath q.0) (flatten_into_pairs path v))
      × ((p : Text)
          → lookup p after.store.inner
            ≡ last_value p (flatten_into_pairs path v) (lookup p before.store.inner)))
    ⊎ ((¬ All (λ q. IsLeafPath q.0) (flatten_into_pairs path v)) × (after ≡ before))

module _ (sj : SerdeJson) (config : HttpPollConfig) where
  -- A round of a running poll of an endpoint writes all leaves of the document that it got or none.
  -- For a response with a status from 200 to 299 whose body reads as a document: if the path of every
  -- leaf of the document, below the configured path, is a leaf path, then every path of the scene has
  -- the value of the last leaf with it, or the value that it had; if some path is not, the scene is as
  -- it was. A request that fails, another status and a body that does not read leave the scene as it
  -- was.
  pub poll_atomic :
      (reply : Reply) (now period : ℕ) (t : Periodic)
      → t.running ≡ true
      → ((v : Value)
          → Reads sj reply v
          → Writes config.writes_to v t.scene
              (periodic_step period (round_of sj config (polls reply now)) t).scene)
        × (¬ ((v : Value) × Reads sj reply v)
            → (periodic_step period (round_of sj config (polls reply now)) t).scene ≡ t.scene)
  unfolding periodic_step periodic_round round_of
  poll_atomic reply now period t on = rw on (
      (
        λ v h. rw (poll_once-Reads sj config reply v h) (
            emit_patches_cases (flatten_into_pairs config.writes_to v) t.scene
              (flatten-IsLeafValue config.writes_to v)),
        λ none_. rw (poll_once-fails sj config reply none_) (unfold emit_patches in refl),
      ))
