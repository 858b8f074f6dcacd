-- ===== src/Server/TestControl/Laws.antt =====
-- What the control plane answers, and what it answers afterwards (test_control.rs).
use lumencast_rs.Prelude.{
  ℕ, ◌≡◌, refl, sym, ap, ap₂, subst, ◌∙◌, ◌⊎◌, inl, inr, Bool, true, false, not, Bool-cases, List,
  [], ◌∷◌, ◌++◌, Option, none, some, Text, codes, text_eq_refl, Map, lookup, insert, insert_all,
  last_value, lookup-insert_all, insert_all-IsUnique, IsUnique, head?, is_empty, is_some,
  strip_prefix, length, String, get_elem?, get_elem?-set_same, ◌&&◌, Result, ok, err,
}
use lumencast_rs.Protocol.Json.{Value, null, boolean, number, string, array, object}
use lumencast_rs.Protocol.Errors.{Message, plain}
use lumencast_rs.Protocol.Types.{SceneId, SceneVersion}
use lumencast_rs.Protocol.Bundle.{BundleError}
use lumencast_rs.Protocol.Layout.{check_zab_capture_nodes}
use lumencast_rs.Server.Auth.{denied, clear_tokens, authenticate_map}
use lumencast_rs.Server.Store.{Store}
use lumencast_rs.Server.Store.Laws.{lookup-snapshot}
use lumencast_rs.Server.Input.{InputSpec}
use lumencast_rs.Server.Scene.{Scene, new_scene, seed, snapshot_state, with_operator_inputs}
use lumencast_rs.Server.Registry.{
  ServerInner, register, new_scene_with_version, clear_scenes, set_active_scene, deref, put,
}
use lumencast_rs.Server.Registry.Laws.{get_elem?-end}
use lumencast_rs.Server.TestControl.Specs.{Readers}
use lumencast_rs.Server.TestControl.{
  SetupBundle, SetupRequest, TestControlState, Response, problem, setup_done, no_content, state_of,
  inline_member, effective_id, reject_unless, check_layout, declare, pairs_of_members,
  seed_defaults, seed_initial, specs_of_inline, prime, finish, cleared, handle_setup, handle_reset,
  handle_state,
}

-- What the new scene is seeded with: the request's state, or the bundle's defaults if it has none.
abbrev default_pairs : Option Value → List (Text × Value)
default_pairs (some (object defaults)) = pairs_of_members defaults
default_pairs _ = []

abbrev seeds : Map Value → Option Value → List (Text × Value)
seeds [] defaults = default_pairs defaults
seeds (kv ∷ kvs) defaults = kv ∷ kvs

-- A scene is the other one but for what is declared and whether it is rejected.
record IsKept (s s' : Scene) : Type 0 where
  id_kept : s'.id ≡ s.id
  version_kept : s'.version ≡ s.version
  store_kept : s'.store ≡ s.store

check_layout-IsKept : (o : Option Value) (s : Scene) → IsKept s (check_layout o s)
check_layout-IsKept none s = record { id_kept = refl; version_kept = refl; store_kept = refl }
check_layout-IsKept (some layout) s = checked (check_zab_capture_nodes layout)
  where
    checked : (r : Result BundleError (Unit {0})) → IsKept s (reject_unless r s)
    checked (ok done) = record { id_kept = refl; version_kept = refl; store_kept = refl }
    checked (err e) = record { id_kept = refl; version_kept = refl; store_kept = refl }

declare-IsKept : (o : Option (List InputSpec)) (s : Scene) → IsKept s (declare o s)
unfolding with_operator_inputs
declare-IsKept none s = record { id_kept = refl; version_kept = refl; store_kept = refl }
declare-IsKept (some specs) s = record { id_kept = refl; version_kept = refl; store_kept = refl }

seed_defaults_lem :
    (o : Option Value) (s : Scene)
    → seed_defaults o s
      ≡ record s { store = record { inner = insert_all (default_pairs o) s.store.inner } }
unfolding seed insert_all lumencast_rs.Server.Store.seed
seed_defaults_lem none s = refl
seed_defaults_lem (some null) s = refl
seed_defaults_lem (some (boolean b)) s = refl
seed_defaults_lem (some (number n)) s = refl
seed_defaults_lem (some (string t)) s = refl
seed_defaults_lem (some (array vs)) s = refl
seed_defaults_lem (some (object ms)) s = refl

seed_initial_lem :
    (init : Map Value) (o : Option Value) (s : Scene)
    → seed_initial init o s
      ≡ record s { store = record { inner = insert_all (seeds init o) s.store.inner } }
unfolding seed insert_all lumencast_rs.Server.Store.seed
seed_initial_lem [] o s = seed_defaults_lem o s
seed_initial_lem (kv ∷ kvs) o s = refl

module _ (readers : Readers) (req : SetupRequest) (b : SetupBundle) where
  abbrev pub seeds_of : List (Text × Value)
  seeds_of = seeds req.initial_state (inline_member (codes "defaults") b.inline)

  -- The scene that a setup makes.
  primed :
      (id : SceneId) (version : SceneVersion)
      → let s = prime readers req b (new_scene id version) in
        (s.id ≡ id) × (s.version ≡ version) × (s.store.inner ≡ insert_all seeds_of [])
  unfolding prime new_scene
  primed id version =
      let s₁ = check_layout (inline_member (codes "layout") b.inline) (new_scene id version) in
      let s₂ = declare (specs_of_inline readers b.inline) s₁ in
      let k₁ =
        check_layout-IsKept (inline_member (codes "layout") b.inline) (new_scene id version) in
      let k₂ = declare-IsKept (specs_of_inline readers b.inline) s₁ in
      let e = seed_initial_lem req.initial_state (inline_member (codes "defaults") b.inline) s₂ in
      (
        ap (λ (s : Scene). s.id) e ∙ k₂.id_kept ∙ k₁.id_kept,
        ap (λ (s : Scene). s.version) e ∙ k₂.version_kept ∙ k₁.version_kept,
        ap (λ (s : Scene). s.store.inner) e
            ∙ ap (λ st. insert_all seeds_of st)
                (ap (λ (t : Store). t.inner) (k₂.store_kept ∙ k₁.store_kept)),
      )

-- What `handle_state` answers when no scene is active.
abbrev pub idle : Response
idle = problem 409 "no-active-scene" (plain "no scene is currently active; call /test/setup first")

-- `handle_state` answers with the scene, whose store has the last value of each path.
abbrev pub Shows : TestControlState → SceneId → SceneVersion → List (Text × Value) → Type 0
Shows t id version kvs =
    (state : Map Value) × (handle_state t ≡ state_of id version state)
    × ((path : Text) → lookup path state ≡ last_value path kvs none)

pub shown :
    (t : TestControlState) (id : SceneId) (h : ℕ) (sc : Scene)
    → t.server.active ≡ some id
    → lookup id t.server.scenes ≡ some h
    → get_elem? t.server.heap h ≡ some sc
    → handle_state t ≡ state_of sc.id sc.version (snapshot_state sc)
unfolding handle_state
shown t id h sc active named found = rw active (rw named (rw found refl))

lookup-single : (id : SceneId) (h : ℕ) → lookup id ((id, h) ∷ []) ≡ some h
unfolding lookup
lookup-single id h = rw (text_eq_refl id) refl

-- The server after a first registration, whose scene has become `sc`.
abbrev entered : SceneId → SceneVersion → ServerInner → Scene → ServerInner
entered id version s sc = put (register (new_scene id version) (clear_scenes s)) (length s.heap) sc

entered-active :
    (id : SceneId) (version : SceneVersion) (s : ServerInner) (sc : Scene)
    → ((set_active_scene id (entered id version s sc)).0.active ≡ some id)
      × ((set_active_scene id (entered id version s sc)).0.scenes ≡ (id, length s.heap) ∷ [])
      × (get_elem? (set_active_scene id (entered id version s sc)).0.heap (length s.heap) ≡ some sc)
unfolding set_active_scene register clear_scenes insert new_scene
entered-active id version s sc = rw (lookup-single id (length s.heap)) (
  refl,
  refl,
  get_elem?-set_same (s.heap ++ new_scene id version ∷ []) (length s.heap) _ sc
      (get_elem?-end s.heap (new_scene id version)),
)

fresh :
    (id : SceneId) (version : SceneVersion) (s : ServerInner)
    → new_scene_with_version id version (clear_scenes s)
      ≡ (register (new_scene id version) (clear_scenes s), ok (length s.heap))
unfolding new_scene_with_version clear_scenes lookup
fresh id version s = refl

deref-fresh :
    (id : SceneId) (version : SceneVersion) (s : ServerInner)
    → deref (register (new_scene id version) (clear_scenes s)) (length s.heap)
      ≡ some (new_scene id version)
unfolding register clear_scenes
deref-fresh id version s = get_elem?-end s.heap (new_scene id version)

cleared-idle : (tokens : Map Text) (t : TestControlState) → handle_state (cleared tokens t) ≡ idle
unfolding handle_state cleared clear_scenes
cleared-idle tokens t = refl

module _ (readers : Readers) (req : SetupRequest) (b : SetupBundle) (t : TestControlState) where
  abbrev id_of : SceneId
  id_of = effective_id b

  abbrev primed_scene : Scene
  primed_scene = prime readers req b (new_scene id_of b.hash)

  abbrev after_finish : TestControlState
  after_finish = record (cleared req.tokens t) {
    server = (set_active_scene id_of (entered id_of b.hash t.server primed_scene)).0;
  }

  finish_lem :
      finish readers req b
        (cleared req.tokens t)
        (new_scene_with_version id_of b.hash (cleared req.tokens t).server)
      ≡ (after_finish, setup_done t.ws_url id_of b.hash)
  unfolding cleared
  finish_lem = rw (fresh id_of b.hash t.server) (rw (deref-fresh id_of b.hash t.server) refl)

  after_finish-Shows : Shows after_finish id_of b.hash (seeds_of readers req b)
  unfolding snapshot_state lookup
  after_finish-Shows =
      let (same_id, same_version, same_store) = primed readers req b id_of b.hash in
      let (active, scenes, found) = entered-active id_of b.hash t.server primed_scene in
      (
        snapshot_state primed_scene,
        shown after_finish id_of (length t.server.heap) primed_scene active
              (ap (lookup id_of) scenes ∙ lookup-single id_of (length t.server.heap)) found
            ∙ ap₂ (λ i v. state_of i v (snapshot_state primed_scene)) same_id same_version,
        λ path.
            lookup-snapshot primed_scene.store path
              (subst IsUnique (sym same_store) (insert_all-IsUnique (seeds_of readers req b) [] tt))
            ∙ ap (lookup path) same_store
            ∙ lookup-insert_all path (seeds_of readers req b) [],
      )

  abbrev pub is_accepted : Bool
  is_accepted = not (is_empty b.id) && is_some (strip_prefix (codes "sha256:") b.hash)

  -- Of a request whose first bundle is `b`, either the bundle has an id and a `sha256:` hash, the
  -- answer names the scene and its version, and `handle_state` then answers with this scene, whose
  -- state has the last seeded value of each path; or it lacks one of them, the answer is 400, and
  -- `handle_state` then answers that no scene is active, whatever was active before.
  pub handle_setup-Outcome :
      head? req.bundles ≡ some b
      → let (t', r) = handle_setup readers req t in
        ((is_accepted ≡ true)
          × (r ≡ setup_done t.ws_url id_of b.hash)
          × Shows t' id_of b.hash (seeds_of readers req b))
        ⊎ ((is_accepted ≡ false)
            × (code : String) × (detail : Message) × (r ≡ problem 400 code detail)
            × (handle_state t' ≡ idle))
  unfolding handle_setup
  handle_setup-Outcome first = rw first (elim (Bool-cases (is_empty b.id)) [
    | inl no_id ↦ inr (rw no_id (refl, _, _, refl, cleared-idle req.tokens t))
    | inr named ↦ elim (Bool-cases (is_some (strip_prefix (codes "sha256:") b.hash))) [
      | inl hashed ↦ inl (rw named (rw hashed (rw finish_lem (refl, refl, after_finish-Shows))))
      | inr other ↦ inr (rw named (rw other (refl, _, _, refl, cleared-idle req.tokens t)))
    ]
  ])

-- After a reset no scene is active and every token is denied.
handle_reset-forgets :
    (t : TestControlState) (token : Text)
    → let (t', r) = handle_reset t in
      (r ≡ no_content) × (handle_state t' ≡ idle) × (authenticate_map t'.auth token ≡ err denied)
unfolding handle_reset handle_state clear_scenes clear_tokens authenticate_map lookup
handle_reset-forgets t token = (refl, refl, refl)
