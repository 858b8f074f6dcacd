-- ===== src/Server/TestControl/Emission.antt =====
-- What the control plane shows after an emission (`handle_emit` of test_control.rs).
use lumencast_rs.Prelude.{
  ◌≡◌, refl, sym, ap₂, ◌∙◌, ◌⊎◌, inl, inr, List, [], ◌∷◌, none, some, String, ℕ, Text, Map, lookup,
  last_value, IsUnique, get_elem?, get_elem?-set_same, All, Result, ok, err,
}
use lumencast_rs.Protocol.Json.{Value}
use lumencast_rs.Protocol.Errors.{Message}
use lumencast_rs.Protocol.Types.{SceneId}
use lumencast_rs.Server.Store.Laws.{lookup-snapshot, apply-IsValid}
use lumencast_rs.Server.Scene.{Scene, ServerError, snapshot_state, publish, emit, emit_with_cause}
use lumencast_rs.Server.Scene.Laws.{IsLegalPair, emit_atomic, emit_checked_cases}
use lumencast_rs.Server.Registry.{put}
use lumencast_rs.Server.TestControl.{
  TestControlState, no_content, emit_error, state_of, handle_state, handle_emit, after_emit,
  emit_behind,
}
use lumencast_rs.Server.TestControl.Laws.{shown}

-- A scene named and versioned as the other, whose store has no path twice.
record IsSame (s s' : Scene) : Type 0 where
  same_id : s'.id ≡ s.id
  same_version : s'.version ≡ s.version
  no_path_twice : IsUnique s'.store.inner

emit-IsSame :
    (kvs : List (Text × Value)) (s : Scene)
    → IsUnique s.store.inner
    → IsSame s (emit_with_cause kvs none s).0
unfolding publish
emit-IsSame kvs s u =
    emit_checked_cases (IsSame s) kvs none s
      (record { same_id = refl; same_version = refl; no_path_twice = u })
      (λ ps. record {
        same_id = refl;
        same_version = refl;
        no_path_twice = apply-IsValid _ s.store u;
      })

-- The handler looks at the active scene's handle.
abbrev IsActive : TestControlState → SceneId → ℕ → Scene → Type 0
IsActive t id h sc =
    (t.server.active ≡ some id)
    × (lookup id t.server.scenes ≡ some h)
    × (get_elem? t.server.heap h ≡ some sc)

module _ (t : TestControlState) (id : SceneId) (h : ℕ) (sc : Scene) (a : IsActive t id h sc) where
  emits : (kvs : List (Text × Value)) → handle_emit kvs t ≡ emit_behind kvs t h (some sc)
  unfolding handle_emit
  emits kvs = rw a.0 (rw a.1 (rw a.2 refl))

  shown_put :
      (sc' : Scene)
      → handle_state (record t { server = put t.server h sc' })
        ≡ state_of sc'.id sc'.version (snapshot_state sc')
  shown_put sc' =
      shown (record t { server = put t.server h sc' }) id h sc' a.0 a.1
        (get_elem?-set_same t.server.heap h sc sc' a.2)

  snapshot_lem :
      (s : Scene) (path : Text)
      → IsUnique s.store.inner
      → lookup path (snapshot_state s) ≡ lookup path s.store.inner
  unfolding snapshot_state
  snapshot_lem s path u = lookup-snapshot s.store path u

  after_emit-ok :
      (r : Scene × Result ServerError (Unit {0}))
      → r.1 ≡ ok tt
      → after_emit t h r ≡ (record t { server = put t.server h r.0 }, no_content)
  after_emit-ok (sc', ok done) e = refl
  after_emit-ok (sc', err x) e = absurd cc

-- With an active scene whose store has no path twice, either every pair is legal, the answer is 204,
-- and `handle_state` then answers with the same scene, each path having the value of the last pair
-- that names it; or some pair is illegal, the answer is an emit error, and `handle_state` answers
-- what it answered before.
pub handle_emit-state :
    (t : TestControlState) (id : SceneId) (h : ℕ) (sc : Scene) (kvs : List (Text × Value))
    → IsActive t id h sc
    → IsUnique sc.store.inner
    → let (t', r) = handle_emit kvs t in
      ((All IsLegalPair kvs)
        × (r ≡ no_content)
        × (state : Map Value) × (handle_state t' ≡ state_of sc.id sc.version state)
        × ((path : Text) → lookup path state ≡ last_value path kvs (lookup path sc.store.inner)))
      ⊎ ((¬ All IsLegalPair kvs)
          × (code : String) × (message : Message) × (r ≡ emit_error code message)
          × (handle_state t' ≡ handle_state t))
unfolding emit last_value
handle_emit-state t id h sc [] a u = rw (emits t id h sc a []) (
    inl (
      tt,
      refl,
      snapshot_state sc,
      shown t id h sc a.0 a.1 a.2,
      λ path. snapshot_lem t id h sc a sc path u,
    ))
handle_emit-state t id h sc (kv ∷ kvs) a u =
    rw (emits t id h sc a (kv ∷ kvs)) (elim (emit_atomic (kv ∷ kvs) none sc) [
      | inl (legal, done, written) ↦
          let k = emit-IsSame (kv ∷ kvs) sc u in
          let sc' = (emit_with_cause (kv ∷ kvs) none sc).0 in
          rw (after_emit-ok t id h sc a (emit_with_cause (kv ∷ kvs) none sc) done) (
            inl (
              legal,
              refl,
              snapshot_state sc',
              shown_put t id h sc a sc'
                  ∙ ap₂ (λ i v. state_of i v (snapshot_state sc')) k.same_id k.same_version,
              λ path. snapshot_lem t id h sc a sc' path k.no_path_twice ∙ written path,
            ))
      | inr (illegal, e, same) ↦
          rw same (
            inr (illegal, _, _, refl, shown_put t id h sc a sc ∙ sym (shown t id h sc a.0 a.1 a.2)))
    ])
