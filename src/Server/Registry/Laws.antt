-- ===== src/Server/Registry/Laws.antt =====
-- The registry of scenes (server.rs): every name leads to a scene of that name, and the active scene
-- is a registered one.
use lumencast_rs.Prelude.{
  ℕ, zero, suc, ◌≡◌, refl, sym, ap, subst, ◌∙◌, ◌⊎◌, ◌==◌, inl, inr, true, false, List, [], ◌∷◌,
  ◌++◌, Option, none, some, text_eq, text_eq_iff, lookup, lookup-insert, IsUnique, insert-IsUnique,
  contains_key, length, get_elem?, set, get_elem?-set_same, get_elem?-set_other, Bool-cases, arith,
}
use lumencast_rs.Protocol.Types.{SceneId}
use lumencast_rs.Server.Scene.{Scene}
use lumencast_rs.Server.Registry.{
  ServerConfig, ServerInner, new_server, scene, deref, put, set_if_none, register,
}

-- The scene behind a handle has the given name.
abbrev pub IsNamed : SceneId → Option Scene → Type 0
IsNamed id none = (true ≡ false)
IsNamed id (some sc) = sc.id ≡ id

pub record IsValid (s : ServerInner) : Type 0 where
  pub unique : IsUnique s.scenes
  pub named : (id : SceneId) (h : ℕ) → scene id s ≡ some h → IsNamed id (deref s h)
  pub current : (id : SceneId) → s.active ≡ some id → contains_key id s.scenes ≡ true

get_elem?-append :
    (xs ys : List Scene) (h : ℕ) (id : SceneId)
    → IsNamed id (get_elem? xs h)
    → IsNamed id (get_elem? (xs ++ ys) h)
get_elem?-append [] ys h id named = absurd (cc)
get_elem?-append (x ∷ xs) ys zero id named = named
get_elem?-append (x ∷ xs) ys (suc h) id named = get_elem?-append xs ys h id named

pub get_elem?-end : (xs : List Scene) (x : Scene) → get_elem? (xs ++ x ∷ []) (length xs) ≡ some x
get_elem?-end [] x = refl
get_elem?-end (y ∷ ys) x = get_elem?-end ys x

dec_eq : (h k : ℕ) → (h ≡ k) ⊎ (¬ (h ≡ k))
dec_eq h k = elim (Bool-cases (h == k)) [
  | inl same ↦ inl (ground arith)
  | inr other ↦ inr (λ e. ground arith)
]

pub new_server-IsValid : (config : ServerConfig) → IsValid (new_server config)
unfolding lookup
new_server-IsValid config = record {
  unique = tt;
  named = λ id h e. absurd (cc);
  current = λ id e. absurd (cc);
}

module _ (sc : Scene) (s : ServerInner) (v : IsValid s) where
  register-IsNamed :
      (id : SceneId) (h : ℕ)
      → scene id (register sc s) ≡ some h
      → IsNamed id (deref (register sc s) h)
  unfolding register
  register-IsNamed id h e = elim (Bool-cases (text_eq sc.id id)) [
    | inl same ↦
        let found : some (length s.heap) ≡ some h =
          rw same at (sym (lookup-insert sc.id id (length s.heap) s.scenes) ∙ e) in
        let at : length s.heap ≡ h = cc in
        subst (λ k. IsNamed id (get_elem? (s.heap ++ sc ∷ []) k)) at
          (subst (IsNamed id) (sym (get_elem?-end s.heap sc)) ((text_eq_iff sc.id id).0 same))
    | inr other ↦
        let found : lookup id s.scenes ≡ some h =
          rw other at (sym (lookup-insert sc.id id (length s.heap) s.scenes) ∙ e) in
        get_elem?-append s.heap (sc ∷ []) h id (v.named id h found)
  ]

  still_there :
      (id : SceneId)
      → contains_key id s.scenes ≡ true
      → contains_key id (register sc s).scenes ≡ true
  unfolding register
  still_there id there = rw (lookup-insert sc.id id (length s.heap) s.scenes) (ground arith)

  is_there : contains_key sc.id (register sc s).scenes ≡ true
  unfolding register
  is_there =
      rw (lookup-insert sc.id sc.id (length s.heap) s.scenes, (text_eq_iff sc.id sc.id).1 refl) refl

  register-current :
      (o : Option SceneId)
      → s.active ≡ o
      → (id : SceneId) → set_if_none o sc.id ≡ some id
      → contains_key id (register sc s).scenes ≡ true
  register-current none was id e =
      let same : sc.id ≡ id = cc in
      subst (λ k. contains_key k (register sc s).scenes ≡ true) same is_there
  register-current (some old) was id e = still_there id (v.current id (was ∙ e))

  pub register-IsValid : IsValid (register sc s)
  unfolding register
  register-IsValid = record {
    unique = insert-IsUnique sc.id (length s.heap) s.scenes v.unique;
    named = register-IsNamed;
    current = λ id e. register-current s.active refl id e;
  }

pub put-IsValid :
    (s : ServerInner) (h : ℕ) (sc sc' : Scene)
    → deref s h ≡ some sc
    → sc'.id ≡ sc.id
    → IsValid s
    → IsValid (put s h sc')
put-IsValid s h sc sc' at same v = record {
  unique = v.unique;
  named = λ id k e. elim (dec_eq h k) [
    | inl here ↦
        subst (λ j. IsNamed id (get_elem? (set s.heap h sc') j)) here
          (subst (IsNamed id) (sym (get_elem?-set_same s.heap h sc sc' at))
            (same ∙ subst (IsNamed id) at (v.named id h (e ∙ ap some (sym here)))))
    | inr other ↦
        subst (IsNamed id) (sym (get_elem?-set_other s.heap h k sc' other)) (v.named id k e)
  ];
  current = v.current;
}
