-- ===== src/Protocol/Bundle/Hash.antt =====
-- The content hash of a bundle (bundle.rs): its format, and that it is a hash of the content alone.
use lumencast_rs.Prelude.{
  append_laws, ℕ, zero, suc, ◌*◌, ◌/◌, ◌%◌, ◌<◌, ◌≡◌, refl, sym, ap, subst, ◌∙◌, true, [], ◌∷◌,
  ◌++◌, append_assoc, append-nil, Text, codes, text_eq, text_eq_refl, All, all_sound, length,
  get_elem?, Result, ok, err, ◌>>=◌, map_err, >>=-eq-ok, arith,
}
use lumencast_rs.Protocol.Json.{Value, string, object, Members, insert_member, end, member}
use lumencast_rs.Protocol.Types.{SceneVersion, is_well_formed, is_ascii_hexdigit}
use lumencast_rs.Protocol.Types.Laws.{is_well_formed_iff}
use lumencast_rs.Protocol.Codec.{SerdeJson, Derived}
use lumencast_rs.Protocol.Bundle.{
  BundleError, json, Bundle, placeholder_hash, byte_or_zero, hex_digit, write_hex_byte, write_hex,
  hash_to_scene_version, scene_version_key, with_placeholder, to_canonical_bytes_for_hashing,
  compute_content_hash, is_self_consistent, with_computed_version,
}

-- The two digits of each byte of a digest.
abbrev pub digits_of : Text → Text
digits_of [] = []
digits_of (b ∷ bs) = hex_digit (b / 16) ∷ hex_digit (b % 16) ∷ digits_of bs

write_hex-digits : (digest out : Text) → write_hex out digest ≡ out ++ digits_of digest
unfolding write_hex write_hex_byte
write_hex-digits [] out = sym (append-nil out)
write_hex-digits (b ∷ bs) out =
    write_hex-digits bs _
    ∙ ap (λ t. t ++ digits_of bs)
        (append_assoc out (hex_digit (b / 16) ∷ []) (hex_digit (b % 16) ∷ []))
    ∙ simp append_laws

length-digits_of : (bs : Text) → length (digits_of bs) ≡ 2 * length bs
length-digits_of [] = refl
length-digits_of (b ∷ bs) = omega (arith, length-digits_of bs)

at_index {ℓ} :
    (P : ℕ → Type ℓ) (bs : Text) (i : ℕ)
    → All P bs
    → i < length bs
    → P (byte_or_zero (get_elem? bs i))
at_index P [] i h lt = absurd (omega arith)
at_index P (b ∷ bs) zero h lt = h.0
at_index P (b ∷ bs) (suc i) h lt = at_index P bs i h.1 (omega arith)

hex_digit-IsHex : (n : ℕ) → n < 16 → is_ascii_hexdigit (hex_digit n) ≡ true
unfolding hex_digit
hex_digit-IsHex n lt =
    at_index (λ b. is_ascii_hexdigit b ≡ true) (codes "0123456789abcdef") n
      (all_sound is_ascii_hexdigit (codes "0123456789abcdef") refl) lt

digits_of-AreHex :
    (bs : Text) → All (λ b. b < 256) bs → All (λ b. is_ascii_hexdigit b ≡ true) (digits_of bs)
digits_of-AreHex [] h = tt
digits_of-AreHex (b ∷ bs) h = (
  hex_digit-IsHex (b / 16) (omega (arith, h.0)),
  (hex_digit-IsHex (b % 16) (omega arith), digits_of-AreHex bs h.1),
)

module _ (sha256 : Text → Text) where
  -- If the hash of a text is 32 bytes, the scene version made of it is well formed.
  pub hash_to_scene_version-IsWellFormed :
      (canonical : Text)
      → length (sha256 canonical) ≡ 32
      → All (λ b. b < 256) (sha256 canonical)
      → is_well_formed (hash_to_scene_version sha256 canonical) ≡ true
  unfolding hash_to_scene_version
  hash_to_scene_version-IsWellFormed canonical len bytes = (is_well_formed_iff _).1 (
    digits_of (sha256 canonical),
    write_hex-digits (sha256 canonical) (codes "sha256:"),
    omega (arith, len, length-digits_of (sha256 canonical)),
    digits_of-AreHex (sha256 canonical) bytes,
  )

insert_member-twice :
    (k : Text) (v w : Value) (ms : Members)
    → insert_member k v (insert_member k w ms) ≡ insert_member k v ms
unfolding insert_member
insert_member-twice k v w end = rw (text_eq_refl k) refl
insert_member-twice k v w (member j u ms) =
    ground (arith, text_eq_refl k, insert_member-twice k v w ms)

-- The derived serialisation of a bundle: an object with the version under its own key, and the
-- other fields, which do not depend on it.
pub record SerialisesVersion (d : Derived Bundle) : Type 0 where
  pub fields : Bundle → Result Text Members
  pub same_fields :
      (b : Bundle) (v : SceneVersion) → fields (record b { scene_version = v }) ≡ fields b
  pub as_object :
      (b : Bundle)
      → d.to_value b ≡ (
          fields b >>= λ ms.
          ok (object (insert_member scene_version_key (string b.scene_version) ms)))

module _ (s : SerdeJson) (d : Derived Bundle) (sha256 : Text → Text)
    (ser : SerialisesVersion d) where
  abbrev bytes_of : Result Text Members → Result BundleError Text
  bytes_of r =
      map_err json
        (r >>= λ ms. ok (object (insert_member scene_version_key (string placeholder_hash) ms)))
      >>= λ v. map_err json (s.to_vec v)

  hashed-fields :
      (b : Bundle) → to_canonical_bytes_for_hashing s d sha256 b ≡ bytes_of (ser.fields b)
  unfolding to_canonical_bytes_for_hashing
  hashed-fields b =
      ap (λ r. map_err json r >>= λ value. map_err json (s.to_vec (with_placeholder value)))
        (ser.as_object b)
      ∙ go (ser.fields b)
    where
      go :
          (r : Result Text Members)
          → (map_err json (
                r >>= λ ms.
                ok (object (insert_member scene_version_key (string b.scene_version) ms)))
              >>= λ value. map_err json (s.to_vec (with_placeholder value)))
            ≡ bytes_of r
      go (err e) = refl
      go (ok ms) =
          ap (λ x. map_err json (s.to_vec (object x)))
            (insert_member-twice scene_version_key _ _ ms)

  -- The content hash does not depend on the version that the bundle declares.
  compute_content_hash-version :
      (b : Bundle) (v : SceneVersion)
      → compute_content_hash s d sha256 (record b { scene_version = v })
        ≡ compute_content_hash s d sha256 b
  unfolding compute_content_hash
  compute_content_hash-version b v =
      ap (λ r. r >>= λ bytes. ok (hash_to_scene_version sha256 bytes))
        (hashed-fields (record b { scene_version = v })
          ∙ ap bytes_of (ser.same_fields b v)
          ∙ sym (hashed-fields b))

  -- A bundle that is given its computed version is self-consistent, if a bundle serialises to an
  -- object that has the version under its own key and whose other members do not depend on it.
  pub with_computed_version-IsConsistent :
      (b b' : Bundle)
      → with_computed_version s d sha256 b ≡ ok b'
      → is_self_consistent s d sha256 b' ≡ ok true
  unfolding with_computed_version is_self_consistent
  with_computed_version-IsConsistent b b' h =
      let (v, computed, made) = >>=-eq-ok (compute_content_hash s d sha256 b) _ h in
      let is_b' : record b { scene_version = v } ≡ b' = cc in
      subst (λ x. is_self_consistent s d sha256 x ≡ ok true) is_b'
        (ap (λ r. r >>= λ c. ok (text_eq c v)) (compute_content_hash-version b v ∙ computed)
          ∙ ap ok (text_eq_refl v))
