-- ===== src/Protocol/Codec/Laws.antt =====
-- What decoding accepts, and that it undoes encoding (codec.rs).
use lumencast_rs.Prelude.{
  ◌≡◌, refl, ◌↔◌, inl, inr, true, false, List, [], ◌∷◌, ◌++◌, some, Text, text_eq, text_eq_iff, All,
  is_some, is_empty, Option-cases, ok, err, map_err, >>=-eq-ok, map_err-eq-ok, ap, ◌∙◌, arith,
  if◌then◌else◌,
}
use lumencast_rs.Protocol.Json.{
  Value, number, positive, object, Members, end, member, is_object, get, insert_member,
}
use lumencast_rs.Protocol.Errors.{json, value_error_at, filled}
use lumencast_rs.Protocol.Types.{Patch}
use lumencast_rs.Protocol.Frames.{
  State, ServerFrame, snapshot, delta, scene_changed, error, pong, ClientFrame, subscribe, input,
  ping, unsubscribe, protocol_version,
}
use lumencast_rs.Protocol.Codec.{
  SerdeJson, Derived, v_key, type_key, inject_version, version_of, check_envelope,
  encode_with_envelope, decode_with_envelope, validate_patches, validate_state, validate_server,
  validate_client, encode_server, decode_server, decode_client,
}

-- No leaf value is an object.
abbrev pub ArePatchesLegal : List Patch → Type 0
ArePatchesLegal = All (λ p. is_object p.value ≡ false)

abbrev pub IsServerLegal : ServerFrame → Type 0
IsServerLegal (delta d) = ArePatchesLegal d.patches
IsServerLegal (snapshot f) = All (λ kv. is_object kv.1 ≡ false) f.state
IsServerLegal (scene_changed f) = Unit
IsServerLegal (error f) = Unit
IsServerLegal (pong f) = Unit

abbrev pub IsClientLegal : ClientFrame → Type 0
IsClientLegal (input i) = (is_empty i.patches ≡ false) × ArePatchesLegal i.patches
IsClientLegal (subscribe f) = Unit
IsClientLegal (ping f) = Unit
IsClientLegal unsubscribe = Unit

validate_patches_iff : (ps : List Patch) → (validate_patches ps ≡ ok tt) ↔ ArePatchesLegal ps
unfolding validate_patches
validate_patches_iff [] = (λ _. tt, λ _. refl)
validate_patches_iff (p ∷ ps) = ground (arith, validate_patches_iff ps)

validate_state_iff : (s : State) → (validate_state s ≡ ok tt) ↔ All (λ kv. is_object kv.1 ≡ false) s
unfolding validate_state
validate_state_iff [] = (λ _. tt, λ _. refl)
validate_state_iff ((k, v) ∷ s) = ground (arith, validate_state_iff s)

-- Of a list of patches the error names the first illegal one.
pub validate_patches_first :
    (before : List Patch) (p : Patch) (after : List Patch)
    → ArePatchesLegal before
    → is_object p.value ≡ true
    → validate_patches (before ++ p ∷ after)
      ≡ err (
          value_error_at p.path.text
            (filled "patch at {}: value MUST NOT be a JSON object" (p.path.text ∷ [])))
unfolding validate_patches
validate_patches_first [] p after h e = ground arith
validate_patches_first (q ∷ before) p after h e =
    ground (arith, validate_patches_first before p after h.1 e)

validate_server_iff : (f : ServerFrame) → (validate_server f ≡ ok f) ↔ IsServerLegal f
unfolding validate_server
validate_server_iff (delta d) = ground (arith, validate_patches_iff d.patches)
validate_server_iff (snapshot f) = ground (arith, validate_state_iff f.state)
validate_server_iff (scene_changed f) = (λ _. tt, λ _. refl)
validate_server_iff (error f) = (λ _. tt, λ _. refl)
validate_server_iff (pong f) = (λ _. tt, λ _. refl)

-- Validation returns the frame that it was given.
validate_client-legal : (f g : ClientFrame) → validate_client f ≡ ok g → (g ≡ f) × IsClientLegal f
unfolding validate_client
validate_client-legal (input i) g h = ground (arith, validate_patches_iff i.patches)
validate_client-legal (subscribe f) g h = ground arith
validate_client-legal (ping f) g h = ground arith
validate_client-legal unsubscribe g h = ground arith

validate_client_complete : (f : ClientFrame) → IsClientLegal f → validate_client f ≡ ok f
unfolding validate_client
validate_client_complete (input i) h = ground (arith, validate_patches_iff i.patches)
validate_client_complete (subscribe f) h = refl
validate_client_complete (ping f) h = refl
validate_client_complete unsubscribe h = refl

-- An object with version 1 and a type.
abbrev pub IsEnveloped : Members → Type 0
IsEnveloped ms =
    (version_of (get v_key ms) ≡ some protocol_version) × (is_some (get type_key ms) ≡ true)

check_envelope_sound :
    (raw : Value) → check_envelope raw ≡ ok tt → (ms : Members) × (raw ≡ object ms) × IsEnveloped ms
unfolding check_envelope
check_envelope_sound (object ms) h = (ms, refl, envelope)
  where
    envelope : IsEnveloped ms
    envelope = elim (Option-cases (version_of (get v_key ms))) [
      | inl missing ↦ absurd (cc (rw missing at h))
      | inr (v, e) ↦ let h' = rw e at h in (ground arith, ground arith)
    ]
check_envelope_sound _ h = absurd (cc)

check_envelope_complete : (ms : Members) → IsEnveloped ms → check_envelope (object ms) ≡ ok tt
unfolding check_envelope
check_envelope_complete ms (v, t) = rw (v, t)

-- What a received text must be for a frame to be accepted.
abbrev pub IsAccepted {ℓ} : {T : Type ℓ} → SerdeJson → Derived T → Text → T → Type ℓ
IsAccepted s d bytes frame =
    (ms : Members) × (s.from_slice bytes ≡ ok (object ms))
    × IsEnveloped ms
    × (d.from_value (object ms) ≡ ok frame)

module _ {ℓ} (s : SerdeJson) {T : Type ℓ} (d : Derived T) where
  decode_with_envelope_sound :
      (bytes : Text) (frame : T)
      → decode_with_envelope s d bytes ≡ ok frame
      → IsAccepted s d bytes frame
  unfolding decode_with_envelope
  decode_with_envelope_sound bytes frame h =
      let (raw, e, h') = >>=-eq-ok (map_err json (s.from_slice bytes)) _ h in
      let (_, checked, got) = >>=-eq-ok (check_envelope raw) _ h' in
      let (ms, is_ms, env) = check_envelope_sound raw checked in
      (ms, map_err-eq-ok json _ e ∙ ap ok is_ms, env, rw (← is_ms) (map_err-eq-ok json _ got))

  decode_with_envelope_complete :
      (bytes : Text) (frame : T)
      → IsAccepted s d bytes frame
      → decode_with_envelope s d bytes ≡ ok frame
  unfolding decode_with_envelope
  decode_with_envelope_complete bytes frame (ms, e, env, f) =
      rw (e, check_envelope_complete ms env, f)

-- A client frame is accepted exactly if its text is a JSON object with version 1 and a type, the
-- object reads as the frame, and the frame is legal: an input has a patch, and no patch of it has
-- an object for its value.
pub decode_client_iff :
    (s : SerdeJson) (d : Derived ClientFrame) (bytes : Text) (frame : ClientFrame)
    → (decode_client s d bytes ≡ ok frame) ↔ (IsAccepted s d bytes frame × IsClientLegal frame)
unfolding decode_client
decode_client_iff s d bytes frame = (sound, complete)
  where
    sound : decode_client s d bytes ≡ ok frame → IsAccepted s d bytes frame × IsClientLegal frame
    sound h =
        let (f, e, v) = >>=-eq-ok (decode_with_envelope s d bytes) _ h in
        let (same, legal) = validate_client-legal f frame v in
        rw same (decode_with_envelope_sound s d bytes f e, legal)

    complete : IsAccepted s d bytes frame × IsClientLegal frame → decode_client s d bytes ≡ ok frame
    complete (a, legal) =
        rw (decode_with_envelope_complete s d bytes frame a) (validate_client_complete frame legal)

get-insert_member :
    (k j : Text) (v : Value) (ms : Members)
    → get j (insert_member k v ms) ≡ (if text_eq k j then some v else get j ms)
unfolding get insert_member
get-insert_member k j v end = refl
get-insert_member k j v (member i w ms) =
    ground (arith, text_eq_iff k j, text_eq_iff i k, text_eq_iff i j, get-insert_member k j v ms)

-- The object that encoding writes for the members of a frame.
abbrev pub with_version : Members → Value
with_version ms = object (insert_member v_key (number (positive protocol_version)) ms)

with_version-IsEnveloped :
    (ms : Members)
    → is_some (get type_key ms) ≡ true
    → IsEnveloped (insert_member v_key (number (positive protocol_version)) ms)
unfolding text_eq
with_version-IsEnveloped ms t = (
  rw (get-insert_member v_key v_key (number (positive protocol_version)) ms),
  rw (get-insert_member v_key type_key (number (positive protocol_version)) ms) t,
)

-- Decoding undoes encoding for a legal server frame, if JSON text reads back as the value it was
-- written from, a frame serialises to an object with a type, and reads back from that object with
-- the version beside its own members.
pub decode-encode_server :
    (s : SerdeJson) (d : Derived ServerFrame) (frame : ServerFrame) (ms : Members) (bytes : Text)
    → d.to_value frame ≡ ok (object ms)
    → is_some (get type_key ms) ≡ true
    → d.from_value (with_version ms) ≡ ok frame
    → s.to_vec (with_version ms) ≡ ok bytes
    → s.from_slice bytes ≡ ok (with_version ms)
    → IsServerLegal frame
    → (encode_server s d frame ≡ ok bytes) × (decode_server s d bytes ≡ ok frame)
unfolding encode_server decode_server encode_with_envelope inject_version
decode-encode_server s d frame ms bytes ser typed de written read legal = (
  rw (ser, written),
  rw
      (decode_with_envelope_complete s d bytes frame
        (_, read, with_version-IsEnveloped ms typed, de))
      ((validate_server_iff frame).1 legal),
)
