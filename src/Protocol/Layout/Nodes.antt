-- ===== src/Protocol/Layout/Nodes.antt =====
-- Which objects `check_node` of bundle.rs takes for nodes of a layout.
use lumencast_rs.Prelude.{
  ℕ, ◌≤◌, ◌≡◌, ◌⊎◌, Empty, List, [], ◌∷◌, some, Text, codes, length, All, Any,
}
use lumencast_rs.Protocol.Json.{Value, string, object, Members, end, member, get}

abbrev pub IsOneOf : List Text → Text → Type 0
IsOneOf ts t = Any (λ w. w ≡ t) ts

-- A member with a text.
abbrev pub Says : Members → Text → Text → Type 0
Says obj key t = get key obj ≡ some (string t)

abbrev pub SaysOneOf : Members → Text → List Text → Type 0
SaysOneOf obj key ts = (t : Text) × Says obj key t × IsOneOf ts t

abbrev pub Has : Members → Text → Type 0
Has obj key = (v : Value) × (get key obj ≡ some v)

-- `[a-z]`, and `[a-z0-9-]`.
abbrev pub IsLowercase : ℕ → Type 0
IsLowercase b = (b'a' ≤ b) × (b ≤ b'z')

abbrev pub IsAliasByte : ℕ → Type 0
IsAliasByte b = IsLowercase b ⊎ (((b'0' ≤ b) × (b ≤ b'9')) ⊎ (b ≡ b'-'))

-- `^[a-z][a-z0-9-]{0,63}$`
abbrev pub IsAlias : Text → Type 0
IsAlias [] = Empty
IsAlias (b ∷ s) = IsLowercase b × All IsAliasByte s × (length s ≤ 63)

abbrev pub visual_kinds : List Text
visual_kinds =
    codes "media.webcam"
    ∷ codes "media.screen"
    ∷ codes "media.window"
    ∷ codes "media.file"
    ∷ codes "media.game"
    ∷ []

abbrev pub audio_kinds : List Text
audio_kinds = codes "media.app_audio" ∷ codes "media.system_audio" ∷ codes "media.mic" ∷ []

-- A capture has a known source, of a visual kind only with a size, and a logical name of its device.
abbrev pub IsCapture : Members → Type 0
IsCapture obj =
    ((t : Text) × Says obj (codes "x-zab.sourceKind") t
      × (IsOneOf visual_kinds t ⊎ IsOneOf audio_kinds t)
      × (IsOneOf visual_kinds t → Has obj (codes "size")))
    × (r : Text) × Says obj (codes "x-zab.deviceRef") r
    × IsAlias r

-- The kinds of the catalogue, each with what it asks of the other members.
pub data Fits (kind : Text) (obj : Members) : Type 0 where
  a_stack :
      kind ≡ codes "stack"
      → SaysOneOf obj (codes "direction") (codes "horizontal" ∷ codes "vertical" ∷ [])
      → Fits kind obj
  a_grid : kind ≡ codes "grid" → Has obj (codes "columns") → Fits kind obj
  a_frame : kind ≡ codes "frame" → Fits kind obj
  a_text : kind ≡ codes "text" → Fits kind obj
  an_image : kind ≡ codes "image" → Has obj (codes "alt") → Fits kind obj
  a_plain_shape :
      kind ≡ codes "shape"
      → SaysOneOf obj (codes "geometry") (codes "rect" ∷ codes "circle" ∷ [])
      → Fits kind obj
  a_path :
      kind ≡ codes "shape"
      → Says obj (codes "geometry") (codes "path")
      → Has obj (codes "pathData")
      → Fits kind obj
  a_medium :
      kind ≡ codes "media"
      → SaysOneOf obj (codes "kind_hint") (codes "video" ∷ codes "audio" ∷ [])
      → Fits kind obj
  a_repeat :
      kind ≡ codes "repeat" → Has obj (codes "scope") → Has obj (codes "template") → Fits kind obj
  a_capture : kind ≡ codes "x-zab.capture" → IsCapture obj → Fits kind obj

-- An `animate` block, where there is one, has these keys only.
abbrev pub AnimatesOnly : Members → Type 0
AnimatesOnly end = Unit
AnimatesOnly (member key v ms) =
    IsOneOf (codes "transition" ∷ codes "transform" ∷ codes "opacity" ∷ codes "filter" ∷ []) key
    × AnimatesOnly ms

abbrev pub IsLegalNode : Members → Type 0
IsLegalNode obj =
    ((kind : Text) × Says obj (codes "kind") kind × Fits kind obj)
    × ((ms : Members) → get (codes "animate") obj ≡ some (object ms) → AnimatesOnly ms)
