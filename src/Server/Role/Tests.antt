-- ===== src/Server/Role/Tests.antt =====
-- Write policies at work (role.rs).
use lumencast_rs.Prelude.{
  ◌≡◌, refl, ◌↔◌, ◌⊎◌, Bool, true, false, List, [], ◌∷◌, Option, none, some, codes,
}
use lumencast_rs.Protocol.LeafPath.{LeafPath, Namespace, namespace}
use lumencast_rs.Server.Role.{service, can_write}
use lumencast_rs.Server.Role.Laws.{MayWrite, can_write_iff}

abbrev gain : LeafPath
gain = record { text = codes "__inputs.audio.gain" }

gain-can_write : can_write service gain (some (codes "__inputs.audio" ∷ [])) ≡ true
unfolding can_write lumencast_rs.Protocol.LeafPath.starts_with_prefix lumencast_rs.Prelude.text_eq
    lumencast_rs.Prelude.strip_prefix
gain-can_write = refl

can_write_iff_example :
    (can_write service gain (some (codes "__inputs.audio" ∷ [])) ≡ true)
    ↔ MayWrite service gain (some (codes "__inputs.audio" ∷ []))
can_write_iff_example = can_write_iff service gain (some (codes "__inputs.audio" ∷ []))
