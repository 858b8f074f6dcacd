-- ===== src/Protocol/Types/Tests.antt =====
-- Scene versions at work (types.rs).
use lumencast_rs.Prelude.{◌≡◌, refl, ◌↔◌, Bool, true, false, List, Text, codes, replicate, ◌++◌}
use lumencast_rs.Protocol.Types.{is_well_formed}

short-is_well_formed : is_well_formed (codes "sha256:00") ≡ false
unfolding is_well_formed lumencast_rs.Prelude.strip_prefix
short-is_well_formed = refl
