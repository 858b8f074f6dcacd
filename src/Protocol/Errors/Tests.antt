-- ===== src/Protocol/Errors/Tests.antt =====
-- The wire forms of the error codes at work (errors.rs).
use lumencast_rs.Prelude.{◌≡◌, refl, codes}
use lumencast_rs.Protocol.Errors.{rate_limit, as_wire_str}

rate_limit-as_wire_str : as_wire_str rate_limit ≡ codes "RATE_LIMIT"
unfolding as_wire_str
rate_limit-as_wire_str = refl
