-- ===== src/Conformance.antt =====
-- crates/lumencast-conformance/src: the player of conformance scenarios.
pub mod Placeholders
pub mod Scenario
pub mod Matching
pub mod Effects
pub mod Control
pub mod Setup
pub mod Player
pub mod Harness
pub mod Fixtures
