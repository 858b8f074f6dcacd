-- ===== src/Client/Backoff/Tests.antt =====
-- The schedule at work (backoff.rs).
use lumencast_rs.Prelude.{◌≡◌, refl, false}
use lumencast_rs.Client.Backoff.{base_ms, backoff_for_attempt_with_jitter}

third-backoff : backoff_for_attempt_with_jitter (λ b. b) 3 false ≡ 1000
unfolding backoff_for_attempt_with_jitter base_ms
third-backoff = refl
