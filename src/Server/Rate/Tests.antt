-- ===== src/Server/Rate/Tests.antt =====
-- The rate limit at work (`RateBucket` of ws_handler.rs).
use lumencast_rs.Prelude.{◌+◌, ◌-◌, ◌≡◌, ◌++◌, replicate, arith}
use lumencast_rs.Server.Rate.{new_bucket, second}
use lumencast_rs.Server.Rate.Laws.{count_allowed, count_allowed_double}

count_allowed_double_example :
    count_allowed (replicate 60 (0 + second - 1) ++ replicate 60 (0 + second)) (new_bucket 60 0)
    ≡ 60 + 60
count_allowed_double_example = count_allowed_double 60 0 (omega arith)
