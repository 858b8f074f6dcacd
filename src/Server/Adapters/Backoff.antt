-- ===== src/Server/Adapters/Backoff.antt =====
-- The waits of the WebSocket-subscribe adapter (adapters/websocket_subscribe.rs).
use lumencast_rs.Prelude.{
  ◌*◌, ◌≤◌, ◌≡◌, refl, sym, subst, true, false, List, [], ◌∷◌, ◌++◌, some, All, All-append,
  if-cases, arith,
}
use lumencast_rs.Protocol.Codec.{SerdeJson}
use lumencast_rs.Server.Scene.{Scene}
use lumencast_rs.Server.Adapters.WsSubscribe.{
  WsSubscribeConfig, Outcome, cancelled, disconnected, connected, duration_max, double_duration,
  Wait, slept, woken, Attempt, Feed, start_feed, with_doubled, after_wait, after_run, feed_round,
  spawn_feed,
}

module _ (sj : SerdeJson) (config : WsSubscribeConfig) where
  -- The next wait is between the bounds of the configuration, as are the waits so far, and the task
  -- has not panicked.
  pub record IsBounded (f : Feed sj config) : Type 0 where
    pub low : config.backoff_initial ≤ f.backoff
    pub high : f.backoff ≤ config.backoff_max
    pub alive : f.panicked ≡ false
    pub waited : All (λ w. (config.backoff_initial ≤ w) × (w ≤ config.backoff_max)) f.waits

module _ (sj : SerdeJson) (config : WsSubscribeConfig)
    (ordered : config.backoff_initial ≤ config.backoff_max)
    (small : 2 * config.backoff_max ≤ duration_max) where
  -- A task that has begun one more wait.
  waits_more :
      (f : Feed sj config) (s : Scene)
      → IsBounded sj config f
      → IsBounded sj config (record f { scene = s; waits = f.waits ++ f.backoff ∷ [] })
  waits_more f s b = record {
    low = b.low;
    high = b.high;
    alive = b.alive;
    waited = All-append _ f.waits (f.backoff ∷ []) b.waited ((b.low, b.high), tt);
  }

  with_doubled-IsBounded :
      (f : Feed sj config)
      → IsBounded sj config f
      → IsBounded sj config (with_doubled sj config f (double_duration f.backoff))
  with_doubled-IsBounded f b =
      subst (λ o. IsBounded sj config (with_doubled sj config f o)) (sym doubled)
        (record {
          low = ground (arith, b.low);
          high = ground arith;
          alive = b.alive;
          waited = b.waited;
        })
    where
      doubled : double_duration f.backoff ≡ some (2 * f.backoff)
      doubled = ground (arith, b.high)

  after_wait-IsBounded :
      (w : Wait sj config) (f : Feed sj config)
      → IsBounded sj config f
      → IsBounded sj config (after_wait sj config w f)
  after_wait-IsBounded slept f b = with_doubled-IsBounded f b
  after_wait-IsBounded (woken false) f b = with_doubled-IsBounded f b
  after_wait-IsBounded (woken true) f b = record {
    low = b.low;
    high = b.high;
    alive = b.alive;
    waited = b.waited;
  }

  after_run-IsBounded :
      (w : Wait sj config) (f : Feed sj config) (s : Scene) (o : Outcome)
      → IsBounded sj config f
      → IsBounded sj config (after_run sj config w f (s, o))
  unfolding after_run
  after_run-IsBounded w f s cancelled b = record {
    low = b.low;
    high = b.high;
    alive = b.alive;
    waited = b.waited;
  }
  after_run-IsBounded w f s disconnected b = after_wait-IsBounded w _ (waits_more f s b)
  after_run-IsBounded w f s connected b = record {
    low = omega arith;
    high = ordered;
    alive = b.alive;
    waited = b.waited;
  }

  feed_round-IsBounded :
      (a : Attempt sj config) (f : Feed sj config)
      → IsBounded sj config f
      → IsBounded sj config (feed_round sj config a f)
  unfolding feed_round
  feed_round-IsBounded a f b =
      if-cases (IsBounded sj config) a.cancelled_before _ _
        (λ stopped. record { low = b.low; high = b.high; alive = b.alive; waited = b.waited })
        (λ goes_on. after_run-IsBounded a.wait f _ _ b)

  feeds-IsBounded :
      (as_ : List (Attempt sj config)) (f : Feed sj config)
      → IsBounded sj config f
      → IsBounded sj config (spawn_feed sj config as_ f)
  unfolding spawn_feed
  feeds-IsBounded [] f b = b
  feeds-IsBounded (a ∷ as_) f b =
      if-cases (IsBounded sj config) f.running _ _
        (λ on. feeds-IsBounded as_ _ (feed_round-IsBounded a f b)) (λ ended. b)

  -- Whatever the network does, each wait of the adapter before a new attempt is between the initial
  -- backoff and the largest, and doubling it never panics, if the initial backoff is at most the
  -- largest and twice the largest is a duration.
  pub spawn_feed-IsBounded :
      (as_ : List (Attempt sj config)) (s : Scene)
      → IsBounded sj config (spawn_feed sj config as_ (start_feed sj config s))
  spawn_feed-IsBounded as_ s =
      feeds-IsBounded as_ _
        (record { low = omega arith; high = ordered; alive = refl; waited = tt })
