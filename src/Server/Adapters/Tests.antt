-- ===== src/Server/Adapters/Tests.antt =====
-- Adapters at work (adapters/mod.rs, flatten.rs, http_poll.rs, websocket_subscribe.rs).
use lumencast_rs.Prelude.{
  ◌<◌, ◌≡◌, refl, ◌↔◌, true, false, List, [], ◌∷◌, ◌++◌, none, some, Text, codes, lookup,
  insert_all, All, Any, ok, err, arith,
}
use lumencast_rs.Protocol.Json.{Value, number, positive, object, end, member}
use lumencast_rs.Protocol.Codec.{SerdeJson}
use lumencast_rs.Server.Replay.{ReplayRecord}
use lumencast_rs.Server.Scene.{Scene, new_scene, snapshot_state}
use lumencast_rs.Server.Scene.Mirror.{sets, history, pairs_of, perform_all}
use lumencast_rs.Server.Adapters.{
  Periodic, PeriodicEvent, ticks, cancels, elsewhere, start_periodic, periodic_step, spawn_periodic,
}
use lumencast_rs.Server.Adapters.Laws.{calls_of, attached, fed, fed_snapshot_then_deltas}
use lumencast_rs.Server.Adapters.Flatten.{flatten_into_pairs}
use lumencast_rs.Server.Adapters.Flatten.Leaves.{IsLeafAt, flatten_into_pairs_iff}
use lumencast_rs.Server.Adapters.HttpPoll.{HttpPollConfig, response, polls, round_of}
use lumencast_rs.Server.Adapters.Polls.{Reads, Writes, poll_atomic}
use lumencast_rs.Server.Adapters.WsSubscribe.{
  default_subscribe, message, text, close, slept, Attempt, start_feed, spawn_feed,
}
use lumencast_rs.Server.Adapters.Backoff.{IsBounded, spawn_feed-IsBounded}

abbrev one : Value
one = number (positive 1)

-- {"score": {"home": 1}, "minute": 1}
abbrev document : Value
document = object (
    member (codes "score") (object (member (codes "home") one end))
      (member (codes "minute") one end))

document-flattens :
    flatten_into_pairs (codes "match") document
    ≡ (codes "match.score.home", one) ∷ (codes "match.minute", one) ∷ []
unfolding flatten_into_pairs lumencast_rs.Server.Adapters.Flatten.walk
document-flattens = refl

flatten_into_pairs_iff_example :
    Any (λ r. r ≡ (codes "match.minute", one)) (flatten_into_pairs (codes "match") document)
    ↔ IsLeafAt (codes "match") document (codes "match.minute", one)
flatten_into_pairs_iff_example =
    flatten_into_pairs_iff (codes "match") document (codes "match.minute", one) refl

abbrev studio : Scene
studio = new_scene (codes "studio") (codes "v")

abbrev events : List PeriodicEvent
events =
    ticks ((codes "a", one) ∷ []) 250
    ∷ cancels (some false)
    ∷ elsewhere (sets (codes "b") one)
    ∷ ticks [] 300
    ∷ []

abbrev at_start : Scene
at_start =
    attached (codes "studio") (codes "v") ((codes "d", one) ∷ []) (sets (codes "a") one ∷ []) 100 50
      events

abbrev at_end : Scene
at_end =
    fed (codes "studio") (codes "v") ((codes "d", one) ∷ []) (sets (codes "a") one ∷ []) 100 50
      events

fed_snapshot_then_deltas_example :
    (at_end ≡ perform_all (calls_of true events) at_start)
    × (news : List ReplayRecord) × (history at_end ≡ history at_start ++ news)
    × (All (λ r. at_start.seq < r.seq) news)
    × ((path : Text)
        → lookup path (insert_all (pairs_of news) (snapshot_state at_start))
          ≡ lookup path (snapshot_state at_end))
fed_snapshot_then_deltas_example =
    fed_snapshot_then_deltas (codes "studio") (codes "v") ((codes "d", one) ∷ [])
      (sets (codes "a") one ∷ []) 100 50 events (omega arith)

-- A reader that knows one text.
abbrev reader : SerdeJson
reader = record { from_slice = λ t. ok document; to_vec = λ v. err []; to_string = λ v. err [] }

abbrev scores : HttpPollConfig
scores = record {
  url = codes "http://scores";
  interval = 100;
  writes_to = codes "match";
  headers = [];
  request_timeout = none;
}

abbrev task : Periodic
task = start_periodic studio 100 50

abbrev polled : Periodic
polled = periodic_step 100 (round_of reader scores (polls (response 200 []) 160)) task

poll_atomic_example :
    ((v : Value)
      → Reads reader (response 200 []) v
      → Writes (codes "match") v task.scene polled.scene)
    × (¬ ((v : Value) × Reads reader (response 200 []) v) → polled.scene ≡ task.scene)
poll_atomic_example = poll_atomic reader scores (response 200 []) 160 100 task refl

abbrev attempts : List (Attempt reader default_subscribe)
attempts =
    record { cancelled_before = false; connects = false; events = []; wait = slept }
    ∷ record {
      cancelled_before = false;
      connects = true;
      events = message (text []) ∷ message close ∷ [];
      wait = slept;
    }
    ∷ record { cancelled_before = false; connects = false; events = []; wait = slept }
    ∷ []

spawn_feed-IsBounded_example :
    IsBounded reader default_subscribe
      (spawn_feed reader default_subscribe attempts (start_feed reader default_subscribe studio))
spawn_feed-IsBounded_example =
    spawn_feed-IsBounded reader default_subscribe (omega arith) (omega arith) attempts studio
