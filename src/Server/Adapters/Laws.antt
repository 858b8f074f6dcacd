-- ===== src/Server/Adapters/Laws.antt =====
-- What adapters do to a scene and when (adapters/mod.rs, http_poll.rs, flatten.rs).
use lumencast_rs.Prelude.{
  ℕ, suc, ◌+◌, ◌*◌, ◌≤◌, ◌<◌, ◌≡◌, refl, sym, ap, ◌∙◌, Bool, true, false, List, [], ◌∷◌, ◌++◌,
  Option, none, some, Text, lookup, insert_all, length, All, arith,
}
use lumencast_rs.Protocol.Json.{Value}
use lumencast_rs.Protocol.Types.{SceneId, SceneVersion}
use lumencast_rs.Protocol.Sequence.{u64_mod}
use lumencast_rs.Server.Replay.{ReplayRecord}
use lumencast_rs.Server.Scene.{Scene, emit, snapshot_state}
use lumencast_rs.Server.Scene.Mirror.{Op, emits, perform, perform_all, history, pairs_of}
use lumencast_rs.Server.Scene.Converge.{earlier, snapshot_then_deltas}
use lumencast_rs.Server.Adapters.{
  emit_patches, next_tick, Periodic, PeriodicEvent, ticks, cancels, elsewhere, periodic_round,
  after_end, periodic_step, spawn_periodic, start_periodic, is_stopped,
}

-- The calls on the scene that a task's events amount to, in order: each result of a read that has
-- patches is emitted once, until the task is cancelled; what other holders do is done in any case.
unfoldable pub calls_of : Bool → List PeriodicEvent → List Op
calls_of running [] = []
calls_of true (ticks [] now ∷ es) = calls_of true es
calls_of true (ticks (p ∷ ps) now ∷ es) = emits (p ∷ ps) none ∷ calls_of true es
calls_of false (ticks patches now ∷ es) = calls_of false es
calls_of running (elsewhere o ∷ es) = o ∷ calls_of running es
calls_of running (cancels none ∷ es) = calls_of false es
calls_of running (cancels (some true) ∷ es) = calls_of false es
calls_of running (cancels (some false) ∷ es) = calls_of running es

calls_of-few : (running : Bool) (es : List PeriodicEvent) → length (calls_of running es) ≤ length es
unfolding calls_of
calls_of-few running [] = omega arith
calls_of-few true (ticks [] now ∷ es) = omega (arith, calls_of-few true es)
calls_of-few true (ticks (p ∷ ps) now ∷ es) = omega (arith, calls_of-few true es)
calls_of-few false (ticks patches now ∷ es) = omega (arith, calls_of-few false es)
calls_of-few true (elsewhere o ∷ es) = omega (arith, calls_of-few true es)
calls_of-few false (elsewhere o ∷ es) = omega (arith, calls_of-few false es)
calls_of-few true (cancels none ∷ es) = omega (arith, calls_of-few false es)
calls_of-few true (cancels (some true) ∷ es) = omega (arith, calls_of-few false es)
calls_of-few true (cancels (some false) ∷ es) = omega (arith, calls_of-few true es)
calls_of-few false (cancels none ∷ es) = omega (arith, calls_of-few false es)
calls_of-few false (cancels (some true) ∷ es) = omega (arith, calls_of-few false es)
calls_of-few false (cancels (some false) ∷ es) = omega (arith, calls_of-few false es)

-- A task does to its scene what its events amount to.
spawn_periodic-calls :
    (period : ℕ) (es : List PeriodicEvent) (running : Bool) (next : ℕ) (s : Scene)
    → (spawn_periodic period es (record { scene = s; next = next; running = running })).scene
      ≡ perform_all (calls_of running es) s
unfolding spawn_periodic periodic_step periodic_round after_end emit_patches perform_all perform
    calls_of emit
spawn_periodic-calls period [] running next s = refl
spawn_periodic-calls period (ticks [] now ∷ es) true next s =
    spawn_periodic-calls period es true _ s
spawn_periodic-calls period (ticks (p ∷ ps) now ∷ es) true next s =
    spawn_periodic-calls period es true _ _
spawn_periodic-calls period (ticks patches now ∷ es) false next s =
    spawn_periodic-calls period es false next s
spawn_periodic-calls period (elsewhere o ∷ es) true next s =
    spawn_periodic-calls period es true next _
spawn_periodic-calls period (elsewhere o ∷ es) false next s =
    spawn_periodic-calls period es false next _
spawn_periodic-calls period (cancels none ∷ es) true next s =
    spawn_periodic-calls period es false next s
spawn_periodic-calls period (cancels (some true) ∷ es) true next s =
    spawn_periodic-calls period es false next s
spawn_periodic-calls period (cancels (some false) ∷ es) true next s =
    spawn_periodic-calls period es true next s
spawn_periodic-calls period (cancels none ∷ es) false next s =
    spawn_periodic-calls period es false next s
spawn_periodic-calls period (cancels (some true) ∷ es) false next s =
    spawn_periodic-calls period es false next s
spawn_periodic-calls period (cancels (some false) ∷ es) false next s =
    spawn_periodic-calls period es false next s

module _ (id : SceneId) (version : SceneVersion) (defaults : List (Text × Value)) (before : List Op)
    (period now : ℕ) (es : List PeriodicEvent) where
  -- A scene that has served calls, when an adapter is attached to it; and what the adapter and the
  -- other holders of the scene have made of it since.
  abbrev pub attached : Scene
  attached = earlier id version defaults before []

  abbrev pub fed : Scene
  fed = (spawn_periodic period es (start_periodic attached period now)).scene

  -- A task emits each non-empty result of its reads once, in order, until it is cancelled, and does
  -- nothing else to its scene. So a subscriber that takes a snapshot when the adapter is attached, and
  -- then applies the deltas that the scene broadcasts, in order, has at every path the value that
  -- these emissions and the calls of the scene's other holders leave there. Each call is taken as one
  -- step, and there are fewer than 2^64 - 2 calls and events in all.
  pub fed_snapshot_then_deltas :
      2 + (length before + length es) < u64_mod
      → (fed ≡ perform_all (calls_of true es) attached)
        × (news : List ReplayRecord) × (history fed ≡ history attached ++ news)
        × (All (λ r. attached.seq < r.seq) news)
        × ((path : Text)
            → lookup path (insert_all (pairs_of news) (snapshot_state attached))
              ≡ lookup path (snapshot_state fed))
  fed_snapshot_then_deltas small =
      let same = spawn_periodic-calls period es true (now + period) attached in
      let (news, split, above, mirrored) =
        snapshot_then_deltas id version defaults before (calls_of true es)
          (omega (arith, calls_of-few true es, small)) in
      (
        same,
        news,
        ap history same ∙ split,
        above,
        λ path. mirrored path ∙ ap (λ s. lookup path (snapshot_state s)) (sym same),
      )

-- Each tick comes at most a period after it was due, and nothing stops the task.
abbrev IsOnTime : ℕ → ℕ → List PeriodicEvent → Type 0
IsOnTime period next [] = Unit
IsOnTime period next (ticks patches now ∷ es) =
    (now ≤ next + period) × IsOnTime period (next + period) es
IsOnTime period next (cancels changed ∷ es) = (is_stopped changed ≡ false) × IsOnTime period next es
IsOnTime period next (elsewhere o ∷ es) = IsOnTime period next es

abbrev tick_count : List PeriodicEvent → ℕ
tick_count [] = 0
tick_count (ticks patches now ∷ es) = suc (tick_count es)
tick_count (_ ∷ es) = tick_count es

module _ (period : ℕ) (t : Periodic) where
  on_tick :
      (patches : List (Text × Value)) (now : ℕ)
      → t.running ≡ true
      → now ≤ t.next + period
      → periodic_step period (ticks patches now) t
        ≡ record t { scene = emit_patches patches t.scene; next = t.next + period }
  unfolding periodic_step periodic_round next_tick
  on_tick patches now on soon = ground arith

  on_cancel :
      (changed : Option Bool)
      → t.running ≡ true
      → is_stopped changed ≡ false
      → periodic_step period (cancels changed) t ≡ t
  unfolding periodic_step periodic_round
  on_cancel changed on going = rw (on, going) refl

  on_elsewhere :
      (o : Op) → periodic_step period (elsewhere o) t ≡ record t { scene = perform o t.scene }
  unfolding periodic_step periodic_round after_end
  on_elsewhere o = ground arith

-- A task that keeps up does not drift: after any number of ticks that come at most a period late, the
-- next is due exactly as many periods after the first, as long as nothing stops the task.
spawn_periodic-next :
    (period : ℕ) (es : List PeriodicEvent) (t : Periodic)
    → t.running ≡ true
    → IsOnTime period t.next es
    → (spawn_periodic period es t).next ≡ t.next + tick_count es * period
unfolding spawn_periodic
spawn_periodic-next period [] t on h = omega arith
spawn_periodic-next period (ticks patches now ∷ es) t on h =
    let s = emit_patches patches t.scene in
    ap (λ (u : Periodic). (spawn_periodic period es u).next) (on_tick period t patches now on h.0)
    ∙ spawn_periodic-next period es (record t { scene = s; next = t.next + period }) on h.1
    ∙ grind arith
spawn_periodic-next period (cancels changed ∷ es) t on h =
    ap (λ (u : Periodic). (spawn_periodic period es u).next) (on_cancel period t changed on h.0)
    ∙ spawn_periodic-next period es t on h.1
spawn_periodic-next period (elsewhere o ∷ es) t on h =
    ap (λ (u : Periodic). (spawn_periodic period es u).next) (on_elsewhere period t o)
    ∙ spawn_periodic-next period es (record t { scene = perform o t.scene }) on h
