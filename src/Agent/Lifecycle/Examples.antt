-- ===== src/Agent/Lifecycle/Examples.antt =====
-- Runs of an agent: a request and a `close`, and a request that a `destroy` misses.
use node_reqwest.Prelude.{ℕ, ◌+◌, ◌≤◌, ◌<◌, ◌≡◌, ◌⊎◌, refl, true, arith}
use node_reqwest.Prelude.Family.{sum_below}
use node_reqwest.Runtime.{plain_cancellation, plain_notify}
use node_reqwest.Error.{client_destroyed, client_closed}
use node_reqwest.Agent.Lifecycle.{
  Shared, Task, Move, Entry, System, Step, Reach, fresh, two_64, is_destroyed,
}
use node_reqwest.Agent.Lifecycle.Tokens.{remove, drain}
use node_reqwest.Agent.Lifecycle.Idle.{active, wakers, active_count-exact, parked-wakes}
use node_reqwest.Agent.Lifecycle.Registry.{in_flight-Reached}
use node_reqwest.Agent.Lifecycle.Registry.Invariant.{Reached}
use node_reqwest.Agent.Lifecycle.Late.{IsLive, admitted_late}
use node_reqwest.Agent.Lifecycle.Gate.{Gate, Allowed, after}
use node_reqwest.Agent.Lifecycle.Gate.Refines.{label, gate, step-Allowed}
use node_reqwest.Agent.Lifecycle.Gate.Late.{admissions, admissions-le}
use node_reqwest.Agent.Lifecycle.Refusal.{Steps, closed-TurnedAway, is_destroyed-Destroyed}

abbrev PlainSystem : Type 0
PlainSystem = System plain_cancellation plain_notify

record Run : Type 0 where
  last : PlainSystem
  reach : Reach plain_cancellation plain_notify last

abbrev began : Run
unfolding fresh
began = record { last = _; reach = Reach.start }

abbrev enter :
    {t : Task plain_cancellation plain_notify} (r : Run)
    → r.last.spawned + 3 < two_64
    → Entry plain_cancellation plain_notify t
    → Run
enter r room en = record { last = _; reach = Reach.later r.reach (Step.enter en room) }

abbrev run :
    {m : Shared plain_cancellation plain_notify} {t : Task plain_cancellation plain_notify}
    (r : Run) (i : ℕ)
    → i < r.last.spawned
    → Move plain_cancellation plain_notify i r.last.shared (r.last.tasks i) m t
    → Run
run r i lt mv = record { last = _; reach = Reach.later r.reach (Step.run i lt mv) }

-- A dispatch has passed its checks.
checked : Run
unfolding began
checked =
    let r = enter began (omega arith) Entry.dispatch in
    let r = run r 0 (omega arith) (Move.pass_destroyed refl) in
    run r 0 (omega arith) (Move.pass_closed refl)

-- The request is in flight under number 1.
flying : Run
unfolding checked
flying =
    let r = run checked 0 (omega arith) Move.make in
    let r = run r 0 (omega arith) Move.take in
    let r = run r 0 (omega arith) Move.count in run r 0 (omega arith) Move.register

-- A `close` is parked on it.
closing : Run
unfolding flying
closing =
    let r = enter flying (omega arith) Entry.closing in
    let r = run r 1 (omega arith) Move.close in
    let r = run r 1 (omega arith) (Move.find_busy (omega arith)) in
    let r = run r 1 (omega arith) Move.enable in
    run r 1 (omega arith) (Move.still_busy (omega arith))

-- The request has ended, and its guard is about to wake the waiters.
ended : Run
unfolding closing remove
ended =
    let r = run closing 0 (omega arith) Move.drop_future in
    let r = run r 0 (omega arith) Move.unregister in run r 0 (omega arith) (Move.uncount_last refl)

-- A `destroy` has drained the request's token.
drained : Run
unfolding flying
drained =
    let r = enter flying (omega arith) (Entry.destroying client_destroyed) in
    let r = run r 1 (omega arith) Move.set_destroyed in
    let r = run r 1 (omega arith) Move.set_closed in
    let r = run r 1 (omega arith) Move.set_error in run r 1 (omega arith) Move.drain_all

-- A `destroy` waits while a dispatch stands behind its checks.
emptied : Run
unfolding checked drain
emptied =
    let r = enter checked (omega arith) (Entry.destroying client_destroyed) in
    let r = run r 1 (omega arith) Move.set_destroyed in
    let r = run r 1 (omega arith) Move.set_closed in
    let r = run r 1 (omega arith) Move.set_error in
    let r = run r 1 (omega arith) Move.drain_all in run r 1 (omega arith) Move.cancelled_all

-- It has returned.
overtaken : Run
unfolding emptied
overtaken = run emptied 1 (omega arith) (Move.find_idle refl)

active_count-exact_example :
    flying.last.active_count ≡ active plain_cancellation plain_notify flying.last
active_count-exact_example = active_count-exact plain_cancellation plain_notify flying.reach

parked-wakes_example :
    (plain_notify.is_ready ended.last.idle_notify 0 ≡ true)
    ⊎ (0 < wakers plain_cancellation plain_notify ended.last)
unfolding ended sum_below
parked-wakes_example = parked-wakes plain_cancellation plain_notify 0 ended.reach 1 refl refl

in_flight-Reached_example : Reached plain_cancellation plain_notify drained.last 0 1
unfolding drained
in_flight-Reached_example = in_flight-Reached plain_cancellation plain_notify 0 1 drained.reach refl

-- A `destroy` is called.
overlooked : Run
unfolding checked
overlooked = enter checked (omega arith) (Entry.destroying client_destroyed)

admitted_late_example :
    (t : PlainSystem) × Steps plain_cancellation plain_notify overlooked.last t
    × (t.tasks 1 ≡ Task.returned)
    × (t.tasks 0 ≡ Task.make_controller)
    × (is_destroyed plain_cancellation plain_notify t.shared ≡ true)
    × (u : PlainSystem) × Steps plain_cancellation plain_notify t u
    × IsLive plain_cancellation plain_notify 0 u
    × (is_destroyed plain_cancellation plain_notify u.shared ≡ true)
unfolding overlooked
admitted_late_example =
    admitted_late plain_cancellation plain_notify 0 1 client_destroyed (omega arith) (omega arith)
      (omega arith) refl refl refl

-- An agent that is closed, and a dispatch that comes behind.
shut : Run
unfolding began
shut =
    let r = enter began (omega arith) Entry.closing in
    let r = run r 0 (omega arith) Move.close in enter r (omega arith) Entry.dispatch

closed-TurnedAway_example : (client_closed ≡ client_destroyed) ⊎ (client_closed ≡ client_closed)
unfolding shut
closed-TurnedAway_example =
    let here : Steps plain_cancellation plain_notify shut.last shut.last = Steps.stay in
    closed-TurnedAway plain_cancellation plain_notify 1 refl (omega arith) tt (
      Steps.go (Steps.go here (Step.run 1 (omega arith) (Move.pass_destroyed refl)))
        (Step.run 1 (omega arith) (Move.find_closed refl)))

-- The same behind a `destroy` that has set its first flag.
doomed : Run
unfolding began
doomed =
    let r = enter began (omega arith) (Entry.destroying client_destroyed) in
    let r = run r 0 (omega arith) Move.set_destroyed in enter r (omega arith) Entry.dispatch

is_destroyed-Destroyed_example : client_destroyed ≡ client_destroyed
unfolding doomed
is_destroyed-Destroyed_example =
    let here : Steps plain_cancellation plain_notify doomed.last doomed.last = Steps.stay in
    is_destroyed-Destroyed plain_cancellation plain_notify 1 refl (omega arith) tt
      (Steps.go here (Step.run 1 (omega arith) (Move.find_destroyed refl)))

abbrev the_gate : PlainSystem → Gate
the_gate = gate plain_cancellation plain_notify

-- The `destroy` of `emptied` returns.
abbrev last_step : Step plain_cancellation plain_notify emptied.last overtaken.last
unfolding emptied overtaken
last_step = Step.run 1 (omega arith) (Move.find_idle refl)

step-Allowed_example :
    Allowed (label plain_cancellation plain_notify last_step) (the_gate emptied.last)
    × (after (label plain_cancellation plain_notify last_step) (the_gate emptied.last)
        ≡ the_gate overtaken.last)
step-Allowed_example = step-Allowed plain_cancellation plain_notify emptied.reach last_step

-- The dispatch that it overtook is counted after all.
abbrev made : Run
unfolding emptied
made = run emptied 0 (omega arith) Move.make

abbrev numbered : Run
unfolding emptied made
numbered = run made 0 (omega arith) Move.take

abbrev late : Run
unfolding emptied made numbered
late = run numbered 0 (omega arith) Move.count

lt_0_2 : 0 < 2
lt_0_2 = omega arith

abbrev last_steps : Steps plain_cancellation plain_notify emptied.last late.last
unfolding emptied made numbered late
last_steps =
    let began = Steps.go Steps.stay (Step.run 0 lt_0_2 Move.make) in
    Steps.go (Steps.go began (Step.run 0 lt_0_2 Move.take)) (Step.run 0 lt_0_2 Move.count)

admissions-le_example :
    admissions plain_cancellation plain_notify last_steps ≤ (the_gate emptied.last).entering
unfolding emptied
admissions-le_example = admissions-le plain_cancellation plain_notify emptied.reach refl last_steps
