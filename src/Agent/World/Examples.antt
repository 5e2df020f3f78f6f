-- ===== src/Agent/World/Examples.antt =====
-- A request that runs to its end under a `close`, one that a `destroy` cancels, and one that a closed
-- agent refuses.
use node_reqwest.Prelude.{ℕ, ◌+◌, ◌<◌, ◌≡◌, ◌≢◌, refl, codes, ◌≤◌, some, arith}
use node_reqwest.Runtime.{plain_watch, plain_cancellation, plain_notify}
use node_reqwest.Dispatcher.Controller.{aborts, pauses}
use node_reqwest.Agent.Request.Plain.{plain_http, answered, chunked, body_ends}
use node_reqwest.Agent.Request.Delivery.{nothing_yet}
use node_reqwest.Agent.Request.Protocol.{Stage, walk, stage}
use node_reqwest.Agent.Lifecycle.{Shared, Task, Move, Entry, fresh, new_state}
use node_reqwest.Agent.Lifecycle.Tokens.{remove}
use node_reqwest.Agent.World.{World, NotInFlight, Turn, Turns, begun, polled, called}
use node_reqwest.Agent.World.Projection.{Turns-Turns}
use node_reqwest.Agent.World.Requests.{delivered-log_le}
use node_reqwest.Agent.World.Aborts.{aborted-silent}
use node_reqwest.Agent.World.Pauses.{paused-data_le}
use node_reqwest.Agent.Request.Backpressure.{data_calls, in_flight}
use node_reqwest.Agent.Request.Cap.{delivered}
use node_reqwest.Agent.Request.Cancel.{payload_calls}
use node_reqwest.Agent.World.Log.{log-InOrder}
use node_reqwest.Agent.World.Returns.{Returned, waiter-Returned}
use node_reqwest.Agent.World.Ends.{Told, returned-Told}

abbrev PlainWorld : Type 0
PlainWorld = World plain_watch plain_cancellation plain_notify plain_http (some 100)

abbrev PlainTurn : PlainWorld → PlainWorld → Type 0
PlainTurn = Turn plain_watch plain_cancellation plain_notify plain_http (some 100)

abbrev outset : PlainWorld
outset = begun plain_watch plain_cancellation plain_notify plain_http (some 100)

abbrev PlainTurns : PlainWorld → PlainWorld → Type 0
PlainTurns = Turns plain_watch plain_cancellation plain_notify plain_http (some 100)

record Run (from : PlainWorld) : Type 0 where
  last : PlainWorld
  turns : Turns plain_watch plain_cancellation plain_notify plain_http (some 100) from last

abbrev now : (w : PlainWorld) → Run w
now w = record { last = w; turns = Turns.rest }

abbrev turn : {w v : PlainWorld} (r : Run w) → PlainTurn r.last v → Run w
turn {v} r t = record { last = v; turns = Turns.on r.turns t }

abbrev access :
    {w : PlainWorld} {m : Shared plain_cancellation plain_notify}
    {t : Task plain_cancellation plain_notify} (r : Run w) (i : ℕ)
    → i < r.last.agent.spawned
    → NotInFlight plain_watch plain_cancellation plain_notify plain_http
        (some 100)
        (r.last.agent.tasks i)
    → Move plain_cancellation plain_notify i r.last.agent.shared (r.last.agent.tasks i) m t
    → Run w
access r i lt other mv = turn r (Turn.access i lt other mv)

-- A request is in flight under number 1.
flying : Run outset
unfolding begun fresh new_state
flying =
    let r = turn (now outset) (Turn.enter Entry.dispatch (omega arith)) in
    let r = access r 0 (omega arith) tt (Move.pass_destroyed refl) in
    let r = access r 0 (omega arith) tt (Move.pass_closed refl) in
    let r = access r 0 (omega arith) tt Move.make in
    let r = access r 0 (omega arith) tt Move.take in
    let r = access r 0 (omega arith) tt Move.count in access r 0 (omega arith) tt Move.register

-- It has its response, and a `close` is called.
answering : Run outset
unfolding flying polled
answering =
    let r = turn flying (Turn.wake 0 1 answered refl) in
    turn r (Turn.enter Entry.closing (omega arith))

lt_0_2 : 0 < 2
lt_0_2 = omega arith

lt_1_2 : 1 < 2
lt_1_2 = omega arith

-- The `close` has set its flag, and the body has ended.
ending : Run answering.last
unfolding answering polled
ending =
    let r = access (now answering.last) 1 lt_1_2 tt Move.close in
    let r = turn r (Turn.wake 0 1 nothing_yet refl) in
    let r = turn r (Turn.wake 0 1 (chunked (codes "hi")) refl) in
    let r = turn r (Turn.wake 0 1 nothing_yet refl) in turn r (Turn.wake 0 1 body_ends refl)

-- The guard is dropped, and the `close` finds the agent idle.
closed : Run answering.last
unfolding ending remove
closed =
    let r = turn ending (Turn.complete 0 1 lt_0_2 refl refl) in
    let r = access r 0 lt_0_2 tt Move.unregister in
    let r = access r 0 lt_0_2 tt (Move.uncount_last refl) in
    let r = access r 0 lt_0_2 tt Move.wake in access r 1 lt_1_2 tt (Move.find_idle refl)

log-InOrder_example :
    walk (some Stage.fresh) (answering.last.log 0) ≡ some (stage (answering.last.exchanges 0).phase)
log-InOrder_example =
    log-InOrder plain_watch plain_cancellation plain_notify plain_http (some 100) 0 answering.turns

returned-Told_example :
    Told plain_watch plain_cancellation plain_notify plain_http (some 100) 0 closed.last
unfolding closed
returned-Told_example =
    returned-Told plain_watch plain_cancellation plain_notify plain_http (some 100) 0 1
      answering.turns lt_0_2 lt_1_2 refl (λ e. cc) closed.turns refl refl

one_busy : ◌≢◌ {A = ℕ} 1 0
one_busy = omega arith

-- The `close` is parked on the request, which its caller has paused.
stalled : Run outset
unfolding answering called
stalled =
    let r = turn answering (Turn.by_caller pauses 0 tt) in
    let r = access r 1 lt_1_2 tt Move.close in
    let r = access r 1 lt_1_2 tt (Move.find_busy one_busy) in
    let r = access r 1 lt_1_2 tt Move.enable in access r 1 lt_1_2 tt (Move.still_busy one_busy)

waiter-Returned_example :
    Returned plain_watch plain_cancellation plain_notify plain_http (some 100) 1 stalled.last
unfolding stalled
waiter-Returned_example =
    waiter-Returned plain_watch plain_cancellation plain_notify plain_http (some 100) 1
      stalled.turns lt_1_2 tt

whole_run : PlainTurns outset ending.last
whole_run =
    Turns-Turns plain_watch plain_cancellation plain_notify plain_http (some 100) answering.turns
      ending.turns

delivered-log_le_example : delivered (ending.last.log 0) ≤ 100
delivered-log_le_example =
    delivered-log_le plain_watch plain_cancellation plain_notify plain_http 100 0 (omega arith)
      whole_run

-- The request has made its call for the chunk.
hi_delivered : delivered (ending.last.log 0) ≡ 2
unfolding ending
hi_delivered = refl

abbrev aborted_world : PlainWorld
aborted_world =
    called plain_watch plain_cancellation plain_notify plain_http (some 100) aborts 0 answering.last

-- Its caller aborts it in its body phase; the next poll finds a chunk.
aborting : Run aborted_world
unfolding answering called polled
aborting = turn (now aborted_world) (Turn.wake 0 1 (chunked (codes "hi")) refl)

aborted-silent_example : payload_calls (aborting.last.log 0) ≡ payload_calls (answering.last.log 0)
unfolding answering
aborted-silent_example =
    aborted-silent plain_watch plain_cancellation plain_notify plain_http (some 100) 0
      answering.last lt_0_2 tt aborting.turns

-- It reads its body when its caller pauses it; the next polls find two chunks.
reading : Run answering.last
unfolding answering polled
reading = turn (now answering.last) (Turn.wake 0 1 nothing_yet refl)

abbrev paused_world : PlainWorld
paused_world =
    called plain_watch plain_cancellation plain_notify plain_http (some 100) pauses 0 reading.last

pausing : Run paused_world
unfolding answering reading called polled
pausing =
    let r = turn (now paused_world) (Turn.wake 0 1 (chunked (codes "hi")) refl) in
    turn r (Turn.wake 0 1 (chunked (codes "ho")) refl)

paused-data_le_example :
    data_calls (pausing.last.log 0)
    ≤ data_calls (reading.last.log 0) + in_flight (reading.last.exchanges 0).phase
unfolding pausing
paused-data_le_example =
    paused-data_le plain_watch plain_cancellation plain_notify plain_http (some 100) 0 reading.last
      pausing.turns ((tt, tt), tt)
