-- ===== src/Node/Promise/Examples.antt =====
-- An addon whose agent is closed or destroyed while a request is in flight.
use node_reqwest.Prelude.{ℕ, ◌<◌, ◌≡◌, inl, refl, none, [], ◌∷◌, ◌++◌, arith}
use node_reqwest.Runtime.{plain_watch, plain_cancellation, plain_notify}
use node_reqwest.Error.{client_destroyed}
use node_reqwest.Agent.Request.{on_error}
use node_reqwest.Agent.Request.Plain.{plain_http, answered, body_ends}
use node_reqwest.Agent.Request.Delivery.{nothing_yet}
use node_reqwest.Agent.Lifecycle.{Shared, Task, Move, fresh, new_state}
use node_reqwest.Agent.Lifecycle.Tokens.{insert, remove, drain}
use node_reqwest.Agent.World.{NotInFlight, Turn, begun, polled}
use node_reqwest.Node.Promise.{Addon, Act, Acts, loaded, agent_close, agent_destroy}
use node_reqwest.Node.Promise.Settles.{Sent, agent_close-Sent}
use node_reqwest.Node.Promise.Reason.{polled-client_destroyed}

abbrev PlainAddon : Type 0
PlainAddon = Addon plain_watch plain_cancellation plain_notify plain_http none

abbrev outset : PlainAddon
outset = loaded plain_watch plain_cancellation plain_notify plain_http none

record Run (from : PlainAddon) : Type 0 where
  last : PlainAddon
  acts : Acts plain_watch plain_cancellation plain_notify plain_http none from last

abbrev now : (a : PlainAddon) → Run a
now a = record { last = a; acts = Acts.none_yet }

abbrev act :
    {a b : PlainAddon} (r : Run a)
    → Act plain_watch plain_cancellation plain_notify plain_http none r.last b
    → Run a
act {b} r t = record { last = b; acts = Acts.behind r.acts t }

abbrev access :
    {a : PlainAddon} {m : Shared plain_cancellation plain_notify}
    {t : Task plain_cancellation plain_notify} (r : Run a) (i : ℕ)
    → i < r.last.world.agent.spawned
    → NotInFlight plain_watch plain_cancellation plain_notify plain_http none
        (r.last.world.agent.tasks i)
    → Move plain_cancellation plain_notify i r.last.world.agent.shared
        (r.last.world.agent.tasks i)
        m
        t
    → Run a
access r i lt other mv = act r (Act.moves (Turn.access i lt other mv) tt)

lt_0_1 : 0 < 1
lt_0_1 = omega arith

lt_0_2 : 0 < 2
lt_0_2 = omega arith

lt_1_2 : 1 < 2
lt_1_2 = omega arith

-- A request is in flight under number 1 and has its response.
answering : Run outset
unfolding loaded begun fresh new_state polled
answering =
    let r = act (now outset) (Act.dispatches (omega arith)) in
    let r = access r 0 lt_0_1 tt (Move.pass_destroyed refl) in
    let r = access r 0 lt_0_1 tt (Move.pass_closed refl) in
    let r = access r 0 lt_0_1 tt Move.make in
    let r = access r 0 lt_0_1 tt Move.take in
    let r = access r 0 lt_0_1 tt Move.count in
    let r = access r 0 lt_0_1 tt Move.register in act r (Act.moves (Turn.wake 0 1 answered refl) tt)

abbrev closing : PlainAddon
closing = (agent_close plain_watch plain_cancellation plain_notify plain_http none answering.last).0

-- The `close` has set its flag, and the body has ended.
ending : Run closing
unfolding answering agent_close polled
ending =
    let r = access (now closing) 1 lt_1_2 tt Move.close in
    let r = act r (Act.moves (Turn.wake 0 1 nothing_yet refl) tt) in
    act r (Act.moves (Turn.wake 0 1 body_ends refl) tt)

-- The promise is settled.
closed : Run closing
unfolding ending remove
closed =
    let r = act ending (Act.moves (Turn.complete 0 1 lt_0_2 refl refl) tt) in
    let r = access r 0 lt_0_2 tt Move.unregister in
    let r = access r 0 lt_0_2 tt (Move.uncount_last refl) in
    let r = access r 0 lt_0_2 tt Move.wake in
    let r = access r 1 lt_1_2 tt (Move.find_idle refl) in act r (Act.settles 1 refl)

-- A `destroy` has drained the token of the request.
drained : Run outset
unfolding answering agent_destroy
drained =
    let r = act answering (Act.destroys (omega arith)) in
    let r = access r 1 lt_1_2 tt Move.set_destroyed in
    let r = access r 1 lt_1_2 tt Move.set_closed in
    let r = access r 1 lt_1_2 tt Move.set_error in access r 1 lt_1_2 tt Move.drain_all

-- It has cancelled it.
destroyed : Run outset
unfolding drained insert remove drain
destroyed = access drained 1 lt_1_2 tt Move.cancel

agent_close-Sent_example :
    Sent plain_watch plain_cancellation plain_notify plain_http none 7 0 closed.last.world
unfolding closed
agent_close-Sent_example =
    agent_close-Sent plain_watch plain_cancellation plain_notify plain_http none 7 0 answering.acts
      (omega arith) lt_0_1 refl closed.acts refl refl

polled-client_destroyed_example :
    let w = destroyed.last.world in
    (polled plain_watch plain_cancellation plain_notify plain_http none 0 nothing_yet w).log 0
    ≡ w.log 0 ++ on_error client_destroyed ∷ []
unfolding destroyed
polled-client_destroyed_example =
    polled-client_destroyed plain_watch plain_cancellation plain_notify plain_http none 0
      nothing_yet destroyed.acts refl refl (inl refl)
