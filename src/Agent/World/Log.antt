-- ===== src/Agent/World/Log.antt =====
-- packages/core/src/agent.rs: the callbacks of every request that an agent runs.
use node_reqwest.Prelude.{ℕ, ◌≡◌, refl, ap, ◌∙◌, Option, some, List}
use node_reqwest.Prelude.Family.{put_two}
use node_reqwest.Runtime.{Watch, Cancellation, Notify}
use node_reqwest.Dispatcher.Controller.{aborts, pauses, resumes}
use node_reqwest.Agent.Request.{HttpApi, Event, Exchange, Io, poll, started}
use node_reqwest.Agent.Request.Flight.{signals}
use node_reqwest.Agent.Request.Protocol.{Stage, walk, stage, walk-append, walk-poll}
use node_reqwest.Agent.Lifecycle.{Task}
use node_reqwest.Agent.World.{World, Turn, begun, flight, polled, called, rest, on}
use node_reqwest.Agent.World.Projection.{Lives}

module _ (watch : Watch) (cancellation : Cancellation) (notify : Notify) (http : HttpApi)
    (cap : Option ℕ) where
  abbrev Whole : Type 0
  Whole = World watch cancellation notify http cap

  abbrev Job : Type 0
  Job = Task cancellation notify

  -- The callbacks so far are in the order of the handler's contract, up to where the request is.
  abbrev InOrder : List Event → Exchange → Type 0
  InOrder events x = walk (some Stage.fresh) events ≡ some (stage x.phase)

  polled-InOrder :
      (i : ℕ) (io : Io) (w : Whole) (j : ℕ)
      → ((k : ℕ) → InOrder (w.log k) (w.exchanges k))
      → let v = polled watch cancellation notify http cap i io w in
        InOrder (v.log j) (v.exchanges j)
  unfolding polled
  polled-InOrder i io w j h =
      let s = signals watch cancellation http cap (flight watch cancellation notify http cap i w) in
      put_two InOrder i j _ _ w.log w.exchanges
        (λ same.
          walk-append (some Stage.fresh) (w.log i) (poll http cap s io (w.exchanges i)).1
          ∙ ap (λ q. walk q (poll http cap s io (w.exchanges i)).1) (h i)
          ∙ walk-poll http cap s io (w.exchanges i))
        (λ other. h j)

  -- In every world that an agent, its requests and its callers can reach, the callbacks of each
  -- request are in the order of the handler's contract: at most one start, data only behind it, at
  -- most one end or error and nothing behind that.
  pub log-InOrder :
      {w : Whole} (i : ℕ)
      → Lives watch cancellation notify http cap w
      → InOrder (w.log i) (w.exchanges i)
  unfolding begun started called
  log-InOrder i rest = refl
  log-InOrder i (on before (Turn.enter en room)) = log-InOrder i before
  log-InOrder i (on before (Turn.access k lt other mv)) = log-InOrder i before
  log-InOrder i (on {v} before (Turn.wake k id io e)) =
      polled-InOrder k io v i (λ n. log-InOrder n before)
  log-InOrder i (on before (Turn.complete k id lt e done)) = log-InOrder i before
  log-InOrder i (on before (Turn.abandon k id lt e)) = log-InOrder i before
  log-InOrder i (on before (Turn.by_caller aborts k handed)) = log-InOrder i before
  log-InOrder i (on before (Turn.by_caller pauses k handed)) = log-InOrder i before
  log-InOrder i (on before (Turn.by_caller resumes k handed)) = log-InOrder i before
