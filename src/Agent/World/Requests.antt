-- ===== src/Agent/World/Requests.antt =====
-- packages/core/src/agent.rs: each request of an agent is a run of `execute_request`.
use mathlib.Core.List.{append_assoc, append-nil}
use node_reqwest.Prelude.{
  ℕ, ◌≤◌, ◌<◌, ◌≡◌, refl, sym, ap, ◌∙◌, Option, some, List, [], ◌∷◌, ◌++◌, arith,
}
use node_reqwest.Prelude.Family.{put_two}
use node_reqwest.Runtime.{Watch, Cancellation, Notify}
use node_reqwest.Dispatcher.Controller.{aborts, pauses, resumes}
use node_reqwest.Agent.Request.{HttpApi, Event, Exchange, Signals, Io, u64_max, started, poll, run}
use node_reqwest.Agent.Request.Flight.{signals}
use node_reqwest.Agent.Request.Cap.{delivered, delivered-run}
use node_reqwest.Agent.World.{World, Turn, begun, flight, polled, called, rest, on}
use node_reqwest.Agent.World.Projection.{Lives}

module _ (http : HttpApi) (cap : Option ℕ) where
  -- A run with one poll more.
  run-append :
      (polls : List (Signals × Io)) (s : Signals) (io : Io) (x : Exchange)
      → run http cap (polls ++ (s, io) ∷ []) x ≡ (
        (poll http cap s io (run http cap polls x).0).0,
        (run http cap polls x).1 ++ (poll http cap s io (run http cap polls x).0).1,
      )
  unfolding run
  run-append [] s io x = ap (λ es. ((poll http cap s io x).0, es)) (append-nil _)
  run-append ((r, jo) ∷ polls) s io x =
      let (y, events) = poll http cap r jo x in
      ap (λ q. (q.0, events ++ q.1)) (run-append polls s io y)
      ∙ ap (λ es. ((poll http cap s io (run http cap polls y).0).0, es))
          (sym (append_assoc events (run http cap polls y).1 _))

  -- Some polls of a new request lead to this exchange with these callbacks.
  abbrev pub IsRun : Exchange → List Event → Type 0
  IsRun x events = (polls : List (Signals × Io)) × (run http cap polls started ≡ (x, events))

  IsRun-poll :
      (s : Signals) (io : Io) (x : Exchange) (events : List Event)
      → IsRun x events
      → IsRun (poll http cap s io x).0 (events ++ (poll http cap s io x).1)
  IsRun-poll s io x events (polls, e) = (
    polls ++ (s, io) ∷ [],
    run-append polls s io started
        ∙ ap (λ r. ((poll http cap s io r.0).0, r.1 ++ (poll http cap s io r.0).1)) e,
  )

module _ (watch : Watch) (cancellation : Cancellation) (notify : Notify) (http : HttpApi)
    (cap : Option ℕ) where
  abbrev Whole : Type 0
  Whole = World watch cancellation notify http cap

  polled-IsRun :
      (k : ℕ) (io : Io) (w : Whole) (i : ℕ)
      → ((j : ℕ) → IsRun http cap (w.exchanges j) (w.log j))
      → let v = polled watch cancellation notify http cap k io w in
        IsRun http cap (v.exchanges i) (v.log i)
  unfolding polled
  polled-IsRun k io w i h =
      put_two (IsRun http cap) k i _ _ w.exchanges w.log
        (λ same.
          IsRun-poll http cap
            (signals watch cancellation http cap (flight watch cancellation notify http cap k w)) io
            (w.exchanges k) (w.log k) (h k))
        (λ other. h i)

  -- In every world that can come about, where each request stands and what its handler has heard is
  -- what some run of `execute_request` from its start leads to, whatever other requests, callers
  -- and calls of the agent have done between its polls.
  pub log-IsRun :
      {w : Whole} (i : ℕ)
      → Lives watch cancellation notify http cap w
      → IsRun http cap (w.exchanges i) (w.log i)
  unfolding begun called run
  log-IsRun i rest = ([], refl)
  log-IsRun i (on before (Turn.enter en room)) = log-IsRun i before
  log-IsRun i (on before (Turn.access k lt other mv)) = log-IsRun i before
  log-IsRun i (on {v} before (Turn.wake k id io e)) =
      polled-IsRun k io v i (λ j. log-IsRun j before)
  log-IsRun i (on before (Turn.complete k id lt e done)) = log-IsRun i before
  log-IsRun i (on before (Turn.abandon k id lt e)) = log-IsRun i before
  log-IsRun i (on before (Turn.by_caller aborts k handed)) = log-IsRun i before
  log-IsRun i (on before (Turn.by_caller pauses k handed)) = log-IsRun i before
  log-IsRun i (on before (Turn.by_caller resumes k handed)) = log-IsRun i before

-- With a `max_response_size` below the largest 64-bit number no request of the agent ever hands more
-- bytes of its body to its handler.
pub delivered-log_le :
    (watch : Watch) (cancellation : Cancellation) (notify : Notify) (http : HttpApi) (cap : ℕ)
    {w : World watch cancellation notify http (some cap)} (i : ℕ)
    → cap < u64_max
    → Lives watch cancellation notify http (some cap) w
    → delivered (w.log i) ≤ cap
unfolding started
delivered-log_le watch cancellation notify http cap i small live =
    let (polls, e) = log-IsRun watch cancellation notify http (some cap) i live in
    omega
      (arith, delivered-run http cap polls started small (omega arith), ap (λ r. delivered r.1) e)
