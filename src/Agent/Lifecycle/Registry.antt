-- ===== src/Agent/Lifecycle/Registry.antt =====
-- packages/core/src/agent.rs: the map of cancellation tokens, and which requests `destroy` reaches.
mod Moves
pub mod Invariant
mod Runs
mod Joins
use Moves.{named, holds}
use Invariant.{Reached, Inv}
use Runs.{run-Inv}
use Joins.{joined-Inv}
use node_reqwest.Prelude.{ℕ, ◌≤◌, ◌≡◌, inl, inr, refl, some, arith}
use node_reqwest.Prelude.Family.{sum_below-zero}
use node_reqwest.Runtime.{Cancellation, Notify}
use node_reqwest.Agent.Lifecycle.{Task, System, Step, Reach, fresh, aborted}

module _ (cancellation : Cancellation) (notify : Notify) where
  abort-Reached :
      (s : System cancellation notify) (i k id : ℕ)
      → Reached cancellation notify s k id
      → Reached cancellation notify
          (record s { shared = aborted cancellation notify i s.shared })
          k
          id
  abort-Reached s i k id (inl registered) = inl registered
  abort-Reached s i k id (inr (inl pending)) = inr (inl pending)
  abort-Reached s i k id (inr (inr cancelled)) =
      inr (inr (ground (arith, cancellation.is_cancelled-cancel (s.cells i))))

  Reach-Inv :
      {s : System cancellation notify} → Reach cancellation notify s → Inv cancellation notify s
  unfolding fresh
  Reach-Inv Reach.start = record {
    few = omega arith;
    next = omega (arith, sum_below-zero 0 (named cancellation notify) Task.unborn refl);
    below = λ j id e. cc;
    unique = λ i j id e f. cc;
    reached = λ k id e. cc;
    rest = λ j out. refl;
  }
  Reach-Inv (Reach.later {s} r (Step.enter en room)) =
      joined-Inv cancellation notify s en room (Reach-Inv r)
  Reach-Inv (Reach.later {s} r (Step.run i lt mv)) =
      run-Inv cancellation notify s i lt mv (Reach-Inv r)
  Reach-Inv (Reach.later {s} r (Step.abort i handed)) =
      let inv = Reach-Inv r in
      record {
        few = inv.few;
        next = inv.next;
        below = inv.below;
        unique = inv.unique;
        reached = λ k id e. abort-Reached s i k id (inv.reached k id e);
        rest = inv.rest;
      }

  -- In every reachable state a request in flight has its own token registered under its number, or
  -- some `destroy` has drained that token and is about to cancel it, or it is cancelled.
  pub in_flight-Reached :
      {s : System cancellation notify} (k id : ℕ)
      → Reach cancellation notify s
      → s.tasks k ≡ Task.in_flight id
      → Reached cancellation notify s k id
  in_flight-Reached k id r e = (Reach-Inv r).reached k id e

  -- The numbers of the requests in use are distinct and below the counter.
  pub holds_unique :
      {s : System cancellation notify} (i j id : ℕ)
      → Reach cancellation notify s
      → holds cancellation notify (s.tasks i) ≡ some id
      → holds cancellation notify (s.tasks j) ≡ some id
      → i ≡ j
  holds_unique i j id r e f = (Reach-Inv r).unique i j id e f

  -- No task stands at a place that no call has been given.
  pub beyond-unborn :
      {s : System cancellation notify}
      → Reach cancellation notify s
      → (j : ℕ) → s.spawned ≤ j
      → s.tasks j ≡ Task.unborn
  beyond-unborn r j out = (Reach-Inv r).rest j out
