-- ===== src/Agent/Lifecycle/Registry/Invariant.antt =====
-- packages/core/src/agent.rs: the map of cancellation tokens, and an invariant of the agent.
use node_reqwest.Prelude.{ℕ, ◌+◌, ◌≤◌, ◌<◌, ◌≡◌, ◌⊎◌, some}
use node_reqwest.Prelude.Family.{sum_below}
use node_reqwest.Runtime.{Cancellation, Notify}
use node_reqwest.Agent.Lifecycle.Tokens.{lookup}
use node_reqwest.Agent.Lifecycle.{two_64, Task, System}
use node_reqwest.Agent.Lifecycle.Registry.Moves.{named, holds, Pending, IsCancelled}

module _ (cancellation : Cancellation) (notify : Notify) where
  -- How `destroy` can reach the request that task `k` runs under number `id`.
  abbrev pub Reached : System cancellation notify → ℕ → ℕ → Type 0
  Reached s k id =
      (lookup id s.active_tokens ≡ some k)
      ⊎ (((j : ℕ) × Pending cancellation notify k (s.tasks j))
          ⊎ IsCancelled cancellation notify s.shared k)

  pub record Inv (s : System cancellation notify) : Type 0 where
    pub few : s.spawned + 2 < two_64
    pub next : s.next_id ≡ 1 + sum_below s.spawned (named cancellation notify) s.tasks
    pub below : (j id : ℕ) → holds cancellation notify (s.tasks j) ≡ some id → id < s.next_id
    pub unique :
        (i j id : ℕ)
        → holds cancellation notify (s.tasks i) ≡ some id
        → holds cancellation notify (s.tasks j) ≡ some id
        → i ≡ j
    pub reached : (k id : ℕ) → s.tasks k ≡ Task.in_flight id → Reached s k id
    pub rest : (j : ℕ) → s.spawned ≤ j → s.tasks j ≡ Task.unborn
