-- ===== src/Agent/Lifecycle/Progress.antt =====
-- packages/core/src/agent.rs, `wait_for_idle`: a waiter can always return once no request is active.
use node_reqwest.Prelude.{ℕ, ◌<◌, ◌≡◌, inl, inr, refl, ap, sym, subst, ◌∙◌, true, arith}
use node_reqwest.Prelude.Family.{put, put-here, put-there, sum_below-pos}
use node_reqwest.Runtime.{Cancellation, Notify}
use node_reqwest.Agent.Lifecycle.{Shared, Task, Move, System, Step, Reach}
use node_reqwest.Agent.Lifecycle.Idle.{waking, active, wakers, Settled, Reach-Inv}

module _ (cancellation : Cancellation) (notify : Notify) where
  abbrev Agent : Type 0
  Agent = System cancellation notify

  -- A move of task `i`, which stands at `p`.
  pub run_at :
      {s : Agent} {m : Shared cancellation notify} {p p' : Task cancellation notify} (i : ℕ)
      → Reach cancellation notify s
      → i < s.spawned
      → s.tasks i ≡ p
      → Move cancellation notify i s.shared p m p'
      → Reach cancellation notify
          (record { shared = m; tasks = put i p' s.tasks; spawned = s.spawned })
  run_at {s} {m} {p' = p'} i r lt e mv =
      Reach.later r
        (Step.run i lt (subst (λ q. Move cancellation notify i s.shared q m p') (sym e) mv))

  ready-returns :
      {s : Agent} (i : ℕ) (w : notify.Notified)
      → Reach cancellation notify s
      → i < s.spawned
      → s.tasks i ≡ Task.parked w
      → s.active_count ≡ 0
      → notify.is_ready s.idle_notify w ≡ true
      → (t : Agent) × Reach cancellation notify t × (t.tasks i ≡ Task.returned)
  ready-returns {s} i w r lt e idle ready =
      let woken = run_at i r lt e (Move.awake ready) in
      let done = run_at i woken lt (put-here i Task.load_count s.tasks) (Move.find_idle idle) in
      (_, done, put-here i Task.returned (put i Task.load_count s.tasks))

  pub waker-stands :
      (t : Task cancellation notify) → 0 < waking cancellation notify t → t ≡ Task.wake_waiters
  waker-stands Task.wake_waiters h = refl
  waker-stands _ h = absurd (omega arith)

  -- From every reachable state in which a `close` or `destroy` is parked and no request is active,
  -- the agent can run on to a state in which that call has returned.
  pub parked-returns :
      {s : Agent} (i : ℕ) (w : notify.Notified)
      → Reach cancellation notify s
      → i < s.spawned
      → s.tasks i ≡ Task.parked w
      → active cancellation notify s ≡ 0
      → (t : Agent) × Reach cancellation notify t × (t.tasks i ≡ Task.returned)
  parked-returns {s} i w r lt e none_active = elim settled.1 [
    | inl ready ↦ ready-returns i w r lt e idle ready
    | inr busy ↦
        woken (sum_below-pos s.spawned (waking cancellation notify) s.tasks (omega (arith, idle)))
  ]
    where
      settled : Settled cancellation notify s.shared (wakers cancellation notify s) (Task.parked w)
      settled =
          subst (Settled cancellation notify s.shared (wakers cancellation notify s)) e
            ((Reach-Inv cancellation notify r).settled i)

      idle : s.active_count ≡ 0
      idle = (Reach-Inv cancellation notify r).exact ∙ none_active

      woken :
          (j : ℕ) × (j < s.spawned) × (0 < waking cancellation notify (s.tasks j))
          → (t : Agent) × Reach cancellation notify t × (t.tasks i ≡ Task.returned)
      woken (j, below, pos) =
          let stands = waker-stands (s.tasks j) pos in
          let next = run_at j r below stands Move.wake in
          ready-returns i w next lt
            (put-there j i Task.gone s.tasks (λ same. cc (ap s.tasks same, stands, e)) ∙ e) idle
            (notify.is_ready-notify_waiters s.idle_notify w settled.0)
