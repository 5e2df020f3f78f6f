-- ===== src/Agent/Lifecycle/Registry/Runs.antt =====
-- packages/core/src/agent.rs: the map of cancellation tokens, when a task makes an access.
use node_reqwest.Prelude.{ℕ, ◌+◌, ◌<◌, ◌≡◌, ◌≢◌, inl, inr, ap, sym, subst, ◌∙◌, some, arith}
use node_reqwest.Prelude.Family.{put, put-here, put-there, sum_below-put, sum_below-le}
use native.Mathlib.Decide.{ℕ_discrete}
use node_reqwest.Runtime.{Cancellation, Notify}
use node_reqwest.Agent.Lifecycle.Tokens.{lookup}
use node_reqwest.Agent.Lifecycle.{two_64, Shared, Task, Move, System}
use node_reqwest.Agent.Lifecycle.Registry.Moves.{
  named, holds, named-le, Pending, move-named, move-holds, move-in_flight, move-lookup,
  move-Pending, move-IsCancelled,
}
use node_reqwest.Agent.Lifecycle.Registry.Invariant.{Reached, Inv}

module _ (cancellation : Cancellation) (notify : Notify) where
  abbrev Job : Type 0
  Job = Task cancellation notify

  abbrev Memory : Type 0
  Memory = Shared cancellation notify

  abbrev Acts : ℕ → Memory → Job → Memory → Job → Type 0
  Acts = Move cancellation notify

  module _ (s : System cancellation notify) (i : ℕ) {m' : Memory} {p' : Job} (lt : i < s.spawned)
      (mv : Acts i s.shared (s.tasks i) m' p') (inv : Inv cancellation notify s) where
    abbrev pub target : System cancellation notify
    target = record { shared = m'; tasks = put i p' s.tasks; spawned = s.spawned }

    room : s.next_id + 1 < two_64
    room = omega (
      arith,
      inv.few,
      inv.next,
      sum_below-le s.spawned (named cancellation notify) s.tasks (named-le cancellation notify),
    )

    run-below :
        (j id : ℕ) → holds cancellation notify (put i p' s.tasks j) ≡ some id → id < m'.next_id
    run-below j id e = ground (
      arith,
      move-named cancellation notify mv room,
      move-holds cancellation notify id mv room,
      inv.below i id,
      inv.below j id,
    )

    run_unique :
        (a b id : ℕ)
        → holds cancellation notify (put i p' s.tasks a) ≡ some id
        → holds cancellation notify (put i p' s.tasks b) ≡ some id
        → a ≡ b
    run_unique a b id e f = ground (
      arith,
      move-holds cancellation notify id mv room,
      inv.below a id,
      inv.below b id,
      inv.unique a b id,
      inv.unique i b id,
      inv.unique i a id,
    )

    -- Another task's request stays within reach.
    keep :
        (k id : ℕ)
        → i ≢ k
        → s.tasks k ≡ Task.in_flight id
        → Reached cancellation notify s k id
        → Reached cancellation notify target k id
    keep k id ne e (inl registered) =
        elim (move-lookup cancellation notify k id mv
          (λ h. ne (inv.unique i k id h (ap (holds cancellation notify) e))) registered) [
            | inl still ↦ inl still
            | inr pending ↦ inr (
                inl
                  (i, subst (Pending cancellation notify k) (sym (put-here i p' s.tasks)) pending))
          ]
    keep k id ne e (inr (inl (j, pending))) = elim (ℕ_discrete i j) [
      | yes same ↦
          elim (move-Pending cancellation notify k mv
            (subst (λ j. Pending cancellation notify k (s.tasks j)) (sym same) pending)) [
              | inl still ↦ inr (
                  inl
                    (i, subst (Pending cancellation notify k) (sym (put-here i p' s.tasks)) still))
              | inr cancelled ↦ inr (inr cancelled)
            ]
      | no other ↦ inr (
          inl (
            j,
            subst (Pending cancellation notify k) (sym (put-there i j p' s.tasks other)) pending,
          ))
    ]
    keep k id ne e (inr (inr cancelled)) =
        inr (inr (move-IsCancelled cancellation notify k mv ne cancelled))

    run-Reached :
        (k id : ℕ)
        → put i p' s.tasks k ≡ Task.in_flight id
        → Reached cancellation notify target k id
    run-Reached k id e = elim (ℕ_discrete i k) [
      | yes same ↦ inl (
          subst (λ k. lookup id m'.active_tokens ≡ some k) same
            (move-in_flight cancellation notify id mv
              (sym (put-here i p' s.tasks) ∙ ap (put i p' s.tasks) same ∙ e)))
      | no other ↦
          let e' = sym (put-there i k p' s.tasks other) ∙ e in
          keep k id other e' (inv.reached k id e')
    ]

    pub run-Inv : Inv cancellation notify target
    run-Inv = record {
      few = inv.few;
      next = omega (
        arith,
        inv.next,
        (move-named cancellation notify mv room).0,
        sum_below-put s.spawned (named cancellation notify) s.tasks i p' lt,
      );
      below = run-below;
      unique = run_unique;
      reached = run-Reached;
      rest = λ j out. put-there i j p' s.tasks (omega arith) ∙ inv.rest j out;
    }
