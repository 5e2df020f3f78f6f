-- ===== src/Agent/Lifecycle/Registry/Joins.antt =====
-- packages/core/src/agent.rs: the map of cancellation tokens, when a call is made.
use node_reqwest.Prelude.{
  ℕ, suc, ◌+◌, ◌<◌, ◌≡◌, ◌≢◌, inl, inr, refl, ap, sym, subst, ◌∙◌, none, some, arith,
}
use node_reqwest.Prelude.Family.{put, put-here, put-there, sum_below-enter}
use native.Mathlib.Decide.{ℕ_discrete}
use node_reqwest.Runtime.{Cancellation, Notify}
use node_reqwest.Agent.Lifecycle.{two_64, Shared, Task, Move, Entry, System}
use node_reqwest.Agent.Lifecycle.Registry.Moves.{named, holds, Pending}
use node_reqwest.Agent.Lifecycle.Registry.Invariant.{Reached, Inv}

module _ (cancellation : Cancellation) (notify : Notify) where
  abbrev Job : Type 0
  Job = Task cancellation notify

  abbrev Memory : Type 0
  Memory = Shared cancellation notify

  abbrev Acts : ℕ → Memory → Job → Memory → Job → Type 0
  Acts = Move cancellation notify

  Entry-idle : {t : Job} → Entry cancellation notify t → record {
    unnamed : named cancellation notify t ≡ 0;
    holds_none : holds cancellation notify t ≡ none;
    grounded : (id : ℕ) → t ≢ Task.in_flight id;
  }
  Entry-idle Entry.dispatch = record { unnamed = refl; holds_none = refl; grounded = λ id e. cc }
  Entry-idle Entry.closing = record { unnamed = refl; holds_none = refl; grounded = λ id e. cc }
  Entry-idle (Entry.destroying _) = record {
    unnamed = refl;
    holds_none = refl;
    grounded = λ id e. cc;
  }

  module _ (s : System cancellation notify) {t : Job} (en : Entry cancellation notify t)
      (room : s.spawned + 3 < two_64) (inv : Inv cancellation notify s) where
    abbrev pub joined : System cancellation notify
    joined = record s { tasks = put s.spawned t s.tasks; spawned = suc s.spawned }

    joined-holds :
        (j id : ℕ)
        → holds cancellation notify (put s.spawned t s.tasks j) ≡ some id
        → holds cancellation notify (s.tasks j) ≡ some id
    joined-holds j id e = elim (ℕ_discrete s.spawned j) [
      | yes same ↦ cc (
        (Entry-idle en).holds_none,
        ap (holds cancellation notify) (put-here s.spawned t s.tasks),
        ap (λ k. holds cancellation notify (put s.spawned t s.tasks k)) same,
      )
      | no other ↦ ap (holds cancellation notify) (sym (put-there s.spawned j t s.tasks other)) ∙ e
    ]

    joined-in_flight :
        (k id : ℕ) → put s.spawned t s.tasks k ≡ Task.in_flight id → s.tasks k ≡ Task.in_flight id
    joined-in_flight k id e = elim (ℕ_discrete s.spawned k) [
      | yes same ↦ absurd (
          (Entry-idle en).grounded id
            (sym (put-here s.spawned t s.tasks) ∙ ap (put s.spawned t s.tasks) same ∙ e))
      | no other ↦ sym (put-there s.spawned k t s.tasks other) ∙ e
    ]

    joined-Reached :
        (k id : ℕ) → Reached cancellation notify s k id → Reached cancellation notify joined k id
    joined-Reached k id (inl registered) = inl registered
    joined-Reached k id (inr (inr cancelled)) = inr (inr cancelled)
    joined-Reached k id (inr (inl (j, pending))) = elim (ℕ_discrete s.spawned j) [
      | yes same ↦ absurd (subst (Pending cancellation notify k) (inv.rest j (omega arith)) pending)
      | no other ↦ inr (
          inl (
            j,
            subst (Pending cancellation notify k) (sym (put-there s.spawned j t s.tasks other))
                pending,
          ))
    ]

    pub joined-Inv : Inv cancellation notify joined
    joined-Inv = record {
      few = omega arith;
      next = omega (
        arith,
        inv.next,
        sum_below-enter s.spawned (named cancellation notify) s.tasks t (Entry-idle en).unnamed,
      );
      below = λ j id e. inv.below j id (joined-holds j id e);
      unique = λ i j id e f. inv.unique i j id (joined-holds i id e) (joined-holds j id f);
      reached = λ k id e. joined-Reached k id (inv.reached k id (joined-in_flight k id e));
      rest = λ j out. put-there s.spawned j t s.tasks (omega arith) ∙ inv.rest j (omega arith);
    }
