-- ===== src/Agent/Lifecycle/Waits.antt =====
-- packages/core/src/agent.rs, `wait_for_idle`: a waiter and the requests that it finds.
use native.Mathlib.Decide.{ℕ_discrete}
use node_reqwest.Prelude.{ℕ, ◌<◌, ◌≡◌, ◌≢◌, ◌⊎◌, inl, inr, refl, ap, sym, subst, ◌∙◌, arith}
use node_reqwest.Prelude.Family.{put, put-here, put-there, put_one, le-sum_below}
use node_reqwest.Runtime.{Cancellation, Notify}
use node_reqwest.Agent.Lifecycle.{Shared, Task, Move, System, Step, Reach}
use node_reqwest.Agent.Lifecycle.Idle.{counted, Reach-Inv}
use node_reqwest.Agent.Lifecycle.Refusal.{Steps, stay, go}

module _ (cancellation : Cancellation) (notify : Notify) where
  abbrev Agent : Type 0
  Agent = System cancellation notify

  abbrev Job : Type 0
  Job = Task cancellation notify

  -- A request that has left the count.
  abbrev pub IsOver : Job → Type 0
  IsOver Task.wake_waiters = Unit
  IsOver Task.gone = Unit
  IsOver _ = ⊥

  move-counted :
      {i : ℕ} {m m' : Shared cancellation notify} {p p' : Job}
      → Move cancellation notify i m p m' p'
      → counted cancellation notify p ≡ 1
      → (counted cancellation notify p' ≡ 1) ⊎ IsOver p'
  move-counted Move.count h = inl refl
  move-counted mv h = ground arith

  move-IsOver :
      {i : ℕ} {m m' : Shared cancellation notify} {p p' : Job}
      → Move cancellation notify i m p m' p'
      → IsOver p
      → IsOver p'
  move-IsOver Move.wake h = tt
  move-IsOver mv h = ground arith

  move-returned :
      {i : ℕ} {m m' : Shared cancellation notify} {p p' : Job}
      → Move cancellation notify i m p m' p'
      → p' ≡ Task.returned
      → (m.active_count ≡ 0) × (counted cancellation notify p ≡ 0)
  move-returned (Move.find_idle idle) e = (idle, refl)
  move-returned (Move.still_idle idle) e = (idle, refl)
  move-returned _ e = cc

  -- When `wait_for_idle` returns, at that access no request is active.
  pub returns_idle :
      {s : System cancellation notify} {i : ℕ} {m' : Shared cancellation notify}
      → Reach cancellation notify s
      → Move cancellation notify i s.shared (s.tasks i) m' Task.returned
      → (j : ℕ) → j < s.spawned
      → counted cancellation notify (s.tasks j) ≡ 0
  returns_idle {s} r mv j lt = omega (
    arith,
    (move-returned mv refl).0,
    (Reach-Inv cancellation notify r).exact,
    le-sum_below s.spawned (counted cancellation notify) s.tasks j lt,
  )

  -- Request `i` is over, or it is counted and the waiter `j` has not returned.
  abbrev Outlasts : ℕ → ℕ → Agent → Type 0
  Outlasts i j s =
      IsOver (s.tasks i)
      ⊎ ((counted cancellation notify (s.tasks i) ≡ 1) × (s.tasks j ≢ Task.returned))

  module _ {s : Agent} (i j k : ℕ) {m : Shared cancellation notify} {p' : Job}
      (r : Reach cancellation notify s) (lt : i < s.spawned)
      (mv : Move cancellation notify k s.shared (s.tasks k) m p') where
    run-IsOver : IsOver (s.tasks i) → IsOver (put k p' s.tasks i)
    run-IsOver h =
        put_one IsOver k i p' s.tasks
          (λ same. move-IsOver mv (subst (λ n. IsOver (s.tasks n)) (sym same) h)) (λ other. h)

    run-counted :
        counted cancellation notify (s.tasks i) ≡ 1
        → (counted cancellation notify (put k p' s.tasks i) ≡ 1) ⊎ IsOver (put k p' s.tasks i)
    run-counted h =
        put_one (λ q. (counted cancellation notify q ≡ 1) ⊎ IsOver q) k i p' s.tasks
          (λ same.
            move-counted mv (subst (λ n. counted cancellation notify (s.tasks n) ≡ 1) (sym same) h))
          (λ other. inl h)

    run-waiting :
        counted cancellation notify (s.tasks i) ≡ 1
        → s.tasks j ≢ Task.returned
        → put k p' s.tasks j ≢ Task.returned
    run-waiting h waiting e = elim (ℕ_discrete k j) [
      | yes same ↦
          let stands = sym (put-here k p' s.tasks) ∙ ap (put k p' s.tasks) same ∙ e in
          absurd (
            omega (
              arith,
              h,
              (move-returned mv stands).0,
              (Reach-Inv cancellation notify r).exact,
              le-sum_below s.spawned (counted cancellation notify) s.tasks i lt,
            ))
      | no other ↦ waiting (sym (put-there k j p' s.tasks other) ∙ e)
    ]

  pub Reach-Steps :
      {s t : Agent}
      → Reach cancellation notify s
      → Steps cancellation notify s t
      → Reach cancellation notify t
  Reach-Steps r stay = r
  Reach-Steps r (go before st) = Reach.later (Reach-Steps r before) st

  step-Outlasts :
      {s t : Agent} (i j : ℕ)
      → Reach cancellation notify s
      → (i < s.spawned) × (j < s.spawned) × Outlasts i j s
      → Step cancellation notify s t
      → (i < t.spawned) × (j < t.spawned) × Outlasts i j t
  step-Outlasts {s} i j r (lt, below, h) (Step.enter {t = new} en room) = (
    omega arith,
    omega arith,
    subst
        (λ q.
          IsOver q
          ⊎ ((counted cancellation notify q ≡ 1) × (put s.spawned new s.tasks j ≢ Task.returned)))
        (sym (put-there s.spawned i new s.tasks (omega arith)))
        (subst
          (λ q.
            IsOver (s.tasks i)
            ⊎ ((counted cancellation notify (s.tasks i) ≡ 1) × (q ≢ Task.returned)))
          (sym (put-there s.spawned j new s.tasks (omega arith))) h),
  )
  step-Outlasts i j r (lt, below, inl over) (Step.run k within mv) =
      (lt, below, inl (run-IsOver i j k r lt mv over))
  step-Outlasts i j r (lt, below, inr (h, waiting)) (Step.run k within mv) = (
    lt,
    below,
    elim (run-counted i j k r lt mv h) [
      | inl still ↦ inr (still, run-waiting i j k r lt mv h waiting)
      | inr over ↦ inl over
    ],
  )
  step-Outlasts i j r h (Step.abort k handed) = h

  Steps-Outlasts :
      {s t : Agent} (i j : ℕ)
      → Reach cancellation notify s
      → (i < s.spawned) × (j < s.spawned) × Outlasts i j s
      → Steps cancellation notify s t
      → (i < t.spawned) × (j < t.spawned) × Outlasts i j t
  Steps-Outlasts i j r h stay = h
  Steps-Outlasts i j r h (go before st) =
      step-Outlasts i j (Reach-Steps r before) (Steps-Outlasts i j r h before) st

  -- Every request that is counted at some moment before a `close` or `destroy` returns is over, its
  -- guard dropped and its count taken back, when that call has returned: whatever the other tasks
  -- and the callers do in between, no waiter leaves a request behind.
  pub returned-IsOver :
      {s t : Agent} (i j : ℕ)
      → Reach cancellation notify s
      → i < s.spawned
      → j < s.spawned
      → counted cancellation notify (s.tasks i) ≡ 1
      → s.tasks j ≢ Task.returned
      → Steps cancellation notify s t
      → t.tasks j ≡ Task.returned
      → IsOver (t.tasks i)
  returned-IsOver i j r lt below h waiting steps e =
      elim (Steps-Outlasts i j r (lt, below, inr (h, waiting)) steps).2 [
        | inl over ↦ over
        | inr left ↦ absurd (left.1 e)
      ]
