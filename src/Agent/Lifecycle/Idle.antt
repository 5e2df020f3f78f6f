-- ===== src/Agent/Lifecycle/Idle.antt =====
-- packages/core/src/agent.rs: the count of active requests, and that `wait_for_idle` misses no wake.
mod Moves
pub use Moves.{counted, waking, Settled}
use Moves.{counted-le, move-counted, move-Settled_self, move-Settled_other}
use node_reqwest.Prelude.{
  ℕ, suc, ◌+◌, ◌≤◌, ◌<◌, ◌≡◌, ◌⊎◌, inl, inr, refl, sym, subst, ◌∙◌, ◌==◌, if-intro, true, arith,
}
use node_reqwest.Prelude.Family.{
  put, sum_below, sum_below-put, sum_below-enter, sum_below-le, sum_below-zero,
}
use node_reqwest.Runtime.{Cancellation, Notify}
use node_reqwest.Agent.Lifecycle.{
  two_64, Shared, Task, Move, Entry, System, Step, Reach, fresh, aborted,
}

module _ (cancellation : Cancellation) (notify : Notify) where
  abbrev Job : Type 0
  Job = Task cancellation notify

  abbrev Memory : Type 0
  Memory = Shared cancellation notify

  -- The sums over the tasks, behind a move of task `i`.
  record Mover (s : System cancellation notify) (i : ℕ) (p p' : Job) : Type 0 where
    here : s.tasks i ≡ p
    counts :
        sum_below s.spawned (counted cancellation notify) (put i p' s.tasks)
          + counted cancellation notify p
        ≡ sum_below s.spawned (counted cancellation notify) s.tasks + counted cancellation notify p'
    wakes :
        sum_below s.spawned (waking cancellation notify) (put i p' s.tasks)
          + waking cancellation notify p
        ≡ sum_below s.spawned (waking cancellation notify) s.tasks + waking cancellation notify p'

  mover :
      (s : System cancellation notify) (i : ℕ) (p' : Job) → i < s.spawned → Mover s i (s.tasks i) p'
  mover s i p' lt = record {
    here = refl;
    counts = sum_below-put s.spawned (counted cancellation notify) s.tasks i p' lt;
    wakes = sum_below-put s.spawned (waking cancellation notify) s.tasks i p' lt;
  }

  abbrev pub active : System cancellation notify → ℕ
  active s = sum_below s.spawned (counted cancellation notify) s.tasks

  abbrev pub wakers : System cancellation notify → ℕ
  wakers s = sum_below s.spawned (waking cancellation notify) s.tasks

  pub record Inv (s : System cancellation notify) : Type 0 where
    pub few : s.spawned + 1 < two_64
    pub exact : s.active_count ≡ active s
    pub settled : (j : ℕ) → Settled cancellation notify s.shared (wakers s) (s.tasks j)

  active-le : (s : System cancellation notify) → active s ≤ s.spawned
  active-le s =
      sum_below-le s.spawned (counted cancellation notify) s.tasks (counted-le cancellation notify)

  run-Inv :
      (s : System cancellation notify) (i : ℕ) {m' : Memory} {p' : Job}
      → i < s.spawned
      → Move cancellation notify i s.shared (s.tasks i) m' p'
      → Inv s
      → Inv (record { shared = m'; tasks = put i p' s.tasks; spawned = s.spawned })
  run-Inv s i {m'} {p'} lt mv inv = record {
    few = inv.few;
    exact =
        move-counted cancellation notify (active t) mv (omega (arith, inv.exact, f.counts))
          (omega (arith, inv.few, inv.exact, active-le s)) (omega (arith, inv.few, active-le t));
    settled = λ j.
        if-intro (Settled cancellation notify m' (wakers t)) (i == j)
          (λ _. move-Settled_self cancellation notify (wakers s) (wakers t) mv (inv.settled i))
          (λ _.
            move-Settled_other cancellation notify (wakers s) (wakers t) (s.tasks j) mv f.wakes
              (omega (arith, inv.few, inv.exact, active-le s)) (inv.settled j));
  }
    where
      t : System cancellation notify
      t = record { shared = m'; tasks = put i p' s.tasks; spawned = s.spawned }

      f : Mover s i (s.tasks i) p'
      f = mover s i p' lt

  enter-Inv :
      (s : System cancellation notify) {t : Job}
      → Entry cancellation notify t
      → s.spawned + 3 < two_64
      → Inv s
      → Inv (record s { tasks = put s.spawned t s.tasks; spawned = suc s.spawned })
  enter-Inv s {t} en room inv = record {
    few = omega arith;
    exact =
        inv.exact
        ∙ sym
            (sum_below-enter s.spawned (counted cancellation notify) s.tasks t (counted-entry en));
    settled = λ j.
        rw (sum_below-enter s.spawned (waking cancellation notify) s.tasks t (waking-entry en)) (
          if-intro (Settled cancellation notify s.shared (wakers s)) (s.spawned == j)
            (λ _. settled-entry en) (λ _. inv.settled j));
  }
    where
      counted-entry : {t : Job} → Entry cancellation notify t → counted cancellation notify t ≡ 0
      counted-entry Entry.dispatch = refl
      counted-entry _ = refl

      waking-entry : {t : Job} → Entry cancellation notify t → waking cancellation notify t ≡ 0
      waking-entry Entry.dispatch = refl
      waking-entry _ = refl

      settled-entry :
          {t : Job}
          → Entry cancellation notify t
          → Settled cancellation notify s.shared (wakers s) t
      settled-entry Entry.dispatch = tt
      settled-entry _ = tt

  abort-Settled :
      (m : Memory) (i k : ℕ) (p : Job)
      → Settled cancellation notify m k p
      → Settled cancellation notify (aborted cancellation notify i m) k p
  abort-Settled m i k (Task.load_again w) h = h
  abort-Settled m i k (Task.parked w) h = h
  abort-Settled m i k _ h = tt

  pub Reach-Inv : {s : System cancellation notify} → Reach cancellation notify s → Inv s
  unfolding fresh
  Reach-Inv Reach.start = record {
    few = omega arith;
    exact = sym (sum_below-zero 0 (counted cancellation notify) Task.unborn refl);
    settled = λ _. tt;
  }
  Reach-Inv (Reach.later {s} r (Step.enter en room)) = enter-Inv s en room (Reach-Inv r)
  Reach-Inv (Reach.later {s} r (Step.run i lt mv)) = run-Inv s i lt mv (Reach-Inv r)
  Reach-Inv (Reach.later {s} r (Step.abort i handed)) =
      let inv = Reach-Inv r in
      record {
        few = inv.few;
        exact = inv.exact;
        settled = λ j. abort-Settled s.shared i (wakers s) (s.tasks j) (inv.settled j);
      }

  -- In every reachable state the atomic counter is exactly the number of requests that have been
  -- counted and not yet uncounted: no interleaving leaks a count or takes one twice.
  pub active_count-exact :
      {s : System cancellation notify} → Reach cancellation notify s → s.active_count ≡ active s
  active_count-exact r = (Reach-Inv r).exact

  -- No wake is lost: whenever a `close` or `destroy` is parked while no request is active, its future
  -- is ready, or some guard is about to call `notify_waiters`.
  pub parked-wakes :
      {s : System cancellation notify} (w : notify.Notified)
      → Reach cancellation notify s
      → (i : ℕ) → s.tasks i ≡ Task.parked w
      → active s ≡ 0
      → (notify.is_ready s.idle_notify w ≡ true) ⊎ (0 < wakers s)
  parked-wakes {s} w r i e none_active =
      let inv = Reach-Inv r in
      elim (subst (Settled cancellation notify s.shared (wakers s)) e (inv.settled i)).1 [
        | inl ready ↦ inl ready
        | inr busy ↦ inr (omega (arith, inv.exact))
      ]
