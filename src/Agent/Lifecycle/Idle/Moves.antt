-- ===== src/Agent/Lifecycle/Idle/Moves.antt =====
-- packages/core/src/agent.rs: what one access does to the count of active requests and to a waiter.
use node_reqwest.Prelude.{ℕ, ◌+◌, ◌≤◌, ◌<◌, ◌≡◌, ◌⊎◌, inl, inr, true, arith}
use node_reqwest.Runtime.{Cancellation, Notify}
use node_reqwest.Agent.Lifecycle.{two_64, Shared, Task, Move}

module _ (cancellation : Cancellation) (notify : Notify) where
  abbrev Job : Type 0
  Job = Task cancellation notify

  abbrev Memory : Type 0
  Memory = Shared cancellation notify

  -- A request is counted from `fetch_add` to `fetch_sub`.
  abbrev pub counted : Job → ℕ
  counted (Task.insert_token _) = 1
  counted (Task.in_flight _) = 1
  counted (Task.remove_token _) = 1
  counted Task.sub_count = 1
  counted _ = 0

  -- A guard that has brought the count to zero and is about to wake the waiters.
  abbrev pub waking : Job → ℕ
  waking Task.wake_waiters = 1
  waking _ = 0

  pub counted-le : (t : Job) → counted t ≤ 1
  counted-le t = ground arith

  -- What a waiter relies on, where `k` guards are about to wake: its future is enabled, and if it
  -- is parked then it is ready, or the count is not zero, or a wake is on its way.
  abbrev pub Settled : Memory → ℕ → Job → Type 0
  Settled m k (Task.load_again w) = notify.is_enabled m.idle_notify w ≡ true
  Settled m k (Task.parked w) =
      (notify.is_enabled m.idle_notify w ≡ true)
      × ((notify.is_ready m.idle_notify w ≡ true) ⊎ (0 < m.active_count + k))
  Settled m k _ = Unit {0}

  pub move-counted :
      {i : ℕ} {m m' : Memory} {p p' : Job} (c' : ℕ)
      → Move cancellation notify i m p m' p'
      → c' + counted p ≡ m.active_count + counted p'
      → m.active_count + 1 < two_64
      → c' < two_64
      → m'.active_count ≡ c'
  move-counted c' (Move.count) e small small' = ground arith
  move-counted c' mv e small small' = ground arith

  pub move-Settled_self :
      {i : ℕ} {m m' : Memory} {p p' : Job} (k k' : ℕ)
      → Move cancellation notify i m p m' p'
      → Settled m k p
      → Settled m' k' p'
  move-Settled_self k k' Move.enable s = notify.is_enabled-enabled _
  move-Settled_self k k' (Move.still_busy busy) s = (s, inr (ground arith))
  move-Settled_self k k' mv s = ground arith

  move-is_enabled :
      {i : ℕ} {m m' : Memory} {p p' : Job} (w : notify.Notified)
      → Move cancellation notify i m p m' p'
      → notify.is_enabled m.idle_notify w ≡ true
      → notify.is_enabled m'.idle_notify w ≡ true
  move-is_enabled {m} w Move.enable s = notify.is_enabled-enable m.idle_notify w s
  move-is_enabled {m} w Move.wake s = notify.is_enabled-notify_waiters m.idle_notify w s
  move-is_enabled w mv s = s

  move-is_ready :
      {i : ℕ} {m m' : Memory} {p p' : Job} (k k' : ℕ) (w : notify.Notified)
      → Move cancellation notify i m p m' p'
      → k' + waking p ≡ k + waking p'
      → m.active_count + 1 < two_64
      → Settled m k (Task.parked w)
      → (notify.is_ready m'.idle_notify w ≡ true) ⊎ (0 < m'.active_count + k')
  move-is_ready {m} k k' w Move.enable e small (_, inl r) =
      inl (notify.is_ready-enable m.idle_notify w r)
  move-is_ready k k' w Move.enable e small (_, inr busy) = inr (omega arith)
  move-is_ready {m} k k' w Move.wake e small (en, _) =
      inl (notify.is_ready-notify_waiters m.idle_notify w en)
  move-is_ready k k' w (Move.uncount many) e small (en, c) = ground arith
  move-is_ready k k' w (Move.uncount_last one) e small (en, c) = ground arith
  move-is_ready k k' w mv e small (en, c) = ground arith

  pub move-Settled_other :
      {i : ℕ} {m m' : Memory} {p p' : Job} (k k' : ℕ) (q : Job)
      → Move cancellation notify i m p m' p'
      → k' + waking p ≡ k + waking p'
      → m.active_count + 1 < two_64
      → Settled m k q
      → Settled m' k' q
  move-Settled_other k k' (Task.load_again w) mv e small s = move-is_enabled w mv s
  move-Settled_other k k' (Task.parked w) mv e small s =
      (move-is_enabled w mv s.0, move-is_ready k k' w mv e small s)
  move-Settled_other k k' _ mv e small s = tt
