-- ===== src/Agent/Lifecycle/Registry/Moves.antt =====
-- packages/core/src/agent.rs: what one access does to the map of tokens and to the cells.
use node_reqwest.Prelude.{
  ℕ, ◌+◌, ◌≤◌, ◌<◌, ◌≡◌, ◌≢◌, ◌⊎◌, inl, inr, true, Option, none, some, arith,
}
use node_reqwest.Runtime.{Cancellation, Notify}
use node_reqwest.Agent.Lifecycle.Tokens.{
  lookup, lookup-insert, lookup-remove, contains, contains-drain,
}
use node_reqwest.Agent.Lifecycle.{two_64, Shared, Task, Move}

module _ (cancellation : Cancellation) (notify : Notify) where
  abbrev Job : Type 0
  Job = Task cancellation notify

  abbrev Memory : Type 0
  Memory = Shared cancellation notify

  abbrev Acts : ℕ → Memory → Job → Memory → Job → Type 0
  Acts = Move cancellation notify

  -- The tasks that have drawn a request's number, and the number while it is in use.
  abbrev pub named : Job → ℕ
  named (Task.add_count _) = 1
  named (Task.insert_token _) = 1
  named (Task.in_flight _) = 1
  named (Task.remove_token _) = 1
  named Task.sub_count = 1
  named Task.wake_waiters = 1
  named Task.gone = 1
  named _ = 0

  abbrev pub holds : Job → Option ℕ
  holds (Task.add_count id) = some id
  holds (Task.insert_token id) = some id
  holds (Task.in_flight id) = some id
  holds (Task.remove_token id) = some id
  holds _ = none

  pub named-le : (t : Job) → named t ≤ 1
  named-le t = ground arith

  -- `destroy` has drained the token of task `k` and has yet to cancel it.
  abbrev pub Pending : ℕ → Job → Type 0
  Pending k (Task.cancel_tokens ts) = contains k ts ≡ true
  Pending k _ = ⊥

  abbrev pub IsCancelled : Memory → ℕ → Type 0
  IsCancelled m k = cancellation.is_cancelled (m.cells k) ≡ true

  pub move-named :
      {i : ℕ} {m m' : Memory} {p p' : Job}
      → Acts i m p m' p'
      → m.next_id + 1 < two_64
      → (m'.next_id + named p ≡ m.next_id + named p') × (m.next_id ≤ m'.next_id)
  move-named Move.take small = ground arith
  move-named mv small = ground arith

  pub move-holds :
      {i : ℕ} {m m' : Memory} {p p' : Job} (id : ℕ)
      → Acts i m p m' p'
      → m.next_id + 1 < two_64
      → holds p' ≡ some id
      → (holds p ≡ some id) ⊎ ((id ≡ m.next_id) × (m'.next_id ≡ m.next_id + 1))
  move-holds id Move.take small e = ground arith
  move-holds id mv small e = ground arith

  pub move-in_flight :
      {i : ℕ} {m m' : Memory} {p p' : Job} (id : ℕ)
      → Acts i m p m' p'
      → p' ≡ Task.in_flight id
      → lookup id m'.active_tokens ≡ some i
  move-in_flight {i} {m} id (Move.register {id = k}) e =
      ground (arith, lookup-insert id k i m.active_tokens)
  move-in_flight id mv e = cc

  pub move-lookup :
      {i : ℕ} {m m' : Memory} {p p' : Job} (k id : ℕ)
      → Acts i m p m' p'
      → holds p ≢ some id
      → lookup id m.active_tokens ≡ some k
      → (lookup id m'.active_tokens ≡ some k) ⊎ Pending k p'
  move-lookup {i} {m} k id (Move.register {id = j}) other e =
      ground (arith, lookup-insert id j i m.active_tokens)
  move-lookup {m} k id (Move.unregister {id = j}) other e =
      ground (arith, lookup-remove id j m.active_tokens)
  move-lookup {m} k id Move.drain_all other e = inr (contains-drain id k m.active_tokens e)
  move-lookup k id mv other e = inl e

  pub move-Pending :
      {i : ℕ} {m m' : Memory} {p p' : Job} (k : ℕ)
      → Acts i m p m' p'
      → Pending k p
      → Pending k p' ⊎ IsCancelled m' k
  move-Pending {m} k (Move.cancel {t} {ts}) h =
      ground (arith, cancellation.is_cancelled-cancel (m.cells t))
  move-Pending k mv h = ground arith

  pub move-IsCancelled :
      {i : ℕ} {m m' : Memory} {p p' : Job} (k : ℕ)
      → Acts i m p m' p'
      → i ≢ k
      → IsCancelled m k
      → IsCancelled m' k
  move-IsCancelled {m} k (Move.cancel {t}) ne h =
      ground (arith, cancellation.is_cancelled-cancel (m.cells t))
  move-IsCancelled k Move.make ne h = ground arith
  move-IsCancelled k mv ne h = h
