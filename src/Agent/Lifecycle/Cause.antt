-- ===== src/Agent/Lifecycle/Cause.antt =====
-- packages/core/src/agent.rs, `destroy`: the error is stored before any token is cancelled.
use node_reqwest.Prelude.{ℕ, ◌≡◌, ◌⊎◌, inl, inr, refl, true, Option, none, some, arith}
use node_reqwest.Prelude.Family.{put_one}
use node_reqwest.Runtime.{Cancellation, Notify}
use node_reqwest.Error.{CoreError}
use node_reqwest.Agent.Lifecycle.{Shared, Task, Move, Entry, System, Step, Reach, fresh}

abbrev pub IsStored : Option CoreError → Type 0
IsStored none = ⊥
IsStored (some _) = Unit

pub stored-error : (o : Option CoreError) → IsStored o → (e : CoreError) × (o ≡ some e)
stored-error none h = absurd h
stored-error (some e) h = (e, refl)

module _ (cancellation : Cancellation) (notify : Notify) where
  abbrev Job : Type 0
  Job = Task cancellation notify

  abbrev Memory : Type 0
  Memory = Shared cancellation notify

  -- A `destroy` that is past its store.
  abbrev Behind : Option CoreError → Job → Type 0
  Behind o Task.drain_tokens = IsStored o
  Behind o (Task.cancel_tokens _) = IsStored o
  Behind o _ = Unit

  pub move-IsStored :
      {i : ℕ} {m m' : Memory} {p p' : Job}
      → Move cancellation notify i m p m' p'
      → IsStored m.destroy_error
      → IsStored m'.destroy_error
  move-IsStored Move.set_error h = tt
  move-IsStored mv h = h

  move-Behind :
      {i : ℕ} {m m' : Memory} {p p' : Job}
      → Move cancellation notify i m p m' p'
      → Behind m.destroy_error p
      → Behind m'.destroy_error p'
  move-Behind Move.set_error h = tt
  move-Behind mv h = ground arith

  move-Behind_other :
      {i : ℕ} {m m' : Memory} {p p' : Job} (q : Job)
      → Move cancellation notify i m p m' p'
      → Behind m.destroy_error q
      → Behind m'.destroy_error q
  move-Behind_other Task.drain_tokens mv h = move-IsStored mv h
  move-Behind_other (Task.cancel_tokens _) mv h = move-IsStored mv h
  move-Behind_other _ mv h = tt

  entry-Behind : {t : Job} (o : Option CoreError) → Entry cancellation notify t → Behind o t
  entry-Behind o Entry.dispatch = tt
  entry-Behind o Entry.closing = tt
  entry-Behind o (Entry.destroying e) = tt

  pub Reach-Behind :
      {s : System cancellation notify} (j : ℕ)
      → Reach cancellation notify s
      → Behind s.destroy_error (s.tasks j)
  unfolding fresh
  Reach-Behind j Reach.start = tt
  Reach-Behind j (Reach.later {s} r (Step.enter {t} en room)) =
      put_one (Behind s.destroy_error) s.spawned j t s.tasks
        (λ same. entry-Behind s.destroy_error en) (λ other. Reach-Behind j r)
  Reach-Behind j (Reach.later {s} r (Step.run i {m} {t} lt mv)) =
      put_one (Behind m.destroy_error) i j t s.tasks (λ same. move-Behind mv (Reach-Behind i r))
        (λ other. move-Behind_other (s.tasks j) mv (Reach-Behind j r))
  Reach-Behind j (Reach.later r (Step.abort i handed)) = Reach-Behind j r

  -- An access cancels a token only where the error is stored.
  pub move-cancels :
      {i : ℕ} {m m' : Memory} {p p' : Job} (k : ℕ)
      → Move cancellation notify i m p m' p'
      → Behind m.destroy_error p
      → cancellation.is_cancelled (m'.cells k) ≡ true
      → (cancellation.is_cancelled (m.cells k) ≡ true) ⊎ IsStored m'.destroy_error
  move-cancels {i} {m} k Move.make h c =
      put_one
        (λ t.
          cancellation.is_cancelled t ≡ true
          → (cancellation.is_cancelled (m.cells k) ≡ true) ⊎ IsStored m.destroy_error)
        i k cancellation.new m.cells (λ same c. cc (c, cancellation.is_cancelled-new))
        (λ other c. inl c) c
  move-cancels k Move.cancel h c = inr h
  move-cancels k mv h c = inl c
