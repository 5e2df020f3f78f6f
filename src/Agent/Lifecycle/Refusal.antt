-- ===== src/Agent/Lifecycle/Refusal.antt =====
-- packages/core/src/agent.rs, `dispatch` after `close` or `destroy`.
use native.Mathlib.Decide.{ℕ_discrete}
use node_reqwest.Prelude.{ℕ, ◌<◌, ◌≡◌, ◌⊎◌, sym, subst, Bool, true, arith}
use node_reqwest.Prelude.Family.{put, put-here, put-there}
use node_reqwest.Runtime.{Cancellation, Notify}
use node_reqwest.Error.{client_destroyed, client_closed}
use node_reqwest.Agent.Lifecycle.{
  Shared, Task, Move, System, Step, aborted, is_closed, is_destroyed,
}

module _ (cancellation : Cancellation) (notify : Notify) where
  abbrev Agent : Type 0
  Agent = System cancellation notify

  -- Any steps of the agent's tasks.
  pub data Steps (s : Agent) : Agent → Type 0 where
    stay : Steps s s
    go : {t u : Agent} → Steps s t → Step cancellation notify t u → Steps s u

  -- A `dispatch` that has made no more than its checks, or was refused by one of them.
  abbrev pub TurnedAway : Task cancellation notify → Type 0
  TurnedAway Task.check_destroyed = Unit
  TurnedAway Task.check_closed = Unit
  TurnedAway (Task.refused e) = (e ≡ client_destroyed) ⊎ (e ≡ client_closed)
  TurnedAway _ = ⊥

  -- The same where the first check refuses.
  abbrev pub Destroyed : Task cancellation notify → Type 0
  Destroyed Task.check_destroyed = Unit
  Destroyed (Task.refused e) = e ≡ client_destroyed
  Destroyed _ = ⊥

  move-flags :
      {i : ℕ} {m m' : Shared cancellation notify} {p p' : Task cancellation notify}
      → Move cancellation notify i m p m' p'
      → (m.closed ≡ true → m'.closed ≡ true) × (m.destroyed ≡ true → m'.destroyed ≡ true)
  move-flags Move.close = ground arith
  move-flags mv = ground arith

  move-TurnedAway :
      {i : ℕ} {m m' : Shared cancellation notify} {p p' : Task cancellation notify}
      → Move cancellation notify i m p m' p'
      → m.closed ≡ true
      → TurnedAway p
      → TurnedAway p'
  move-TurnedAway (Move.pass_closed open_) closed h = cc
  move-TurnedAway mv closed h = ground arith

  move-Destroyed :
      {i : ℕ} {m m' : Shared cancellation notify} {p p' : Task cancellation notify}
      → Move cancellation notify i m p m' p'
      → m.destroyed ≡ true
      → Destroyed p
      → Destroyed p'
  move-Destroyed (Move.pass_destroyed alive) destroyed h = cc
  move-Destroyed mv destroyed h = ground arith

  -- A task below `spawned`, a flag that no move clears, and what moves keep while the flag is set.
  module _ (flag : Shared cancellation notify → Bool) (P : Task cancellation notify → Type 0)
      (keep_flag : (i : ℕ) (m m' : Shared cancellation notify) (p p' : Task cancellation notify)
        → Move cancellation notify i m p m' p'
        → flag m ≡ true
        → flag m' ≡ true)
      (keep_cells : (i : ℕ) (m : Shared cancellation notify)
        → flag m ≡ true
        → flag (aborted cancellation notify i m) ≡ true)
      (keep : (i : ℕ) (m m' : Shared cancellation notify) (p p' : Task cancellation notify)
        → Move cancellation notify i m p m' p'
        → flag m ≡ true
        → P p
        → P p') where
    abbrev Held : ℕ → Agent → Type 0
    Held i s = (i < s.spawned) × (flag s.shared ≡ true) × P (s.tasks i)

    step-Held : {s t : Agent} (i : ℕ) → Step cancellation notify s t → Held i s → Held i t
    step-Held {s} i (Step.enter {t = new} en room) (lt, set, holds) =
        (omega arith, set, subst P (sym (put-there s.spawned i new s.tasks (omega arith))) holds)
    step-Held {s} i (Step.run j {m} {t = p'} below mv) (lt, set, holds) = (
      lt,
      keep_flag j _ m _ p' mv set,
      elim (ℕ_discrete j i) [
        | yes same ↦
            subst (λ k. P (put j p' s.tasks k)) same
              (subst P (sym (put-here j p' s.tasks))
                (keep j _ m _ p' mv set (subst (λ k. P (s.tasks k)) (sym same) holds)))
        | no other ↦ subst P (sym (put-there j i p' s.tasks other)) holds
      ],
    )
    step-Held {s} i (Step.abort j handed) (lt, set, holds) = (lt, keep_cells j s.shared set, holds)

    Steps-Held : {s t : Agent} (i : ℕ) → Steps s t → Held i s → Held i t
    Steps-Held i stay h = h
    Steps-Held i (go before st) h = step-Held i st (Steps-Held i before h)

  -- Once `closed` is set, a dispatch that has yet to make its checks is never admitted, whatever
  -- else the agent does: it stays at its checks or is refused as closed or destroyed.
  pub closed-TurnedAway :
      {s t : Agent} (i : ℕ)
      → is_closed cancellation notify s.shared ≡ true
      → i < s.spawned
      → TurnedAway (s.tasks i)
      → Steps s t
      → TurnedAway (t.tasks i)
  closed-TurnedAway i closed lt h steps =
      (Steps-Held (λ m. m.closed) TurnedAway (λ i m m' p p' mv. (move-flags mv).0) (λ i m h. h)
        (λ i m m' p p' mv c. move-TurnedAway mv c) i steps (lt, closed, h)).2

  -- Once `destroyed` is set, a dispatch that has yet to make its checks is refused as destroyed if
  -- it is answered at all.
  pub is_destroyed-Destroyed :
      {s t : Agent} (i : ℕ)
      → is_destroyed cancellation notify s.shared ≡ true
      → i < s.spawned
      → Destroyed (s.tasks i)
      → Steps s t
      → Destroyed (t.tasks i)
  is_destroyed-Destroyed i destroyed lt h steps =
      (Steps-Held (λ m. m.destroyed) Destroyed (λ i m m' p p' mv. (move-flags mv).1) (λ i m h. h)
        (λ i m m' p p' mv d. move-Destroyed mv d) i steps (lt, destroyed, h)).2
