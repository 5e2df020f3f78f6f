-- ===== src/Agent/World/Aborts.antt =====
-- packages/core/src/agent.rs and dispatcher.rs: a request that its caller has aborted.
use node_reqwest.Prelude.{ℕ, ◌<◌, ◌≡◌, refl, sym, ap, subst, ◌∙◌, true, Option, ◌++◌, arith}
use node_reqwest.Prelude.Family.{put, put-here, put-there, put_one}
use node_reqwest.Runtime.{Watch, Cancellation, Notify}
use node_reqwest.Dispatcher.Controller.{Call, aborts, pauses, resumes, is_cancelled}
use node_reqwest.Agent.Request.{HttpApi, Io, poll}
use node_reqwest.Agent.Request.Cancel.{payload_calls, payload_calls-append, payload_calls-poll}
use node_reqwest.Agent.Request.Flight.{signals}
use node_reqwest.Agent.Lifecycle.{Shared, Task, Move, IsHandedOut}
use node_reqwest.Agent.World.{World, Turn, Turns, flight, polled, called, rest, on}
use node_reqwest.Agent.World.Ends.{move-IsHandedOut}

module _ (watch : Watch) (cancellation : Cancellation) (notify : Notify) (http : HttpApi)
    (cap : Option ℕ) where
  abbrev Whole : Type 0
  Whole = World watch cancellation notify http cap

  abbrev Cells : Type 0
  Cells = ℕ → cancellation.Token

  abbrev IsCancelled : ℕ → Cells → Type 0
  IsCancelled i cells = cancellation.is_cancelled (cells i) ≡ true

  -- A token stays cancelled, but for a dispatch that makes its controller.
  move-IsCancelled :
      {k : ℕ} {m m' : Shared cancellation notify} {p p' : Task cancellation notify} (i : ℕ)
      → Move cancellation notify k m p m' p'
      → (k ≡ i → IsHandedOut cancellation notify p)
      → IsCancelled i m.cells
      → IsCancelled i m'.cells
  move-IsCancelled {k} {m} i Move.make handed c =
      put_one (λ t. cancellation.is_cancelled t ≡ true) k i cancellation.new m.cells
        (λ same. absurd (handed same)) (λ other. c)
  move-IsCancelled {m} i (Move.cancel {t}) handed c =
      put_one (λ t. cancellation.is_cancelled t ≡ true) t i (cancellation.cancel (m.cells t))
        m.cells (λ same. cancellation.is_cancelled-cancel (m.cells t)) (λ other. c)
  move-IsCancelled i mv handed c = c

  -- Request `i` is handed out and cancelled, and has made `n` callbacks with data or an end.
  record Silenced (i n : ℕ) (w : Whole) : Type 0 where
    below : i < w.agent.spawned
    handed : IsHandedOut cancellation notify (w.agent.tasks i)
    cancelled : IsCancelled i w.agent.cells
    count : payload_calls (w.log i) ≡ n

  polled-count :
      (k : ℕ) (io : Io) (w : Whole) (i n : ℕ)
      → Silenced i n w
      → payload_calls ((polled watch cancellation notify http cap k io w).log i) ≡ n
  unfolding polled signals flight is_cancelled
  polled-count k io w i n h =
      let s = signals watch cancellation http cap (flight watch cancellation notify http cap k w) in
      let events = (poll http cap s io (w.exchanges k)).1 in
      put_one (λ es. payload_calls es ≡ n) k i (w.log k ++ events) w.log
        (λ same. omega (
          arith,
          payload_calls-append (w.log k) events,
          payload_calls-poll http cap s io (w.exchanges k)
              (ap (λ j. cancellation.is_cancelled (w.agent.cells j)) same ∙ h.cancelled),
          ap (λ j. payload_calls (w.log j)) same,
          h.count,
        ))
        (λ other. h.count)

  handed_at :
      (w : Whole) (k i : ℕ) (p' : Task cancellation notify)
      → (IsHandedOut cancellation notify (w.agent.tasks k) → IsHandedOut cancellation notify p')
      → IsHandedOut cancellation notify (w.agent.tasks i)
      → IsHandedOut cancellation notify (put k p' w.agent.tasks i)
  handed_at w k i p' keep h =
      put_one (IsHandedOut cancellation notify) k i p' w.agent.tasks
        (λ same. keep (subst (λ j. IsHandedOut cancellation notify (w.agent.tasks j)) (sym same) h))
        (λ other. h)

  called-cancelled :
      (c : Call) (k : ℕ) (w : Whole) (i : ℕ)
      → IsCancelled i w.agent.cells
      → IsCancelled i (called watch cancellation notify http cap c k w).agent.cells
  unfolding called
  called-cancelled aborts k w i h =
      put_one (λ t. cancellation.is_cancelled t ≡ true) k i (cancellation.cancel (w.agent.cells k))
        w.agent.cells (λ same. cancellation.is_cancelled-cancel (w.agent.cells k)) (λ other. h)
  called-cancelled pauses k w i h = h
  called-cancelled resumes k w i h = h

  called-rest :
      (c : Call) (k : ℕ) (w : Whole)
      → let v = called watch cancellation notify http cap c k w in
        (v.agent.spawned ≡ w.agent.spawned) × (v.agent.tasks ≡ w.agent.tasks) × (v.log ≡ w.log)
  unfolding called
  called-rest aborts k w = (refl, refl, refl)
  called-rest pauses k w = (refl, refl, refl)
  called-rest resumes k w = (refl, refl, refl)

  turn-Silenced :
      {w v : Whole} (i n : ℕ)
      → Turn watch cancellation notify http cap w v
      → Silenced i n w
      → Silenced i n v
  unfolding polled
  turn-Silenced {w} i n (Turn.enter {t} en room) h = record {
    below = omega (arith, h.below);
    handed =
        subst (IsHandedOut cancellation notify)
          (sym (put-there w.agent.spawned i t w.agent.tasks (omega (arith, h.below)))) h.handed;
    cancelled = h.cancelled;
    count = h.count;
  }
  turn-Silenced {w} i n (Turn.access k {m} {t} lt other mv) h = record {
    below = h.below;
    handed = handed_at w k i t (move-IsHandedOut watch cancellation notify http cap mv) h.handed;
    cancelled =
        move-IsCancelled i mv
          (λ same.
            subst (λ j. IsHandedOut cancellation notify (w.agent.tasks j)) (sym same) h.handed)
          h.cancelled;
    count = h.count;
  }
  turn-Silenced {w} i n (Turn.wake k id io e) h = record {
    below = h.below;
    handed = h.handed;
    cancelled = h.cancelled;
    count = polled-count k io w i n h;
  }
  turn-Silenced {w} i n (Turn.complete k id lt e done) h = record {
    below = h.below;
    handed = handed_at w k i (Task.remove_token id) (λ _. tt) h.handed;
    cancelled = h.cancelled;
    count = h.count;
  }
  turn-Silenced {w} i n (Turn.abandon k id lt e) h = record {
    below = h.below;
    handed = handed_at w k i (Task.remove_token id) (λ _. tt) h.handed;
    cancelled = h.cancelled;
    count = h.count;
  }
  turn-Silenced {w} i n (Turn.by_caller c k handed) h =
      let (room, tasks, log) = called-rest c k w in
      record {
        below = omega (arith, h.below, room);
        handed = subst (λ f. IsHandedOut cancellation notify (f i)) (sym tasks) h.handed;
        cancelled = called-cancelled c k w i h.cancelled;
        count = ap (λ f. payload_calls (f i)) log ∙ h.count;
      }

  Turns-Silenced :
      {w v : Whole} (i n : ℕ)
      → Turns watch cancellation notify http cap w v
      → Silenced i n w
      → Silenced i n v
  Turns-Silenced i n rest h = h
  Turns-Silenced i n (on before turn) h = turn-Silenced i n turn (Turns-Silenced i n before h)

  -- Once a caller has aborted a request that it was handed, the handler gets no more data and no end
  -- for it, whatever the network, the other requests and the calls of the agent and of all callers do
  -- from then on.
  pub aborted-silent :
      {v : Whole} (i : ℕ) (w : Whole)
      → i < w.agent.spawned
      → IsHandedOut cancellation notify (w.agent.tasks i)
      → Turns watch cancellation notify http cap
          (called watch cancellation notify http cap aborts i w)
          v
      → payload_calls (v.log i) ≡ payload_calls (w.log i)
  unfolding called
  aborted-silent i w below handed turns =
      (Turns-Silenced i (payload_calls (w.log i)) turns (record {
        below = below;
        handed = handed;
        cancelled =
            ap cancellation.is_cancelled
              (put-here i (cancellation.cancel (w.agent.cells i)) w.agent.cells)
            ∙ cancellation.is_cancelled-cancel (w.agent.cells i);
        count = refl;
      })).count
