-- ===== src/Agent/World/Pauses.antt =====
-- packages/core/src/agent.rs and dispatcher.rs: a request that its caller has paused.
use node_reqwest.Prelude.{
  ℕ, ◌+◌, ◌≤◌, ◌≡◌, ◌≢◌, refl, ap, ◌∙◌, true, not, Option, ◌++◌, arith, subst,
}
use node_reqwest.Prelude.Family.{put-here, put-there, put_one}
use native.Mathlib.Decide.{ℕ_discrete}
use node_reqwest.Runtime.{Watch, Cancellation, Notify}
use node_reqwest.Dispatcher.Pause
use node_reqwest.Dispatcher.Controller.{Call, aborts, pauses, resumes}
use node_reqwest.Agent.Request.{HttpApi, Io, poll}
use node_reqwest.Agent.Request.Backpressure.{
  data_calls, data_calls-append, data_calls-poll, in_flight,
}
use node_reqwest.Agent.Request.Flight.{signals}
use node_reqwest.Agent.World.{World, Turn, Turns, flight, polled, called, rest, on}

module _ (watch : Watch) (cancellation : Cancellation) (notify : Notify) (http : HttpApi)
    (cap : Option ℕ) where
  abbrev Whole : Type 0
  Whole = World watch cancellation notify http cap

  -- No turn is a call of `resume` on the controller of request `i`.
  abbrev pub KeepsPause :
      (i : ℕ) {w v : Whole} → Turn watch cancellation notify http cap w v → Type 0
  KeepsPause i (Turn.by_caller c k handed) = c ≡ resumes → k ≢ i
  KeepsPause i _ = Unit

  abbrev pub KeepPause :
      (i : ℕ) {w v : Whole} → Turns watch cancellation notify http cap w v → Type 0
  KeepPause i rest = Unit
  KeepPause i (on before turn) = KeepPause i before × KeepsPause i turn

  abbrev IsPaused : ℕ → Whole → Type 0
  IsPaused i w = Pause.is_paused watch (w.pause_states i) ≡ true

  -- The chunks that request `i` has delivered, and the one that it may be reading.
  abbrev pub chunks : ℕ → Whole → ℕ
  chunks i w = data_calls (w.log i) + in_flight (w.exchanges i).phase

  polled_here-chunks :
      (k : ℕ) (io : Io) (w : Whole)
      → IsPaused k w
      → chunks k (polled watch cancellation notify http cap k io w) ≤ chunks k w
  unfolding polled signals flight Pause.is_paused Pause.wait_if_paused
  polled_here-chunks k io w h =
      let s = signals watch cancellation http cap (flight watch cancellation notify http cap k w) in
      let (x, events) = poll http cap s io (w.exchanges k) in
      omega (
        arith,
        ap data_calls (put-here k (w.log k ++ events) w.log),
        ap (λ y. in_flight y.phase) (put-here k x w.exchanges),
        data_calls-append (w.log k) events,
        data_calls-poll http cap s io (w.exchanges k) (ap (λ b. not (not b)) h),
      )

  polled-chunks :
      (k : ℕ) (io : Io) (w : Whole) (i : ℕ)
      → IsPaused i w
      → chunks i (polled watch cancellation notify http cap k io w) ≤ chunks i w
  unfolding polled signals flight Pause.is_paused Pause.wait_if_paused
  polled-chunks k io w i h = elim (ℕ_discrete k i) [
    | yes same ↦
        subst
          (λ j.
            IsPaused j w → chunks j (polled watch cancellation notify http cap k io w) ≤ chunks j w)
          same (polled_here-chunks k io w) h
    | no other ↦
        let s =
          signals watch cancellation http cap (flight watch cancellation notify http cap k w) in
        let (x, events) = poll http cap s io (w.exchanges k) in
        omega (
          arith,
          ap data_calls (put-there k i (w.log k ++ events) w.log other),
          ap (λ y. in_flight y.phase) (put-there k i x w.exchanges other),
        )
  ]

  called-IsPaused :
      (c : Call) (k : ℕ) (w : Whole) (i : ℕ)
      → (c ≡ resumes → k ≢ i)
      → IsPaused i w
      → IsPaused i (called watch cancellation notify http cap c k w)
  unfolding called Pause.is_paused Pause.pause Pause.resume
  called-IsPaused aborts k w i keep h = h
  called-IsPaused pauses k w i keep h =
      put_one (λ p. Pause.is_paused watch p ≡ true) k i (Pause.pause watch (w.pause_states k))
        w.pause_states (λ same. watch.borrow-send true (w.pause_states k).signal) (λ other. h)
  called-IsPaused resumes k w i keep h =
      put_one (λ p. Pause.is_paused watch p ≡ true) k i (Pause.resume watch (w.pause_states k))
        w.pause_states (λ same. absurd (keep refl same)) (λ other. h)

  called-chunks :
      (c : Call) (k : ℕ) (w : Whole) (i : ℕ)
      → chunks i (called watch cancellation notify http cap c k w) ≡ chunks i w
  unfolding called
  called-chunks aborts k w i = refl
  called-chunks pauses k w i = refl
  called-chunks resumes k w i = refl

  -- Request `i` is paused and has no more than `n` chunks to deliver in all.
  record Held (i n : ℕ) (w : Whole) : Type 0 where
    paused : IsPaused i w
    few : chunks i w ≤ n

  turn-Held :
      {w v : Whole} (i n : ℕ) (turn : Turn watch cancellation notify http cap w v)
      → KeepsPause i turn
      → Held i n w
      → Held i n v
  unfolding polled
  turn-Held i n (Turn.enter en room) keep h = record { paused = h.paused; few = h.few }
  turn-Held i n (Turn.access k lt other mv) keep h = record { paused = h.paused; few = h.few }
  turn-Held {w} i n (Turn.wake k id io e) keep h = record {
    paused = h.paused;
    few = omega (arith, polled-chunks k io w i h.paused, h.few);
  }
  turn-Held i n (Turn.complete k id lt e done) keep h = record { paused = h.paused; few = h.few }
  turn-Held i n (Turn.abandon k id lt e) keep h = record { paused = h.paused; few = h.few }
  turn-Held {w} i n (Turn.by_caller c k handed) keep h = record {
    paused = called-IsPaused c k w i keep h.paused;
    few = omega (arith, called-chunks c k w i, h.few);
  }

  Turns-Held :
      {w v : Whole} (i n : ℕ) (turns : Turns watch cancellation notify http cap w v)
      → KeepPause i turns
      → Held i n w
      → Held i n v
  Turns-Held i n rest keep h = h
  Turns-Held i n (on before turn) (kept, keep) h =
      turn-Held i n turn keep (Turns-Held i n before kept h)

  -- Once a caller has paused a request, and until it resumes it, the handler gets at most the one
  -- chunk for it that the request was reading, and none if it was not reading, whatever the network,
  -- the other requests and the calls of the agent and of all callers do from then on.
  pub paused-data_le :
      {v : Whole} (i : ℕ) (w : Whole)
      (turns : Turns watch cancellation notify http cap
        (called watch cancellation notify http cap pauses i w)
        v)
      → KeepPause i turns
      → data_calls (v.log i) ≤ data_calls (w.log i) + in_flight (w.exchanges i).phase
  unfolding called Pause.is_paused Pause.pause
  paused-data_le i w turns keep =
      let held = Turns-Held i (chunks i w) turns keep (record {
        paused =
            ap (Pause.is_paused watch)
              (put-here i (Pause.pause watch (w.pause_states i)) w.pause_states)
            ∙ watch.borrow-send true (w.pause_states i).signal;
        few = omega (arith, called-chunks pauses i w i);
      }) in
      omega (arith, held.few)
