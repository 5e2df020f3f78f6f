-- ===== src/Agent/Request/Flight/Laws.antt =====
-- packages/core/src/agent.rs, `execute_request`: abort, pause and destroy of a request in flight.
use node_reqwest.Prelude.{
  ℕ, ◌≤◌, ◌≡◌, ◌≢◌, ◌⊎◌, refl, ap, ◌∙◌, All, true, Option, List, [], ◌∷◌, ◌++◌, arith,
}
use node_reqwest.Runtime.{Watch, Cancellation}
use node_reqwest.Error.{CoreError}
use node_reqwest.Dispatcher.Controller.{aborts, pauses, resumes, is_cancelled, is_paused, call}
use node_reqwest.Agent.Request.{HttpApi, on_error, waiting, reading, Signals, Io, poll, run}
use node_reqwest.Agent.Request.Cancel.{payload_calls, payload_calls-run, run-cancelled}
use node_reqwest.Agent.Request.Backpressure.{data_calls, data_calls-run, in_flight}
use node_reqwest.Agent.Request.Flight.{
  Action, by_caller, store_error, cancel_token, wake, Flight, signals, act, fly,
}

module _ (watch : Watch) (cancellation : Cancellation) (http : HttpApi) (cap : Option ℕ) where
  abbrev Craft : Type 0
  Craft = Flight watch cancellation http cap

  abbrev after : Action → Craft → Craft
  after a f = (act watch cancellation http cap a f).0

  -- The polls among the actions, each with the signals at its time.
  polls : List Action → Craft → List (Signals × Io)
  polls [] f = []
  polls (wake io ∷ actions) f =
      (signals watch cancellation http cap f, io) ∷ polls actions (after (wake io) f)
  polls (by_caller k ∷ actions) f = polls actions (after (by_caller k) f)
  polls (store_error e ∷ actions) f = polls actions (after (store_error e) f)
  polls (cancel_token ∷ actions) f = polls actions (after cancel_token f)

  -- A flight is a run of its request.
  fly-run :
      (actions : List Action) (f : Craft)
      → (fly watch cancellation http cap actions f).1
        ≡ (run http cap (polls actions f) f.exchange).1
  unfolding fly run polls act
  fly-run [] f = refl
  fly-run (wake io ∷ actions) f =
      ap (◌++◌ (poll http cap (signals watch cancellation http cap f) io f.exchange).1)
        (fly-run actions (after (wake io) f))
  fly-run (by_caller k ∷ actions) f = fly-run actions (after (by_caller k) f)
  fly-run (store_error e ∷ actions) f = fly-run actions (after (store_error e) f)
  fly-run (cancel_token ∷ actions) f = fly-run actions (after cancel_token f)

  abbrev IsCancelled : Craft → Type 0
  IsCancelled f = is_cancelled watch cancellation f.controller ≡ true

  abbrev IsPaused : Craft → Type 0
  IsPaused f = is_paused watch cancellation f.controller ≡ true

  after-IsCancelled : (a : Action) (f : Craft) → IsCancelled f → IsCancelled (after a f)
  unfolding act call is_cancelled
  after-IsCancelled (by_caller aborts) f h = cancellation.is_cancelled-cancel f.controller.token
  after-IsCancelled (by_caller pauses) f h = h
  after-IsCancelled (by_caller resumes) f h = h
  after-IsCancelled (store_error e) f h = h
  after-IsCancelled cancel_token f h = cancellation.is_cancelled-cancel f.controller.token
  after-IsCancelled (wake io) f h = h

  abort-IsCancelled : (f : Craft) → IsCancelled (after (by_caller aborts) f)
  unfolding act call is_cancelled
  abort-IsCancelled f = cancellation.is_cancelled-cancel f.controller.token

  polls-cancelled :
      (actions : List Action) (f : Craft)
      → IsCancelled f
      → All (λ p. p.0.cancelled ≡ true) (polls actions f)
  unfolding polls signals
  polls-cancelled [] f h = tt
  polls-cancelled (wake io ∷ actions) f h =
      (h, polls-cancelled actions _ (after-IsCancelled (wake io) f h))
  polls-cancelled (by_caller k ∷ actions) f h =
      polls-cancelled actions _ (after-IsCancelled (by_caller k) f h)
  polls-cancelled (store_error e ∷ actions) f h =
      polls-cancelled actions _ (after-IsCancelled (store_error e) f h)
  polls-cancelled (cancel_token ∷ actions) f h =
      polls-cancelled actions _ (after-IsCancelled cancel_token f h)

  -- After an `abort` the handler is given no data and no end any more, whatever the caller, the
  -- agent and the network do next.
  pub fly-aborted :
      (actions : List Action) (f : Craft)
      → payload_calls (fly watch cancellation http cap (by_caller aborts ∷ actions) f).1 ≡ 0
  unfolding fly
  fly-aborted actions f =
      ap payload_calls (fly-run actions (after (by_caller aborts) f))
      ∙ payload_calls-run http cap (polls actions (after (by_caller aborts) f)) f.exchange
          (polls-cancelled actions _ (abort-IsCancelled f))

  -- No call of `resume`.
  abbrev pub KeepsPause : Action → Type 0
  KeepsPause a = a ≢ by_caller resumes

  after-IsPaused : (a : Action) (f : Craft) → KeepsPause a → IsPaused f → IsPaused (after a f)
  unfolding act call is_paused
  after-IsPaused (by_caller aborts) f k h = h
  after-IsPaused (by_caller pauses) f k h = watch.borrow-send true f.controller.pause_state.signal
  after-IsPaused (by_caller resumes) f k h = absurd (k refl)
  after-IsPaused (store_error e) f k h = h
  after-IsPaused cancel_token f k h = h
  after-IsPaused (wake io) f k h = h

  pause-IsPaused : (f : Craft) → IsPaused (after (by_caller pauses) f)
  unfolding act call is_paused
  pause-IsPaused f = watch.borrow-send true f.controller.pause_state.signal

  signals-paused : (f : Craft) → IsPaused f → (signals watch cancellation http cap f).paused ≡ true
  unfolding signals is_paused
  signals-paused f h = rw h

  polls-paused :
      (actions : List Action) (f : Craft)
      → All KeepsPause actions
      → IsPaused f
      → All (λ p. p.0.paused ≡ true) (polls actions f)
  unfolding polls signals
  polls-paused [] f k h = tt
  polls-paused (wake io ∷ actions) f k h =
      (signals-paused f h, polls-paused actions _ k.1 (after-IsPaused (wake io) f k.0 h))
  polls-paused (by_caller c ∷ actions) f k h =
      polls-paused actions _ k.1 (after-IsPaused (by_caller c) f k.0 h)
  polls-paused (store_error e ∷ actions) f k h =
      polls-paused actions _ k.1 (after-IsPaused (store_error e) f k.0 h)
  polls-paused (cancel_token ∷ actions) f k h =
      polls-paused actions _ k.1 (after-IsPaused cancel_token f k.0 h)

  -- After a `pause`, and until a `resume`, the handler gets at most the one chunk that the request
  -- was already reading, and none if it was not reading.
  pub fly-paused :
      (actions : List Action) (f : Craft)
      → All KeepsPause actions
      → data_calls (fly watch cancellation http cap (by_caller pauses ∷ actions) f).1
        ≤ in_flight f.exchange.phase
  unfolding fly
  fly-paused actions f k =
      let g = after (by_caller pauses) f in
      omega (
        arith,
        ap data_calls (fly-run actions g),
        data_calls-run http cap (polls actions g) f.exchange
            (polls-paused actions g k (pause-IsPaused f)),
      )

  -- `destroy` ends a request in its body phase with the error that `destroy` was given.
  pub fly-destroyed :
      (e : CoreError) (io : Io) (actions : List Action) (f : Craft)
      → (f.exchange.phase ≡ waiting) ⊎ (f.exchange.phase ≡ reading)
      → (fly watch cancellation http cap (store_error e ∷ cancel_token ∷ wake io ∷ actions) f).1
        ≡ on_error e ∷ []
  unfolding polls signals act
  fly-destroyed e io actions f h =
      let g = after cancel_token (after (store_error e) f) in
      fly-run (store_error e ∷ cancel_token ∷ wake io ∷ actions) f
      ∙ ap (λ r. r.1)
          (run-cancelled http cap (signals watch cancellation http cap g) io
            (polls actions (after (wake io) g)) f.exchange (abort-IsCancelled f) h)
