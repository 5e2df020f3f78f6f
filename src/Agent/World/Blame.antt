-- ===== src/Agent/World/Blame.antt =====
-- packages/core/src/agent.rs, `cancel_reason`: what a cancelled request is told.
use node_reqwest.Prelude.{
  ℕ, ◌≡◌, ◌⊎◌, inl, inr, refl, ap, ◌∙◌, true, false, Option, some, [], ◌∷◌, ◌++◌,
}
use node_reqwest.Prelude.Family.{put_two, put-here}
use node_reqwest.Runtime.{Watch, Cancellation, Notify}
use node_reqwest.Error.{CoreError}
use node_reqwest.Dispatcher.Controller.{aborts, pauses, resumes, is_cancelled}
use node_reqwest.Agent.Request.{HttpApi, on_error, Io, waiting, reading, cancel_reason}
use node_reqwest.Agent.Request.Flight.{signals}
use node_reqwest.Agent.Request.Cancel.{poll-cancelled}
use node_reqwest.Agent.Lifecycle.{fresh, new_state}
use node_reqwest.Agent.Lifecycle.Cause.{
  IsStored, stored-error, move-IsStored, move-cancels, Reach-Behind,
}
use node_reqwest.Agent.World.{World, Turn, begun, flight, polled, called, rest, on}
use node_reqwest.Agent.World.Projection.{Lives, Lives-Reach}

module _ (watch : Watch) (cancellation : Cancellation) (notify : Notify) (http : HttpApi)
    (cap : Option ℕ) where
  abbrev Whole : Type 0
  Whole = World watch cancellation notify http cap

  abbrev pub IsCancelled : ℕ → Whole → Type 0
  IsCancelled i w = cancellation.is_cancelled (w.agent.cells i) ≡ true

  -- A request is cancelled by its own caller, or by a `destroy` that has stored its error.
  cancelled-asked :
      {w : Whole} (i : ℕ)
      → Lives watch cancellation notify http cap w
      → IsCancelled i w
      → (w.abort_asked i ≡ true) ⊎ IsStored w.agent.destroy_error
  unfolding begun fresh new_state polled called
  cancelled-asked i rest c = cc (c, cancellation.is_cancelled-new)
  cancelled-asked i (on before (Turn.enter en room)) c = cancelled-asked i before c
  cancelled-asked i (on {v} before (Turn.access k lt other mv)) c =
      elim (move-cancels cancellation notify i mv
        (Reach-Behind cancellation notify k (Lives-Reach watch cancellation notify http cap before))
        c) [
          | inl already ↦ elim (cancelled-asked i before already) [
            | inl asked ↦ inl asked
            | inr stored ↦ inr (move-IsStored cancellation notify mv stored)
          ]
          | inr stored ↦ inr stored
        ]
  cancelled-asked i (on before (Turn.wake k id io e)) c = cancelled-asked i before c
  cancelled-asked i (on before (Turn.complete k id lt e done)) c = cancelled-asked i before c
  cancelled-asked i (on before (Turn.abandon k id lt e)) c = cancelled-asked i before c
  cancelled-asked i (on {v} before (Turn.by_caller aborts k handed)) c =
      put_two
        (λ t b. cancellation.is_cancelled t ≡ true → (b ≡ true) ⊎ IsStored v.agent.destroy_error) k
        i (cancellation.cancel (v.agent.cells k)) true v.agent.cells v.abort_asked
        (λ same c. inl refl) (λ other. cancelled-asked i before) c
  cancelled-asked i (on before (Turn.by_caller pauses k handed)) c = cancelled-asked i before c
  cancelled-asked i (on before (Turn.by_caller resumes k handed)) c = cancelled-asked i before c

  -- The next poll of a request in its body phase that was cancelled although its caller never asked
  -- for it tells the handler exactly the error that `destroy` has stored, and nothing else: never
  -- that the request was aborted for want of an error.
  pub polled-destroyed :
      {w : Whole} (i : ℕ) (io : Io)
      → Lives watch cancellation notify http cap w
      → IsCancelled i w
      → w.abort_asked i ≡ false
      → ((w.exchanges i).phase ≡ waiting) ⊎ ((w.exchanges i).phase ≡ reading)
      → (e : CoreError) × (w.agent.destroy_error ≡ some e)
        × ((polled watch cancellation notify http cap i io w).log i ≡ w.log i ++ on_error e ∷ [])
  unfolding polled signals flight is_cancelled
  polled-destroyed {w} i io live c unasked body = elim (cancelled-asked i live c) [
    | inl asked ↦ cc
    | inr stored ↦
        let (e, is) = stored-error w.agent.destroy_error stored in
        let s =
          signals watch cancellation http cap (flight watch cancellation notify http cap i w) in
        (
          e,
          is,
          put-here i _ w.log
              ∙ ap (λ r. w.log i ++ r.1) (poll-cancelled http cap s io (w.exchanges i) c body)
              ∙ ap (λ o. w.log i ++ on_error (cancel_reason o) ∷ []) is,
        )
  ]
