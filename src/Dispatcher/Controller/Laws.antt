-- ===== src/Dispatcher/Controller/Laws.antt =====
-- packages/core/src/dispatcher.rs, `RequestController`: what a sequence of calls leaves behind.
use node_reqwest.Prelude.{Bool, true, false, not, ◌≡◌, refl, ◌∙◌, ap, List, [], ◌∷◌}
use node_reqwest.Runtime.{Watch, Cancellation}
use node_reqwest.Dispatcher.Pause
use node_reqwest.Dispatcher.Controller.{
  RequestController, Call, aborts, pauses, resumes, is_cancelled, is_paused, call, calls,
}

-- The state of the pause signal: that of the last call of `pause` or `resume`.
abbrev pub last_signal : Bool → List Call → Bool
last_signal b [] = b
last_signal b (aborts ∷ ks) = last_signal b ks
last_signal b (pauses ∷ ks) = last_signal true ks
last_signal b (resumes ∷ ks) = last_signal false ks

abbrev pub aborted : Bool → List Call → Bool
aborted b [] = b
aborted b (aborts ∷ ks) = aborted true ks
aborted b (pauses ∷ ks) = aborted b ks
aborted b (resumes ∷ ks) = aborted b ks

module _ (watch : Watch) (cancellation : Cancellation) where
  -- After any calls the request is paused just if the last `pause` or `resume` was a `pause`, and
  -- cancelled just if it was before or there was an `abort`; neither signal disturbs the other.
  pub calls-signals :
      (ks : List Call) (c : RequestController watch cancellation)
      → (is_paused watch cancellation (calls watch cancellation ks c)
          ≡ last_signal (is_paused watch cancellation c) ks)
        × (is_cancelled watch cancellation (calls watch cancellation ks c)
            ≡ aborted (is_cancelled watch cancellation c) ks)
  unfolding calls is_paused is_cancelled
  calls-signals [] c = (refl, refl)
  calls-signals (aborts ∷ ks) c =
      let (p, a) = calls-signals ks (call watch cancellation aborts c) in
      (p, a ∙ ap (λ b. aborted b ks) (cancellation.is_cancelled-cancel c.token))
  calls-signals (pauses ∷ ks) c =
      let (p, a) = calls-signals ks (call watch cancellation pauses c) in
      (p ∙ ap (λ b. last_signal b ks) (watch.borrow-send true c.pause_state.signal), a)
  calls-signals (resumes ∷ ks) c =
      let (p, a) = calls-signals ks (call watch cancellation resumes c) in
      (p ∙ ap (λ b. last_signal b ks) (watch.borrow-send false c.pause_state.signal), a)

  -- `wait_if_paused` completes just when the request is not paused.
  pub wait_if_paused-is_paused :
      (s : Pause.PauseState watch) → Pause.wait_if_paused watch s ≡ not (Pause.is_paused watch s)
  unfolding Pause.wait_if_paused Pause.is_paused
  wait_if_paused-is_paused s = refl
