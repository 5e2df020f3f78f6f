-- ===== src/Agent/Request/Cancel.antt =====
-- packages/core/src/agent.rs, `execute_request`: a cancelled request ends.
use node_reqwest.Prelude.{
  ℕ, ◌+◌, ◌≡◌, refl, ap, ◌∙◌, ◌⊎◌, inl, inr, All, true, Option, List, [], ◌∷◌, ◌++◌, arith,
}
use node_reqwest.Agent.Request.{
  HttpApi, Event, on_start, on_data, on_end, on_error, waiting, reading, finished, Exchange,
  Signals, Io, cancel_reason, poll, run,
}

-- The callbacks that hand over data or a complete body.
abbrev pub payload_calls : List Event → ℕ
payload_calls [] = 0
payload_calls (on_data _ ∷ es) = 1 + payload_calls es
payload_calls (on_end _ ∷ es) = 1 + payload_calls es
payload_calls (_ ∷ es) = payload_calls es

pub payload_calls-append :
    (es fs : List Event) → payload_calls (es ++ fs) ≡ payload_calls es + payload_calls fs
payload_calls-append [] fs = omega arith
payload_calls-append (on_data _ ∷ es) fs = omega (arith, payload_calls-append es fs)
payload_calls-append (on_end _ ∷ es) fs = omega (arith, payload_calls-append es fs)
payload_calls-append (on_start _ ∷ es) fs = payload_calls-append es fs
payload_calls-append (on_error _ ∷ es) fs = payload_calls-append es fs

module _ (http : HttpApi) (cap : Option ℕ) where
  -- A request that has returned makes no callback.
  pub run-finished :
      (polls : List (Signals × Io)) (x : Exchange)
      → x.phase ≡ finished
      → run http cap polls x ≡ (x, [])
  unfolding run poll
  run-finished [] x h = refl
  run-finished ((s, io) ∷ polls) x h = ground (arith, run-finished polls x h)

  pub poll-cancelled :
      (s : Signals) (io : Io) (x : Exchange)
      → s.cancelled ≡ true
      → (x.phase ≡ waiting) ⊎ (x.phase ≡ reading)
      → poll http cap s io x
        ≡ (record x { phase = finished }, on_error (cancel_reason s.destroy_error) ∷ [])
  unfolding poll
  poll-cancelled s io x c h = ground arith

  -- A request in its body phase ends at the first poll that finds it cancelled, paused or not and
  -- whatever the stream has: the handler gets the cancel reason and nothing more.
  pub run-cancelled :
      (s : Signals) (io : Io) (polls : List (Signals × Io)) (x : Exchange)
      → s.cancelled ≡ true
      → (x.phase ≡ waiting) ⊎ (x.phase ≡ reading)
      → run http cap ((s, io) ∷ polls) x
        ≡ (record x { phase = finished }, on_error (cancel_reason s.destroy_error) ∷ [])
  unfolding run
  run-cancelled s io polls x c h =
      rw (poll-cancelled s io x c h, run-finished polls (record x { phase = finished }) refl)

  poll-awake :
      (s : Signals) (io : Io) (x : Exchange)
      → s.cancelled ≡ true
      → ((poll http cap s io x).0.phase ≡ finished) ⊎ ((poll http cap s io x).0.phase ≡ waiting)
  unfolding poll
  poll-awake s io x c = ground arith

  run-cons :
      (s : Signals) (io : Io) (polls : List (Signals × Io)) (x : Exchange)
      → (run http cap ((s, io) ∷ polls) x).0 ≡ (run http cap polls (poll http cap s io x).0).0
  unfolding run
  run-cons s io polls x = refl

  -- From any phase two polls that find the request cancelled are enough for it to return.
  pub run-cancelled_twice :
      (s t : Signals) (io jo : Io) (polls : List (Signals × Io)) (x : Exchange)
      → s.cancelled ≡ true
      → t.cancelled ≡ true
      → (run http cap ((s, io) ∷ (t, jo) ∷ polls) x).0.phase ≡ finished
  run-cancelled_twice s t io jo polls x c d =
      ap (λ z. z.phase) (run-cons s io ((t, jo) ∷ polls) x) ∙ elim (poll-awake s io x c) [
        | inl e ↦
            ap (λ r. r.0.phase) (run-finished ((t, jo) ∷ polls) (poll http cap s io x).0 e) ∙ e
        | inr e ↦ ap (λ r. r.0.phase) (run-cancelled t jo polls (poll http cap s io x).0 d (inl e))
      ]

  pub payload_calls-poll :
      (s : Signals) (io : Io) (x : Exchange)
      → s.cancelled ≡ true
      → payload_calls (poll http cap s io x).1 ≡ 0
  unfolding poll
  payload_calls-poll s io x c = ground arith

  -- While the request is cancelled no data and no end reaches the handler, from any phase.
  pub payload_calls-run :
      (polls : List (Signals × Io)) (x : Exchange)
      → All (λ p. p.0.cancelled ≡ true) polls
      → payload_calls (run http cap polls x).1 ≡ 0
  unfolding run
  payload_calls-run [] x h = refl
  payload_calls-run ((s, io) ∷ polls) x h =
      let (y, events) = poll http cap s io x in
      omega (
        arith,
        payload_calls-append events (run http cap polls y).1,
        payload_calls-poll s io x h.0,
        payload_calls-run polls y h.1,
      )
