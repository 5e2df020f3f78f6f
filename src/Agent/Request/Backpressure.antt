-- ===== src/Agent/Request/Backpressure.antt =====
-- packages/core/src/agent.rs, `execute_request`: a paused request stops delivering.
use node_reqwest.Prelude.{ℕ, ◌+◌, ◌≤◌, ◌≡◌, All, true, Option, List, [], ◌∷◌, ◌++◌, arith}
use node_reqwest.Agent.Request.{
  HttpApi, Event, on_start, on_data, on_end, on_error, Phase, reading, Exchange, Signals, Io, poll,
  run,
}

abbrev pub data_calls : List Event → ℕ
data_calls [] = 0
data_calls (on_data _ ∷ es) = 1 + data_calls es
data_calls (_ ∷ es) = data_calls es

pub data_calls-append : (es fs : List Event) → data_calls (es ++ fs) ≡ data_calls es + data_calls fs
data_calls-append [] fs = omega arith
data_calls-append (on_data _ ∷ es) fs = omega (arith, data_calls-append es fs)
data_calls-append (on_start _ ∷ es) fs = data_calls-append es fs
data_calls-append (on_end _ ∷ es) fs = data_calls-append es fs
data_calls-append (on_error _ ∷ es) fs = data_calls-append es fs

-- A chunk that is being read when the pause comes is still delivered.
abbrev pub in_flight : Phase → ℕ
in_flight reading = 1
in_flight _ = 0

module _ (http : HttpApi) (cap : Option ℕ) where
  pub data_calls-poll :
      (s : Signals) (io : Io) (x : Exchange)
      → s.paused ≡ true
      → data_calls (poll http cap s io x).1 + in_flight (poll http cap s io x).0.phase
        ≤ in_flight x.phase
  unfolding poll
  data_calls-poll s io x h = ground arith

  -- As long as every poll finds the request paused, the handler gets one chunk if the request was
  -- reading one when it was paused, and none otherwise.
  pub data_calls-run :
      (polls : List (Signals × Io)) (x : Exchange)
      → All (λ p. p.0.paused ≡ true) polls
      → data_calls (run http cap polls x).1 ≤ in_flight x.phase
  unfolding run
  data_calls-run [] x h = omega arith
  data_calls-run ((s, io) ∷ polls) x h =
      let (y, events) = poll http cap s io x in
      omega (
        arith,
        data_calls-append events (run http cap polls y).1,
        data_calls-poll s io x h.0,
        data_calls-run polls y h.1,
      )
