-- ===== src/Agent/Request/Protocol.antt =====
-- packages/core/src/agent.rs, `execute_request`: the order of the callbacks.
use node_reqwest.Prelude.{ℕ, ◌≡◌, refl, Option, none, some, List, [], ◌∷◌, ◌++◌, arith}
use node_reqwest.Agent.Request.{
  HttpApi, Event, on_start, on_data, on_end, on_error, Phase, sending, waiting, reading, finished,
  Exchange, Signals, Io, poll, run,
}

-- The handler's side: it awaits the start, then data, and after an end or an error nothing.
pub data Stage : Type 0 where
  fresh streaming closed : Stage

abbrev pub next_stage : Stage → Event → Option Stage
next_stage fresh (on_start _) = some streaming
next_stage fresh (on_error _) = some closed
next_stage streaming (on_data _) = some streaming
next_stage streaming (on_end _) = some closed
next_stage streaming (on_error _) = some closed
next_stage _ _ = none

-- The stage after a sequence of callbacks; `none` if one of them comes out of order.
abbrev pub walk : Option Stage → List Event → Option Stage
walk s [] = s
walk none (e ∷ es) = none
walk (some s) (e ∷ es) = walk (next_stage s e) es

abbrev pub stage : Phase → Stage
stage sending = fresh
stage waiting = streaming
stage reading = streaming
stage finished = closed

pub walk-append : (s : Option Stage) (es fs : List Event) → walk s (es ++ fs) ≡ walk (walk s es) fs
walk-append s [] fs = refl
walk-append none (e ∷ es) [] = refl
walk-append none (e ∷ es) (f ∷ fs) = refl
walk-append (some s) (e ∷ es) fs = walk-append (next_stage s e) es fs

module _ (http : HttpApi) (cap : Option ℕ) where
  pub walk-poll :
      (s : Signals) (io : Io) (x : Exchange)
      → walk (some (stage x.phase)) (poll http cap s io x).1
        ≡ some (stage (poll http cap s io x).0.phase)
  unfolding poll
  walk-poll s io x = ground arith

  -- Whatever each poll finds, the callbacks of a request come in the order of the handler's
  -- contract: at most one start, data only behind it, one end or error at most, and nothing behind
  -- that; and the end or error has been delivered exactly when the request has returned.
  pub walk-run :
      (polls : List (Signals × Io)) (x : Exchange)
      → walk (some (stage x.phase)) (run http cap polls x).1
        ≡ some (stage (run http cap polls x).0.phase)
  unfolding run
  walk-run [] x = refl
  walk-run ((s, io) ∷ polls) x =
      rw (walk-append (some (stage x.phase)) (poll http cap s io x).1 _, walk-poll s io x)
        (walk-run polls (poll http cap s io x).0)
