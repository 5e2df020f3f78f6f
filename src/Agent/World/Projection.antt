-- ===== src/Agent/World/Projection.antt =====
-- packages/core/src/agent.rs: what the agent and its requests do together is, for the agent's state,
-- a run of its tasks.
use node_reqwest.Prelude.{ℕ, ◌<◌, ◌≡◌, sym, subst, Option}
use node_reqwest.Prelude.Family.{put}
use node_reqwest.Runtime.{Watch, Cancellation, Notify}
use node_reqwest.Dispatcher.Controller.{Call, aborts, pauses, resumes}
use node_reqwest.Agent.Request.{HttpApi}
use node_reqwest.Agent.Lifecycle.{Shared, Task, Move, System, Step, Reach, IsHandedOut}
use node_reqwest.Agent.Lifecycle.Refusal.{Steps, stay, go}
use node_reqwest.Agent.Lifecycle.Waits.{Reach-Steps}
use node_reqwest.Agent.World.{World, Turn, Turns, begun, polled, called, rest, on}

module _ (watch : Watch) (cancellation : Cancellation) (notify : Notify) (http : HttpApi)
    (cap : Option ℕ) where
  abbrev Whole : Type 0
  Whole = World watch cancellation notify http cap

  abbrev Agent : Type 0
  Agent = System cancellation notify

  step_at :
      (s : Agent) (i : ℕ) {m : Shared cancellation notify} {p p' : Task cancellation notify}
      → i < s.spawned
      → s.tasks i ≡ p
      → Move cancellation notify i s.shared p m p'
      → Step cancellation notify s (record s { shared = m; tasks = put i p' s.tasks })
  step_at s i {m} {p' = p'} lt e mv =
      Step.run i lt (subst (λ q. Move cancellation notify i s.shared q m p') (sym e) mv)

  called-Steps :
      (k : Call) (i : ℕ) (w : Whole)
      → IsHandedOut cancellation notify (w.agent.tasks i)
      → Steps cancellation notify w.agent (called watch cancellation notify http cap k i w).agent
  unfolding called
  called-Steps aborts i w handed = Steps.go Steps.stay (Step.abort i handed)
  called-Steps pauses i w handed = Steps.stay
  called-Steps resumes i w handed = Steps.stay

  turn-Steps :
      {w v : Whole}
      → Turn watch cancellation notify http cap w v
      → Steps cancellation notify w.agent v.agent
  unfolding polled
  turn-Steps (Turn.enter en room) = Steps.go Steps.stay (Step.enter en room)
  turn-Steps (Turn.access i lt other mv) = Steps.go Steps.stay (Step.run i lt mv)
  turn-Steps (Turn.wake i id io e) = Steps.stay
  turn-Steps {w} (Turn.complete i id lt e done) =
      Steps.go Steps.stay (step_at w.agent i lt e Move.drop_future)
  turn-Steps {w} (Turn.abandon i id lt e) =
      Steps.go Steps.stay (step_at w.agent i lt e Move.drop_future)
  turn-Steps {w} (Turn.by_caller k i handed) = called-Steps k i w handed

  then :
      {s t u : Agent}
      → Steps cancellation notify s t
      → Steps cancellation notify t u
      → Steps cancellation notify s u
  then before stay = before
  then before (go more st) = Steps.go (then before more) st

  pub Turns-Steps :
      {w v : Whole}
      → Turns watch cancellation notify http cap w v
      → Steps cancellation notify w.agent v.agent
  Turns-Steps rest = Steps.stay
  Turns-Steps (on before turn) = then (Turns-Steps before) (turn-Steps turn)

  -- A world that some turns lead to.
  abbrev pub Lives : Whole → Type 0
  Lives = Turns watch cancellation notify http cap (begun watch cancellation notify http cap)

  pub Lives-Reach : {w : Whole} → Lives w → Reach cancellation notify w.agent
  unfolding begun
  Lives-Reach live = Reach-Steps cancellation notify Reach.start (Turns-Steps live)

  unfoldable pub Turns-Turns :
      {w v u : Whole}
      → Turns watch cancellation notify http cap w v
      → Turns watch cancellation notify http cap v u
      → Turns watch cancellation notify http cap w u
  Turns-Turns before rest = before
  Turns-Turns before (on more turn) = Turns.on (Turns-Turns before more) turn
