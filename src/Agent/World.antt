-- ===== src/Agent/World.antt =====
-- packages/core/src/agent.rs and dispatcher.rs: the agent and the requests it runs, together. The
-- future of a dispatch owns its exchange and its guard; it shares the token and the pause state with
-- the controller that the caller holds, and `destroy_error` with the agent.
pub mod Projection
pub mod Log
pub mod Requests
pub mod Aborts
pub mod Pauses
pub mod Ends
pub mod Blame
pub mod Drains
pub mod Quiet
pub mod Returns
mod Examples
use node_reqwest.Prelude.{ℕ, suc, ◌+◌, ◌<◌, ◌≡◌, Bool, true, false, Option, List, [], ◌++◌}
use node_reqwest.Prelude.Family.{put}
use node_reqwest.Runtime.{Watch, Cancellation, Notify}
use node_reqwest.Dispatcher.Pause
use node_reqwest.Dispatcher.Controller.{Call, aborts, pauses, resumes}
use node_reqwest.Agent.Request.{HttpApi, Event, Exchange, Phase, Io, started, poll}
use node_reqwest.Agent.Request.Flight.{Flight, signals}
use node_reqwest.Agent.Lifecycle.{
  Shared, Task, Move, Entry, IsHandedOut, aborted, System, fresh, two_64,
}

module _ (watch : Watch) (cancellation : Cancellation) (notify : Notify) (http : HttpApi)
    (cap : Option ℕ) where
  -- What belongs to task `i` if it is a dispatch, and what has been seen of it so far: the callbacks
  -- made, whether its owner dropped the future early, and whether its caller asked for an abort.
  pub record World : Type 0 where
    pub agent : System cancellation notify
    pub exchanges : ℕ → Exchange
    pub pause_states : ℕ → Pause.PauseState watch
    pub log : ℕ → List Event
    pub dropped : ℕ → Bool
    pub abort_asked : ℕ → Bool

  unfoldable pub begun : World
  unfolding fresh started Pause.new
  begun = record {
    agent = fresh cancellation notify;
    exchanges = λ _. started;
    pause_states = λ _. Pause.new watch;
    log = λ _. [];
    dropped = λ _. false;
    abort_asked = λ _. false;
  }

  -- Request `i` as it finds the shared signals now.
  unfoldable pub flight : ℕ → World → Flight watch cancellation http cap
  flight i w = record {
    controller = record { token = w.agent.cells i; pause_state = w.pause_states i };
    destroy_error = w.agent.destroy_error;
    exchange = w.exchanges i;
  }

  -- A poll of the future of request `i`.
  unfoldable pub polled : ℕ → Io → World → World
  unfolding poll signals flight
  polled i io w =
      let (x, events) =
        poll http cap (signals watch cancellation http cap (flight i w)) io (w.exchanges i) in
      record w { exchanges = put i x w.exchanges; log = put i (w.log i ++ events) w.log }

  -- A call on the controller of request `i`.
  unfoldable pub called : Call → ℕ → World → World
  unfolding Pause.pause Pause.resume
  called aborts i w = record w {
    agent = record w.agent { shared = aborted cancellation notify i w.agent.shared };
    abort_asked = put i true w.abort_asked;
  }
  called pauses i w = record w {
    pause_states = put i (Pause.pause watch (w.pause_states i)) w.pause_states;
  }
  called resumes i w = record w {
    pause_states = put i (Pause.resume watch (w.pause_states i)) w.pause_states;
  }

  abbrev pub NotInFlight : Task cancellation notify → Type 0
  NotInFlight (Task.in_flight _) = ⊥
  NotInFlight _ = Unit

  abbrev pub entered :
      Task cancellation notify → System cancellation notify → System cancellation notify
  entered t s = record s { tasks = put s.spawned t s.tasks; spawned = suc s.spawned }

  abbrev pub moved :
      ℕ
      → Shared cancellation notify
      → Task cancellation notify
      → System cancellation notify
      → System cancellation notify
  moved i m t s = record s { shared = m; tasks = put i t s.tasks }

  -- A call into the agent, an access of a task that is not a request in flight, a poll of one that
  -- is, the drop of its future, which frees the guard, and a call on its controller. The future is
  -- dropped when it has completed, or by its owner at any time.
  pub data Turn (w : World) : World → Type 0 where
    enter :
        {t : Task cancellation notify}
        → Entry cancellation notify t
        → w.agent.spawned + 3 < two_64
        → Turn w (record w { agent = entered t w.agent })
    access :
        (i : ℕ) {m : Shared cancellation notify} {t : Task cancellation notify}
        → i < w.agent.spawned
        → NotInFlight (w.agent.tasks i)
        → Move cancellation notify i w.agent.shared (w.agent.tasks i) m t
        → Turn w (record w { agent = moved i m t w.agent })
    wake : (i id : ℕ) (io : Io) → w.agent.tasks i ≡ Task.in_flight id → Turn w (polled i io w)
    complete :
        (i id : ℕ)
        → i < w.agent.spawned
        → w.agent.tasks i ≡ Task.in_flight id
        → (w.exchanges i).phase ≡ Phase.finished
        → Turn w (record w { agent = moved i w.agent.shared (Task.remove_token id) w.agent })
    abandon :
        (i id : ℕ)
        → i < w.agent.spawned
        → w.agent.tasks i ≡ Task.in_flight id
        → Turn w (record w {
          agent = moved i w.agent.shared (Task.remove_token id) w.agent;
          dropped = put i true w.dropped;
        })
    by_caller :
        (k : Call) (i : ℕ)
        → IsHandedOut cancellation notify (w.agent.tasks i)
        → Turn w (called k i w)

  pub data Turns (w : World) : World → Type 0 where
    rest : Turns w w
    on : {v u : World} → Turns w v → Turn v u → Turns w u
