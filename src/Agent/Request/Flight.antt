-- ===== src/Agent/Request/Flight.antt =====
-- packages/core/src/agent.rs: a request in flight, with its controller and the agent's `destroy`
-- acting between any two polls.
pub mod Laws
use node_reqwest.Prelude.{ℕ, not, Option, some, List, [], ◌∷◌, ◌++◌}
use node_reqwest.Runtime.{Watch, Cancellation}
use node_reqwest.Error.{CoreError}
use node_reqwest.Dispatcher.Pause
use node_reqwest.Dispatcher.Controller.{RequestController, Call, aborts, call, is_cancelled}
use node_reqwest.Agent.Request.{HttpApi, Event, Exchange, Signals, Io, poll}

-- A call on the controller, a step of `destroy` (the write of the error, then the token's
-- cancellation), or a poll of the task.
pub data Action : Type 0 where
  by_caller : Call → Action
  store_error : CoreError → Action
  cancel_token : Action
  wake : Io → Action

module _ (watch : Watch) (cancellation : Cancellation) (http : HttpApi) (cap : Option ℕ) where
  -- The future shares the controller's token and pause state, and the agent's `destroy_error`.
  pub record Flight : Type 0 where
    pub controller : RequestController watch cancellation
    pub destroy_error : Option CoreError
    pub exchange : Exchange

  unfoldable pub signals : Flight → Signals
  unfolding is_cancelled Pause.wait_if_paused
  signals f = record {
    cancelled = is_cancelled watch cancellation f.controller;
    paused = not (Pause.wait_if_paused watch f.controller.pause_state);
    destroy_error = f.destroy_error;
  }

  -- One action: the flight behind it and the callbacks it makes.
  unfoldable pub act : Action → Flight → Flight × List Event
  unfolding signals
  act (by_caller k) f = (record f { controller = call watch cancellation k f.controller }, [])
  act (store_error e) f = (record f { destroy_error = some e }, [])
  act cancel_token f = (record f { controller = call watch cancellation aborts f.controller }, [])
  act (wake io) f =
      let (x, events) = poll http cap (signals f) io f.exchange in
      (record f { exchange = x }, events)

  unfoldable pub fly : List Action → Flight → Flight × List Event
  unfolding act
  fly [] f = (f, [])
  fly (a ∷ actions) f =
      let (g, events) = act a f in let (h, later) = fly actions g in (h, events ++ later)
