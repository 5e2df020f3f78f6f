-- ===== src/Node/Entry.antt =====
-- packages/node/src/agent.rs, `agent_dispatch` and the functions of a request handle.
pub mod Accepted
use node_reqwest.Prelude.{ℕ, codes, none, some}
use node_reqwest.Prelude.Outcome.{Result, ok, err, ◌>>=◌, map_err}
use node_reqwest.Runtime.{Watch, Cancellation}
use node_reqwest.Error.{CoreError, to_string}
use node_reqwest.Dispatcher.{DispatchOptions}
use node_reqwest.Dispatcher.Controller.{RequestController, abort, pause, resume}
use node_reqwest.Dispatcher.Method.{MethodApi}
use node_reqwest.Node.Js.{Js, Number}
use node_reqwest.Node.Dispatch.{BodyApi, parse_dispatch_options}

-- `RequestHandle` holds the controller; its three functions call it.
module _ (watch : Watch) (cancellation : Cancellation) where
  unfoldable pub request_handle_abort :
      RequestController watch cancellation → RequestController watch cancellation
  request_handle_abort handle = abort watch cancellation handle

  unfoldable pub request_handle_pause :
      RequestController watch cancellation → RequestController watch cancellation
  request_handle_pause handle = pause watch cancellation handle

  unfoldable pub request_handle_resume :
      RequestController watch cancellation → RequestController watch cancellation
  request_handle_resume handle = resume watch cancellation handle

req_id_of : (js : Js) → Number → Result js.Thrown ℕ
req_id_of js n = elim (js.numbers.cast 32 n) [
  | some req_id ↦ ok req_id
  | none ↦ err (js.error (codes "requestId: value out of u32 range"))
]

-- `Agent::dispatch` with the handler of the given number is `dispatch`: what it answers depends on
-- the agent's state (`Lifecycle.Move`), and an answer is a controller and a future.
module _ (js : Js) (api : MethodApi) (bodies : BodyApi js) (Controller Future : Type 0)
    (dispatch : DispatchOptions api.Method bodies.Body
      → ℕ
      → Result CoreError (Controller × Future)) where
  -- The handle that is returned, and the future that is spawned.
  unfoldable pub agent_dispatch : js.Value → Number → Result js.Thrown (Controller × Future)
  unfolding req_id_of
  agent_dispatch options n = do
    req_id ← req_id_of js n
    dispatch_options ← parse_dispatch_options js api bodies options
    map_err (λ e. js.error (to_string e)) (dispatch dispatch_options req_id)
