-- ===== src/Dispatcher/Controller.antt =====
-- packages/core/src/dispatcher.rs, `RequestController`: abort, pause and resume of one request.
pub mod Laws
use node_reqwest.Prelude.{Bool, List, [], ◌∷◌}
use node_reqwest.Runtime.{Watch, Cancellation}
use node_reqwest.Dispatcher.Pause.{PauseState}
use node_reqwest.Dispatcher.Pause

-- A call of the controller by its owner.
pub data Call : Type 0 where
  aborts pauses resumes : Call

module _ (watch : Watch) (cancellation : Cancellation) where
  -- The request's future holds clones of both fields, which are the same shared cells.
  pub record RequestController : Type 0 where
    pub token : cancellation.Token
    pub pause_state : PauseState watch

  unfoldable pub new : RequestController
  unfolding Pause.new
  new = record { token = cancellation.new; pause_state = Pause.new watch }

  unfoldable pub abort : RequestController → RequestController
  abort c = record c { token = cancellation.cancel c.token }

  unfoldable pub pause : RequestController → RequestController
  unfolding Pause.pause
  pause c = record c { pause_state = Pause.pause watch c.pause_state }

  unfoldable pub resume : RequestController → RequestController
  unfolding Pause.resume
  resume c = record c { pause_state = Pause.resume watch c.pause_state }

  unfoldable pub is_cancelled : RequestController → Bool
  is_cancelled c = cancellation.is_cancelled c.token

  unfoldable pub is_paused : RequestController → Bool
  unfolding Pause.is_paused
  is_paused c = Pause.is_paused watch c.pause_state

  unfoldable pub call : Call → RequestController → RequestController
  unfolding abort pause resume
  call aborts c = abort c
  call pauses c = pause c
  call resumes c = resume c

  unfoldable pub calls : List Call → RequestController → RequestController
  unfolding call
  calls [] c = c
  calls (k ∷ ks) c = calls ks (call k c)
