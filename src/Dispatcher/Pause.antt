-- ===== src/Dispatcher/Pause.antt =====
-- packages/core/src/dispatcher.rs, `PauseState`: the pause signal over a watch channel.
use node_reqwest.Prelude.{Bool, true, false, not}
use node_reqwest.Runtime.{Watch}

module _ (watch : Watch) where
  -- The sender and the receiver that the struct holds are the two ends of one channel.
  pub record PauseState : Type 0 where
    pub signal : watch.Channel

  unfoldable pub new : PauseState
  new = record { signal = watch.channel false }

  unfoldable pub pause : PauseState → PauseState
  pause s = record { signal = watch.send true s.signal }

  unfoldable pub resume : PauseState → PauseState
  resume s = record { signal = watch.send false s.signal }

  unfoldable pub is_paused : PauseState → Bool
  is_paused s = watch.borrow s.signal

  -- Whether `wait_if_paused` completes when it is polled: `wait_for(|paused| !*paused)`.
  unfoldable pub wait_if_paused : PauseState → Bool
  wait_if_paused s = not (watch.borrow s.signal)
