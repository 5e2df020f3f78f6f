-- ===== src/Agent/Lifecycle/Gate.antt =====
-- packages/core/src/agent.rs: what the agent promises of admission and of waiting, with the tokens,
-- the numbers, the notifications and the places of the tasks left out.
pub mod Refines
pub mod Late
use node_reqwest.Prelude.{ℕ, suc, ◌-◌, ◌<◌, ◌≡◌, ◌≢◌}

-- `closing` is the moment in which `destroy` has set its first flag only.
pub data Door : Type 0 where
  wide closing shut : Door

-- A dispatch that has been let in is `entering` until it is counted; then it is `active`.
pub record Gate : Type 0 where
  pub door : Door
  pub entering : ℕ
  pub active : ℕ

-- What is to be seen of an access: a dispatch is let in, counted, uncounted or refused, `destroy`
-- sets its first flag, the agent shuts, a waiter returns.
pub data Label : Type 0 where
  lets_in admits finishes refuses dooms shuts returns silent : Label

abbrev pub Allowed : Label → Gate → Type 0
Allowed lets_in g = g.door ≢ shut
Allowed admits g = 0 < g.entering
Allowed finishes g = 0 < g.active
Allowed refuses g = g.door ≢ wide
Allowed returns g = g.active ≡ 0
Allowed _ g = Unit

abbrev doomed : Door → Door
doomed wide = closing
doomed closing = closing
doomed shut = shut

abbrev pub after : Label → Gate → Gate
after lets_in g = record g { entering = suc g.entering }
after admits g = record g { entering = g.entering - 1; active = suc g.active }
after finishes g = record g { active = g.active - 1 }
after dooms g = record g { door = doomed g.door }
after shuts g = record g { door = shut }
after _ g = g
