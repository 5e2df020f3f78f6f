-- ===== src/Node/Promise.antt =====
-- packages/node/src/agent.rs, `agent_close` and `agent_destroy`: each spawns the core's future and
-- settles a promise behind it. The agent's world runs on meanwhile.
pub mod Settles
pub mod Reason
mod Examples
use node_reqwest.Prelude.{ℕ, ◌+◌, ◌<◌, ◌≡◌, Bool, true, false, Option}
use node_reqwest.Prelude.Family.{put}
use node_reqwest.Runtime.{Watch, Cancellation, Notify}
use node_reqwest.Error.{client_destroyed}
use node_reqwest.Agent.Request.{HttpApi}
use node_reqwest.Agent.Lifecycle.{Task, two_64}
use node_reqwest.Agent.World.{World, begun, entered, Turn}

module _ (watch : Watch) (cancellation : Cancellation) (notify : Notify) (http : HttpApi)
    (cap : Option ℕ) where
  -- An agent behind its handle, and which promises are settled: a promise has the number of the task
  -- that was spawned for it.
  pub record Addon : Type 0 where
    pub world : World watch cancellation notify http cap
    pub settled : ℕ → Bool

  unfoldable pub loaded : Addon
  loaded = record { world = begun watch cancellation notify http cap; settled = λ _. false }

  -- The addon with a task more, and the number of the task.
  abbrev spawn : Task cancellation notify → Addon → Addon × ℕ
  spawn t a = (
    record a {
      world = record a.world { agent = entered watch cancellation notify http cap t a.world.agent };
    },
    a.world.agent.spawned,
  )

  -- The addon behind the call, and the promise that is returned.
  unfoldable pub agent_close : Addon → Addon × ℕ
  agent_close a = spawn Task.begin_close a

  unfoldable pub agent_destroy : Addon → Addon × ℕ
  agent_destroy a = spawn (Task.store_destroyed client_destroyed) a

  -- A turn that is not a new call into the agent.
  abbrev pub IsInner :
      {w v : World watch cancellation notify http cap}
      → Turn watch cancellation notify http cap w v
      → Type 0
  IsInner (Turn.enter en room) = ⊥
  IsInner _ = Unit

  -- What happens to the addon: JavaScript calls one of the three functions that enter the agent,
  -- the agent's world moves on, or a spawned future that has returned settles its promise.
  pub data Act (a : Addon) : Addon → Type 0 where
    dispatches : a.world.agent.spawned + 3 < two_64 → Act a (spawn Task.check_destroyed a).0
    closes : a.world.agent.spawned + 3 < two_64 → Act a (agent_close a).0
    destroys : a.world.agent.spawned + 3 < two_64 → Act a (agent_destroy a).0
    moves :
        {v : World watch cancellation notify http cap}
        (t : Turn watch cancellation notify http cap a.world v)
        → IsInner t
        → Act a (record a { world = v })
    settles :
        (j : ℕ)
        → a.world.agent.tasks j ≡ Task.returned
        → Act a (record a { settled = put j true a.settled })

  pub data Acts (a : Addon) : Addon → Type 0 where
    none_yet : Acts a a
    behind : {b c : Addon} → Acts a b → Act b c → Acts a c
