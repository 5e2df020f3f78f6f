-- ===== src/Node/Promise/Settles.antt =====
-- packages/node/src/agent.rs: what a settled promise of `agent_close` or `agent_destroy` tells.
use native.Mathlib.Decide.{dec_lt}
use node_reqwest.Prelude.{
  ℕ, ◌+◌, ◌<◌, ◌≡◌, ◌≢◌, ◌⊎◌, inl, inr, refl, sym, ap, ◌∙◌, true, false, Option, some, List, map,
  All, arith,
}
use node_reqwest.Prelude.Family.{put, put_one, put-here, put-there}
use node_reqwest.Runtime.{Watch, Cancellation, Notify}
use node_reqwest.Error.{client_destroyed}
use node_reqwest.Agent.Request.{HttpApi}
use node_reqwest.Agent.Lifecycle.{Shared, Task, Move, Entry, System, Step, two_64}
use node_reqwest.Agent.Lifecycle.Idle.{counted}
use node_reqwest.Agent.Lifecycle.Registry.{beyond-unborn}
use node_reqwest.Agent.Lifecycle.Refusal.{Steps, stay, go}
use node_reqwest.Prelude.Outcome.{ok}
use node_reqwest.Agent.World.{World, Turns, Turn}
use node_reqwest.Agent.World.Projection.{Lives, Lives-Reach, Turns-Turns, Turns-Steps}
use node_reqwest.Agent.World.Ends.{Told, returned-Told}
use node_reqwest.Agent.World.Log.{log-InOrder}
use node_reqwest.Agent.World.Requests.{log-IsRun}
use node_reqwest.Agent.Request.Protocol.{fresh, closed, stage}
use node_reqwest.Node.Handler.{JsCall, calls_of}
use node_reqwest.Node.Handler.Order.{IsFor, walk_calls, walk_calls-run}
use node_reqwest.Node.Promise.{
  Addon, Act, Acts, agent_close, agent_destroy, loaded, none_yet, behind, dispatches, closes,
  destroys, moves, settles,
}

module _ (watch : Watch) (cancellation : Cancellation) (notify : Notify) (http : HttpApi)
    (cap : Option ℕ) where
  abbrev Whole : Type 0
  Whole = Addon watch cancellation notify http cap

  -- An addon that JavaScript and the runtime can bring about.
  abbrev pub Runs : Whole → Type 0
  Runs = Acts watch cancellation notify http cap (loaded watch cancellation notify http cap)

  Act-Turns :
      {a b : Whole}
      → Act watch cancellation notify http cap a b
      → Turns watch cancellation notify http cap a.world b.world
  unfolding agent_close agent_destroy
  Act-Turns (dispatches room) = Turns.on Turns.rest (Turn.enter Entry.dispatch room)
  Act-Turns (closes room) = Turns.on Turns.rest (Turn.enter Entry.closing room)
  Act-Turns (destroys room) = Turns.on Turns.rest (Turn.enter (Entry.destroying _) room)
  Act-Turns (moves t inner) = Turns.on Turns.rest t
  Act-Turns (settles j e) = Turns.rest

  pub Acts-Turns :
      {a b : Whole}
      → Acts watch cancellation notify http cap a b
      → Turns watch cancellation notify http cap a.world b.world
  Acts-Turns none_yet = Turns.rest
  Acts-Turns (behind before act) =
      Turns-Turns watch cancellation notify http cap (Acts-Turns before) (Act-Turns act)

  Acts-Acts :
      {a b c : Whole}
      → Acts watch cancellation notify http cap a b
      → Acts watch cancellation notify http cap b c
      → Acts watch cancellation notify http cap a c
  Acts-Acts before none_yet = before
  Acts-Acts before (behind more act) = Acts.behind (Acts-Acts before more) act

  pub Runs-Lives : {a : Whole} → Runs a → Lives watch cancellation notify http cap a.world
  unfolding loaded
  Runs-Lives runs = Acts-Turns runs

  -- `returned` is where a waiter stays.
  move-returned :
      {i : ℕ} {m m' : Shared cancellation notify} {p p' : Task cancellation notify}
      → Move cancellation notify i m p m' p'
      → p ≢ Task.returned
  move-returned Move.wake e = cc
  move-returned mv e = cc

  step-returned :
      {s t : System cancellation notify} (j : ℕ)
      → Step cancellation notify s t
      → j < s.spawned
      → s.tasks j ≡ Task.returned
      → (j < t.spawned) × (t.tasks j ≡ Task.returned)
  step-returned {s} j (Step.enter {t = new} en room) lt e =
      (omega arith, put-there s.spawned j new s.tasks (omega arith) ∙ e)
  step-returned {s} j (Step.run i {t = p'} below mv) lt e = (
    lt,
    put_one (λ q. q ≡ Task.returned) i j p' s.tasks
        (λ same. absurd (move-returned mv (ap s.tasks same ∙ e))) (λ other. e),
  )
  step-returned j (Step.abort i handed) lt e = (lt, e)

  steps-returned :
      {s t : System cancellation notify} (j : ℕ)
      → Steps cancellation notify s t
      → j < s.spawned
      → s.tasks j ≡ Task.returned
      → (j < t.spawned) × (t.tasks j ≡ Task.returned)
  steps-returned j stay lt e = (lt, e)
  steps-returned j (go before st) lt e =
      let (lt', e') = steps-returned j before lt e in step-returned j st lt' e'

  -- Where promise `j` is settled, its task is there and has returned.
  abbrev Kept : ℕ → Whole → Type 0
  Kept j a = (j < a.world.agent.spawned) × (a.world.agent.tasks j ≡ Task.returned)

  Act-Kept :
      {a b : Whole} (j : ℕ) → Act watch cancellation notify http cap a b → Kept j a → Kept j b
  Act-Kept j act (lt, e) =
      steps-returned j (Turns-Steps watch cancellation notify http cap (Act-Turns act)) lt e

  returned-below : {a : Whole} (j : ℕ) → Runs a → a.world.agent.tasks j ≡ Task.returned → Kept j a
  returned-below {a} j runs e = elim (dec_lt j a.world.agent.spawned) [
    | yes lt ↦ (lt, e)
    | no out ↦
        let unborn =
          beyond-unborn cancellation notify
            (Lives-Reach watch cancellation notify http cap (Runs-Lives runs)) j (omega arith) in
        cc
  ]

  Act-settled :
      {a b : Whole} (j : ℕ)
      → Act watch cancellation notify http cap a b
      → b.settled j ≡ true
      → (a.settled j ≡ true) ⊎ (a.world.agent.tasks j ≡ Task.returned)
  unfolding agent_close agent_destroy
  Act-settled j (dispatches room) is = inl is
  Act-settled j (closes room) is = inl is
  Act-settled j (destroys room) is = inl is
  Act-settled j (moves t inner) is = inl is
  Act-settled {a} j (settles k e) is =
      put_one (λ b. b ≡ true → (a.settled j ≡ true) ⊎ (a.world.agent.tasks j ≡ Task.returned)) k j
        true a.settled (λ same is. inr (ap a.world.agent.tasks (sym same) ∙ e)) (λ other is. inl is)
        is

  settled-Kept : {a : Whole} (j : ℕ) → Runs a → a.settled j ≡ true → Kept j a
  unfolding loaded
  settled-Kept j none_yet is = cc
  settled-Kept j (behind {b = a} {c = b} before act) is =
      Act-Kept {a = a} {b = b} j act (elim (Act-settled {a = a} {b = b} j act is) [
        | inl already ↦ settled-Kept {a = a} j before already
        | inr now ↦ returned-below {a = a} j before now
      ])

  -- The calls that request `i`, under the number that JavaScript gave it, has sent to JavaScript's
  -- handler are complete.
  abbrev pub Sent : ℕ → ℕ → World watch cancellation notify http cap → Type 0
  Sent req_id i w =
      (calls : List JsCall) × (calls_of req_id (w.log i) ≡ map (λ c. ok c) calls)
      × All (IsFor req_id) calls
      × (walk_calls (some fresh) calls ≡ some closed)

  Told-Sent :
      {w : World watch cancellation notify http cap} (req_id i : ℕ)
      → Lives watch cancellation notify http cap w
      → Told watch cancellation notify http cap i w
      → Sent req_id i w
  Told-Sent {w} req_id i live told =
      let (polls, e) = log-IsRun watch cancellation notify http cap i live in
      let (calls, made, meant, walks) = walk_calls-run http cap req_id polls in
      (
        calls,
        sym (ap (λ r. calls_of req_id r.1) e) ∙ made,
        meant,
        walks
            ∙ ap (λ r. some (stage r.0.phase)) e
            ∙ sym (log-InOrder watch cancellation notify http cap i live)
            ∙ told,
      )

  -- Each call that spawns a waiter, for the requests that are counted when it is made.
  waiter-Sent :
      {a b c : Whole} (req_id i : ℕ) (t : Task cancellation notify)
      → Runs a
      → Act watch cancellation notify http cap a b
      → b.world.agent.spawned ≡ a.world.agent.spawned + 1
      → b.world.agent.tasks ≡ put a.world.agent.spawned t a.world.agent.tasks
      → t ≢ Task.returned
      → i < a.world.agent.spawned
      → counted cancellation notify (a.world.agent.tasks i) ≡ 1
      → Acts watch cancellation notify http cap b c
      → c.settled a.world.agent.spawned ≡ true
      → c.world.dropped i ≡ false
      → Sent req_id i c.world
  waiter-Sent {a} {b} req_id i t runs act more place waits lt is acts settled kept =
      let j = a.world.agent.spawned in
      let here = ap (λ f. f j) place ∙ put-here j t a.world.agent.tasks in
      let there = ap (λ f. f i) place ∙ put-there j i t a.world.agent.tasks (omega arith) in
      let began = Acts.behind runs act in
      Told-Sent req_id i (Runs-Lives (Acts-Acts began acts)) (
        returned-Told watch cancellation notify http cap i j (Runs-Lives began)
          (omega (arith, more)) (omega (arith, more)) (ap (counted cancellation notify) there ∙ is)
          (λ e. waits (sym here ∙ e)) (Acts-Turns acts)
          (settled-Kept j (Acts-Acts began acts) settled).1 kept)

  -- When the promise of `agentClose` is settled, the calls of JavaScript's functions for every
  -- request that was active when it was called are made without an exception for its headers, carry
  -- its number and follow the order of the contract up to its one end or error, unless its future was
  -- dropped; whatever JavaScript, the network and the other requests do meanwhile.
  pub agent_close-Sent :
      {a c : Whole} (req_id i : ℕ)
      → Runs a
      → a.world.agent.spawned + 3 < two_64
      → i < a.world.agent.spawned
      → counted cancellation notify (a.world.agent.tasks i) ≡ 1
      → Acts watch cancellation notify http cap
          (agent_close watch cancellation notify http cap a).0
          c
      → c.settled (agent_close watch cancellation notify http cap a).1 ≡ true
      → c.world.dropped i ≡ false
      → Sent req_id i c.world
  unfolding agent_close
  agent_close-Sent req_id i runs room =
      waiter-Sent req_id i Task.begin_close runs (Act.closes room) (omega arith) refl (λ e. cc)

  -- The same for the promise of `agentDestroy`.
  pub agent_destroy-Sent :
      {a c : Whole} (req_id i : ℕ)
      → Runs a
      → a.world.agent.spawned + 3 < two_64
      → i < a.world.agent.spawned
      → counted cancellation notify (a.world.agent.tasks i) ≡ 1
      → Acts watch cancellation notify http cap
          (agent_destroy watch cancellation notify http cap a).0
          c
      → c.settled (agent_destroy watch cancellation notify http cap a).1 ≡ true
      → c.world.dropped i ≡ false
      → Sent req_id i c.world
  unfolding agent_destroy
  agent_destroy-Sent req_id i runs room =
      waiter-Sent req_id i (Task.store_destroyed client_destroyed) runs (Act.destroys room)
        (omega arith) refl (λ e. cc)
