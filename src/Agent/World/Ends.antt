-- ===== src/Agent/World/Ends.antt =====
-- packages/core/src/agent.rs: how the requests of an agent end, and what a `close` or `destroy` that
-- has returned leaves behind.
use node_reqwest.Prelude.{
  ℕ, ◌<◌, ◌≡◌, ◌≢◌, ◌⊎◌, inl, inr, refl, ap, sym, subst, ◌∙◌, Bool, true, false, Option, some,
  arith,
}
use node_reqwest.Prelude.Family.{put_one, put_two}
use node_reqwest.Runtime.{Watch, Cancellation, Notify}
use node_reqwest.Dispatcher.Controller.{aborts, pauses, resumes}
use node_reqwest.Agent.Request.{HttpApi, Exchange, Phase}
use node_reqwest.Agent.Request.Protocol.{Stage, walk, stage}
use node_reqwest.Agent.Lifecycle.{Shared, Task, Move, Entry, IsHandedOut, fresh}
use node_reqwest.Agent.Lifecycle.Idle.{counted}
use node_reqwest.Agent.Lifecycle.Waits.{IsOver, returned-IsOver}
use node_reqwest.Agent.World.{World, NotInFlight, Turn, Turns, begun, polled, called, rest, on}
use node_reqwest.Agent.World.Projection.{Lives, Lives-Reach, Turns-Steps, Turns-Turns}
use node_reqwest.Agent.World.Log.{log-InOrder}

module _ (watch : Watch) (cancellation : Cancellation) (notify : Notify) (http : HttpApi)
    (cap : Option ℕ) where
  abbrev Whole : Type 0
  Whole = World watch cancellation notify http cap

  abbrev Job : Type 0
  Job = Task cancellation notify

  -- A request whose future has been dropped.
  abbrev pub IsEnded : Job → Type 0
  IsEnded (Task.remove_token _) = Unit
  IsEnded Task.sub_count = Unit
  IsEnded Task.wake_waiters = Unit
  IsEnded Task.gone = Unit
  IsEnded _ = ⊥

  pub move-IsHandedOut :
      {i : ℕ} {m m' : Shared cancellation notify} {p p' : Job}
      → Move cancellation notify i m p m' p'
      → IsHandedOut cancellation notify p
      → IsHandedOut cancellation notify p'
  move-IsHandedOut Move.wake h = tt
  move-IsHandedOut mv h = ground arith

  move-IsEnded :
      {i : ℕ} {m m' : Shared cancellation notify} {p p' : Job}
      → Move cancellation notify i m p m' p'
      → NotInFlight watch cancellation notify http cap p
      → IsEnded p'
      → IsEnded p
  move-IsEnded (Move.drop_future {id}) other h = absurd other
  move-IsEnded Move.wake other h = tt
  move-IsEnded mv other h = ground arith

  entry-IsEnded : {t : Job} → Entry cancellation notify t → IsEnded t → ⊥
  entry-IsEnded Entry.dispatch h = h
  entry-IsEnded Entry.closing h = h
  entry-IsEnded (Entry.destroying e) h = h

  abbrev Accounted : Job → Bool → Exchange → Type 0
  Accounted q gone x = IsEnded q → (gone ≡ true) ⊎ (x.phase ≡ Phase.finished)

  -- A request whose future is gone had run to its end, unless its owner dropped it.
  ended-finished :
      {w : Whole} (i : ℕ)
      → Lives watch cancellation notify http cap w
      → Accounted (w.agent.tasks i) (w.dropped i) (w.exchanges i)
  unfolding begun polled called fresh
  ended-finished i rest = λ ended. absurd ended
  ended-finished i (on {v} before (Turn.enter {t} en room)) =
      put_one (λ q. Accounted q (v.dropped i) (v.exchanges i)) v.agent.spawned i t v.agent.tasks
        (λ same ended. absurd (entry-IsEnded en ended)) (λ other. ended-finished i before)
  ended-finished i (on {v} before (Turn.access k {t} lt other mv)) =
      put_one (λ q. Accounted q (v.dropped i) (v.exchanges i)) k i t v.agent.tasks
        (λ same ended.
          ended-finished i before
            (subst (λ n. IsEnded (v.agent.tasks n)) same (move-IsEnded mv other ended)))
        (λ elsewhere. ended-finished i before)
  ended-finished i (on {v} before (Turn.wake k id io e)) =
      put_one (Accounted (v.agent.tasks i) (v.dropped i)) k i _ v.exchanges
        (λ same ended. absurd (subst IsEnded (ap v.agent.tasks (sym same) ∙ e) ended))
        (λ other. ended-finished i before)
  ended-finished i (on {v} before (Turn.complete k id lt e done)) =
      put_one (λ q. Accounted q (v.dropped i) (v.exchanges i)) k i (Task.remove_token id)
        v.agent.tasks
        (λ same ended. inr (subst (λ n. (v.exchanges n).phase ≡ Phase.finished) same done))
        (λ other. ended-finished i before)
  ended-finished i (on {v} before (Turn.abandon k id lt e)) =
      put_two (λ q b. Accounted q b (v.exchanges i)) k i (Task.remove_token id) true v.agent.tasks
        v.dropped (λ same ended. inl refl) (λ other. ended-finished i before)
  ended-finished i (on before (Turn.by_caller aborts k handed)) = ended-finished i before
  ended-finished i (on before (Turn.by_caller pauses k handed)) = ended-finished i before
  ended-finished i (on before (Turn.by_caller resumes k handed)) = ended-finished i before

  IsOver-IsEnded : (t : Job) → IsOver cancellation notify t → IsEnded t
  IsOver-IsEnded Task.wake_waiters h = tt
  IsOver-IsEnded Task.gone h = tt
  IsOver-IsEnded _ h = absurd h

  -- The handler of a request has been told of its end: its callbacks are in order and closed.
  abbrev pub Told : ℕ → Whole → Type 0
  Told i w = walk (some Stage.fresh) (w.log i) ≡ some Stage.closed

  -- When a `close` or `destroy` has returned, every request that was counted at some moment before
  -- has delivered its end or its error to its handler, once and behind everything else, unless the
  -- owner of its future dropped it. Requests, callers and other calls act in any order.
  pub returned-Told :
      {w v : Whole} (i j : ℕ)
      → Lives watch cancellation notify http cap w
      → i < w.agent.spawned
      → j < w.agent.spawned
      → counted cancellation notify (w.agent.tasks i) ≡ 1
      → w.agent.tasks j ≢ Task.returned
      → Turns watch cancellation notify http cap w v
      → v.agent.tasks j ≡ Task.returned
      → v.dropped i ≡ false
      → Told i v
  returned-Told {v} i j live lt below h waiting turns e kept =
      let later = Turns-Turns watch cancellation notify http cap live turns in
      let over =
        returned-IsOver cancellation notify i j
          (Lives-Reach watch cancellation notify http cap live) lt below h waiting
          (Turns-Steps watch cancellation notify http cap turns) e in
      elim (ended-finished i later (IsOver-IsEnded (v.agent.tasks i) over)) [
        | inl dropped ↦ cc
        | inr done ↦
            log-InOrder watch cancellation notify http cap i later ∙ ap (λ p. some (stage p)) done
      ]
