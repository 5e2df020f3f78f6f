-- ===== src/Agent/World/Returns.antt =====
-- packages/core/src/agent.rs: a `close` or `destroy` under way, and the requests that it waits for.
use node_reqwest.Prelude.{
  ℕ, ◌<◌, ◌≡◌, inl, inr, refl, sym, ap, subst, ◌∙◌, true, Option, List, [], ◌∷◌, arith,
}
use node_reqwest.Prelude.Family.{put-here, put-there, sum_below-pos}
use node_reqwest.Runtime.{Watch, Cancellation, Notify}
use node_reqwest.Agent.Request.{HttpApi}
use node_reqwest.Agent.Lifecycle.{Shared, Task, Move}
use node_reqwest.Agent.Lifecycle.Idle.{counted, wakers, waking, Settled, parked-wakes, Reach-Inv}
use node_reqwest.Agent.Lifecycle.Progress.{waker-stands}
use node_reqwest.Agent.World.{World, NotInFlight, Turn, Turns}
use node_reqwest.Agent.World.Projection.{Lives, Lives-Reach, Turns-Turns}
use node_reqwest.Agent.World.Drains.{stepped, Course, Course-Course, Course-Turn}
use node_reqwest.Agent.World.Quiet.{running, drain_at}
use node_reqwest.Error.{CoreError}

module _ (watch : Watch) (cancellation : Cancellation) (notify : Notify) (http : HttpApi)
    (cap : Option ℕ) where
  abbrev Whole : Type 0
  Whole = World watch cancellation notify http cap

  abbrev Job : Type 0
  Job = Task cancellation notify

  -- A course to the return of task `j`.
  abbrev pub Returned : ℕ → Whole → Type 0
  Returned j w =
      (v : Whole) × Course watch cancellation notify http cap w v
      × (v.agent.tasks j ≡ Task.returned)
      × (v.dropped ≡ w.dropped)

  then :
      (j k : ℕ) (w : Whole) {m : Shared cancellation notify} {p p' : Job}
      → k < w.agent.spawned
      → w.agent.tasks k ≡ p
      → NotInFlight watch cancellation notify http cap p
      → Move cancellation notify k w.agent.shared p m p'
      → Returned j (stepped watch cancellation notify http cap k m p' w)
      → Returned j w
  then j k w {m} {p' = p'} lt e other mv (v, turns, back, kept) = (
    v,
    Course-Course watch cancellation notify http cap
        (Course-Turn watch cancellation notify http cap
          (Turn.access k lt (subst (NotInFlight watch cancellation notify http cap) (sym e) other)
            (subst (λ q. Move cancellation notify k w.agent.shared q m p') (sym e) mv))
          tt)
        turns,
    back,
    kept,
  )

  done : (j : ℕ) (w : Whole) → w.agent.tasks j ≡ Task.returned → Returned j w
  done j w e = (w, (Turns.rest, tt), e, refl)

  -- The stages of a waiter while no request is active, from the last one back.
  module _ (j : ℕ) where
    abbrev Idle : Whole → Job → Type 0
    Idle w p = (j < w.agent.spawned) × (w.agent.active_count ≡ 0) × (w.agent.tasks j ≡ p)

    from_load_count : (w : Whole) → Idle w Task.load_count → Returned j w
    from_load_count w (lt, none_left, e) =
        then j j w lt e tt (Move.find_idle none_left)
          (done j _ (put-here j Task.returned w.agent.tasks))

    from_load_again : (w : Whole) (n : notify.Notified) → Idle w (Task.load_again n) → Returned j w
    from_load_again w n (lt, none_left, e) =
        then j j w lt e tt (Move.still_idle none_left)
          (done j _ (put-here j Task.returned w.agent.tasks))

    from_enable_notified : (w : Whole) → Idle w Task.enable_notified → Returned j w
    from_enable_notified w (lt, none_left, e) =
        then j j w lt e tt Move.enable
          (from_load_again _ _ (lt, none_left, put-here j (Task.load_again _) w.agent.tasks))

    from_begin_close : (w : Whole) → Idle w Task.begin_close → Returned j w
    from_begin_close w (lt, none_left, e) =
        then j j w lt e tt Move.close
          (from_load_count _ (lt, none_left, put-here j Task.load_count w.agent.tasks))

    from_cancel_tokens : (ts : List ℕ) (w : Whole) → Idle w (Task.cancel_tokens ts) → Returned j w
    from_cancel_tokens [] w (lt, none_left, e) =
        then j j w lt e tt Move.cancelled_all
          (from_load_count _ (lt, none_left, put-here j Task.load_count w.agent.tasks))
    from_cancel_tokens (t ∷ ts) w (lt, none_left, e) =
        then j j w lt e tt Move.cancel (
          from_cancel_tokens ts _ (lt, none_left, put-here j (Task.cancel_tokens ts) w.agent.tasks))

    from_drain_tokens : (w : Whole) → Idle w Task.drain_tokens → Returned j w
    from_drain_tokens w (lt, none_left, e) =
        then j j w lt e tt Move.drain_all
          (from_cancel_tokens _ _ (lt, none_left, put-here j (Task.cancel_tokens _) w.agent.tasks))

    from_store_error : (e : CoreError) (w : Whole) → Idle w (Task.store_error e) → Returned j w
    from_store_error error w (lt, none_left, e) =
        then j j w lt e tt Move.set_error
          (from_drain_tokens _ (lt, none_left, put-here j Task.drain_tokens w.agent.tasks))

    from_store_closed : (e : CoreError) (w : Whole) → Idle w (Task.store_closed e) → Returned j w
    from_store_closed error w (lt, none_left, e) = then j j w lt e tt Move.set_closed (
        from_store_error error _ (lt, none_left, put-here j (Task.store_error error) w.agent.tasks))

    from_store_destroyed :
        (e : CoreError) (w : Whole) → Idle w (Task.store_destroyed e) → Returned j w
    from_store_destroyed error w (lt, none_left, e) = then j j w lt e tt Move.set_destroyed (
        from_store_closed error _
          (lt, none_left, put-here j (Task.store_closed error) w.agent.tasks))

    from_ready :
        (n : notify.Notified) (w : Whole)
        → Idle w (Task.parked n)
        → notify.is_ready w.agent.idle_notify n ≡ true
        → Returned j w
    from_ready n w (lt, none_left, e) ready =
        then j j w lt e tt (Move.awake ready)
          (from_load_count _ (lt, none_left, put-here j Task.load_count w.agent.tasks))

    -- A guard on its way wakes the waiter, whose future is enabled.
    from_parked :
        (n : notify.Notified) (w : Whole)
        → Lives watch cancellation notify http cap w
        → running watch cancellation notify http cap w ≡ 0
        → Idle w (Task.parked n)
        → Returned j w
    from_parked n w live quiet (lt, none_left, e) =
        let r = Lives-Reach watch cancellation notify http cap live in
        elim (parked-wakes cancellation notify n r j e quiet) [
          | inl ready ↦ from_ready n w (lt, none_left, e) ready
          | inr busy ↦
              let (k, below, pos) =
                sum_below-pos w.agent.spawned (waking cancellation notify) w.agent.tasks busy in
              let stands = waker-stands cancellation notify (w.agent.tasks k) pos in
              let enabled =
                (subst
                  (Settled cancellation notify w.agent.shared (wakers cancellation notify w.agent))
                  e ((Reach-Inv cancellation notify r).settled j)).0 in
              woken k below stands (notify.is_ready-notify_waiters w.agent.idle_notify n enabled)
        ]
      where
        woken :
            (k : ℕ)
            → k < w.agent.spawned
            → w.agent.tasks k ≡ Task.wake_waiters
            → notify.is_ready (notify.notify_waiters w.agent.idle_notify) n ≡ true
            → Returned j w
        woken k below stands ready = then j k w below stands tt Move.wake (
            from_ready n _
              (
                lt,
                none_left,
                put-there k j Task.gone w.agent.tasks
                      (λ same. cc (ap w.agent.tasks same, stands, e))
                    ∙ e,
              )
              ready)

  -- A `close` or `destroy` that has been called and has not returned.
  abbrev pub IsWaiter : Job → Type 0
  IsWaiter Task.begin_close = Unit
  IsWaiter (Task.store_destroyed _) = Unit
  IsWaiter (Task.store_closed _) = Unit
  IsWaiter (Task.store_error _) = Unit
  IsWaiter Task.drain_tokens = Unit
  IsWaiter (Task.cancel_tokens _) = Unit
  IsWaiter Task.load_count = Unit
  IsWaiter Task.enable_notified = Unit
  IsWaiter (Task.load_again _) = Unit
  IsWaiter (Task.parked _) = Unit
  IsWaiter _ = ⊥

  waiter-counted : (p : Job) → IsWaiter p → counted cancellation notify p ≡ 0
  waiter-counted p h = ground arith

  quiet-Returned :
      (j : ℕ) (w : Whole) (p : Job)
      → IsWaiter p
      → Lives watch cancellation notify http cap w
      → running watch cancellation notify http cap w ≡ 0
      → Idle j w p
      → Returned j w
  quiet-Returned j w Task.begin_close h live quiet i = from_begin_close j w i
  quiet-Returned j w (Task.store_destroyed e) h live quiet i = from_store_destroyed j e w i
  quiet-Returned j w (Task.store_closed e) h live quiet i = from_store_closed j e w i
  quiet-Returned j w (Task.store_error e) h live quiet i = from_store_error j e w i
  quiet-Returned j w Task.drain_tokens h live quiet i = from_drain_tokens j w i
  quiet-Returned j w (Task.cancel_tokens ts) h live quiet i = from_cancel_tokens j ts w i
  quiet-Returned j w Task.load_count h live quiet i = from_load_count j w i
  quiet-Returned j w Task.enable_notified h live quiet i = from_enable_notified j w i
  quiet-Returned j w (Task.load_again n) h live quiet i = from_load_again j w n i
  quiet-Returned j w (Task.parked n) h live quiet i = from_parked j n w live quiet i
  quiet-Returned j w _ h live quiet i = absurd h

  -- No `close` and no `destroy` hangs: in every world that can come about, whatever requests are
  -- under way, paused or not, each such call can be brought to its return by nothing but timers that
  -- run out, callers that resume and tasks that are run: without a new call, an abort or a future
  -- that is dropped early.
  pub waiter-Returned :
      {w : Whole} (j : ℕ)
      → Lives watch cancellation notify http cap w
      → j < w.agent.spawned
      → IsWaiter (w.agent.tasks j)
      → Returned j w
  waiter-Returned {w} j live lt waits =
      let q =
        drain_at watch cancellation notify http cap (running watch cancellation notify http cap w) j
          w lt (waiter-counted (w.agent.tasks j) waits) refl in
      let alive = Turns-Turns watch cancellation notify http cap live q.turns.0 in
      let exact =
        (Reach-Inv cancellation notify
          (Lives-Reach watch cancellation notify http cap alive)).exact in
      let (v, turns, back, kept) =
        quiet-Returned j q.last (w.agent.tasks j) waits alive q.idle
          (q.below, exact ∙ q.idle, q.stands) in
      (v, Course-Course watch cancellation notify http cap q.turns turns, back, kept ∙ q.kept)
