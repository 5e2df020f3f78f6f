-- ===== src/Agent/World/Drains.antt =====
-- packages/core/src/agent.rs: a request that is counted can be brought to its end, whatever state it
-- is in, by its caller, its timers and the runtime, without touching any other task.
use native.Mathlib.Decide.{ℕ_discrete}
use node_reqwest.Prelude.{
  ℕ, ◌<◌, ◌≡◌, ◌≢◌, refl, sym, ap, subst, ◌∙◌, false, not, Option, some, arith,
}
use node_reqwest.Prelude.Family.{put-here, put-there}
use node_reqwest.Runtime.{Watch, Cancellation, Notify}
use node_reqwest.Dispatcher.Controller.{resumes}
use node_reqwest.Dispatcher.Pause
use node_reqwest.Agent.Request.{HttpApi, Exchange, finished, Signals, Io, elapsed, poll}
use node_reqwest.Agent.Request.Flight.{signals}
use node_reqwest.Agent.Lifecycle.{Shared, Task, Move, IsHandedOut}
use node_reqwest.Agent.Lifecycle.Waits.{IsOver}
use node_reqwest.Agent.Lifecycle.Idle.{counted}
use node_reqwest.Agent.World.{
  World, NotInFlight, Turn, Turns, moved, polled, called, flight, rest, on,
}
use node_reqwest.Agent.World.Projection.{Turns-Turns}

-- A poll at which every timer has run out.
abbrev pub late : Io
late = record { cancel_first = false; sent = some elapsed; item = some elapsed }

module _ (http : HttpApi) (cap : Option ℕ) where
  -- Two such polls are enough, the first of them not paused.
  poll-late :
      (s r : Signals) (x : Exchange)
      → s.paused ≡ false
      → (poll http cap r late (poll http cap s late x).0).0.phase ≡ finished
  unfolding poll
  poll-late s r x awake = ground arith

module _ (watch : Watch) (cancellation : Cancellation) (notify : Notify) (http : HttpApi)
    (cap : Option ℕ) where
  abbrev Whole : Type 0
  Whole = World watch cancellation notify http cap

  abbrev Job : Type 0
  Job = Task cancellation notify

  -- What keeps an agent going without a new decision: timers that run out, callers that resume, and
  -- tasks that are run.
  abbrev pub Helps : {w v : Whole} → Turn watch cancellation notify http cap w v → Type 0
  Helps (Turn.enter en room) = ⊥
  Helps (Turn.access i lt other mv) = Unit
  Helps (Turn.wake i id io e) = io ≡ late
  Helps (Turn.complete i id lt e done) = Unit
  Helps (Turn.abandon i id lt e) = ⊥
  Helps (Turn.by_caller c i handed) = c ≡ resumes

  abbrev pub AllHelp : {w v : Whole} → Turns watch cancellation notify http cap w v → Type 0
  AllHelp rest = Unit
  AllHelp (on before turn) = AllHelp before × Helps turn

  -- A run of such turns.
  abbrev pub Course : Whole → Whole → Type 0
  Course w v = (turns : Turns watch cancellation notify http cap w v) × AllHelp turns

  Turns-Turns-AllHelp :
      {w v u : Whole} (before : Turns watch cancellation notify http cap w v)
      (turns : Turns watch cancellation notify http cap v u)
      → AllHelp before
      → AllHelp turns
      → AllHelp (Turns-Turns watch cancellation notify http cap before turns)
  unfolding Turns-Turns
  Turns-Turns-AllHelp before rest helped helps = helped
  Turns-Turns-AllHelp before (on more turn) helped (helps, last) =
      (Turns-Turns-AllHelp before more helped helps, last)

  pub Course-Course : {w v u : Whole} → Course w v → Course v u → Course w u
  Course-Course (before, helped) (turns, helps) = (
    Turns-Turns watch cancellation notify http cap before turns,
    Turns-Turns-AllHelp before turns helped helps,
  )

  pub Course-Turn :
      {w v : Whole} (turn : Turn watch cancellation notify http cap w v) → Helps turn → Course w v
  Course-Turn turn helps = (Turns.on Turns.rest turn, (tt, helps))

  abbrev pub stepped : ℕ → Shared cancellation notify → Job → Whole → Whole
  stepped k m p w = record w { agent = moved watch cancellation notify http cap k m p w.agent }

  -- A run that ends request `k`, leaves the other tasks where they are and drops no future early.
  pub record Finish (k : ℕ) (w : Whole) : Type 0 where
    pub last : Whole
    pub turns : Course w last
    pub room : last.agent.spawned ≡ w.agent.spawned
    pub others : (j : ℕ) → j ≢ k → last.agent.tasks j ≡ w.agent.tasks j
    pub kept : last.dropped ≡ w.dropped
    pub over : IsOver cancellation notify (last.agent.tasks k)

  stop : (k : ℕ) (w : Whole) → IsOver cancellation notify (w.agent.tasks k) → Finish k w
  stop k w over = record {
    last = w;
    turns = (Turns.rest, tt);
    room = refl;
    others = λ j ne. refl;
    kept = refl;
    over = over;
  }

  first :
      (k : ℕ) {w u : Whole}
      → Course w u
      → u.agent.spawned ≡ w.agent.spawned
      → ((j : ℕ) → j ≢ k → u.agent.tasks j ≡ w.agent.tasks j)
      → u.dropped ≡ w.dropped
      → Finish k u
      → Finish k w
  first k turn room others kept f = record {
    last = f.last;
    turns = Course-Course turn f.turns;
    room = f.room ∙ room;
    others = λ j ne. f.others j ne ∙ others j ne;
    kept = f.kept ∙ kept;
    over = f.over;
  }

  first_access :
      (k : ℕ) (w : Whole) {m : Shared cancellation notify} {p p' : Job}
      → k < w.agent.spawned
      → w.agent.tasks k ≡ p
      → NotInFlight watch cancellation notify http cap p
      → Move cancellation notify k w.agent.shared p m p'
      → Finish k (stepped k m p' w)
      → Finish k w
  first_access k w {m} {p' = p'} lt e other mv =
      first k
        (Course-Turn
          (Turn.access k lt (subst (NotInFlight watch cancellation notify http cap) (sym e) other)
            (subst (λ q. Move cancellation notify k w.agent.shared q m p') (sym e) mv))
          tt)
        refl (λ j ne. put-there k j p' w.agent.tasks (λ same. ne (sym same))) refl

  from_sub_count :
      (k : ℕ) (w : Whole) → k < w.agent.spawned → w.agent.tasks k ≡ Task.sub_count → Finish k w
  from_sub_count k w lt e = elim (ℕ_discrete w.agent.active_count 1) [
    | yes one ↦ first_access k w lt e tt (Move.uncount_last one) (
        stop k _ (
          subst (IsOver cancellation notify) (sym (put-here k Task.wake_waiters w.agent.tasks)) tt))
    | no many ↦ first_access k w lt e tt (Move.uncount many) (
        stop k _ (subst (IsOver cancellation notify) (sym (put-here k Task.gone w.agent.tasks)) tt))
  ]

  from_remove_token :
      (k id : ℕ) (w : Whole)
      → k < w.agent.spawned
      → w.agent.tasks k ≡ Task.remove_token id
      → Finish k w
  from_remove_token k id w lt e =
      first_access k w lt e tt Move.unregister
        (from_sub_count k _ lt (put-here k Task.sub_count w.agent.tasks))

  from_finished :
      (k id : ℕ) (w : Whole)
      → k < w.agent.spawned
      → w.agent.tasks k ≡ Task.in_flight id
      → (w.exchanges k).phase ≡ finished
      → Finish k w
  from_finished k id w lt e done =
      first k (Course-Turn (Turn.complete k id lt e done) tt) refl
        (λ j ne. put-there k j (Task.remove_token id) w.agent.tasks (λ same. ne (sym same))) refl
        (from_remove_token k id _ lt (put-here k (Task.remove_token id) w.agent.tasks))

  resumed-awake :
      (k : ℕ) (w : Whole)
      → let u = called watch cancellation notify http cap resumes k w in
        (signals watch cancellation http cap (flight watch cancellation notify http cap k u)).paused
        ≡ false
  unfolding signals flight called Pause.wait_if_paused Pause.resume
  resumed-awake k w =
      let resumed = Pause.resume watch (w.pause_states k) in
      ap (λ p. not (not (watch.borrow p.signal))) (put-here k resumed w.pause_states)
      ∙ ap (λ b. not (not b)) (watch.borrow-send false (w.pause_states k).signal)

  polled-phase :
      (k : ℕ) (w : Whole)
      → (polled watch cancellation notify http cap k late w).exchanges k
        ≡ (poll http cap
            (signals watch cancellation http cap (flight watch cancellation notify http cap k w))
            late
            (w.exchanges k)).0
  unfolding polled
  polled-phase k w = put-here k _ w.exchanges

  from_in_flight :
      (k id : ℕ) (w : Whole)
      → k < w.agent.spawned
      → w.agent.tasks k ≡ Task.in_flight id
      → Finish k w
  unfolding polled called
  from_in_flight k id w lt e =
      let u = called watch cancellation notify http cap resumes k w in
      let v = polled watch cancellation notify http cap k late u in
      let x = polled watch cancellation notify http cap k late v in
      let now = λ (w : Whole).
        signals watch cancellation http cap (flight watch cancellation notify http cap k w) in
      let done : (x.exchanges k).phase ≡ finished =
        ap (λ y. y.phase)
          (polled-phase k v ∙ ap (λ y. (poll http cap (now v) late y).0) (polled-phase k u))
        ∙ poll-late http cap (now u) (now v) (w.exchanges k) (resumed-awake k w) in
      first k
        (Course-Turn (Turn.by_caller resumes k (subst (IsHandedOut cancellation notify) (sym e) tt))
          refl)
        refl (λ j ne. refl) refl
        (first k (Course-Turn (Turn.wake k id late e) refl) refl (λ j ne. refl) refl
          (first k (Course-Turn (Turn.wake k id late e) refl) refl (λ j ne. refl) refl
            (from_finished k id x lt e done)))

  -- Wherever a counted request stands.
  pub finish_at :
      (k : ℕ) (w : Whole) (p : Job)
      → k < w.agent.spawned
      → w.agent.tasks k ≡ p
      → 0 < counted cancellation notify p
      → Finish k w
  finish_at k w (Task.insert_token id) lt e h =
      first_access k w lt e tt Move.register
        (from_in_flight k id _ lt (put-here k (Task.in_flight id) w.agent.tasks))
  finish_at k w (Task.in_flight id) lt e h = from_in_flight k id w lt e
  finish_at k w (Task.remove_token id) lt e h = from_remove_token k id w lt e
  finish_at k w Task.sub_count lt e h = from_sub_count k w lt e
  finish_at k w _ lt e h = absurd (omega arith)
