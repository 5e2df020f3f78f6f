-- ===== src/Agent/Lifecycle/Late.antt =====
-- packages/core/src/agent.rs: a `dispatch` that is past its checks when `destroy` runs.
use node_reqwest.Prelude.{ℕ, ◌<◌, ◌≡◌, ◌≢◌, refl, sym, ap, subst, ◌∙◌, true, false, List, [], ◌∷◌}
use node_reqwest.Prelude.Family.{put, put-here, put-there}
use node_reqwest.Runtime.{Cancellation, Notify}
use node_reqwest.Error.{CoreError}
use node_reqwest.Agent.Lifecycle.{Shared, Task, Move, System, Step, is_destroyed}
use node_reqwest.Agent.Lifecycle.Refusal.{Steps}

module _ (cancellation : Cancellation) (notify : Notify) where
  abbrev Agent : Type 0
  Agent = System cancellation notify

  abbrev Job : Type 0
  Job = Task cancellation notify

  -- A move more of task `j`, which stands at `p`.
  go_at :
      {s t : Agent} {m : Shared cancellation notify} {p p' : Job} (j : ℕ)
      → Steps cancellation notify s t
      → j < t.spawned
      → t.tasks j ≡ p
      → Move cancellation notify j t.shared p m p'
      → Steps cancellation notify s
          (record { shared = m; tasks = put j p' t.tasks; spawned = t.spawned })
  go_at {t = t} {m} {p' = p'} j steps lt e mv =
      Steps.go steps
        (Step.run j lt (subst (λ q. Move cancellation notify j t.shared q m p') (sym e) mv))

  -- Steps of a `destroy`, task `j`, to the place `p`, with its first flag set, while no request is
  -- active and dispatch `i` stands behind its checks.
  record Overtaking (s : Agent) (i j : ℕ) (p : Job) : Type 0 where
    last : Agent
    steps : Steps cancellation notify s last
    below_i : i < last.spawned
    below_j : j < last.spawned
    here : last.tasks j ≡ p
    there : last.tasks i ≡ Task.make_controller
    idle : last.active_count ≡ 0
    flag : is_destroyed cancellation notify last.shared ≡ true

  module _ {s : Agent} {i j : ℕ} (apart : j ≢ i) where
    advance :
        {p p' : Job} {m : Shared cancellation notify} (r : Overtaking s i j p)
        → Move cancellation notify j r.last.shared p m p'
        → m.active_count ≡ 0
        → is_destroyed cancellation notify m ≡ true
        → Overtaking s i j p'
    advance {p' = p'} r mv idle flag = record {
      last = _;
      steps = go_at j r.steps r.below_j r.here mv;
      below_i = r.below_i;
      below_j = r.below_j;
      here = put-here j p' r.last.tasks;
      there = put-there j i p' r.last.tasks apart ∙ r.there;
      idle = idle;
      flag = flag;
    }

    cancelling :
        (tokens : List ℕ)
        → Overtaking s i j (Task.cancel_tokens tokens)
        → Overtaking s i j Task.returned
    cancelling [] r =
        let counted = advance r Move.cancelled_all r.idle r.flag in
        advance counted (Move.find_idle counted.idle) counted.idle counted.flag
    cancelling (t ∷ tokens) r = cancelling tokens (advance r Move.cancel r.idle r.flag)

    overtaking :
        (e : CoreError)
        → i < s.spawned
        → j < s.spawned
        → s.tasks j ≡ Task.store_destroyed e
        → s.tasks i ≡ Task.make_controller
        → s.active_count ≡ 0
        → Overtaking s i j Task.returned
    overtaking e lt_i lt_j here there idle =
        let flagged : Overtaking s i j (Task.store_closed e) = record {
          last = _;
          steps = go_at j Steps.stay lt_j here Move.set_destroyed;
          below_i = lt_i;
          below_j = lt_j;
          here = put-here j (Task.store_closed e) s.tasks;
          there = put-there j i (Task.store_closed e) s.tasks apart ∙ there;
          idle = idle;
          flag = refl;
        } in
        let closed = advance flagged Move.set_closed flagged.idle flagged.flag in
        let stored = advance closed Move.set_error closed.idle closed.flag in
        cancelling _ (advance stored Move.drain_all stored.idle stored.flag)

  -- Dispatch `i` is in flight, under a token that nobody has cancelled.
  abbrev pub IsLive : ℕ → Agent → Type 0
  IsLive i u =
      (id : ℕ) × (u.tasks i ≡ Task.in_flight id) × (cancellation.is_cancelled (u.cells i) ≡ false)

  admitting :
      (t : Agent) (i : ℕ)
      → i < t.spawned
      → t.tasks i ≡ Task.make_controller
      → (u : Agent) × Steps cancellation notify t u × IsLive i u × (u.destroyed ≡ t.destroyed)
  admitting t i lt e =
      let f1 = put i Task.take_id t.tasks in
      let f2 = put i (Task.add_count t.next_id) f1 in
      let f3 = put i (Task.insert_token t.next_id) f2 in
      let r1 = go_at i Steps.stay lt e Move.make in
      let r2 = go_at i r1 lt (put-here i Task.take_id t.tasks) Move.take in
      let r3 = go_at i r2 lt (put-here i (Task.add_count t.next_id) f1) Move.count in
      (
        _,
        go_at i r3 lt (put-here i (Task.insert_token t.next_id) f2) Move.register,
        (
          t.next_id,
          put-here i (Task.in_flight t.next_id) f3,
          ap cancellation.is_cancelled (put-here i cancellation.new t.cells)
              ∙ cancellation.is_cancelled-new,
        ),
        refl,
      )

  -- A `destroy` that is called while no request is active and a dispatch stands behind both of its
  -- checks can return with that dispatch still there; the agent is then destroyed, and yet the
  -- dispatch can go on to a request in flight with a token that nobody has cancelled.
  pub admitted_late :
      {s : Agent} (i j : ℕ) (e : CoreError)
      → j ≢ i
      → i < s.spawned
      → j < s.spawned
      → s.tasks j ≡ Task.store_destroyed e
      → s.tasks i ≡ Task.make_controller
      → s.active_count ≡ 0
      → (t : Agent) × Steps cancellation notify s t
        × (t.tasks j ≡ Task.returned)
        × (t.tasks i ≡ Task.make_controller)
        × (is_destroyed cancellation notify t.shared ≡ true)
        × (u : Agent) × Steps cancellation notify t u
        × IsLive i u
        × (is_destroyed cancellation notify u.shared ≡ true)
  admitted_late i j e apart lt_i lt_j here there idle =
      let r = overtaking apart e lt_i lt_j here there idle in
      let (u, steps, live, same) = admitting r.last i r.below_i r.there in
      (r.last, r.steps, r.here, r.there, r.flag, u, steps, live, same ∙ r.flag)
