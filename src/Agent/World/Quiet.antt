-- ===== src/Agent/World/Quiet.antt =====
-- packages/core/src/agent.rs: all requests of an agent brought to their ends, one after another.
use native.Mathlib.Decide.{ℕ_discrete}
use node_reqwest.Prelude.{ℕ, zero, suc, ◌+◌, ◌<◌, ◌≤◌, ◌≡◌, ◌≢◌, refl, sym, ap, ◌∙◌, Option, arith}
use node_reqwest.Prelude.Family.{
  put, put-here, put-there, sum_below, sum_below-put, sum_below-pos, sum_below-ext,
}
use node_reqwest.Runtime.{Watch, Cancellation, Notify}
use node_reqwest.Agent.Request.{HttpApi}
use node_reqwest.Agent.Lifecycle.{Task}
use node_reqwest.Agent.Lifecycle.Waits.{IsOver}
use node_reqwest.Agent.Lifecycle.Idle.{counted, active}
use node_reqwest.Agent.World.{World, Turns}
use node_reqwest.Agent.World.Drains.{Finish, Course, Course-Course, finish_at}

module _ (watch : Watch) (cancellation : Cancellation) (notify : Notify) (http : HttpApi)
    (cap : Option ℕ) where
  abbrev Whole : Type 0
  Whole = World watch cancellation notify http cap

  abbrev Job : Type 0
  Job = Task cancellation notify

  abbrev pub running : Whole → ℕ
  running w = active cancellation notify w.agent

  -- A run after which no request is active, task `j` stands where it stood and no future has been
  -- dropped early.
  pub record Quiet (j : ℕ) (w : Whole) : Type 0 where
    pub last : Whole
    pub turns : Course watch cancellation notify http cap w last
    pub below : j < last.agent.spawned
    pub stands : last.agent.tasks j ≡ w.agent.tasks j
    pub kept : last.dropped ≡ w.dropped
    pub idle : running last ≡ 0

  over-counted : (p : Job) → IsOver cancellation notify p → counted cancellation notify p ≡ 0
  over-counted Task.wake_waiters h = refl
  over-counted Task.gone h = refl
  over-counted _ h = absurd h

  finished-running :
      (k : ℕ) (w : Whole) (f : Finish watch cancellation notify http cap k w)
      → k < w.agent.spawned
      → running f.last + counted cancellation notify (w.agent.tasks k) ≡ running w
  finished-running k w f lt =
      let weight = counted cancellation notify in
      let p = f.last.agent.tasks k in
      omega (
        arith,
        ap (λ n. sum_below n weight f.last.agent.tasks) f.room,
        sum_below-ext w.agent.spawned weight f.last.agent.tasks (put k p w.agent.tasks) (λ j.
            elim (ℕ_discrete k j) [
              | yes same ↦ sym (
                  ap (λ n. put k p w.agent.tasks n) (sym same)
                  ∙ put-here k p w.agent.tasks
                  ∙ ap f.last.agent.tasks same)
              | no other ↦
                  f.others j (λ e. other (sym e)) ∙ sym (put-there k j p w.agent.tasks other)
            ]),
        sum_below-put w.agent.spawned weight w.agent.tasks k p lt,
        over-counted p f.over,
      )

  pub drain_at :
      (n j : ℕ) (w : Whole)
      → j < w.agent.spawned
      → counted cancellation notify (w.agent.tasks j) ≡ 0
      → running w ≡ n
      → Quiet j w
  drain_at zero j w lt light e = record {
    last = w;
    turns = (Turns.rest, tt);
    below = lt;
    stands = refl;
    kept = refl;
    idle = e;
  }
  drain_at (suc n) j w lt light e =
      let weight = counted cancellation notify in
      let (k, below, pos) = sum_below-pos w.agent.spawned weight w.agent.tasks (omega (arith, e)) in
      let f = finish_at watch cancellation notify http cap k w (w.agent.tasks k) below refl pos in
      let apart : j ≢ k =
        λ same. absurd (omega (arith, light, pos, ap (λ i. weight (w.agent.tasks i)) same)) in
      let stays = f.others j apart in
      let q =
        drain_at n j f.last (omega (arith, lt, f.room)) (ap weight stays ∙ light)
          (omega (arith, e, finished-running k w f below, pos, counted-le (w.agent.tasks k))) in
      record {
        last = q.last;
        turns = Course-Course watch cancellation notify http cap f.turns q.turns;
        below = q.below;
        stands = q.stands ∙ stays;
        kept = q.kept ∙ f.kept;
        idle = q.idle;
      }
    where
      counted-le : (p : Job) → counted cancellation notify p ≤ 1
      counted-le p = ground arith
