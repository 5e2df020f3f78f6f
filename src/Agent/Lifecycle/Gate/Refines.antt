-- ===== src/Agent/Lifecycle/Gate/Refines.antt =====
-- packages/core/src/agent.rs: the agent against the gate that specifies it.
use node_reqwest.Prelude.{ℕ, ◌+◌, ◌≡◌, ◌≢◌, refl, Bool, true, false, arith}
use node_reqwest.Prelude.Family.{put, sum_below, sum_below-put, sum_below-enter}
use node_reqwest.Runtime.{Cancellation, Notify}
use node_reqwest.Agent.Lifecycle.{Shared, Task, Move, Entry, System, Step, Reach}
use node_reqwest.Agent.Lifecycle.Idle.{counted, active, Reach-Inv}
use node_reqwest.Agent.Lifecycle.Gate.{
  Door, wide, closing, shut, Gate, Label, lets_in, admits, finishes, refuses, dooms, shuts, returns,
  silent, Allowed, after,
}

abbrev pub door_of : Bool → Bool → Door
door_of true _ = shut
door_of false true = closing
door_of false false = wide

destroyed-door : (c d : Bool) → d ≡ true → door_of c d ≢ wide
destroyed-door true d e w = cc
destroyed-door false true e w = cc
destroyed-door false false e w = cc

closed-door : (c d : Bool) → c ≡ true → door_of c d ≢ wide
closed-door true d e w = cc
closed-door false d e w = cc

open-door : (c d : Bool) → c ≡ false → door_of c d ≢ shut
open-door true d e w = cc
open-door false true e w = cc
open-door false false e w = cc

module _ (cancellation : Cancellation) (notify : Notify) where
  abbrev Job : Type 0
  Job = Task cancellation notify

  -- A dispatch between its checks and its count.
  abbrev pub entering : Job → ℕ
  entering Task.make_controller = 1
  entering Task.take_id = 1
  entering (Task.add_count _) = 1
  entering _ = 0

  -- The gate that the agent's state stands for.
  abbrev pub gate : System cancellation notify → Gate
  gate s = record {
    door = door_of s.closed s.destroyed;
    entering = sum_below s.spawned entering s.tasks;
    active = active cancellation notify s;
  }

  abbrev pub move_label :
      {i : ℕ} {m m' : Shared cancellation notify} {p p' : Job}
      → Move cancellation notify i m p m' p'
      → Label
  move_label (Move.find_destroyed _) = refuses
  move_label (Move.find_closed _) = refuses
  move_label (Move.pass_closed _) = lets_in
  move_label Move.count = admits
  move_label (Move.uncount_last _) = finishes
  move_label (Move.uncount _) = finishes
  move_label Move.set_destroyed = dooms
  move_label Move.set_closed = shuts
  move_label Move.close = shuts
  move_label (Move.find_idle _) = returns
  move_label (Move.still_idle _) = returns
  move_label _ = silent

  abbrev pub label : {s t : System cancellation notify} → Step cancellation notify s t → Label
  label (Step.enter en room) = silent
  label (Step.run i lt mv) = move_label mv
  label (Step.abort i handed) = silent

  abbrev at : Shared cancellation notify → ℕ → ℕ → Gate
  at m e a = record { door = door_of m.closed m.destroyed; entering = e; active = a }

  move-Allowed :
      {i : ℕ} {m m' : Shared cancellation notify} {p p' : Job} (e a e' a' : ℕ)
      (mv : Move cancellation notify i m p m' p')
      → e' + entering p ≡ e + entering p'
      → a' + counted cancellation notify p ≡ a + counted cancellation notify p'
      → m.active_count ≡ a
      → Allowed (move_label mv) (at m e a)
  move-Allowed {m} e a e' a' (Move.find_destroyed is) f g exact =
      destroyed-door m.closed m.destroyed is
  move-Allowed {m} e a e' a' (Move.find_closed is) f g exact = closed-door m.closed m.destroyed is
  move-Allowed {m} e a e' a' (Move.pass_closed is) f g exact = open-door m.closed m.destroyed is
  move-Allowed e a e' a' (Move.find_idle idle) f g exact = omega arith
  move-Allowed e a e' a' (Move.still_idle idle) f g exact = omega arith
  move-Allowed e a e' a' mv f g exact = ground arith

  move-after :
      {i : ℕ} {m m' : Shared cancellation notify} {p p' : Job} (e a e' a' : ℕ)
      (mv : Move cancellation notify i m p m' p')
      → e' + entering p ≡ e + entering p'
      → a' + counted cancellation notify p ≡ a + counted cancellation notify p'
      → after (move_label mv) (at m e a) ≡ at m' e' a'
  move-after e a e' a' Move.count f g = ground arith
  move-after e a e' a' mv f g = ground arith

  entry-weightless :
      {t : Job}
      → Entry cancellation notify t
      → (entering t ≡ 0) × (counted cancellation notify t ≡ 0)
  entry-weightless Entry.dispatch = (refl, refl)
  entry-weightless Entry.closing = (refl, refl)
  entry-weightless (Entry.destroying e) = (refl, refl)

  -- The agent refines its gate. Each access in a reachable state is one that the gate allows, and
  -- takes the gate of the state before to the gate of the state behind: a dispatch is let in only
  -- while the agent is not closed, it is refused only when the agent is closed or destroyed, and
  -- a waiter returns only when no request is active.
  pub step-Allowed :
      {s t : System cancellation notify}
      → Reach cancellation notify s
      → (st : Step cancellation notify s t)
      → Allowed (label st) (gate s) × (after (label st) (gate s) ≡ gate t)
  step-Allowed {s} r (Step.enter {t} en room) = (
    tt,
    rw
        (
          sum_below-enter s.spawned entering s.tasks t (entry-weightless en).0,
          sum_below-enter s.spawned (counted cancellation notify) s.tasks t (entry-weightless en).1,
        )
        refl,
  )
  step-Allowed {s} r (Step.run i {m} {t} lt mv) =
      let e' = sum_below s.spawned entering (put i t s.tasks) in
      let a' = sum_below s.spawned (counted cancellation notify) (put i t s.tasks) in
      let f = sum_below-put s.spawned entering s.tasks i t lt in
      let g = sum_below-put s.spawned (counted cancellation notify) s.tasks i t lt in
      (
        move-Allowed _ _ e' a' mv f g (Reach-Inv cancellation notify r).exact,
        move-after _ _ e' a' mv f g,
      )
  step-Allowed r (Step.abort i handed) = (tt, refl)
