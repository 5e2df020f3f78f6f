-- ===== src/Agent/Lifecycle/Gate/Late.antt =====
-- packages/core/src/agent.rs: how many requests a shut agent still lets through.
use node_reqwest.Prelude.{ℕ, ◌+◌, ◌≤◌, ◌≡◌, sym, ◌∙◌, ap, true, arith}
use node_reqwest.Runtime.{Cancellation, Notify}
use node_reqwest.Agent.Lifecycle.{System, Reach, is_closed}
use node_reqwest.Agent.Lifecycle.Refusal.{Steps, stay, go}
use node_reqwest.Agent.Lifecycle.Waits.{Reach-Steps}
use node_reqwest.Agent.Lifecycle.Gate.{shut, Gate, Label, lets_in, admits, dooms, Allowed, after}
use node_reqwest.Agent.Lifecycle.Gate.Refines.{door_of, label, gate, step-Allowed}

-- The requests that an access counts: one or none.
abbrev pub admitted : Label → ℕ
admitted admits = 1
admitted _ = 0

-- Behind a shut door each count uses up a dispatch that was entering, and none comes in.
Allowed-shut :
    (l : Label) (g : Gate)
    → Allowed l g
    → g.door ≡ shut
    → ((after l g).door ≡ shut) × (admitted l + (after l g).entering ≡ g.entering)
Allowed-shut lets_in g h is = absurd (h is)
Allowed-shut dooms g h is = ground arith
Allowed-shut l g h is = ground arith

module _ (cancellation : Cancellation) (notify : Notify) where
  -- The requests counted on the way.
  abbrev pub admissions : {s t : System cancellation notify} → Steps cancellation notify s t → ℕ
  admissions stay = 0
  admissions (go before st) = admitted (label cancellation notify st) + admissions before

  abbrev gate_of : System cancellation notify → Gate
  gate_of = gate cancellation notify

  steps-shut :
      {s t : System cancellation notify}
      → Reach cancellation notify s
      → (gate_of s).door ≡ shut
      → (steps : Steps cancellation notify s t)
      → ((gate_of t).door ≡ shut) × (admissions steps + (gate_of t).entering ≡ (gate_of s).entering)
  steps-shut r is stay = (is, omega arith)
  steps-shut r is (go {t} {u} before st) =
      let (now, sum) = steps-shut r is before in
      let (allowed, target) =
        step-Allowed cancellation notify (Reach-Steps cancellation notify r before) st in
      let (stays, uses) = Allowed-shut (label cancellation notify st) (gate_of t) allowed now in
      (sym (ap (λ g. g.door) target) ∙ stays, omega (arith, sum, uses, ap (λ g. g.entering) target))

  -- After `close`, or behind the second flag of `destroy`, no more requests are counted than there
  -- were dispatches that had already passed their checks and were not yet counted.
  pub admissions-le :
      {s t : System cancellation notify}
      → Reach cancellation notify s
      → is_closed cancellation notify s.shared ≡ true
      → (steps : Steps cancellation notify s t)
      → admissions steps ≤ (gate cancellation notify s).entering
  admissions-le {s} r closed steps =
      omega (arith, (steps-shut r (ap (λ c. door_of c s.destroyed) closed) steps).1)
