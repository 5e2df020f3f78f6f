-- ===== src/Agent/Request/Cap.antt =====
-- packages/core/src/agent.rs, `execute_request`: the cap on the size of the response body.
use node_reqwest.Prelude.{
  ℕ, ◌+◌, ◌≤◌, ◌<◌, ◌≡◌, ap, length, some, List, [], ◌∷◌, ◌++◌, ◌⊎◌, inl, inr, arith,
}
use node_reqwest.Agent.Request.{
  HttpApi, Event, on_start, on_data, on_end, on_error, finished, Exchange, Signals, Io, u64_max,
  poll, run,
}
use node_reqwest.Agent.Request.Cancel.{run-finished}

-- The bytes that the handler was given.
abbrev pub delivered : List Event → ℕ
delivered [] = 0
delivered (on_data bytes ∷ es) = length bytes + delivered es
delivered (_ ∷ es) = delivered es

delivered-append : (es fs : List Event) → delivered (es ++ fs) ≡ delivered es + delivered fs
delivered-append [] fs = omega arith
delivered-append (on_data bytes ∷ es) fs = omega (arith, delivered-append es fs)
delivered-append (on_start _ ∷ es) fs = delivered-append es fs
delivered-append (on_end _ ∷ es) fs = delivered-append es fs
delivered-append (on_error _ ∷ es) fs = delivered-append es fs

module _ (http : HttpApi) (cap : ℕ) where
  delivered-poll :
      (s : Signals) (io : Io) (x : Exchange)
      → cap < u64_max
      → x.received_bytes ≤ cap
      → (delivered (poll http (some cap) s io x).1 + x.received_bytes ≤ cap)
        × (((poll http (some cap) s io x).0.phase ≡ finished)
            ⊎ ((poll http (some cap) s io x).0.received_bytes
                ≡ delivered (poll http (some cap) s io x).1 + x.received_bytes))
  unfolding poll
  delivered-poll s io x small h = ground arith

  -- With a cap below the largest 64-bit number the handler is never given more bytes than the cap,
  -- in whatever chunks they come.
  pub delivered-run :
      (polls : List (Signals × Io)) (x : Exchange)
      → cap < u64_max
      → x.received_bytes ≤ cap
      → delivered (run http (some cap) polls x).1 + x.received_bytes ≤ cap
  unfolding run
  delivered-run [] x small h = omega arith
  delivered-run ((s, io) ∷ polls) x small h =
      let (y, events) = poll http (some cap) s io x in
      let split = delivered-append events (run http (some cap) polls y).1 in
      let (fits, after) = delivered-poll s io x small h in
      elim after [
        | inl over ↦ omega (
          arith,
          split,
          fits,
          ap (λ r. delivered r.1) (run-finished http (some cap) polls y over),
        )
        | inr counted ↦
            omega
              (arith, split, counted, delivered-run polls y small (omega (arith, fits, counted)))
      ]
