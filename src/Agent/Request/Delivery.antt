-- ===== src/Agent/Request/Delivery.antt =====
-- packages/core/src/agent.rs, `execute_request`: what an undisturbed request delivers.
use node_reqwest.Prelude.{
  ℕ, ◌+◌, ◌≤◌, ◌<◌, ◌≡◌, refl, ap, Text, length, leb, if◌then◌else◌, Bool-cases, leb→le, inl, inr,
  false, Option, none, some, List, [], ◌∷◌, arith,
}
use node_reqwest.Prelude.Outcome.{ok}
use node_reqwest.Dispatcher.{max_headers}
use node_reqwest.Agent.Request.{
  HttpApi, Response, Event, on_start, on_data, on_end, on_error, reading, finished, Exchange,
  started, Signals, Io, in_time, u64_max, saturating_add, cap_error, response_start, poll, run,
}
use node_reqwest.Agent.Request.Cancel.{run-finished}

-- Neither aborted nor paused.
abbrev pub calm : Signals
calm = record { cancelled = false; paused = false; destroy_error = none }

abbrev pub nothing_yet : Io
nothing_yet = record { cancel_first = false; sent = none; item = none }

-- The polls of a body that arrives chunk by chunk; `none` is a poll that finds nothing. A chunk is
-- followed by the poll at the head of the loop, the last one by the end of the stream.
abbrev pub reads : List (Option Text) → List (Signals × Io)
reads [] = (calm, record nothing_yet { item = some (in_time none) }) ∷ []
reads (none ∷ more) = (calm, nothing_yet) ∷ reads more
reads (some bytes ∷ more) =
    (calm, record nothing_yet { item = some (in_time (some (ok bytes))) })
    ∷ (calm, nothing_yet)
    ∷ reads more

abbrev pub chunks : List (Option Text) → List Text
chunks [] = []
chunks (none ∷ more) = chunks more
chunks (some bytes ∷ more) = bytes ∷ chunks more

-- The callbacks that a body of these chunks calls for, after `received` bytes.
abbrev pub expected : Option ℕ → ℕ → List Text → List Event
expected cap received [] = on_end [] ∷ []
expected none received (c ∷ cs) = on_data c ∷ expected none received cs
expected (some cap) received (c ∷ cs) =
    let rest = expected (some cap) (received + length c) cs in
    if leb (received + length c) cap then on_data c ∷ rest else on_error (cap_error cap) ∷ []

abbrev pub IsSmall : Option ℕ → Type 0
IsSmall none = Unit
IsSmall (some cap) = cap < u64_max

module _ (http : HttpApi) where
  -- One chunk and the poll at the head of the loop behind it.
  run-chunk_uncapped :
      (bytes : Text) (polls : List (Signals × Io)) (x : Exchange)
      → x.phase ≡ reading
      → run http none
          ((calm, record nothing_yet { item = some (in_time (some (ok bytes))) })
            ∷ (calm, nothing_yet)
            ∷ polls)
          x
        ≡ ((run http none polls x).0, on_data bytes ∷ (run http none polls x).1)
  unfolding run poll
  run-chunk_uncapped bytes polls x h = ground arith

  run-chunk_capped :
      (cap : ℕ) (bytes : Text) (polls : List (Signals × Io)) (x : Exchange)
      → cap < u64_max
      → x.phase ≡ reading
      → x.received_bytes + length bytes ≤ cap
      → let y = record x { received_bytes = x.received_bytes + length bytes } in
        run http
          (some cap)
          ((calm, record nothing_yet { item = some (in_time (some (ok bytes))) })
            ∷ (calm, nothing_yet)
            ∷ polls)
          x
        ≡ ((run http (some cap) polls y).0, on_data bytes ∷ (run http (some cap) polls y).1)
  unfolding run poll
  run-chunk_capped cap bytes polls x small h fits = ground arith

  run-chunk_over :
      (cap : ℕ) (bytes : Text) (polls : List (Signals × Io)) (x : Exchange)
      → cap < u64_max
      → x.phase ≡ reading
      → cap < x.received_bytes + length bytes
      → let done =
          run http
            (some cap)
            ((calm, record nothing_yet { item = some (in_time (some (ok bytes))) }) ∷ polls)
            x in
        (done.0.phase ≡ finished) × (done.1 ≡ on_error (cap_error cap) ∷ [])
  unfolding run poll
  run-chunk_over cap bytes polls x small h over =
      let over' : Exchange = record {
        phase = finished;
        received_bytes = saturating_add x.received_bytes (length bytes);
      } in
      ground (arith, run-finished http (some cap) polls over')

  run-pending :
      (cap : Option ℕ) (polls : List (Signals × Io)) (x : Exchange)
      → x.phase ≡ reading
      → run http cap ((calm, nothing_yet) ∷ polls) x ≡ run http cap polls x
  unfolding run poll
  run-pending cap polls x h = ground arith

  run-end :
      (cap : Option ℕ) (x : Exchange)
      → x.phase ≡ reading
      → ((run http cap (reads []) x).0.phase ≡ finished)
        × ((run http cap (reads []) x).1 ≡ on_end [] ∷ [])
  unfolding run poll
  run-end cap x h = ground arith

  abbrev Delivers : Option ℕ → List (Option Text) → Exchange → Type 0
  Delivers cap arrivals x =
      ((run http cap (reads arrivals) x).0.phase ≡ finished)
      × ((run http cap (reads arrivals) x).1 ≡ expected cap x.received_bytes (chunks arrivals))

  run-reads_uncapped :
      (arrivals : List (Option Text)) (x : Exchange) → x.phase ≡ reading → Delivers none arrivals x
  run-reads_uncapped [] x h = run-end none x h
  run-reads_uncapped (none ∷ more) x h =
      rw (run-pending none (reads more) x h) (run-reads_uncapped more x h)
  run-reads_uncapped (some bytes ∷ more) x h =
      let (done, calls) = run-reads_uncapped more x h in
      rw (run-chunk_uncapped bytes (reads more) x h) (done, ap (◌∷◌ (on_data bytes)) calls)

  run-reads_capped :
      (cap : ℕ) (arrivals : List (Option Text)) (x : Exchange)
      → cap < u64_max
      → x.phase ≡ reading
      → Delivers (some cap) arrivals x
  run-reads_capped cap [] x small h = run-end (some cap) x h
  run-reads_capped cap (none ∷ more) x small h =
      rw (run-pending (some cap) (reads more) x h) (run-reads_capped cap more x small h)
  run-reads_capped cap (some bytes ∷ more) x small h =
      elim (Bool-cases (leb (x.received_bytes + length bytes) cap)) [
        | inl fits ↦
            let y = record x { received_bytes = x.received_bytes + length bytes } in
            let (done, calls) = run-reads_capped cap more y small h in
            rw (fits, run-chunk_capped cap bytes (reads more) x small h (leb→le _ _ fits))
              (done, ap (◌∷◌ (on_data bytes)) calls)
        | inr over ↦
            let (done, calls) =
              run-chunk_over cap bytes ((calm, nothing_yet) ∷ reads more) x small h
                (ground arith) in
            rw over (done, calls)
      ]

  run-reads :
      (cap : Option ℕ) (arrivals : List (Option Text)) (x : Exchange)
      → IsSmall cap
      → x.phase ≡ reading
      → Delivers cap arrivals x
  run-reads none arrivals x small h = run-reads_uncapped arrivals x h
  run-reads (some cap) arrivals x small h = run-reads_capped cap arrivals x small h

  run-begin :
      (cap : Option ℕ) (r : Response) (polls : List (Signals × Io))
      → length r.entries ≤ max_headers
      → let io = record nothing_yet { sent = some (in_time (ok r)) } in
        let x : Exchange = record { phase = reading; received_bytes = 0 } in
        run http cap ((calm, io) ∷ (calm, nothing_yet) ∷ polls) started
        ≡ ((run http cap polls x).0, on_start (response_start http r) ∷ (run http cap polls x).1)
  unfolding run poll started
  run-begin cap r polls few = ground arith

  -- An undisturbed response of at most 256 headers is delivered whole: its start, every chunk in
  -- order however the polls fall, and its end; with a cap, the chunks up to the first that exceeds
  -- it and then the error that names the cap. The request returns in each case.
  pub run-delivers :
      (cap : Option ℕ) (r : Response) (arrivals : List (Option Text))
      → IsSmall cap
      → length r.entries ≤ max_headers
      → let io = record nothing_yet { sent = some (in_time (ok r)) } in
        let done = run http cap ((calm, io) ∷ (calm, nothing_yet) ∷ reads arrivals) started in
        (done.0.phase ≡ finished)
        × (done.1 ≡ on_start (response_start http r) ∷ expected cap 0 (chunks arrivals))
  run-delivers cap r arrivals small few =
      let x : Exchange = record { phase = reading; received_bytes = 0 } in
      let (done, calls) = run-reads cap arrivals x small refl in
      rw (run-begin cap r (reads arrivals) few)
        (done, ap (◌∷◌ (on_start (response_start http r))) calls)
