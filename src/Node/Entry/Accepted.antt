-- ===== src/Node/Entry/Accepted.antt =====
-- packages/node/src/agent.rs, `agent_dispatch`: the requests that reach the core.
use node_reqwest.Prelude.{
  ℕ, ◌^◌, ◌<◌, ◌≡◌, ◌⊎◌, inl, inr, refl, subst, ◌==◌, ==_iff, ltb, ltb→lt, Bool-cases, Bool, true,
  false, Option, none, some, arith,
}
use node_reqwest.Prelude.Outcome.{Result, ok, err, map_err, Holds, Holds->>=, Holds-ok}
use node_reqwest.Error.{CoreError, to_string}
use node_reqwest.Dispatcher.{DispatchOptions}
use node_reqwest.Dispatcher.Method.{MethodApi}
use node_reqwest.Node.Js.{Js, Number, nan, infinite, finite}
use node_reqwest.Node.Dispatch.{BodyApi, parse_dispatch_options}
use node_reqwest.Node.Dispatch.Bounds.{Sound, Sound-parse_dispatch_options}
use node_reqwest.Node.Entry.{req_id_of, agent_dispatch}

module _ (js : Js) where
  open js.numbers use {cast, cast-inside, cast-above, cast-below, cast-infinite, cast-nan}

  -- A number whose whole part is `value`, which fits 32 bits, and which is not below -1 or at it.
  abbrev pub RequestId : Number → ℕ → Type 0
  RequestId n value =
      (negative : Bool) × (fractional : Bool) × (n ≡ finite negative value fractional)
      × ((negative ≡ false) ⊎ (value ≡ 0))
      × (value < 2 ^ 32)

  cast-RequestId :
      (negative : Bool) (whole : ℕ) (fractional : Bool) (value : ℕ)
      → (negative ≡ false) ⊎ (whole ≡ 0)
      → cast 32 (finite negative whole fractional) ≡ some value
      → RequestId (finite negative whole fractional) value
  cast-RequestId negative whole fractional value sign e = elim (Bool-cases (ltb whole (2 ^ 32))) [
    | inl lt ↦
        let below = ltb→lt whole (2 ^ 32) lt in
        let same : whole ≡ value = cc (e, cast-inside 32 negative whole fractional sign below) in
        subst (RequestId (finite negative whole fractional)) same
          (negative, fractional, refl, sign, below)
    | inr ge ↦ absurd (cc (e, cast-above 32 negative whole fractional (ground (arith, ge))))
  ]

  cast-Number : (n : Number) (value : ℕ) → cast 32 n ≡ some value → RequestId n value
  cast-Number nan value e = absurd (cc (e, cast-nan 32))
  cast-Number (infinite negative) value e = absurd (cc (e, cast-infinite 32 negative))
  cast-Number (finite false whole fractional) value e =
      cast-RequestId false whole fractional value (inl refl) e
  cast-Number (finite true whole fractional) value e = elim (Bool-cases (whole == 0)) [
    | inl zeroed ↦ cast-RequestId true whole fractional value (inr ((==_iff whole 0).0 zeroed)) e
    | inr present ↦
        absurd (cc (e, cast-below 32 whole fractional (λ z. ground (arith, present, z))))
  ]

  req_id_of-RequestId : (n : Number) → Holds (RequestId n) (req_id_of js n)
  unfolding req_id_of
  req_id_of-RequestId n = go (cast 32 n) refl
    where
      go : (o : Option ℕ) → cast 32 n ≡ o → Holds (RequestId n) (req_id_of js n)
      go (some value) e = rw (req_id_of, e) (cast-Number n value e)
      go none e = rw (req_id_of, e) tt

module _ (js : Js) (api : MethodApi) (bodies : BodyApi js) (Controller Future : Type 0)
    (dispatch : DispatchOptions api.Method bodies.Body
      → ℕ
      → Result CoreError (Controller × Future)) where
  -- What was dispatched for a handle that was returned.
  abbrev pub Dispatched : js.Value → Number → Controller × Future → Type 0
  Dispatched options n answer =
      (req_id : ℕ) × (asked : DispatchOptions api.Method bodies.Body) × RequestId js n req_id
      × (parse_dispatch_options js api bodies options ≡ ok asked)
      × Sound js api bodies asked
      × (dispatch asked req_id ≡ ok answer)

  -- A handle is returned, and a future spawned, only for a request that the core has admitted: with
  -- the options that were read, which keep their bounds, and with a request number that is the whole
  -- part of the given one, a 32-bit number.
  pub Dispatched-agent_dispatch :
      (options : js.Value) (n : Number) (answer : Controller × Future)
      → agent_dispatch js api bodies Controller Future dispatch options n ≡ ok answer
      → Dispatched options n answer
  unfolding agent_dispatch
  Dispatched-agent_dispatch options n answer e =
      Holds-ok (Dispatched options n) _
        (Holds->>= (Dispatched options n) (req_id_of js n) _ λ req_id taken.
          Holds->>= (Dispatched options n) (parse_dispatch_options js api bodies options) _
            λ asked parsed. admitted req_id asked (dispatch asked req_id) taken parsed refl)
        e
    where
      admitted :
          (req_id : ℕ) (asked : DispatchOptions api.Method bodies.Body)
          (r : Result CoreError (Controller × Future))
          → req_id_of js n ≡ ok req_id
          → parse_dispatch_options js api bodies options ≡ ok asked
          → dispatch asked req_id ≡ r
          → Holds (Dispatched options n) (map_err (λ e. js.error (to_string e)) r)
      admitted req_id asked (err _) taken parsed answered = tt
      admitted req_id asked (ok pair) taken parsed answered = (
        req_id,
        asked,
        Holds-ok (RequestId js n) _ (req_id_of-RequestId js n) taken,
        parsed,
        Sound-parse_dispatch_options js api bodies options asked parsed,
        answered,
      )
