-- ===== src/Node/Promise/Reason.antt =====
-- packages/node/src/agent.rs, `agent_destroy`: the error that the requests of a destroyed agent get.
use node_reqwest.Prelude.{
  ℕ, ◌≡◌, ◌⊎◌, refl, ap, subst, ◌∙◌, false, Option, none, some, [], ◌∷◌, ◌++◌,
}
use node_reqwest.Prelude.Family.{put, put_one}
use node_reqwest.Runtime.{Watch, Cancellation, Notify}
use node_reqwest.Error.{CoreError, client_destroyed}
use node_reqwest.Agent.Request.{HttpApi, Io, on_error, waiting, reading}
use node_reqwest.Agent.Lifecycle.{Shared, Task, Move, System, fresh, new_state}
use node_reqwest.Agent.World.{World, Turn, begun, polled, called, moved}
use node_reqwest.Dispatcher.Controller.{aborts, pauses, resumes}
use node_reqwest.Agent.World.Blame.{IsCancelled, polled-destroyed}
use node_reqwest.Node.Promise.{
  Addon, IsInner, agent_close, agent_destroy, loaded, none_yet, behind, dispatches, closes,
  destroys, moves, settles,
}
use node_reqwest.Node.Promise.Settles.{Runs, Runs-Lives}

module _ (watch : Watch) (cancellation : Cancellation) (notify : Notify) (http : HttpApi)
    (cap : Option ℕ) where
  abbrev Job : Type 0
  Job = Task cancellation notify

  abbrev Whole : Type 0
  Whole = World watch cancellation notify http cap

  -- No other error than `ClientDestroyed` is stored, or carried by a `destroy`.
  abbrev Ours : Option CoreError → Type 0
  Ours none = Unit
  Ours (some e) = e ≡ client_destroyed

  abbrev Carries : Job → Type 0
  Carries (Task.store_destroyed e) = e ≡ client_destroyed
  Carries (Task.store_closed e) = e ≡ client_destroyed
  Carries (Task.store_error e) = e ≡ client_destroyed
  Carries _ = Unit

  move-Carries :
      {i : ℕ} {m m' : Shared cancellation notify} {p p' : Job}
      → Move cancellation notify i m p m' p'
      → Carries p
      → Ours m.destroy_error
      → Carries p' × Ours m'.destroy_error
  move-Carries Move.set_destroyed c o = (c, o)
  move-Carries Move.set_closed c o = (c, o)
  move-Carries Move.set_error c o = (tt, c)
  move-Carries mv c o = (tt, o)

  abbrev Sound : System cancellation notify → Type 0
  Sound s = ((j : ℕ) → Carries (s.tasks j)) × Ours s.destroy_error

  moved-Sound :
      (s : System cancellation notify) (i : ℕ) {m' : Shared cancellation notify} {p' : Job}
      → Move cancellation notify i s.shared (s.tasks i) m' p'
      → Sound s
      → Sound (moved watch cancellation notify http cap i m' p' s)
  moved-Sound s i {p'} mv (carries, ours) =
      let (c, o) = move-Carries mv (carries i) ours in
      (λ j. put_one Carries i j p' s.tasks (λ same. c) (λ other. carries j), o)

  turn-Sound :
      {w v : Whole} (t : Turn watch cancellation notify http cap w v)
      → IsInner watch cancellation notify http cap t
      → Sound w.agent
      → Sound v.agent
  unfolding polled called
  turn-Sound (Turn.enter en room) inner sound = absurd inner
  turn-Sound {w} (Turn.access i lt other mv) inner sound = moved-Sound w.agent i mv sound
  turn-Sound (Turn.wake i id io e) inner sound = sound
  turn-Sound {w} (Turn.complete i id lt e done) inner sound = (
    λ j. put_one Carries i j (Task.remove_token id) w.agent.tasks (λ same. tt) (λ other. sound.0 j),
    sound.1,
  )
  turn-Sound {w} (Turn.abandon i id lt e) inner sound = (
    λ j. put_one Carries i j (Task.remove_token id) w.agent.tasks (λ same. tt) (λ other. sound.0 j),
    sound.1,
  )
  turn-Sound (Turn.by_caller aborts i handed) inner sound = sound
  turn-Sound (Turn.by_caller pauses i handed) inner sound = sound
  turn-Sound (Turn.by_caller resumes i handed) inner sound = sound

  entered-Sound :
      (s : System cancellation notify) (t : Job)
      → Carries t
      → Sound s
      → (j : ℕ) → Carries (put s.spawned t s.tasks j)
  entered-Sound s t c sound j =
      put_one Carries s.spawned j t s.tasks (λ same. c) (λ other. sound.0 j)

  Runs-Sound :
      {a : Addon watch cancellation notify http cap}
      → Runs watch cancellation notify http cap a
      → Sound a.world.agent
  unfolding loaded begun fresh new_state agent_close agent_destroy
  Runs-Sound none_yet = (λ j. tt, tt)
  Runs-Sound (behind {b = a} before (dispatches room)) =
      let sound = Runs-Sound before in
      (entered-Sound a.world.agent Task.check_destroyed tt sound, sound.1)
  Runs-Sound (behind {b = a} before (closes room)) =
      let sound = Runs-Sound before in
      (entered-Sound a.world.agent Task.begin_close tt sound, sound.1)
  Runs-Sound (behind {b = a} before (destroys room)) =
      let sound = Runs-Sound before in
      (entered-Sound a.world.agent (Task.store_destroyed client_destroyed) refl sound, sound.1)
  Runs-Sound (behind before (moves t inner)) = turn-Sound t inner (Runs-Sound before)
  Runs-Sound (behind before (settles j e)) = Runs-Sound before

  -- Under the addon, a request in its body phase that is cancelled although JavaScript did not abort
  -- it reports `ClientDestroyed` at its next poll, and nothing else.
  pub polled-client_destroyed :
      {a : Addon watch cancellation notify http cap} (i : ℕ) (io : Io)
      → Runs watch cancellation notify http cap a
      → IsCancelled watch cancellation notify http cap i a.world
      → a.world.abort_asked i ≡ false
      → ((a.world.exchanges i).phase ≡ waiting) ⊎ ((a.world.exchanges i).phase ≡ reading)
      → (polled watch cancellation notify http cap i io a.world).log i
        ≡ a.world.log i ++ on_error client_destroyed ∷ []
  polled-client_destroyed {a} i io runs c unasked body =
      let (e, stored, told) =
        polled-destroyed watch cancellation notify http cap i io
          (Runs-Lives watch cancellation notify http cap runs) c unasked body in
      told ∙ ap (λ e. a.world.log i ++ on_error e ∷ []) (subst Ours stored (Runs-Sound runs).1)
