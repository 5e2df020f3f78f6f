-- ===== src/Node/Startup/Singleton.antt =====
-- packages/node/src/lib.rs: one runtime for the process.
use node_reqwest.Prelude.{◌≡◌, refl, ap, sym, ◌∙◌, Text, ◌++◌, Option, none, some, List, [], ◌∷◌}
use node_reqwest.Prelude.Outcome.{Result, ok, err}
use node_reqwest.Node.Js.{Js}
use node_reqwest.Node.Startup.{Tokio, Slot, Load, load_main, loads, runtime_handle, main_with}

module _ (js : Js) (tokio : Tokio) where
  main_with-filled :
      (built : Result Text tokio.Runtime) (exported : Result js.Thrown (Unit {0}))
      (first : tokio.Runtime)
      → (main_with js tokio built exported (some first)).0 ≡ some first
  unfolding main_with
  main_with-filled (ok runtime) exported first = refl
  main_with-filled (err e) exported first = refl

  loads-filled :
      (more : List (Load js tokio)) (first : tokio.Runtime)
      → loads js tokio more (some first) ≡ some first
  unfolding loads load_main
  loads-filled [] first = refl
  loads-filled (load ∷ more) first =
      ap (loads js tokio more) (main_with-filled load.built load.exported first)
      ∙ loads-filled more first

  loads-append :
      (before later : List (Load js tokio)) (load : Load js tokio) (slot : Slot js tokio)
      → loads js tokio (before ++ load ∷ later) slot
        ≡ loads js tokio later (load_main js tokio load (loads js tokio before slot)).0
  unfolding loads
  loads-append [] later load slot = refl
  loads-append (other ∷ before) later load slot =
      loads-append before later load (load_main js tokio other slot).0

  -- The first runtime that could be built.
  abbrev first_or : Result Text tokio.Runtime → Option tokio.Runtime → Option tokio.Runtime
  first_or (ok runtime) later = some runtime
  first_or (err _) later = later

  abbrev pub first_built : List (Load js tokio) → Option tokio.Runtime
  first_built [] = none
  first_built (load ∷ more) = first_or load.built (first_built more)

  main_with-empty :
      (built : Result Text tokio.Runtime) (exported : Result js.Thrown (Unit {0}))
      (more : List (Load js tokio))
      → loads js tokio more none ≡ first_built more
      → loads js tokio more (main_with js tokio built exported none).0
        ≡ first_or built (first_built more)
  unfolding main_with
  main_with-empty (ok runtime) exported more rest = loads-filled more runtime
  main_with-empty (err e) exported more rest = rest

  loads-first : (more : List (Load js tokio)) → loads js tokio more none ≡ first_built more
  unfolding loads load_main
  loads-first [] = refl
  loads-first (load ∷ more) = main_with-empty load.built load.exported more (loads-first more)

  main_with-ok :
      (built : Result Text tokio.Runtime) (exported : Result js.Thrown (Unit {0}))
      (slot : Slot js tokio)
      → (main_with js tokio built exported slot).1 ≡ ok tt
      → (first : tokio.Runtime) × ((main_with js tokio built exported slot).0 ≡ some first)
  unfolding main_with
  main_with-ok (ok runtime) exported none e = (runtime, refl)
  main_with-ok (ok runtime) exported (some first) e = (first, refl)
  main_with-ok (err e) exported slot h = cc

  -- Once a load of the addon has succeeded, `runtime_handle` never panics, and every call, behind any
  -- later loads, gives the handle of one runtime: the first that any load could build.
  pub runtime_handle-stable :
      (before later : List (Load js tokio)) (load : Load js tokio)
      → (load_main js tokio load (loads js tokio before none)).1 ≡ ok tt
      → (first : tokio.Runtime) × (first_built (before ++ load ∷ []) ≡ some first)
        × (runtime_handle js tokio (loads js tokio (before ++ load ∷ later) none)
            ≡ some (tokio.handle first))
  unfolding loads load_main runtime_handle
  runtime_handle-stable before later load e =
      let slot = loads js tokio before none in
      let (first, filled) = main_with-ok load.built load.exported slot e in
      (
        first,
        sym (loads-first (before ++ load ∷ [])) ∙ loads-append before [] load none ∙ filled,
        ap (runtime_handle js tokio) (
            loads-append before later load none
            ∙ ap (loads js tokio later) filled
            ∙ loads-filled later first),
      )
