-- ===== src/Node/Startup.antt =====
-- packages/node/src/lib.rs: the tokio runtime of the process, made when the addon is loaded.
pub mod Singleton
mod Examples
use node_reqwest.Prelude.{Text, codes, Option, none, some, List, [], ◌∷◌, ◌++◌}
use node_reqwest.Prelude.Outcome.{Result, ok, err, ◌>>=◌}
use node_reqwest.Node.Js.{Js}

-- `tokio::runtime::Runtime`, of which only the handle is used.
pub record Tokio : Type 1 where
  pub Runtime : Type 0
  pub Handle : Type 0
  pub handle : Runtime → Handle

module _ (js : Js) (tokio : Tokio) where
  -- `TOKIO_RUNTIME`
  abbrev pub Slot : Type 0
  Slot = Option tokio.Runtime

  -- What a load of the addon meets: the runtime that is built or the text of the error, and how the
  -- export of the functions ends. The result of `set_global_executor` is not used.
  pub record Load : Type 0 where
    pub built : Result Text tokio.Runtime
    pub exported : Result js.Thrown (Unit {0})

  -- `OnceLock::get_or_init` with a runtime at hand
  abbrev get_or_init : Slot → tokio.Runtime → Slot
  get_or_init none runtime = some runtime
  get_or_init (some first) runtime = some first

  -- `main`: the slot behind it, and the result for the module loader.
  main_with :
      Result Text tokio.Runtime
      → Result js.Thrown (Unit {0})
      → Slot
      → Slot × Result js.Thrown (Unit {0})
  main_with (err e) exported slot =
      (slot, err (js.error (codes "failed to build tokio runtime: " ++ e)))
  main_with (ok runtime) exported slot = (get_or_init slot runtime, exported)

  unfoldable pub load_main : Load → Slot → Slot × Result js.Thrown (Unit {0})
  unfolding main_with
  load_main load slot = main_with load.built load.exported slot

  -- Loads of the addon in one process, one after another.
  unfoldable pub loads : List Load → Slot → Slot
  unfolding load_main
  loads [] slot = slot
  loads (load ∷ more) slot = loads more (load_main load slot).0

  -- `none` is the panic of `expect`.
  unfoldable pub runtime_handle : Slot → Option tokio.Handle
  runtime_handle none = none
  runtime_handle (some runtime) = some (tokio.handle runtime)
