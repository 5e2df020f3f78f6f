-- ===== src/Node/Startup/Examples.antt =====
-- Loads of the addon: one that cannot build a runtime, one that can, and one after it.
use node_reqwest.Prelude.{ℕ, ◌≡◌, refl, codes, some, none, [], ◌∷◌}
use node_reqwest.Prelude.Outcome.{ok, err}
use node_reqwest.Node.Plain.{plain_js}
use node_reqwest.Node.Startup.{Tokio, Load, load_main, loads, runtime_handle}
use node_reqwest.Node.Startup.Singleton.{first_built, runtime_handle-stable}

-- Runtimes in the order in which they are built; a handle is the number of its runtime.
abbrev numbered : Tokio
numbered = record { Runtime = ℕ; Handle = ℕ; handle = λ n. n }

abbrev failing : Load plain_js numbered
failing = record { built = err (codes "no threads"); exported = ok tt }

abbrev building : ℕ → Load plain_js numbered
building n = record { built = ok n; exported = ok tt }

runtime_handle-stable_example :
    (first : ℕ) × (first_built plain_js numbered (failing ∷ building 1 ∷ []) ≡ some first)
    × (runtime_handle plain_js numbered
          (loads plain_js numbered (failing ∷ building 1 ∷ building 2 ∷ []) none)
        ≡ some first)
unfolding load_main
runtime_handle-stable_example =
    runtime_handle-stable plain_js numbered (failing ∷ []) (building 2 ∷ []) (building 1) refl

-- It is the runtime of the second load.
first_runtime :
    runtime_handle plain_js numbered
      (loads plain_js numbered (failing ∷ building 1 ∷ building 2 ∷ []) none)
    ≡ some 1
unfolding runtime_handle loads
first_runtime = refl
