-- ===== src/Agent/Lifecycle/Tokens.antt =====
-- packages/core/src/agent.rs, `active_tokens`: the map from request numbers to cancellation tokens.
use node_reqwest.Prelude.{
  ℕ, ◌≡◌, ◌==◌, if◌then◌else◌, Bool, true, false, ◌||◌, Option, none, some, List, [], ◌∷◌, arith,
}

-- `HashMap<u64, CancellationToken>`; a token is named by the task that made it.
abbrev pub TokenMap : Type 0
TokenMap = List (ℕ × ℕ)

unfoldable pub lookup : ℕ → TokenMap → Option ℕ
lookup id [] = none
lookup id ((k, t) ∷ tokens) = if k == id then some t else lookup id tokens

unfoldable pub remove : ℕ → TokenMap → TokenMap
remove id [] = []
remove id ((k, t) ∷ tokens) = if k == id then remove id tokens else (k, t) ∷ remove id tokens

unfoldable pub insert : ℕ → ℕ → TokenMap → TokenMap
unfolding remove
insert id t tokens = (id, t) ∷ remove id tokens

-- `guard.drain().map(|(_id, t)| t).collect()`
unfoldable pub drain : TokenMap → List ℕ
drain [] = []
drain ((k, t) ∷ tokens) = t ∷ drain tokens

pub lookup-remove :
    (id k : ℕ) (m : TokenMap) → lookup id (remove k m) ≡ (if k == id then none else lookup id m)
unfolding lookup remove
lookup-remove id k [] = ground arith
lookup-remove id k ((j, t) ∷ m) = ground (arith, lookup-remove id k m)

pub lookup-insert :
    (id k t : ℕ) (m : TokenMap)
    → lookup id (insert k t m) ≡ (if k == id then some t else lookup id m)
unfolding lookup insert
lookup-insert id k t m = ground (arith, lookup-remove id k m)

abbrev pub contains : ℕ → List ℕ → Bool
contains t [] = false
contains t (u ∷ us) = (u == t) || contains t us

pub contains-drain : (id t : ℕ) (m : TokenMap) → lookup id m ≡ some t → contains t (drain m) ≡ true
unfolding lookup drain
contains-drain id t [] e = cc
contains-drain id t ((k, u) ∷ m) e = ground (arith, contains-drain id t m)
