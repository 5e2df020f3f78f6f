-- ===== src/Prelude/Outcome.antt =====
-- Rust's `Result`, with the chain that `?` makes.
use mathlib.Core.Path.{◌≡◌, refl, subst}
use mathlib.Core.Bool.{Bool, true, false}
use node_reqwest.Prelude.Tests.{if◌then◌else◌}

pub data Result {ε α} (E : Type ε) (A : Type α) : Type (ε ⊔ α) where
  ok : A → Result E A
  err : E → Result E A

-- `?`: an error leaves the function at once.
infixl 5 ◌>>=◌
abbrev pub ◌>>=◌ {ε α β} :
    {E : Type ε} {A : Type α} {B : Type β} → Result E A → (A → Result E B) → Result E B
err reason >>= k = err reason
ok value >>= k = k value

-- `map_err`
abbrev pub map_err {ε δ α} :
    {E : Type ε} {D : Type δ} {A : Type α} → (E → D) → Result E A → Result D A
map_err g (ok value) = ok value
map_err g (err reason) = err (g reason)

pub map_err-ok {ε δ α} :
    {E : Type ε} {D : Type δ} {A : Type α} (g : E → D) (m : Result E A) {a : A}
    → map_err g m ≡ ok a
    → m ≡ ok a
map_err-ok g (ok b) e = cc
map_err-ok g (err x) e = cc

-- A property of the value, if there is one.
abbrev pub Holds {ε α κ} : {E : Type ε} {A : Type α} → (A → Type κ) → Result E A → Type κ
Holds P (ok a) = P a
Holds P (err _) = Unit

pub Holds->>= {ε α β κ} :
    {E : Type ε} {A : Type α} {B : Type β} (P : B → Type κ) (m : Result E A) (k : A → Result E B)
    → ((a : A) → m ≡ ok a → Holds P (k a))
    → Holds P (m >>= k)
Holds->>= P (ok a) k h = h a refl
Holds->>= P (err x) k h = tt

pub Holds-if {ε α κ} :
    {E : Type ε} {A : Type α} (P : A → Type κ) (b : Bool) (x y : Result E A)
    → (b ≡ true → Holds P x)
    → (b ≡ false → Holds P y)
    → Holds P (if b then x else y)
Holds-if P true x y h k = h refl
Holds-if P false x y h k = k refl

pub Holds-ok {ε α κ} :
    {E : Type ε} {A : Type α} (P : A → Type κ) (m : Result E A) {a : A} → Holds P m → m ≡ ok a → P a
Holds-ok P m h e = subst (Holds P) e h

pub Holds-map {ε α κ μ} :
    {E : Type ε} {A : Type α} {P : A → Type κ} {Q : A → Type μ} (m : Result E A)
    → ((a : A) → P a → Q a)
    → Holds P m
    → Holds Q m
Holds-map (ok a) g h = g a h
Holds-map (err x) g h = tt
