-- ===== src/Prelude/Outcome.antt =====
-- What a Rust call does when it does not loop: it returns, or it panics.  `Result` is the library
-- type of fallible functions.
use mathlib.Core.Path.{◌≡◌, refl, ap}
use mathlib.Core.Logic.{◌⊎◌, inl, inr}
use mathlib.Core.Bool.{Bool, true, false}
use mathlib.Core.List.{List, [], ◌∷◌}

pub data Outcome {ℓ} (A : Type ℓ) : Type ℓ where
  ret : A → Outcome A
  panic : Outcome A

infixl 5 ◌>>=◌ ◌>>◌
abbrev pub ◌>>=◌ {ℓ κ} : {A : Type ℓ} {B : Type κ} → Outcome A → (A → Outcome B) → Outcome B
ret a >>= f = f a
panic >>= f = panic

abbrev pub ◌>>◌ {ℓ} : {B : Type ℓ} → Outcome (Unit {0}) → Outcome B → Outcome B
m >> k = m >>= λ _. k

-- A call followed by steps that agree, and by two steps in turn.
pub bind_cong {ℓ κ} :
    {A : Type ℓ} {B : Type κ} (o : Outcome A) (f g : A → Outcome B)
    → ((a : A) → f a ≡ g a)
    → (o >>= f) ≡ (o >>= g)
bind_cong (ret a) f g h = h a
bind_cong panic f g h = refl

pub bind_assoc {ℓ κ μ} :
    {A : Type ℓ} {B : Type κ} {C : Type μ} (o : Outcome A) (f : A → Outcome B) (g : B → Outcome C)
    → ((o >>= f) >>= g) ≡ (o >>= λ a. f a >>= g)
bind_assoc (ret a) f g = refl
bind_assoc panic f g = refl

abbrev or_else {ℓ} : {A : Type ℓ} → A → Outcome A → A
or_else a (ret b) = b
or_else a panic = a

pub ret-inj {ℓ} : {A : Type ℓ} {a b : A} → ret a ≡ ret b → a ≡ b
ret-inj {a = a} e = ap (or_else a) e

-- What a call that returns went through.
pub bind-ret {ℓ κ} :
    {A : Type ℓ} {B : Type κ} (o : Outcome A) (f : A → Outcome B) (b : B)
    → (o >>= f) ≡ ret b
    → (a : A) × (o ≡ ret a) × (f a ≡ ret b)
bind-ret (ret a) f b e = (a, refl, e)
bind-ret panic f b e = absurd (cc)

pub Outcome-cases {ℓ} : {A : Type ℓ} (o : Outcome A) → ((a : A) × (o ≡ ret a)) ⊎ (o ≡ panic)
Outcome-cases (ret a) = inl (a, refl)
Outcome-cases panic = inr refl

-- A loop that changes each element in turn.
abbrev pub each {ℓ} : {A : Type ℓ} → (A → Outcome A) → List A → Outcome (List A)
each f [] = ret []
each f (a ∷ l) = f a >>= λ b. each f l >>= λ l'. ret (b ∷ l')

-- `assert!(b)`
abbrev pub assert : Bool → Outcome (Unit {0})
assert true = ret tt
assert false = panic

-- `debug_assert!(b)`: checked only where debug assertions are on.
abbrev pub debug_assert : Bool → Bool → Outcome (Unit {0})
debug_assert true b = assert b
debug_assert false b = ret tt

-- `core::result::Result`
pub data Result {ℓ κ} (A : Type ℓ) (E : Type κ) : Type (ℓ ⊔ κ) where
  ok : A → Result A E
  err : E → Result A E

-- A call that reads and writes a state: it returns, it is still waiting for another thread, or it
-- has undefined behaviour.
pub data Call {ℓ κ} (A : Type ℓ) (S : Type κ) : Type (ℓ ⊔ κ) where
  done : A → S → Call A S
  waits : Call A S
  undefined : Call A S

-- The same call, its state seen through a function.
abbrev pub map_state {ℓ κ μ} :
    {A : Type ℓ} {S : Type κ} {V : Type μ} → (S → V) → Call A S → Call A V
map_state f (done a s) = done a (f s)
map_state f waits = waits
map_state f undefined = undefined

-- What holds of the state that a call returns with.
abbrev pub Leaves {ℓ κ μ} : {A : Type ℓ} {S : Type κ} → (S → Type μ) → Call A S → Type μ
Leaves P (done a s) = P s
Leaves P waits = Unit
Leaves P undefined = Unit
