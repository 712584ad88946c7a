-- ===== src/Common/Runs.antt =====
-- Code that an assertion, an uncaught exception or an access out of bounds may stop.
use mathlib.Core.Path.{◌≡◌, refl}
use mathlib.Core.Logic.{◌⊎◌, inl, inr}
use mathlib.Core.Bool.{Bool, true, false}

pub data Run {ℓ} (A : Type ℓ) : Type ℓ where
  done : A → Run A
  abort : Run A

infixl 5 ◌>>=◌ ◌>>◌
abbrev pub ◌>>=◌ {ℓ κ} : {A : Type ℓ} {B : Type κ} → Run A → (A → Run B) → Run B
done a >>= f = f a
abort >>= f = abort

abbrev pub ◌>>◌ {ℓ} : {B : Type ℓ} → Run (Unit {0}) → Run B → Run B
m >> k = m >>= λ _. k

abbrev pub assert : Bool → Run (Unit {0})
assert true = done tt
assert false = abort

-- If the run ends, its result satisfies `P`.
abbrev pub OnEnd {ℓ} : {A : Type ℓ} → (A → Type 0) → Run A → Type 0
OnEnd P (done a) = P a
OnEnd P abort = Unit

pub bind-ext {ℓ κ} :
    {A : Type ℓ} {B : Type κ} (m : Run A) (f g : A → Run B)
    → ((a : A) → f a ≡ g a)
    → (m >>= f) ≡ (m >>= g)
bind-ext (done a) f g h = h a
bind-ext abort f g h = refl

pub bind_assoc {ℓ κ μ} :
    {A : Type ℓ} {B : Type κ} {C : Type μ} (m : Run A) (f : A → Run B) (g : B → Run C)
    → ((m >>= f) >>= g) ≡ (m >>= λ a. f a >>= g)
bind_assoc (done a) f g = refl
bind_assoc abort f g = refl

pub OnEnd-bind {ℓ κ} :
    {A : Type ℓ} {B : Type κ} (P : B → Type 0) (m : Run A) (f : A → Run B)
    → ((a : A) → m ≡ done a → OnEnd P (f a))
    → OnEnd P (m >>= f)
OnEnd-bind P (done a) f h = h a refl
OnEnd-bind P abort f h = tt

pub Run-cases {ℓ} : {A : Type ℓ} (m : Run A) → ((a : A) × (m ≡ done a)) ⊎ (m ≡ abort)
Run-cases (done a) = inl (a, refl)
Run-cases abort = inr refl

pub OnEnd-imp {ℓ} :
    {A : Type ℓ} (P Q : A → Type 0) (r : Run A) → ((a : A) → P a → Q a) → OnEnd P r → OnEnd Q r
OnEnd-imp P Q (done a) f p = f a p
OnEnd-imp P Q abort f p = tt

pub OnEnd-both {ℓ} :
    {A : Type ℓ} (P Q : A → Type 0) (r : Run A) → OnEnd P r → OnEnd Q r → OnEnd (λ a. P a × Q a) r
OnEnd-both P Q (done a) p q = (p, q)
OnEnd-both P Q abort p q = tt
