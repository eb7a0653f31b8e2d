-- ===== src/Base/Outcome.antt =====
-- What a run of the C code comes to: a value, or the place where it has no defined behaviour or
-- stops the process.
use mathlib.Core.Path.{◌≡◌, refl}

-- `assert_failed`: an `assert` that does not hold. `out_of_bounds`: an access past an allocation.
-- `use_after_free`: an access to a freed allocation. `division_by_zero`: `% 0`. `exited`: a call of
-- `exit`.
pub data Fault : Type 0 where
  assert_failed out_of_bounds use_after_free division_by_zero exited : Fault

pub data Exec {ℓ} (A : Type ℓ) : Type ℓ where
  ok : A → Exec A
  fault : Fault → Exec A

infixl 5 ◌>>=◌ ◌>>◌
abbrev pub ◌>>=◌ {ℓ κ} : {A : Type ℓ} {B : Type κ} → Exec A → (A → Exec B) → Exec B
ok a >>= f = f a
fault e >>= f = fault e

abbrev pub ◌>>◌ {ℓ} : {B : Type ℓ} → Exec (Unit {0}) → Exec B → Exec B
m >> k = m >>= λ _. k

-- The run ends with a value that satisfies `P`.
abbrev pub Returns {ℓ κ} : {A : Type ℓ} → Exec A → (A → Type κ) → Type (ℓ ⊔ κ)
Returns {A} r P = (a : A) × (r ≡ ok a) × P a

pub bind_assoc {ℓ} :
    {A B C : Type ℓ} (r : Exec A) (f : A → Exec B) (g : B → Exec C)
    → r >>= f >>= g ≡ r >>= (λ a. f a >>= g)
bind_assoc (ok a) f g = refl
bind_assoc (fault e) f g = refl

pub ok_inj {ℓ} : {A : Type ℓ} {a b : A} → ok a ≡ ok b → a ≡ b
ok_inj h = cc
