-- ===== src/Base/Options.antt =====
-- Chains of computations that may fail, and the signed numbers.
use Prim.Native.Nat.{ℕ}
use ovmesh_drpp.Base.Tests.{if◌then◌else◌}
use mathlib.Core.Bool.{Bool, true, false}
use mathlib.Core.Path.{◌≡◌, refl, subst}
use mathlib.Core.Option.{Option, none, some, some-injective}

infixl 5 ◌>>=◌ ◌>>◌
abbrev pub ◌>>=◌ : {A B : Type 0} → Option A → (A → Option B) → Option B
none >>= f = none
some a >>= f = f a

abbrev pub ◌>>◌ : {B : Type 0} → Option (Unit {0}) → Option B → Option B
m >> k = m >>= λ _. k

-- `if (not test) throw`
abbrev pub guard : Bool → Option (Unit {0})
guard true = some tt
guard false = none

-- `negsuc n` is -(n + 1).
pub data ℤ : Type 0 where
  pos : ℕ → ℤ
  negsuc : ℕ → ℤ

-- Every result of a computation that may fail has a property.
pub record Gives {A : Type 0} (P : A → Type 0) (o : Option A) : Type 0 where
  pub result : (a : A) → o ≡ some a → P a

module _ {B : Type 0} {P : B → Type 0} where
  pub none-Gives : Gives P none
  none-Gives = record { result = λ b e. cc }

  pub some-Gives : (b : B) → P b → Gives P (some b)
  some-Gives b p = record { result = λ c e. subst P (some-injective _ _ e) p }

  -- A chain gives what its last step gives, which may use the results of the steps before.
  pub bind-Gives :
      {A : Type 0} (o : Option A) (f : A → Option B)
      → ((a : A) → o ≡ some a → Gives P (f a))
      → Gives P (o >>= f)
  bind-Gives none f rest = none-Gives
  bind-Gives (some a) f rest = rest a refl

  pub guard-Gives : (t : Bool) (k : Option B) → (t ≡ true → Gives P k) → Gives P (guard t >> k)
  guard-Gives true k rest = rest refl
  guard-Gives false k rest = none-Gives

  pub if-Gives :
      (t : Bool) (x y : Option B)
      → (t ≡ true → Gives P x)
      → (t ≡ false → Gives P y)
      → Gives P (if t then x else y)
  if-Gives true x y first second = first refl
  if-Gives false x y first second = second refl
