-- ===== src/Floats.antt =====
-- The operations of `double` that the modelled code uses, as an interface: a development that needs
-- them takes them as a parameter. A decimal fraction in the source is a quotient of two integers,
-- which a correctly rounded division gives exactly as the literal.
use ovmesh_drpp.Base.{ℕ, Bool, Option, Bytes, ℤ, pos}

-- `stream` is the extraction of a finite number that is the whole text from a stream; `value` is the
-- conversion of an integer.
pub record Doubles (F : Type 0) : Type 0 where
  pub stream : Bytes → Option F
  pub finite : F → Bool
  pub less : F → F → Bool
  pub less_equal : F → F → Bool
  pub same : F → F → Bool
  pub plus : F → F → F
  pub minus : F → F → F
  pub times : F → F → F
  pub divide : F → F → F
  pub negate : F → F
  pub magnitude : F → F
  pub floor : F → F
  pub value : ℤ → F

module _ {F : Type 0} (d : Doubles F) where
  abbrev pub whole : ℕ → F
  whole n = d.value (pos n)

  -- `n / m` for a literal such as 0.1
  abbrev pub fraction : (n m : ℕ) → F
  fraction n m = d.divide (whole n) (whole m)
