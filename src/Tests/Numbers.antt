-- ===== src/Tests/Numbers.antt =====
-- Whole numbers in place of `double`, for runs of the code that takes them as a parameter.
use Prim.Native.Nat.{ℕ, ◌+◌, ◌-◌, ◌*◌, ◌/◌}
use ovmesh_drpp.Base.{true, ltb, leb, ◌==◌, pos, negsuc}
use ovmesh_drpp.Decimal.{from_chars}
use ovmesh_drpp.Floats.{Doubles}

abbrev pub whole_numbers : Doubles ℕ
whole_numbers = record {
  stream = from_chars 1000;
  finite = λ a. true;
  less = ltb;
  less_equal = leb;
  same = λ a b. a == b;
  plus = λ a b. a + b;
  minus = λ a b. a - b;
  times = λ a b. a * b;
  divide = λ a b. a / b;
  negate = λ a. a;
  magnitude = λ a. a;
  floor = λ a. a;
  value = λ z. elim z [ pos n ↦ n | negsuc n ↦ 0 ];
}
