-- ===== src/Aggregator/Float.antt =====
-- What the aggregation does with `float64`: compare and add. Go's type is a parameter of the model.
use analytics_system.Prelude.{ℕ, ◌+◌, ◌≡◌, Bool, true, false, ltb, arith}

pub record FloatOps (F : Type 0) : Type 0 where
  pub less : F → F → Bool
  pub plus : F → F → F

-- What IEEE 754 says of `<` on the values that are not NaN.
pub record IsOrdered {F : Type 0} (o : FloatOps F) (IsNumber : F → Type 0) : Type 0 where
  pub irrefl : (a : F) → IsNumber a → o.less a a ≡ false
  pub asym : (a b : F) → IsNumber a → IsNumber b → o.less a b ≡ true → o.less b a ≡ false
  pub trans :
      (a b c : F)
      → IsNumber a
      → IsNumber b
      → IsNumber c
      → o.less b a ≡ false
      → o.less c b ≡ false
      → o.less c a ≡ false

-- Numbers of which none is NaN.
abbrev pub natural_floats : FloatOps ℕ
natural_floats = record { less = ltb; plus = ◌+◌ }

abbrev pub IsNatural : ℕ → Type 0
IsNatural a = Unit {0}

pub natural_floats-IsOrdered : IsOrdered natural_floats IsNatural
natural_floats-IsOrdered = record {
  irrefl = λ a _. ground arith;
  asym = λ a b _ _ h. ground arith;
  trans = λ a b c _ _ _ h k. ground arith;
}
