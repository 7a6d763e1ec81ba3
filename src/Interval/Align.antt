-- ===== src/Interval/Align.antt =====
-- `AlignToInterval` and `time.Time.Truncate`: the bar that a time falls in.
use Prim.Native.Nat.{ℕ}
use native.Mathlib.Nat.{mod-lt, mod-eq_of_lt, div-add-mod, mul-mod_right, mul-add-mod_self_left}
use analytics_system.Prelude.{
  ◌≡◌, ◌<◌, ◌≤◌, ◌%◌, ◌*◌, ◌+◌, ◌-◌, ◌/◌, sym, ap, ◌∙◌, ok, err, inl, inr, Result-cases, arith,
}
use analytics_system.Prelude.Text.{Text}
use analytics_system.Interval.{IntervalError, truncate, align_to_interval, duration}
use analytics_system.Interval.Laws.{duration_divides_day}

pub truncate_bounds : (ts d : ℕ) → 0 < d → (truncate ts d ≤ ts) × (ts < truncate ts d + d)
unfolding truncate
truncate_bounds ts d h = omega (arith, mod-lt ts h)

pub truncate-mod : (ts d : ℕ) → truncate ts d % d ≡ 0
unfolding truncate
truncate-mod ts d =
    let e : ts - ts % d ≡ d * (ts / d) = omega (arith, div-add-mod ts d) in
    rw e (mul-mod_right d (ts / d))

truncate_fixed : (t d : ℕ) → t % d ≡ 0 → truncate t d ≡ t
unfolding truncate
truncate_fixed t d h = omega (arith, h)

pub truncate-truncate : (ts d : ℕ) → truncate (truncate ts d) d ≡ truncate ts d
truncate-truncate ts d = truncate_fixed (truncate ts d) d (truncate-mod ts d)

-- The multiple of d that lies at most d below a time is where `Truncate` puts the time.
pub truncate_unique : (ts d q : ℕ) → d * q ≤ ts → ts < d * q + d → truncate ts d ≡ d * q
unfolding truncate
truncate_unique ts d q h k =
    let split : ts ≡ d * q + (ts - d * q) = omega arith in
    let rest : ts % d ≡ ts - d * q =
      ap (λ (t : ℕ). t % d) split
      ∙ mul-add-mod_self_left d q (ts - d * q)
      ∙ mod-eq_of_lt (omega arith) in
    omega (arith, rest)

-- For a known interval the bar that holds `ts` starts at or before `ts`, ends after it, and starts
-- at a whole number of lengths after the zero time; and it is the only such bar.
pub align_to_interval_bar :
    (ts : ℕ) (iv : Text) (d : ℕ)
    → duration iv ≡ ok d
    → (start : ℕ) × (align_to_interval ts iv ≡ ok start)
      × (start ≤ ts)
      × (ts < start + d)
      × (start % d ≡ 0)
      × ((q : ℕ) → d * q ≤ ts → ts < d * q + d → d * q ≡ start)
unfolding align_to_interval
align_to_interval_bar ts iv d h =
    let (low, high) = truncate_bounds ts d (duration_divides_day iv h).0 in
    (truncate ts d, rw h, low, high, truncate-mod ts d, λ q a b. sym (truncate_unique ts d q a b))

-- An interval that `Duration` does not know is refused with its error.
pub align_to_interval_unknown :
    (ts : ℕ) (iv : Text) (e : IntervalError) → duration iv ≡ err e → align_to_interval ts iv ≡ err e
unfolding align_to_interval
align_to_interval_unknown ts iv e h = rw h

-- Aligning an aligned time leaves it where it is.
pub align_to_interval_idem :
    (ts : ℕ) (iv : Text) (start : ℕ)
    → align_to_interval ts iv ≡ ok start
    → align_to_interval start iv ≡ ok start
unfolding align_to_interval
align_to_interval_idem ts iv start h = elim (Result-cases (duration iv)) [
  | inl (d, e) ↦ ground (arith, truncate-truncate ts d)
  | inr (x, e) ↦ ground arith
]
