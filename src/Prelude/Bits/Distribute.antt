-- ===== src/Prelude/Bits/Distribute.antt =====
-- The bitwise operations together: `and` distributes over `or`, and `or` is at least each operand.
use mini_vhd.Prelude.{ℕ, zero, suc, ◌/◌, ◌%◌, ◌≤◌, ◌≡◌, refl, ap, sym, ◌∙◌, arith, min, max}
use mini_vhd.Prelude.{bit_and, bit_or}
use mini_vhd.Prelude.Bits.{bit_and-zero}
use mini_vhd.Prelude.Bits.Digit.{bit_or_digit, bit_and_digit}

half_or : (a b : ℕ) → bit_or a b / 2 ≡ bit_or (a / 2) (b / 2)
half_or a b = omega (arith, bit_or_digit a b)

low_or : (a b : ℕ) → bit_or a b % 2 ≡ max (a % 2) (b % 2)
low_or a b = omega (arith, bit_or_digit a b)

half_and : (a b : ℕ) → bit_and a b / 2 ≡ bit_and (a / 2) (b / 2)
half_and a b = omega (arith, bit_and_digit a b)

low_and : (a b : ℕ) → bit_and a b % 2 ≡ min (a % 2) (b % 2)
low_and a b = omega (arith, bit_and_digit a b)

distribute_below :
    (n a b c : ℕ) → c ≤ n → bit_and (bit_or a b) c ≡ bit_or (bit_and a c) (bit_and b c)
distribute_below zero a b zero h = bit_and-zero _ ∙ sym (rw (bit_and-zero a, bit_and-zero b) refl)
distribute_below zero a b (suc c) h = absurd (omega arith)
distribute_below (suc n) a b c h = omega (
  arith,
  bit_and_digit (bit_or a b) c,
  ap (λ (t : ℕ). bit_and t (c / 2)) (half_or a b),
  distribute_below n (a / 2) (b / 2) (c / 2) (omega arith),
  low_or a b,
  bit_or_digit (bit_and a c) (bit_and b c),
  ap (λ (t : ℕ). bit_or t (bit_and b c / 2)) (half_and a c),
  ap (bit_or (bit_and (a / 2) (c / 2))) (half_and b c),
  low_and a c,
  low_and b c,
)

pub bit_and-bit_or : (a b c : ℕ) → bit_and (bit_or a b) c ≡ bit_or (bit_and a c) (bit_and b c)
bit_and-bit_or a b c = distribute_below c a b c (omega arith)

or_above : (n a b : ℕ) → b ≤ n → b ≤ bit_or a b
or_above zero a b h = omega arith
or_above (suc n) a b h = omega (arith, bit_or_digit a b, or_above n (a / 2) (b / 2) (omega arith))

pub bit_or_above : (a b : ℕ) → b ≤ bit_or a b
bit_or_above a b = or_above b a b (omega arith)
