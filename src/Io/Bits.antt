-- ===== src/Io/Bits.antt =====
-- The bit macros on one byte.
use mini_vhd.Prelude.{ℕ, ◌%◌, ◌<◌, ◌≡◌, refl, ap, arith, Bool, true, false, not}
use mini_vhd.Prelude.{◌==◌, bit_and, bit_or, if◌then◌else◌, ◌>>>◌}
use mini_vhd.Prelude.{◌≢◌, ◌∙◌, passes, passes-at}
use mini_vhd.Prelude.Bits.Distribute.{bit_and-bit_or, bit_or_above}
use mini_vhd.Prelude.Bits.{bit_or-zero, bit_and_seven}
use mini_vhd.Io.{bit_set, set_bit, mask}
use Prim.Native.Nat.{bit_and-bitwise}

pub bit_set-zero : (k : ℕ) → bit_set 0 k ≡ false
unfolding bit_set
bit_set-zero k = ap (λ (t : ℕ). not (t == 0)) (bit_and-bitwise 0 (mask k))

low_index : (k : ℕ) → bit_and k 7 ≡ bit_and (k % 8) 7
low_index k = omega (arith, bit_and_seven k, bit_and_seven (k % 8))

-- The mask of one of the eight bits is not zero, and two of the masks have no common bit.
mask_nonzero : ℕ → Bool
mask_nonzero i = not (bit_and (0x80 >>> i) (0x80 >>> i) == 0)

every_mask_nonzero : passes mask_nonzero 8 ≡ true
unfolding passes mask_nonzero
every_mask_nonzero = refl

masks_apart : ℕ → ℕ → Bool
masks_apart i j = if i == j then true else bit_and (0x80 >>> i) (0x80 >>> j) == 0

every_masks_apart : passes (λ i. passes (masks_apart i) 8) 8 ≡ true
unfolding passes masks_apart
every_masks_apart = refl

index_below : (k : ℕ) → bit_and k 7 < 8
index_below k = omega (arith, bit_and_seven k)

mask-mask : (i : ℕ) → 0 < bit_and (mask i) (mask i)
unfolding mask_nonzero
mask-mask i =
    let ok = passes-at _ 8 (bit_and i 7) every_mask_nonzero (index_below i) in ground (arith, ok)

mask-mask_other : (i j : ℕ) → i % 8 ≢ j % 8 → bit_and (mask i) (mask j) ≡ 0
unfolding masks_apart
mask-mask_other i j ne =
    let row = passes-at _ 8 (bit_and i 7) every_masks_apart (index_below i) in
    let ok = passes-at _ 8 (bit_and j 7) row (index_below j) in
    ground (arith, ok, bit_and_seven i, bit_and_seven j)

-- VHD_SETBIT sets its own bit, and no bit at another place of the byte.
pub bit_set-set_bit_same : (byte i : ℕ) → bit_set (set_bit byte i) i ≡ true
unfolding bit_set set_bit
bit_set-set_bit_same byte i =
    let above = bit_or_above (bit_and byte (mask i)) (bit_and (mask i) (mask i)) in
    ground (arith, bit_and-bit_or byte (mask i) (mask i), above, mask-mask i)

pub bit_set-set_bit_other :
    (byte i j : ℕ) → i % 8 ≢ j % 8 → bit_set (set_bit byte i) j ≡ bit_set byte j
unfolding bit_set set_bit
bit_set-set_bit_other byte i j ne =
    ap (λ (t : ℕ). not (t == 0))
      (bit_and-bit_or byte (mask i) (mask j)
        ∙ ap (bit_or (bit_and byte (mask j))) (mask-mask_other i j ne)
        ∙ bit_or-zero (bit_and byte (mask j)))
