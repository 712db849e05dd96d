-- ===== src/Endian/RoundTrip.antt =====
-- The byte swaps as arithmetic, and that each undoes the other.
use mini_vhd.Prelude.{ℕ, ◌+◌, ◌*◌, ◌/◌, ◌%◌, ◌^◌, ◌<◌, ◌≡◌, ap, ◌∙◌, arith, bit_and, bit_or}
use mini_vhd.Prelude.{u8}
use mini_vhd.Prelude.Bits.{bit_or_disjoint, bit_and_shifted, bit_and_ff}
use mini_vhd.Endian.{byte_of, from_be16, from_be32, from_be64}
use mini_vhd.Endian.{to_be16, to_be32, to_be64}
use native.Mathlib.Nat.{mul-div_cancel, one-le-pow}
use native.Mathlib.Numerals.{towards_suc}
use Prim.Native.Nat.{bit_or-bitwise}

abbrev pub be32 : ℕ → ℕ → ℕ → ℕ → ℕ
be32 a b c d = ((a * 256 + b) * 256 + c) * 256 + d

pow_eight : (k : ℕ) → 2 ^ (k + 8) ≡ 256 * 2 ^ k
pow_eight k = simp towards_suc (omega arith)

byte_shift : (k b : ℕ) → b < 256 → b * 2 ^ k < 256 * 2 ^ k
byte_shift k b h = grind (arith, one-le-pow k 2)

-- One `ret |= tmp[i] << k` where `ret` has its low bits free.
or_byte :
    (k i q v : ℕ) → bit_or (q * 2 ^ (k + 8)) (byte_of v i * 2 ^ k) ≡ (q * 256 + byte_of v i) * 2 ^ k
or_byte k i q v =
    bit_or_disjoint (k + 8) q (byte_of v i * 2 ^ k)
      (omega (arith, pow_eight k, byte_shift k (byte_of v i) (omega arith)))
    ∙ omega (arith, ap (λ (t : ℕ). q * t) (pow_eight k))

cut_byte : (k v : ℕ) → u8 (bit_and v (255 * 2 ^ k) / 2 ^ k) ≡ v / 2 ^ k % 256
cut_byte k v =
    rw
      (
        bit_and_shifted k v 255,
        bit_and_ff,
        mul-div_cancel (v / 2 ^ k % 256) (one-le-pow k 2 (omega arith)),
      )
      (omega arith)

pub from_be16_bytes : (v : ℕ) → from_be16 v ≡ byte_of v 0 * 256 + byte_of v 1
unfolding from_be16
from_be16_bytes v = rw (bit_or-bitwise 0, or_byte 0 1 (byte_of v 0)) (omega arith)

pub from_be32_bytes :
    (v : ℕ) → from_be32 v ≡ be32 (byte_of v 0) (byte_of v 1) (byte_of v 2) (byte_of v 3)
unfolding from_be32
from_be32_bytes v = rw (or_byte 16 1, or_byte 8 2, or_byte 0 3) (omega arith)

pub from_be64_bytes :
    (v : ℕ)
    → from_be64 v
      ≡ be32 (byte_of v 0) (byte_of v 1) (byte_of v 2) (byte_of v 3) * 2 ^ 32
        + be32 (byte_of v 4) (byte_of v 5) (byte_of v 6) (byte_of v 7)
unfolding from_be64
from_be64_bytes v =
    rw
      (
        or_byte 48 1,
        or_byte 40 2,
        or_byte 32 3,
        or_byte 24 4,
        or_byte 16 5,
        or_byte 8 6,
        or_byte 0 7,
      )
      (omega arith)

pub to_be16_bytes : (v : ℕ) → to_be16 v ≡ byte_of v 0 * 256 + byte_of v 1
unfolding to_be16
to_be16_bytes v = omega (arith, cut_byte 8 v, cut_byte 0 v)

pub to_be32_bytes :
    (v : ℕ) → to_be32 v ≡ be32 (byte_of v 0) (byte_of v 1) (byte_of v 2) (byte_of v 3)
unfolding to_be32
to_be32_bytes v = omega (arith, cut_byte 24 v, cut_byte 16 v, cut_byte 8 v, cut_byte 0 v)

pub to_be64_bytes :
    (v : ℕ)
    → to_be64 v
      ≡ be32 (byte_of v 0) (byte_of v 1) (byte_of v 2) (byte_of v 3) * 2 ^ 32
        + be32 (byte_of v 4) (byte_of v 5) (byte_of v 6) (byte_of v 7)
unfolding to_be64
to_be64_bytes v = omega (
  arith,
  cut_byte 56 v,
  cut_byte 48 v,
  cut_byte 40 v,
  cut_byte 32 v,
  cut_byte 24 v,
  cut_byte 16 v,
  cut_byte 8 v,
  cut_byte 0 v,
)

-- On 16 bits the two conversions undo each other, and stay on 16 bits.
pub be16_inverse :
    (v : ℕ)
    → v < 2 ^ 16
    → (from_be16 (to_be16 v) ≡ v)
      × (to_be16 (from_be16 v) ≡ v)
      × (from_be16 v < 2 ^ 16)
      × (to_be16 v < 2 ^ 16)
be16_inverse v h = (
  omega (arith, from_be16_bytes (to_be16 v), to_be16_bytes v),
  omega (arith, to_be16_bytes (from_be16 v), from_be16_bytes v),
  omega (arith, from_be16_bytes v),
  omega (arith, to_be16_bytes v),
)

pub be32_inverse :
    (v : ℕ)
    → v < 2 ^ 32
    → (from_be32 (to_be32 v) ≡ v)
      × (to_be32 (from_be32 v) ≡ v)
      × (from_be32 v < 2 ^ 32)
      × (to_be32 v < 2 ^ 32)
be32_inverse v h = (
  omega (arith, from_be32_bytes (to_be32 v), to_be32_bytes v),
  omega (arith, to_be32_bytes (from_be32 v), from_be32_bytes v),
  omega (arith, from_be32_bytes v),
  omega (arith, to_be32_bytes v),
)

pub be64_inverse :
    (v : ℕ)
    → v < 2 ^ 64
    → (from_be64 (to_be64 v) ≡ v)
      × (to_be64 (from_be64 v) ≡ v)
      × (from_be64 v < 2 ^ 64)
      × (to_be64 v < 2 ^ 64)
be64_inverse v h = (
  omega (arith, from_be64_bytes (to_be64 v), to_be64_bytes v),
  omega (arith, to_be64_bytes (from_be64 v), from_be64_bytes v),
  omega (arith, from_be64_bytes v),
  omega (arith, to_be64_bytes v),
)
