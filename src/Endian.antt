-- ===== src/Endian.antt =====
-- util.c: the conversions between the big-endian fields of a VHD and the host's integers.
-- The host is little-endian: the byte `i` of an integer in memory is `byte_of val i`.
pub mod RoundTrip
pub mod At
use mini_vhd.Prelude.{ℕ, zero, suc, ◌+◌, ◌*◌, ◌/◌, ◌%◌, ◌^◌, u8, ◌<<<◌, ◌>>>◌, bit_and, bit_or}
use mini_vhd.Prelude.{List, [], ◌∷◌}

-- ((uint8_t*)&val)[i]
abbrev pub byte_of : ℕ → ℕ → ℕ
byte_of val i = val / 2 ^ (8 * i) % 256

-- An integer of `n` bytes as it lies in memory, and back.
unfoldable pub store_le : ℕ → ℕ → List ℕ
store_le zero val = []
store_le (suc n) val = val % 256 ∷ store_le n (val / 256)

unfoldable pub load_le : List ℕ → ℕ
load_le [] = 0
load_le (b ∷ bs) = b + 256 * load_le bs

unfoldable pub from_be16 : ℕ → ℕ
from_be16 val = bit_or (bit_or 0 (byte_of val 0 <<< 8)) (byte_of val 1 <<< 0)

unfoldable pub from_be32 : ℕ → ℕ
from_be32 val =
    let ret = byte_of val 0 <<< 24 in
    let ret = bit_or ret (byte_of val 1 <<< 16) in
    let ret = bit_or ret (byte_of val 2 <<< 8) in bit_or ret (byte_of val 3 <<< 0)

unfoldable pub from_be64 : ℕ → ℕ
from_be64 val =
    let ret = byte_of val 0 <<< 56 in
    let ret = bit_or ret (byte_of val 1 <<< 48) in
    let ret = bit_or ret (byte_of val 2 <<< 40) in
    let ret = bit_or ret (byte_of val 3 <<< 32) in
    let ret = bit_or ret (byte_of val 4 <<< 24) in
    let ret = bit_or ret (byte_of val 5 <<< 16) in
    let ret = bit_or ret (byte_of val 6 <<< 8) in bit_or ret (byte_of val 7 <<< 0)

unfoldable pub to_be16 : ℕ → ℕ
unfolding load_le
to_be16 val = load_le (u8 (bit_and val 0xff00 >>> 8) ∷ u8 (bit_and val 0x00ff >>> 0) ∷ [])

unfoldable pub to_be32 : ℕ → ℕ
unfolding load_le
to_be32 val = load_le (
    u8 (bit_and val 0xff000000 >>> 24)
    ∷ u8 (bit_and val 0x00ff0000 >>> 16)
    ∷ u8 (bit_and val 0x0000ff00 >>> 8)
    ∷ u8 (bit_and val 0x000000ff >>> 0)
    ∷ [])

unfoldable pub to_be64 : ℕ → ℕ
unfolding load_le
to_be64 val = load_le (
    u8 (bit_and val 0xff00000000000000 >>> 56)
    ∷ u8 (bit_and val 0x00ff000000000000 >>> 48)
    ∷ u8 (bit_and val 0x0000ff0000000000 >>> 40)
    ∷ u8 (bit_and val 0x000000ff00000000 >>> 32)
    ∷ u8 (bit_and val 0x00000000ff000000 >>> 24)
    ∷ u8 (bit_and val 0x0000000000ff0000 >>> 16)
    ∷ u8 (bit_and val 0x000000000000ff00 >>> 8)
    ∷ u8 (bit_and val 0x00000000000000ff >>> 0)
    ∷ [])
