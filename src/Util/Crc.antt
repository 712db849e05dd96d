-- ===== src/Util/Crc.antt =====
-- util.c: mvhd_crc32, by a table that its first call fills.
use mini_vhd.Prelude.{ℕ, zero, suc, ◌%◌, bit_xor, u8, ◌==◌, ◌>>>◌, if◌then◌else◌, List, [], ◌∷◌}
use mini_vhd.Memory.{Mem, update}

-- The loop of mvhd_crc32_for_byte over the bits that are left.
unfoldable pub shift_bits : ℕ → ℕ → ℕ
shift_bits zero r = r
shift_bits (suc j) r = shift_bits j (bit_xor (if r % 2 == 1 then 0 else 0xedb88320) (r >>> 1))

unfoldable pub crc32_for_byte : ℕ → ℕ
unfolding shift_bits
crc32_for_byte r = bit_xor (shift_bits 8 r) 0xff000000

-- for (i = 0; i < 0x100; ++i) table[i] = mvhd_crc32_for_byte(i)
unfoldable pub fill_table : ℕ → Mem → Mem
fill_table zero table = table
fill_table (suc i) table = update (fill_table i table) i (crc32_for_byte i)

unfoldable pub crc_bytes : Mem → ℕ → List ℕ → ℕ
crc_bytes table crc [] = crc
crc_bytes table crc (b ∷ bs) = crc_bytes table (bit_xor (table (bit_xor (u8 crc) b)) (crc >>> 8)) bs

-- The static table is passed in, and comes back with the result.
unfoldable pub crc32 : Mem → List ℕ → ℕ × Mem
crc32 table bytes =
    let filled = if table 0 == 0 then fill_table 256 table else table in
    (crc_bytes filled 0 bytes, filled)
