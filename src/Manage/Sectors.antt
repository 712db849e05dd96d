-- ===== src/Manage/Sectors.antt =====
-- manage.c: the calls of a client on an open image, by the two function pointers of the handle.
pub mod Format
use mini_vhd.Prelude.{ℕ, zero, suc, ◌+◌, ◌-◌, ◌/◌, ◌%◌, ◌^◌, u32, ltb, ◌==◌, if◌then◌else◌}
use mini_vhd.Prelude.{Option, none, some, List, [], ◌∷◌}
use mini_vhd.Memory.{Mem}
use mini_vhd.Image.{
  Meta, ReadSectors, WriteSectors, unset_read, fixed_read as by_fixed_read,
  sparse_read as by_sparse_read, diff_read as by_diff_read, unset_write,
  fixed_write as by_fixed_write, sparse_diff_write as by_sparse_diff_write,
  noop_write as by_noop_write,
}
use mini_vhd.Io.{◌>>=◌, Transfer, sparse_read}
use mini_vhd.Io.Fixed.{fixed_read, fixed_write, noop_write}
use mini_vhd.Io.Write.{sparse_diff_write, zero_bytes}
use mini_vhd.Io.Diff.{diff_read, ChainTransfer}

-- A read of the first image alone, in front of its parents.
abbrev pub alone : List Meta → Option Transfer → Option ChainTransfer
alone parents result = do
  t ← result
  some (record { chain = t.vhdm ∷ parents; mem = t.mem; truncated = t.truncated })

-- A call of a pointer that is not set is a fault.
unfoldable pub call_read : ReadSectors → Meta → List Meta → ℕ → ℕ → Mem → Option ChainTransfer
call_read unset_read m parents offset num_sectors out_buff = none
call_read by_fixed_read m parents offset num_sectors out_buff =
    alone parents (fixed_read m offset num_sectors out_buff)
call_read by_sparse_read m parents offset num_sectors out_buff =
    alone parents (sparse_read m offset num_sectors out_buff)
call_read by_diff_read m parents offset num_sectors out_buff =
    diff_read (m ∷ parents) offset num_sectors out_buff

unfoldable pub read_sectors : List Meta → ℕ → ℕ → Mem → Option ChainTransfer
read_sectors [] offset num_sectors out_buff = none
read_sectors (m ∷ parents) offset num_sectors out_buff =
    call_read m.read_sectors m parents offset num_sectors out_buff

unfoldable pub call_write : WriteSectors → Meta → ℕ → ℕ → Mem → Option Transfer
call_write unset_write m offset num_sectors in_buff = none
call_write by_fixed_write m offset num_sectors in_buff = fixed_write m offset num_sectors in_buff
call_write by_sparse_diff_write m offset num_sectors in_buff =
    sparse_diff_write m offset num_sectors in_buff
call_write by_noop_write m offset num_sectors in_buff = noop_write m offset num_sectors in_buff

unfoldable pub write_sectors : Meta → ℕ → ℕ → Mem → Option Transfer
write_sectors m offset num_sectors in_buff = call_write m.write_sectors m offset num_sectors in_buff

-- The loop of mvhd_format_sectors over the full buffers.
unfoldable pub format_loop : ℕ → Meta → ℕ → Option (Meta × ℕ)
format_loop zero m offset = some (m, offset)
format_loop (suc n) m offset = do
  t ← write_sectors m offset m.format_sector_count zero_bytes
  format_loop n t.vhdm (u32 (offset + t.vhdm.format_sector_count))

-- num_sectors / count and num_sectors % count of two ints, the count positive: a negative quotient is
-- no round of the loop, and a negative remainder stays one.
abbrev pub full_rounds : ℕ → ℕ → ℕ
full_rounds num_sectors count = if ltb num_sectors (2 ^ 31) then num_sectors / count else 0

abbrev pub remainder : ℕ → ℕ → ℕ
remainder num_sectors count =
    if ltb num_sectors (2 ^ 31)
    then num_sectors % count
    else u32 (2 ^ 32 - (2 ^ 32 - num_sectors) % count)

abbrev format_rest : ℕ → Meta × ℕ → Option Meta
format_rest remain r = do t ← write_sectors r.0 r.1 remain zero_bytes; some t.vhdm

unfoldable pub format_by : ℕ → Meta → ℕ → ℕ → Option Meta
format_by count m offset num_sectors =
    if count == 0
    then none
    else format_loop (full_rounds num_sectors count) m offset
      >>= format_rest (remainder num_sectors count)

unfoldable pub format_sectors : Meta → ℕ → ℕ → Option Meta
format_sectors m offset num_sectors = format_by m.format_sector_count m offset num_sectors
