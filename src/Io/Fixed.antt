-- ===== src/Io/Fixed.antt =====
-- io.c: reading and writing a fixed image, whose sectors lie at the start of the file, and the write
-- to an image that is read-only.
pub mod Moves
use mini_vhd.Prelude.{ℕ, ◌+◌, ◌*◌, ◌^◌, ltb, if◌then◌else◌, Option, none, some}
use mini_vhd.Memory.{Mem}
use mini_vhd.Stdio.{File, seek_set, read_mem, after_read, write}
use mini_vhd.Layout.{sector_size}
use mini_vhd.Image.{Meta}
use mini_vhd.Io.{◌>>=◌, check_sectors, total_sectors, Transfer}

-- transfer_sectors*MVHD_SECTOR_SIZE is a product of ints: it must not overflow, and a negative one is
-- no size.
unfoldable pub transfer_bytes : ℕ → Option ℕ
transfer_bytes sectors =
    if ltb (sectors * sector_size) (2 ^ 31) then some (sectors * sector_size) else none

unfoldable pub fixed_read : Meta → ℕ → ℕ → Mem → Option Transfer
unfolding transfer_bytes
fixed_read m offset num_sectors out_buff = do
  let checked = check_sectors offset num_sectors (total_sectors m)
  let f = seek_set m.f (offset * sector_size)
  size ← transfer_bytes checked.transfer
  some (record {
    vhdm = record m { f = after_read f size };
    mem = read_mem f out_buff 0 size;
    truncated = checked.truncated;
  })

unfoldable pub fixed_write : Meta → ℕ → ℕ → Mem → Option Transfer
unfolding transfer_bytes
fixed_write m offset num_sectors in_buff = do
  let checked = check_sectors offset num_sectors (total_sectors m)
  let f = seek_set m.f (offset * sector_size)
  size ← transfer_bytes checked.transfer
  some (record {
    vhdm = record m { f = write f in_buff 0 size };
    mem = in_buff;
    truncated = checked.truncated;
  })

abbrev pub noop_write : Meta → ℕ → ℕ → Mem → Option Transfer
noop_write m offset num_sectors in_buff = some (record { vhdm = m; mem = in_buff; truncated = 0 })
