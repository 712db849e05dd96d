-- ===== src/Io.antt =====
-- io.c: sector reads and writes. `none` is a fault, which C leaves undefined: an index outside the
-- block table or the sector bitmap, a division by zero, an int overflow, a missing parent.
-- An int parameter is its 32-bit pattern, since the code mixes it with uint32_t.
pub mod Bits
pub mod Sectors
pub mod View
pub mod SparseRead
pub mod Write
pub mod Fixed
pub mod Diff
use mini_vhd.Prelude.{
  ℕ, zero, suc, ◌+◌, ◌-◌, ◌*◌, ◌/◌, ◌%◌, ◌^◌, u32, sub32, ◌>>>◌, bit_and, bit_or,
}
use mini_vhd.Prelude.{ltb, leb, ◌==◌, Bool, true, false, not, if◌then◌else◌, Option, none, some}
use mini_vhd.Memory.{Mem, Block, load, store, fill}
use mini_vhd.Stdio.{File, seek_set, seek_cur, read_mem, after_read}
use mini_vhd.Layout.{sector_size, sparse_blk}
use mini_vhd.Image.{Meta}

infixl 5 ◌>>=◌
abbrev pub ◌>>=◌ {ℓ κ} : {A : Type ℓ} {B : Type κ} → Option A → (A → Option B) → Option B
none >>= k = none
some a >>= k = k a

-- 0x80 >> (k & 7)
abbrev pub mask : ℕ → ℕ
mask k = 0x80 >>> bit_and k 7

-- VHD_TESTBIT, VHD_SETBIT and VHD_CLEARBIT on the byte that holds the bit.
unfoldable pub bit_set : ℕ → ℕ → Bool
bit_set byte k = not (bit_and byte (mask k) == 0)

unfoldable pub set_bit : ℕ → ℕ → ℕ
set_bit byte k = bit_or byte (mask k)

abbrev pub test_bit : Block → ℕ → Option Bool
test_bit bitmap k = do byte ← load bitmap (k / 8); some (bit_set byte k)

-- check_sectors: the sectors to transfer, and those cut off.
pub record Checked : Type 0 where
  pub transfer : ℕ
  pub truncated : ℕ

unfoldable pub check_sectors : ℕ → ℕ → ℕ → Checked
check_sectors offset num_sectors total_sectors =
    let left = sub32 total_sectors offset in
    if ltb left num_sectors
    then record { transfer = left; truncated = sub32 num_sectors left }
    else record { transfer = num_sectors; truncated = 0 }

abbrev pub total_sectors : Meta → ℕ
total_sectors m = u32 (m.footer.curr_sz / sector_size)

-- curr_block == blk, prev_blk == blk
abbrev pub is_block : Option ℕ → ℕ → Bool
is_block none blk = false
is_block (some b) blk = b == blk

-- The two branches of read_sect_bitmap: the bitmap of a sparse block is zeroed in memory, any other
-- is read from the file at its block's offset.
unfoldable pub zero_bitmap : Meta → ℕ → Meta
zero_bitmap m blk =
    let at = fill m.bitmap.curr_bitmap.at 0 0 (m.bitmap.sector_count * sector_size) in
    record m {
      bitmap = record m.bitmap {
        curr_bitmap = record m.bitmap.curr_bitmap { at = at };
        curr_block = some blk;
      };
    }

unfoldable pub load_bitmap : Meta → ℕ → ℕ → Meta
load_bitmap m blk offset =
    let n = m.bitmap.sector_count * sector_size in
    let f = seek_set m.f (offset * sector_size) in
    record m {
      f = after_read f n;
      bitmap = record m.bitmap {
        curr_bitmap = record m.bitmap.curr_bitmap { at = read_mem f m.bitmap.curr_bitmap.at 0 n };
        curr_block = some blk;
      };
    }

unfoldable pub read_sect_bitmap : Meta → ℕ → Option Meta
unfolding zero_bitmap load_bitmap
read_sect_bitmap m blk = do
  offset ← load m.block_offset blk
  some (if offset == sparse_blk then zero_bitmap m blk else load_bitmap m blk offset)

-- (block_offset[blk] + sector_count + sib) * MVHD_SECTOR_SIZE
unfoldable pub seek_sector : Meta → ℕ → ℕ → Option Meta
seek_sector m blk sib = do
  offset ← load m.block_offset blk
  some (record m { f = seek_set m.f ((offset + m.bitmap.sector_count + sib) * sector_size) })

-- The positioning of a loop that moves from one block to the next.
unfoldable pub enter_block : Meta → Option ℕ → ℕ → ℕ → Option Meta
enter_block m prev_blk blk sib =
    if is_block prev_blk blk
    then some m
    else if is_block m.bitmap.curr_block blk
    then seek_sector m blk sib
    else do m' ← read_sect_bitmap m blk; some (record m' { f = seek_cur m'.f (sib * sector_size) })

-- The variables of the loop of mvhd_sparse_read; `buff` counts from `out_buff` on.
pub record Cursor : Type 0 where
  pub vhdm : Meta
  pub prev_blk : Option ℕ
  pub buff : ℕ
  pub mem : Mem

-- A present sector is read into the buffer; an absent one is zeroed there and skipped in the file.
unfoldable pub take_sector : Bool → Meta → ℕ → Cursor → Cursor
take_sector true m blk c = record {
  vhdm = record m { f = after_read m.f sector_size };
  prev_blk = some blk;
  buff = c.buff + sector_size;
  mem = read_mem m.f c.mem c.buff sector_size;
}
take_sector false m blk c = record {
  vhdm = record m { f = seek_cur m.f sector_size };
  prev_blk = some blk;
  buff = c.buff + sector_size;
  mem = fill c.mem c.buff 0 sector_size;
}

unfoldable pub read_sector : ℕ → Cursor → Option Cursor
unfolding take_sector
read_sector s c =
    let blk = s / c.vhdm.sect_per_block in
    let sib = s % c.vhdm.sect_per_block in
    if c.vhdm.sect_per_block == 0 then none else do
      m ← enter_block c.vhdm c.prev_blk blk sib
      present ← test_bit m.bitmap.curr_bitmap sib
      some (take_sector present m blk c)

unfoldable pub read_loop : ℕ → ℕ → Cursor → Option Cursor
read_loop zero s c = some c
read_loop (suc n) s c = do c' ← read_sector s c; read_loop n (s + 1) c'

-- The result of a transfer: the image, the buffer, and the count of truncated sectors.
pub record Transfer : Type 0 where
  pub vhdm : Meta
  pub mem : Mem
  pub truncated : ℕ

-- for (s = offset; s < ls; s++) has `ls - offset` rounds.
unfoldable pub sparse_read : Meta → ℕ → ℕ → Mem → Option Transfer
sparse_read m offset num_sectors out_buff = do
  let checked = check_sectors offset num_sectors (total_sectors m)
  let ls = u32 (offset + checked.transfer)
  c ←
      read_loop (ls - offset) offset
        (record { vhdm = m; prev_blk = none; buff = 0; mem = out_buff })
  some (record { vhdm = c.vhdm; mem = c.mem; truncated = checked.truncated })
