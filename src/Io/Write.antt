-- ===== src/Io/Write.antt =====
-- io.c: writing to a sparse or differencing image, with the blocks it adds.
pub mod Zeros
pub mod State
pub mod Room
pub mod Persist
pub mod Again
pub mod Flush
pub mod Added
pub mod Create
pub mod Held
pub mod Put
pub mod Prepare
pub mod Round
pub mod Loop
pub mod Written
pub mod ReadBack
pub mod KeepsFooter
pub mod Append
use mini_vhd.Prelude.{ℕ, zero, suc, ◌+◌, ◌-◌, ◌*◌, ◌/◌, ◌%◌, u32}
use mini_vhd.Prelude.{ltb, ◌==◌, Bool, ◌&&◌, true, false, not, if◌then◌else◌, Option, none, some}
use mini_vhd.Memory.{Mem, load, store, of_list}
use mini_vhd.Stdio.{File, seek_set, seek_end, read_mem, after_read, write}
use mini_vhd.Endian.{store_le, to_be32}
use mini_vhd.Layout.{sector_size, footer_size, sparse_blk}
use mini_vhd.Cookie.{is_conectix_str}
use mini_vhd.Image.{Meta}
use mini_vhd.Io.{
  ◌>>=◌, set_bit, check_sectors, total_sectors, is_block, read_sect_bitmap, enter_block, Cursor,
  Transfer,
}

abbrev pub zero_bytes : Mem
zero_bytes i = 0

unfoldable pub write_empty_sectors : File → ℕ → File
write_empty_sectors f zero = f
write_empty_sectors f (suc n) = write_empty_sectors (write f zero_bytes 0 sector_size) n

-- write_curr_sect_bitmap, with the block that the bitmap in memory belongs to.
unfoldable pub write_sect_bitmap : Meta → ℕ → Option Meta
write_sect_bitmap m blk = do
  offset ← load m.block_offset blk
  let f = seek_set m.f (offset * sector_size)
  some (record m { f = write f m.bitmap.curr_bitmap.at 0 (sector_size * m.bitmap.sector_count) })

unfoldable pub write_curr_sect_bitmap : Meta → Option Meta
write_curr_sect_bitmap m = flush m.bitmap.curr_block
  where
    flush : Option ℕ → Option Meta
    flush none = some m
    flush (some blk) = write_sect_bitmap m blk

unfoldable pub write_bat_entry : Meta → ℕ → Option Meta
write_bat_entry m blk = do
  block_offset ← load m.block_offset blk
  let f = seek_set m.f (m.sparse.bat_offset + blk * 4)
  some (record m { f = write f (of_list (store_le 4 (to_be32 block_offset))) 0 4 })

-- If the file does not end in a footer, its copy at the start is taken, and the stream is left at the
-- end of the file.
unfoldable pub header_instead : Bool → File → Mem → File × Mem
header_instead true f footer = (f, footer)
header_instead false f footer = (
  seek_end (after_read (seek_set f 0) footer_size) 0,
  read_mem (seek_set f 0) footer 0 footer_size,
)

-- The footer that is to follow the new block, and the stream where the block is to begin. The array
-- is not initialised, so a file without room for a footer is a fault of create_block.
unfoldable pub take_footer : File → File × Mem
unfolding header_instead
take_footer f =
    let f1 = seek_end f footer_size in
    let footer = read_mem f1 zero_bytes 0 footer_size in
    let f2 = seek_end (after_read f1 footer_size) footer_size in
    header_instead (is_conectix_str footer) f2 footer

-- for (i = 0; i < padding_amount; i++) fwrite(&zero_byte, 1, 1, f)
unfoldable pub write_padding : File → ℕ → File
write_padding f zero = f
write_padding f (suc n) = write_padding (write f zero_bytes 0 1) n

unfoldable pub pad_to_sector : File → File
pad_to_sector f =
    if f.pos % sector_size == 0 then f else write_padding f (sector_size - f.pos % sector_size)

-- What create_block appends at the position: the bitmap and the sectors of the block, all zero,
-- five sectors of padding and the footer.
unfoldable pub append_block : File → Mem → ℕ → File
append_block f footer sectors =
    write (write_empty_sectors (write_empty_sectors f sectors) 5) footer 0 footer_size

unfoldable pub create_block : Meta → ℕ → Option Meta
unfolding take_footer pad_to_sector append_block
create_block m blk = if ltb m.f.size footer_size then none else do
  let (start, footer) = take_footer m.f
  let f = pad_to_sector start
  let blk_size_sectors = m.sparse.block_sz / sector_size
  block_offset ← store m.block_offset blk (u32 (f.pos / sector_size))
  write_bat_entry
      (record m {
        f = append_block f footer (m.bitmap.sector_count + blk_size_sectors);
        block_offset = block_offset;
      })
      blk

-- One round of the loop: the bitmap of the block that is left, the block that is missing, the
-- position of the sector, and the sector with its bit.
unfoldable pub leave_block : Meta → Option ℕ → ℕ → Option Meta
leave_block m none blk = some m
leave_block m (some prev) blk =
    if is_block m.bitmap.curr_block blk then some m else write_curr_sect_bitmap m

unfoldable pub add_block : Meta → ℕ → Option Meta
add_block m blk = do
  offset ← load m.block_offset blk
  let found = offset == sparse_blk
  m' ← if found then read_sect_bitmap m blk else some m
  if found then create_block m' blk else some m'

unfoldable pub prepare_sector : Meta → Option ℕ → ℕ → ℕ → Option Meta
prepare_sector m prev_blk blk sib = do
  m1 ← leave_block m prev_blk blk
  m2 ← add_block m1 blk
  enter_block m2 prev_blk blk sib

unfoldable pub put_sector : Meta → ℕ → ℕ → Cursor → Option Cursor
put_sector m blk sib c = do
  byte ← load m.bitmap.curr_bitmap (sib / 8)
  curr_bitmap ← store m.bitmap.curr_bitmap (sib / 8) (set_bit byte sib)
  some (record {
    vhdm = record m {
      f = write m.f c.mem c.buff sector_size;
      bitmap = record m.bitmap { curr_bitmap = curr_bitmap };
    };
    prev_blk = some blk;
    buff = c.buff + sector_size;
    mem = c.mem;
  })

unfoldable pub write_sector : ℕ → Cursor → Option Cursor
write_sector s c =
    let blk = s / c.vhdm.sect_per_block in
    let sib = s % c.vhdm.sect_per_block in
    if c.vhdm.sect_per_block == 0
    then none
    else do m ← prepare_sector c.vhdm c.prev_blk blk sib; put_sector m blk sib c

unfoldable pub write_loop : ℕ → ℕ → Cursor → Option Cursor
write_loop zero s c = some c
write_loop (suc n) s c = do c' ← write_sector s c; write_loop n (s + 1) c'

unfoldable pub sparse_diff_write : Meta → ℕ → ℕ → Mem → Option Transfer
sparse_diff_write m offset num_sectors in_buff = do
  let checked = check_sectors offset num_sectors (total_sectors m)
  let ls = u32 (offset + checked.transfer)
  c ←
      write_loop (ls - offset) offset
        (record { vhdm = m; prev_blk = none; buff = 0; mem = in_buff })
  m' ← write_curr_sect_bitmap c.vhdm
  some (record { vhdm = m'; mem = c.mem; truncated = checked.truncated })
