-- ===== src/Io/SparseRead.antt =====
-- mvhd_sparse_read returns the sectors that the image holds, and changes nothing but the position
-- and the bitmap in memory.
pub mod Enter
pub mod Sector
pub mod Loop
use mini_vhd.Prelude.{
  ℕ, zero, suc, ◌+◌, ◌-◌, ◌*◌, ◌/◌, ◌%◌, ◌^◌, ◌≤◌, ◌<◌, ◌≡◌, refl, sym, arith, min, ltb, u32,
}
use mini_vhd.Prelude.{if◌then◌else◌, Option, none, some}
use mini_vhd.Memory.{Mem}
use mini_vhd.Layout.{sector_size}
use mini_vhd.Image.{Meta, disk}
use mini_vhd.Io.{
  Transfer, Cursor, Checked, check_sectors, sparse_read, read_loop, total_sectors, ◌>>=◌,
}
use mini_vhd.Io.Sectors.{check_sectors_cut}
use mini_vhd.Io.View.{sector_byte, Sound, Cached}
use mathlib.Core.Path.{subst}
use Enter.{Keeps}
use Loop.{read_loop_lem}

-- What a read of `count` sectors from `offset` on returns.
pub record Returned (m : Meta) (offset count : ℕ) (out_buff : Mem) (t : Transfer) : Type 0 where
  pub keeps : Keeps m t.vhdm
  pub cached : Cached t.vhdm
  pub reads :
      (i : ℕ)
      → t.mem i ≡ (
          if ltb i (count * sector_size)
          then sector_byte (disk m) (offset + i / sector_size) (i % sector_size)
          else out_buff i)

abbrev begin : Meta → Mem → Cursor
begin m out_buff = record { vhdm = m; prev_blk = none; buff = 0; mem = out_buff }

sparse_read_runs :
    (m : Meta) (offset num_sectors : ℕ) (out_buff : Mem) (checked : Checked) (c : Cursor)
    → check_sectors offset num_sectors (total_sectors m) ≡ checked
    → read_loop (u32 (offset + checked.transfer) - offset) offset (begin m out_buff) ≡ some c
    → sparse_read m offset num_sectors out_buff
      ≡ some (record { vhdm = c.vhdm; mem = c.mem; truncated = checked.truncated })
unfolding sparse_read
sparse_read_runs m offset num_sectors out_buff checked c e r = rw (e, r) refl

-- On a sound image whose block table covers the disk, a read from inside the disk never faults. It
-- puts into the buffer the bytes that the image holds for each sector up to the end of the disk,
-- touches no byte after them, reports the sectors cut off, and leaves the file, the block table and
-- the header as they were and the bitmap in memory up to date.
pub sparse_read-Returned :
    (m : Meta) (offset num_sectors : ℕ) (out_buff : Mem)
    → Sound (disk m)
    → Cached m
    → total_sectors m ≤ m.block_offset.size * m.sect_per_block
    → offset ≤ total_sectors m
    → num_sectors < 2 ^ 32
    → (t : Transfer) × (sparse_read m offset num_sectors out_buff ≡ some t)
      × (t.truncated ≡ num_sectors - (total_sectors m - offset))
      × Returned m offset (min num_sectors (total_sectors m - offset)) out_buff t
sparse_read-Returned m offset num_sectors out_buff sound cached covered start small =
    let count = min num_sectors (total_sectors m - offset) in
    let cut = check_sectors_cut offset num_sectors (total_sectors m) start (omega arith) small in
    let rounds : u32 (offset + count) - offset ≡ count = omega arith in
    let (c, runs, done) =
      read_loop_lem count offset (begin m out_buff) sound cached (omega arith)
        (λ inside. record { same_block = λ p. cc; at_sector = λ p. cc }) in
    (
      record { vhdm = c.vhdm; mem = c.mem; truncated = num_sectors - (total_sectors m - offset) },
      sparse_read_runs m offset num_sectors out_buff _ c cut
          (subst (λ k. read_loop k offset (begin m out_buff) ≡ some c) (sym rounds) runs),
      refl,
      record {
        keeps = done.keeps;
        cached = done.cached;
        reads = λ i. ground (arith, done.reads i);
      },
    )
