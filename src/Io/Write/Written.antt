-- ===== src/Io/Write/Written.antt =====
-- mvhd_sparse_diff_write puts the sectors of the request into the image and keeps the others.
use mini_vhd.Prelude.{
  ℕ, ◌+◌, ◌-◌, ◌*◌, ◌/◌, ◌%◌, ◌^◌, ◌≤◌, ◌<◌, ◌≡◌, ◌⊎◌, inl, inr, refl, sym, ap, ◌∙◌, arith, min,
  u32,
}
use mini_vhd.Prelude.{if◌then◌else◌, none, some}
use mini_vhd.Memory.{Mem, within}
use mini_vhd.Layout.{sector_size}
use mini_vhd.Image.{Meta, disk}
use mini_vhd.Io.{Cursor, Checked, Transfer, check_sectors, total_sectors}
use mini_vhd.Io.Sectors.{check_sectors_cut}
use mini_vhd.Io.View.{sector_byte, Cached}
use mini_vhd.Io.SparseRead.Loop.{div_below}
use mini_vhd.Io.Write.{sparse_diff_write, write_loop, write_curr_sect_bitmap}
use mini_vhd.Io.Write.State.{
  Writable, disk_cell, live_cell-Cached, sector_byte-disk_cell, Same, Same-trans,
}
use mini_vhd.Io.Write.Room.{absent, growth, Grows, Grows-same, Grows-trans}
use mini_vhd.Io.Write.Persist.{Persists, Persists-trans}
use mini_vhd.Io.Write.Held.{Held, growth-Same}
use mini_vhd.Io.Write.Flush.{write_curr_sect_bitmap-Flushed}
use mini_vhd.Io.Write.Round.{Ongoing, Wrote, live_sector}
use mini_vhd.Io.Write.Loop.{write_loop_lem}
use mathlib.Core.Path.{subst}
use native.Mathlib.Nat.{mod-lt}

-- What a write of `count` sectors from `offset` on returns.
pub record Written (m : Meta) (offset count : ℕ) (in_buff : Mem) (t : Transfer) : Type 0 where
  pub same : Same m t.vhdm
  pub writable : Writable (disk t.vhdm) t.vhdm.sparse.bat_offset
  pub cached : Cached t.vhdm
  pub added : ℕ
  pub few : added ≤ count
  pub grows : Grows m t.vhdm added
  pub persists : Persists m t.vhdm
  pub mem : t.mem ≡ in_buff
  pub writes :
      (s j : ℕ)
      → s < m.block_offset.size * m.sect_per_block
      → j < sector_size
      → sector_byte (disk t.vhdm) s j ≡ (
          if within offset count s
          then in_buff ((s - offset) * sector_size + j)
          else sector_byte (disk m) s j)

abbrev pub begin : Meta → Mem → Cursor
begin m in_buff = record { vhdm = m; prev_blk = none; buff = 0; mem = in_buff }

pub sparse_diff_write_runs :
    (m m' : Meta) (offset num_sectors : ℕ) (in_buff : Mem) (checked : Checked) (c : Cursor)
    → check_sectors offset num_sectors (total_sectors m) ≡ checked
    → write_loop (u32 (offset + checked.transfer) - offset) offset (begin m in_buff) ≡ some c
    → write_curr_sect_bitmap c.vhdm ≡ some m'
    → sparse_diff_write m offset num_sectors in_buff
      ≡ some (record { vhdm = m'; mem = c.mem; truncated = checked.truncated })
unfolding sparse_diff_write
sparse_diff_write_runs m m' offset num_sectors in_buff checked c e r q = rw (e, r, q) refl

-- After a round the loop is in a block.
started :
    (n : ℕ) (c : Cursor)
    → 0 < n
    → ((n ≡ 0) × (c.prev_blk ≡ none)) ⊎ ((p : ℕ) × (c.prev_blk ≡ some p))
    → (p : ℕ) × (c.prev_blk ≡ some p)
started n c pos (inl (nothing, first)) = absurd (omega arith)
started n c pos (inr last) = last

-- The block of the loop has its bitmap written.
flush_last :
    (k blocks s p : ℕ) (c : Cursor)
    → Ongoing k blocks s c
    → c.prev_blk ≡ some p
    → (m' : Meta) × (write_curr_sect_bitmap c.vhdm ≡ some m') × Held c.vhdm 0 m'
flush_last k blocks s p c on at = elim on.status [
  | inl (first, cached) ↦ absurd (ground arith)
  | inr (q, last, in_block) ↦
      let (m', runs, done) =
        write_curr_sect_bitmap-Flushed c.vhdm q on.writable on.bitmap_size in_block.current
          in_block.inside in_block.stored in
      (
        m',
        runs,
        record {
          same = done.same;
          writable = done.writable;
          grows = Grows-same c.vhdm m' done.bat (omega (arith, done.size));
          persists = done.persists;
          cached = done.cached;
          cells = done.cells;
        },
      )
]

module _ (m : Meta) (w : Writable (disk m) m.sparse.bat_offset) (cached : Cached m)
    (block_size : m.sparse.block_sz / sector_size ≡ m.sect_per_block) where
  abbrev k : ℕ
  k = m.sect_per_block

  abbrev blocks : ℕ
  blocks = m.block_offset.size

  sector_byte-live_sector :
      (m1 m2 : Meta) (s j : ℕ)
      → Same m m1
      → Held m1 0 m2
      → s < blocks * k
      → j < sector_size
      → sector_byte (disk m2) s j ≡ live_sector k m1 s j
  unfolding live_sector
  sector_byte-live_sector m1 m2 s j same held hs hj =
      sector_byte-disk_cell (disk m2) s j
      ∙ ap (λ (n : ℕ). disk_cell (disk m2) (s / n) (s % n) j) (held.same.spb ∙ same.spb)
      ∙ held.cells (s / k) (s % k) j (omega (arith, same.blocks, div_below s k blocks w.spb_pos hs))
          (omega (arith, same.spb, mod-lt s w.spb_pos)) hj

  first_sector :
      (s j : ℕ) → s < blocks * k → j < sector_size → live_sector k m s j ≡ sector_byte (disk m) s j
  unfolding live_sector
  first_sector s j hs hj =
      live_cell-Cached m (s / k) (s % k) j cached (omega (arith, w.capacity, mod-lt s w.spb_pos))
      ∙ sym (sector_byte-disk_cell (disk m) s j)

  written :
      (offset count truncated : ℕ) (in_buff : Mem) (c : Cursor) (m' : Meta)
      → Wrote k blocks count offset (begin m in_buff) c
      → Held c.vhdm 0 m'
      → Written m offset count in_buff (record { vhdm = m'; mem = c.mem; truncated = truncated })
  written offset count truncated in_buff c m' wrote held = record {
    same = Same-trans m c.vhdm m' wrote.same held.same;
    writable = held.writable;
    cached = held.cached;
    added = wrote.added + 0;
    few = omega (arith, wrote.few);
    grows =
        Grows-trans m c.vhdm m' wrote.added 0 (growth-Same m c.vhdm wrote.same) wrote.grows
          held.grows;
    persists = Persists-trans m c.vhdm m' wrote.persists held.persists;
    mem = wrote.mem;
    writes = λ s j hs hj.
        sector_byte-live_sector c.vhdm m' s j wrote.same held hs hj
        ∙ ground
            (arith, wrote.cells s j (div_below s k blocks w.spb_pos hs) hj, first_sector s j hs hj);
  }

-- On a writable image whose block table covers the disk and that stays below 2 ^ 32 - 1 sectors,
-- even if each sector of the request adds a block while blocks are absent, a write of at least one sector that begins on the
-- disk never faults. Afterwards the image holds the buffer's bytes in each sector of the request up
-- to the end of the disk, and in every other sector what it held; the sectors cut off are reported,
-- the image is writable again, and the bitmap in memory is that in the file.
pub sparse_diff_write-Written :
    (m : Meta) (offset num_sectors : ℕ) (in_buff : Mem)
    → Writable (disk m) m.sparse.bat_offset
    → Cached m
    → m.sparse.block_sz / sector_size ≡ m.sect_per_block
    → total_sectors m ≤ m.block_offset.size * m.sect_per_block
    → offset < total_sectors m
    → 0 < num_sectors
    → num_sectors < 2 ^ 32
    → m.f.size + min (min num_sectors (total_sectors m - offset)) (absent m) * growth m + 512
      ≤ 0xffffffff * 512
    → (t : Transfer) × (sparse_diff_write m offset num_sectors in_buff ≡ some t)
      × (t.truncated ≡ num_sectors - (total_sectors m - offset))
      × Written m offset (min num_sectors (total_sectors m - offset)) in_buff t
sparse_diff_write-Written m offset num_sectors in_buff w cached block_size covered start some_sector
      small room =
    let count = min num_sectors (total_sectors m - offset) in
    let cut =
      check_sectors_cut offset num_sectors (total_sectors m) (omega arith) (omega arith) small in
    let rounds : u32 (offset + count) - offset ≡ count = omega arith in
    let on : Ongoing m.sect_per_block m.block_offset.size offset (begin m in_buff) = record {
      spb = refl;
      count = refl;
      writable = w;
      block_size = block_size;
      bitmap_size = cached.bitmap_size;
      status = inl (refl, cached);
    } in
    let (c, runs, done, wrote) =
      write_loop_lem count m.sect_per_block m.block_offset.size offset (begin m in_buff) on
        w.spb_pos room (omega arith) in
    let (p, last) = started count c (omega arith) wrote.last in
    let (m', flushes, held) =
      flush_last m.sect_per_block m.block_offset.size (offset + count) p c done last in
    (
      record { vhdm = m'; mem = c.mem; truncated = num_sectors - (total_sectors m - offset) },
      sparse_diff_write_runs m m' offset num_sectors in_buff _ c cut
          (subst (λ n. write_loop n offset (begin m in_buff) ≡ some c) (sym rounds) runs) flushes,
      refl,
      written m w cached block_size offset count _ in_buff c m' wrote held,
    )
