-- ===== src/Io/Write/ReadBack.antt =====
-- A write seen by a read of the same sectors, and a write of nothing.
use mini_vhd.Prelude.{
  ◌∙◌, inl, ℕ, ◌+◌, ◌-◌, ◌*◌, ◌/◌, ◌%◌, ◌^◌, ◌≤◌, ◌<◌, ◌≡◌, refl, ap, arith, min, u32,
}
use mini_vhd.Prelude.{◌∙◌, if◌then◌else◌, some, ltb}
use mini_vhd.Memory.{Mem, load}
use mini_vhd.Stdio.{write, seek_set}
use mini_vhd.Stdio.Writes.{write-new, write-kept}
use mini_vhd.Layout.{Footer, sector_size, sparse_blk}
use mini_vhd.Image.{Meta, disk}
use mini_vhd.Io.{Transfer, total_sectors, sparse_read}
use mini_vhd.Io.Sectors.{check_sectors_cut}
use mini_vhd.Io.View.{Cached}
use mini_vhd.Io.SparseRead.{Returned, sparse_read-Returned}
use mini_vhd.Io.Write.{sparse_diff_write, write_sect_bitmap, write_curr_sect_bitmap, write_loop}
use mathlib.Core.Path.{subst}
use mini_vhd.Io.Write.State.{Writable, Writable-Sound, Same}
use mini_vhd.Io.Write.Room.{absent, growth}
use mini_vhd.Io.Write.Written.{Written, sparse_diff_write-Written, sparse_diff_write_runs, begin}

total_sectors-Same : (m m' : Meta) → Same m m' → total_sectors m' ≡ total_sectors m
total_sectors-Same m m' same = ap (λ (f : Footer). u32 (f.curr_sz / sector_size)) same.footer

same_byte :
    (m : Meta) (offset count : ℕ) (in_buff out_buff : Mem) (t r : Transfer)
    → offset + count ≤ m.block_offset.size * m.sect_per_block
    → Written m offset count in_buff t
    → Returned t.vhdm offset count out_buff r
    → (i : ℕ) → r.mem i ≡ (if ltb i (count * sector_size) then in_buff i else out_buff i)
same_byte m offset count in_buff out_buff t r room wrote read i =
    let inside = λ (h : i < count * 512).
      wrote.writes (offset + i / 512) (i % 512) (omega arith) (omega arith) in
    ground (arith, read.reads i, inside)

-- Under the conditions of a write, reading the same request right after it gives the bytes that were
-- written, up to the end of the disk, and leaves the rest of the reader's buffer alone; both calls
-- report the same count of truncated sectors.
pub sparse_read-sparse_diff_write :
    (m : Meta) (offset num_sectors : ℕ) (in_buff out_buff : Mem)
    → Writable (disk m) m.sparse.bat_offset
    → Cached m
    → m.sparse.block_sz / sector_size ≡ m.sect_per_block
    → total_sectors m ≤ m.block_offset.size * m.sect_per_block
    → offset < total_sectors m
    → 0 < num_sectors
    → num_sectors < 2 ^ 32
    → m.f.size + min (min num_sectors (total_sectors m - offset)) (absent m) * growth m + 512
      ≤ 0xffffffff * 512
    → (t : Transfer) × (r : Transfer) × (sparse_diff_write m offset num_sectors in_buff ≡ some t)
      × (sparse_read t.vhdm offset num_sectors out_buff ≡ some r)
      × (r.truncated ≡ t.truncated)
      × ((i : ℕ)
          → r.mem i ≡ (
              if ltb i (min num_sectors (total_sectors m - offset) * sector_size)
              then in_buff i
              else out_buff i))
sparse_read-sparse_diff_write m offset num_sectors in_buff out_buff w cached block_size covered
      start pos small room =
    let (t, writes, cut, wrote) =
      sparse_diff_write-Written m offset num_sectors in_buff w cached block_size covered start pos
        small room in
    let total = total_sectors-Same m t.vhdm wrote.same in
    let (r, reads, cut', read) =
      sparse_read-Returned t.vhdm offset num_sectors out_buff
        (Writable-Sound (disk t.vhdm) _ wrote.writable) wrote.cached
        (rw (total, wrote.same.blocks, wrote.same.spb) covered) (omega (arith, total)) small in
    let read' =
      subst (λ n. Returned t.vhdm offset (min num_sectors (n - offset)) out_buff r) total read in
    (
      t,
      r,
      writes,
      reads,
      omega (arith, cut, cut', total),
      same_byte m offset (min num_sectors (total_sectors m - offset)) in_buff out_buff t r
          (omega arith) wrote read',
    )

-- After a sparse block was read, a write of no sectors puts the bitmap in memory at the place that
-- the block table's mark for a sparse block stands for, sector 2 ^ 32 - 1, so that the file grows
-- past it; the bytes of the file before that place are kept.
pub sparse_diff_write_nothing :
    (m : Meta) (offset blk : ℕ) (in_buff : Mem)
    → m.bitmap.curr_block ≡ some blk
    → blk < m.block_offset.size
    → m.block_offset.at blk ≡ sparse_blk
    → 0 < m.bitmap.sector_count
    → offset ≤ total_sectors m
    → (t : Transfer) × (sparse_diff_write m offset 0 in_buff ≡ some t)
      × (0xffffffff * 512 < t.vhdm.f.size)
      × ((k : ℕ)
          → k < m.bitmap.sector_count * 512
          → t.vhdm.f.byte (0xffffffff * 512 + k) ≡ m.bitmap.curr_bitmap.at k)
      × ((i : ℕ) → i < m.f.size → i < 0xffffffff * 512 → t.vhdm.f.byte i ≡ m.f.byte i)
unfolding write_loop write_curr_sect_bitmap write_sect_bitmap
sparse_diff_write_nothing m offset blk in_buff current inside sparse count start =
    let cut = check_sectors_cut offset 0 (total_sectors m) start (omega arith) (omega arith) in
    let loaded : load m.block_offset blk ≡ some sparse_blk = ground arith in
    let at_mark = seek_set m.f (sparse_blk * sector_size) in
    let f = write at_mark m.bitmap.curr_bitmap.at 0 (sector_size * m.bitmap.sector_count) in
    let none_left : min 0 (total_sectors m - offset) ≡ 0 = omega arith in
    let rounds : u32 (offset + min 0 (total_sectors m - offset)) - offset ≡ 0 = omega arith in
    (
      record {
        vhdm = record m { f = f };
        mem = in_buff;
        truncated = 0 - (total_sectors m - offset);
      },
      sparse_diff_write_runs m (record m { f = f }) offset 0 in_buff _ (begin m in_buff) cut
          (rw rounds refl) (simp (current, loaded) refl),
      ground arith,
      λ k h.
          write-new at_mark m.bitmap.curr_bitmap.at 0 (sector_size * m.bitmap.sector_count) k
            (omega arith)
          ∙ ap m.bitmap.curr_bitmap.at {y = k} (omega arith),
      λ i h before.
          write-kept at_mark m.bitmap.curr_bitmap.at 0 (sector_size * m.bitmap.sector_count) i h
            (inl before),
    )
