-- ===== src/Io/Write/Flush.antt =====
-- Writing the bitmap in memory back to its block.
use mini_vhd.Prelude.{ℕ, ◌+◌, ◌*◌, ◌/◌, ◌≤◌, ◌<◌, ◌≡◌, ◌≢◌, ◌⊎◌, inl, inr, refl, ap, arith}
use mini_vhd.Prelude.{equal_or_not, some, sym}
use mini_vhd.Memory.{load}
use mini_vhd.Stdio.{File, write, seek_set}
use mini_vhd.Stdio.Writes.{write-size, write-kept, write-new}
use mini_vhd.Layout.{sector_size, sparse_blk}
use mini_vhd.Image.{Meta, disk}
use mini_vhd.Io.View.{bitmap_byte, Cached}
use mini_vhd.Io.Write.{write_sect_bitmap, write_curr_sect_bitmap}
use mini_vhd.Io.Write.State.{
  Writable, disk_cell, live_byte, live_cell, Same, bitmap_byte-sparse, bitmap_byte-stored,
  live_byte-current, live_byte-other, cell-ext, stored-if-set,
}
use mini_vhd.Io.Write.Persist.{Persists, Persists-inside}
use mathlib.Core.Path.{subst}
use mini_vhd.Prelude.{◌∙◌}
use mathlib.Core.Option.{some-injective}

module _ (m : Meta) (blk : ℕ) (w : Writable (disk m) m.sparse.bat_offset)
    (bitmap_size : m.bitmap.curr_bitmap.size ≡ m.bitmap.sector_count * sector_size)
    (current : m.bitmap.curr_block ≡ some blk) (inside : blk < m.block_offset.size)
    (stored : m.block_offset.at blk ≢ sparse_blk) where
  abbrev at_block : File
  at_block = seek_set m.f (m.block_offset.at blk * sector_size)

  abbrev bitmap_bytes : ℕ
  bitmap_bytes = sector_size * m.bitmap.sector_count

  abbrev flushed : Meta
  flushed = record m { f = write at_block m.bitmap.curr_bitmap.at 0 bitmap_bytes }

  other_block :
      (b x : ℕ)
      → b < m.block_offset.size
      → m.block_offset.at b ≢ sparse_blk
      → x < (m.bitmap.sector_count + m.sect_per_block) * sector_size
      → b ≢ blk
      → (m.block_offset.at b * sector_size + x < at_block.pos)
        ⊎ (at_block.pos + bitmap_bytes ≤ m.block_offset.at b * sector_size + x)
  other_block b x hb sb hx ne = elim (w.apart b blk hb inside ne sb stored) [
    | inl before ↦ inl (omega arith)
    | inr behind ↦ inr (omega arith)
  ]

  -- A byte of another block, and a byte behind the bitmap.
  outside :
      (b x : ℕ)
      → b < m.block_offset.size
      → m.block_offset.at b ≢ sparse_blk
      → x < (m.bitmap.sector_count + m.sect_per_block) * sector_size
      → (b ≢ blk) ⊎ (bitmap_bytes ≤ x)
      → (m.block_offset.at b * sector_size + x < at_block.pos)
        ⊎ (at_block.pos + bitmap_bytes ≤ m.block_offset.at b * sector_size + x)
  outside b x hb sb hx (inl ne) = other_block b x hb sb hx ne
  outside b x hb sb hx (inr past) = elim (equal_or_not b blk) [
    | inl same ↦ inr (omega (arith, ap m.block_offset.at same))
    | inr ne ↦ other_block b x hb sb hx ne
  ]

  byte-kept :
      (b x : ℕ)
      → b < m.block_offset.size
      → m.block_offset.at b ≢ sparse_blk
      → x < (m.bitmap.sector_count + m.sect_per_block) * sector_size
      → (b ≢ blk) ⊎ (bitmap_bytes ≤ x)
      → flushed.f.byte (m.block_offset.at b * sector_size + x)
        ≡ m.f.byte (m.block_offset.at b * sector_size + x)
  byte-kept b x hb sb hx other =
      write-kept at_block m.bitmap.curr_bitmap.at 0 bitmap_bytes _ (omega (arith, w.room b hb sb))
        (outside b x hb sb hx other)

  flushed_bitmap :
      (b i : ℕ)
      → b < m.block_offset.size
      → i < m.bitmap.sector_count * sector_size
      → bitmap_byte (disk flushed) b i ≡ live_byte m b i
  flushed_bitmap b i hb hi = elim (equal_or_not b blk) [
    | inl same ↦
        bitmap_byte-stored (disk flushed) b i (λ e. stored (sym (ap m.block_offset.at same) ∙ e))
        ∙ ap (λ (a : ℕ). flushed.f.byte (m.block_offset.at a * sector_size + i)) same
        ∙ write-new at_block m.bitmap.curr_bitmap.at 0 bitmap_bytes i (omega arith)
        ∙ ap m.bitmap.curr_bitmap.at start
        ∙ sym (live_byte-current m b i (current ∙ ap some (sym same)))
    | inr ne ↦ elim (equal_or_not (m.block_offset.at b) sparse_blk) [
      | inl sparse ↦
          bitmap_byte-sparse (disk flushed) b i sparse
          ∙ sym (bitmap_byte-sparse (disk m) b i sparse)
          ∙ sym (live_byte-other m b i (other b ne))
      | inr here ↦
          bitmap_byte-stored (disk flushed) b i here
          ∙ byte-kept b i hb here (omega arith) (inl ne)
          ∙ sym (bitmap_byte-stored (disk m) b i here)
          ∙ sym (live_byte-other m b i (other b ne))
    ]
  ]
    where
      start : 0 + i ≡ i
      start = omega arith

      other : (b : ℕ) → b ≢ blk → m.bitmap.curr_block ≢ some b
      other b ne e = ne (some-injective b blk (sym e ∙ current))

  flushed_size : flushed.f.size ≡ m.f.size
  flushed_size =
      write-size at_block m.bitmap.curr_bitmap.at 0 bitmap_bytes
        (omega (arith, w.room blk inside stored))

  flushed_cell :
      (b k j : ℕ)
      → b < m.block_offset.size
      → k < m.sect_per_block
      → j < sector_size
      → disk_cell (disk flushed) b k j ≡ live_cell m b k j
  unfolding disk_cell live_cell
  flushed_cell b k j hb hk hj =
      cell-ext (disk flushed) (disk m) _ _ b k j
        (flushed_bitmap b (k / 8) hb (omega (arith, w.capacity)))
        (λ set.
          subst (λ (x : ℕ). flushed.f.byte x ≡ m.f.byte x) (omega arith)
            (byte-kept b ((m.bitmap.sector_count + k) * sector_size + j) hb
              (stored-if-set (disk flushed) b (k / 8) k set) (omega arith) (inr (omega arith))))

  flushed-Persists : Persists m flushed
  flushed-Persists = Persists-inside m flushed refl refl flushed_size w.table λ i h outside.
      write-kept at_block m.bitmap.curr_bitmap.at 0 bitmap_bytes i h (place i outside)
    where
      place :
          (i : ℕ)
          → (i < m.sparse.bat_offset + m.block_offset.size * 4) ⊎ (m.f.size ≤ i + 512)
          → (i < at_block.pos) ⊎ (at_block.pos + bitmap_bytes ≤ i)
      place i (inl before) = inl (omega (arith, w.behind blk inside stored))
      place i (inr behind) = inr (omega (arith, w.room blk inside stored))

  -- The bitmap in memory goes to its block; the file is as large as before, and holds what the image
  -- held.
  pub record Flushed (m' : Meta) : Type 0 where
    pub same : Same m m'
    pub writable : Writable (disk m') m'.sparse.bat_offset
    pub size : m'.f.size ≡ m.f.size
    pub bat : m'.block_offset ≡ m.block_offset
    pub persists : Persists m m'
    pub cached : Cached m'
    pub entered : m'.bitmap.curr_block ≡ some blk
    pub cells :
        (b k j : ℕ)
        → b < m.block_offset.size
        → k < m.sect_per_block
        → j < sector_size
        → disk_cell (disk m') b k j ≡ live_cell m b k j

  loaded : load m.block_offset blk ≡ some (m.block_offset.at blk)
  loaded = ground arith

  pub write_curr_sect_bitmap-Flushed :
      (m' : Meta) × (write_curr_sect_bitmap m ≡ some m') × Flushed m'
  unfolding write_curr_sect_bitmap write_sect_bitmap
  write_curr_sect_bitmap-Flushed = (
    flushed,
    rw (current, loaded) refl,
    record {
      same = record {
        footer = refl;
        sparse = refl;
        spb = refl;
        count = refl;
        blocks = refl;
        calls = (refl, refl, refl, refl, refl, refl);
      };
      writable = record {
        spb_pos = w.spb_pos;
        capacity = w.capacity;
        table = omega (arith, flushed_size, w.table);
        behind = w.behind;
        room = λ b hb sb. omega (arith, flushed_size, w.room b hb sb);
        apart = w.apart;
      };
      size = flushed_size;
      bat = refl;
      persists = flushed-Persists;
      cached = record {
        bitmap_size = bitmap_size;
        current = λ b i p h.
            sym (live_byte-current m b i p)
            ∙ sym (flushed_bitmap b i (omega (arith, some-injective b blk (sym p ∙ current))) h);
      };
      entered = current;
      cells = flushed_cell;
    },
  )
