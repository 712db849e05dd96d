-- ===== src/Io/Write/Create.antt =====
-- The block that create_block adds.
use mini_vhd.Prelude.{ℕ, ◌+◌, ◌*◌, ◌/◌, ◌≤◌, ◌<◌, ◌≡◌, ◌≢◌, refl, ◌∙◌, sym, arith}
use mini_vhd.Prelude.{some}
use mini_vhd.Prelude.{◌-◌}
use mini_vhd.Layout.{sector_size, sparse_blk}
use mini_vhd.Image.{Meta, disk}
use mini_vhd.Io.View.{Cached}
use mini_vhd.Io.Write.{create_block, take_footer}
use mini_vhd.Io.Write.State.{Writable, disk_cell, Same}
use mini_vhd.Io.Write.Persist.{Persists}
use mini_vhd.Io.Write.Added.{
  created, create_block_runs, created-Writable, size_created, appended-Appended, bitmap_created,
  new_stored, footer_created, cell_created, old_place, created-Persists,
}
use mathlib.Core.Option.{some-injective}

module _ (m : Meta) (blk : ℕ) (w : Writable (disk m) m.sparse.bat_offset)
    (block_size : m.sparse.block_sz / sector_size ≡ m.sect_per_block)
    (small : m.f.size + 512 ≤ 0xffffffff * 512) (inside : blk < m.block_offset.size)
    (sparse : m.block_offset.at blk ≡ sparse_blk) where
  -- The image has the block, and holds what it held.
  pub record Created (m' : Meta) : Type 0 where
    pub same : Same m m'
    pub writable : Writable (disk m') m'.sparse.bat_offset
    pub size : m'.f.size < m.f.size + (m.bitmap.sector_count + m.sect_per_block + 7) * sector_size
    pub grows : m.f.size < m'.f.size
    pub cached : Cached m'
    pub entered : m'.bitmap.curr_block ≡ some blk
    pub stored : m'.block_offset.at blk ≢ sparse_blk
    pub persists : Persists m m'
    pub others : (b : ℕ) → b ≢ blk → m'.block_offset.at b ≡ m.block_offset.at b
    pub footer : (i : ℕ) → i < 512 → m'.f.byte (m'.f.size - 512 + i) ≡ (take_footer m.f).1 i
    pub cells :
        (b k j : ℕ)
        → b < m.block_offset.size
        → k < m.sect_per_block
        → j < sector_size
        → disk_cell (disk m') b k j ≡ disk_cell (disk m) b k j

  pub create_block-Created :
      Cached m
      → m.bitmap.curr_block ≡ some blk
      → (m' : Meta) × (create_block m blk ≡ some m') × Created m'
  create_block-Created cached current = (
    created m blk w block_size small inside sparse,
    create_block_runs m blk w block_size small inside sparse,
    record {
      same = record {
        footer = refl;
        sparse = refl;
        spb = refl;
        count = refl;
        blocks = refl;
        calls = (refl, refl, refl, refl, refl, refl);
      };
      writable = created-Writable m blk w block_size small inside sparse;
      size = omega (
        arith,
        (size_created m blk w block_size small inside sparse),
        (appended-Appended m blk w block_size small inside sparse).near,
      );
      grows = omega (
        arith,
        (size_created m blk w block_size small inside sparse),
        (appended-Appended m blk w block_size small inside sparse).after,
        w.spb_pos,
      );
      cached = record {
        bitmap_size = cached.bitmap_size;
        current = λ b i p h.
            cached.current b i p h
            ∙ sym (
                (bitmap_created m blk w block_size small inside sparse) b i
                  (omega (arith, some-injective b blk (sym p ∙ current))) h);
      };
      entered = current;
      stored = new_stored m blk w block_size small inside sparse;
      persists = created-Persists m blk w block_size small inside sparse;
      others = old_place m blk w block_size small inside sparse;
      footer = footer_created m blk w block_size small inside sparse;
      cells = cell_created m blk w block_size small inside sparse;
    },
  )
