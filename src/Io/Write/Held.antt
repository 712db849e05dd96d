-- ===== src/Io/Write/Held.antt =====
-- Steps of a write that leave the bitmap in memory the same as in the file.
use mini_vhd.Prelude.{ℕ, ◌+◌, ◌*◌, ◌/◌, ◌≤◌, ◌<◌, ◌≡◌, ◌≢◌, inl, inr, refl, sym, ap, ◌∙◌, arith}
use mini_vhd.Prelude.{true, false, equal_or_not, ◌==◌, some}
use mini_vhd.Memory.{load}
use mini_vhd.Layout.{SparseHeader, sector_size, sparse_blk}
use mini_vhd.Image.{Meta, Disk, disk}
use mini_vhd.Io.{is_block}
use mini_vhd.Io.View.{Cached}
use mini_vhd.Io.SparseRead.Enter.{Keeps, read_sect_bitmap_lem}
use mini_vhd.Io.Write.{leave_block, add_block, create_block}
use mini_vhd.Io.Write.State.{
  Writable, Writable-Sound, disk_cell, live_cell, live_cell-Cached, Same, Same-refl, Same-trans,
  is_block-other,
}
use mini_vhd.Io.Write.Room.{
  Grows, Grows-refl, Grows-same, Grows-trans, growth, sparse_count, sparse_count-stored,
}
use mini_vhd.Io.Write.Persist.{Persists, Persists-refl, Persists-trans, Persists-inside}
use mini_vhd.Io.Write.Flush.{write_curr_sect_bitmap-Flushed}
use mini_vhd.Io.Write.Create.{create_block-Created}
use mathlib.Core.Option.{some-injective}

-- The image holds what it held, with `added` new blocks.
pub record Held (m : Meta) (added : ℕ) (m' : Meta) : Type 0 where
  pub same : Same m m'
  pub writable : Writable (disk m') m'.sparse.bat_offset
  pub grows : Grows m m' added
  pub persists : Persists m m'
  pub cached : Cached m'
  pub cells :
      (b k j : ℕ)
      → b < m.block_offset.size
      → k < m.sect_per_block
      → j < sector_size
      → disk_cell (disk m') b k j ≡ live_cell m b k j

pub Held-refl : (m : Meta) → Writable (disk m) m.sparse.bat_offset → Cached m → Held m 0 m
Held-refl m w cached = record {
  same = Same-refl m;
  writable = w;
  grows = Grows-refl m;
  persists = Persists-refl m;
  cached = cached;
  cells = λ b k j hb hk hj. sym (live_cell-Cached m b k j cached (omega (arith, w.capacity)));
}

pub growth-Same : (m m' : Meta) → Same m m' → growth m' ≡ growth m
growth-Same m m' same = omega (arith, same.count, same.spb)

pub Held-trans : (m m' m'' : Meta) (g g' : ℕ) → Held m g m' → Held m' g' m'' → Held m (g + g') m''
Held-trans m m' m'' g g' one two = record {
  same = Same-trans m m' m'' one.same two.same;
  writable = two.writable;
  grows = Grows-trans m m' m'' g g' (growth-Same m m' one.same) one.grows two.grows;
  persists = Persists-trans m m' m'' one.persists two.persists;
  cached = two.cached;
  cells = λ b k j hb hk hj.
      two.cells b k j (omega (arith, one.same.blocks)) (omega (arith, one.same.spb)) hj
      ∙ live_cell-Cached m' b k j one.cached (omega (arith, one.writable.capacity, one.same.spb))
      ∙ one.cells b k j hb hk hj;
}

pub Keeps-Held :
    (m m' : Meta)
    → Writable (disk m) m.sparse.bat_offset
    → Cached m
    → Keeps m m'
    → Cached m'
    → Held m 0 m'
Keeps-Held m m' w cached keeps cached' = record {
  same = record {
    footer = keeps.same_footer;
    sparse = keeps.same_sparse;
    spb = ap (λ (d : Disk). d.spb) keeps.same_disk;
    count = ap (λ (d : Disk). d.bitmap_sectors) keeps.same_disk;
    blocks = ap (λ (d : Disk). d.bat.size) keeps.same_disk;
    calls = keeps.same_calls;
  };
  writable = rw (keeps.same_disk, keeps.same_sparse) w;
  grows =
      Grows-same m m' (ap (λ (d : Disk). d.bat) keeps.same_disk)
        (omega (arith, ap (λ (d : Disk). d.size) keeps.same_disk));
  persists =
      Persists-inside m m' keeps.same_sparse (ap (λ (d : Disk). d.bat) keeps.same_disk)
        (ap (λ (d : Disk). d.size) keeps.same_disk) w.table
        (λ i h outside. ap (λ (d : Disk). d.byte i) keeps.same_disk);
  cached = cached';
  cells = λ b k j hb hk hj.
      ap (λ (d : Disk). disk_cell d b k j) keeps.same_disk
      ∙ sym (live_cell-Cached m b k j cached (omega (arith, w.capacity)));
}

pub block_size-Same :
    (m m' : Meta)
    → Same m m'
    → m.sparse.block_sz / sector_size ≡ m.sect_per_block
    → m'.sparse.block_sz / sector_size ≡ m'.sect_per_block
block_size-Same m m' same e =
    ap (λ (h : SparseHeader). h.block_sz / sector_size) same.sparse ∙ e ∙ sym same.spb

create_block-Held :
    (m : Meta) (blk : ℕ)
    → Writable (disk m) m.sparse.bat_offset
    → m.sparse.block_sz / sector_size ≡ m.sect_per_block
    → m.f.size + 512 ≤ 0xffffffff * 512
    → blk < m.block_offset.size
    → m.block_offset.at blk ≡ sparse_blk
    → Cached m
    → m.bitmap.curr_block ≡ some blk
    → (m' : Meta) × (create_block m blk ≡ some m')
      × Held m 1 m'
      × (m'.block_offset.at blk ≢ sparse_blk)
create_block-Held m blk w block_size small inside sparse cached current =
    let (m', runs, done) =
      create_block-Created m blk w block_size small inside sparse cached current in
    (
      m',
      runs,
      record {
        same = done.same;
        writable = done.writable;
        grows = record {
          stored =
              sparse_count-stored m.block_offset.size m.block_offset.at m'.block_offset.at blk
                inside sparse done.stored done.others
              ∙ omega (arith, ap (λ k. sparse_count k m'.block_offset.at) done.same.blocks);
          size = omega (arith, done.size);
        };
        persists = done.persists;
        cached = done.cached;
        cells = λ b k j hb hk hj.
            done.cells b k j hb hk hj
            ∙ sym (live_cell-Cached m b k j cached (omega (arith, w.capacity)));
      },
      done.stored,
    )

module _ (m : Meta) (blk : ℕ) (w : Writable (disk m) m.sparse.bat_offset)
    (inside : blk < m.block_offset.size) where
  offset_loaded : load m.block_offset blk ≡ some (m.block_offset.at blk)
  offset_loaded = ground arith

  pub leave_block-Held :
      (prev : ℕ)
      → m.bitmap.curr_bitmap.size ≡ m.bitmap.sector_count * sector_size
      → m.bitmap.curr_block ≡ some prev
      → prev < m.block_offset.size
      → m.block_offset.at prev ≢ sparse_blk
      → prev ≢ blk
      → (m' : Meta) × (leave_block m (some prev) blk ≡ some m') × Held m 0 m'
  unfolding leave_block
  leave_block-Held prev bitmap_size current hp sp ne =
      let (m', runs, done) = write_curr_sect_bitmap-Flushed m prev w bitmap_size current hp sp in
      let other : is_block m.bitmap.curr_block blk ≡ false =
        is_block-other m.bitmap.curr_block blk
          (λ e. ne (some-injective prev blk (sym current ∙ e))) in
      (
        m',
        rw other runs,
        record {
          same = done.same;
          writable = done.writable;
          grows = Grows-same m m' done.bat (omega (arith, done.size));
          persists = done.persists;
          cached = done.cached;
          cells = done.cells;
        },
      )

  pub add_block-Held :
      Cached m
      → m.sparse.block_sz / sector_size ≡ m.sect_per_block
      → m.f.size + 512 ≤ 0xffffffff * 512
      → (m' : Meta) × (added : ℕ) × (add_block m blk ≡ some m')
        × (added ≤ 1)
        × Held m added m'
        × (m'.block_offset.at blk ≢ sparse_blk)
  unfolding add_block
  add_block-Held cached block_size small = elim (equal_or_not (m.block_offset.at blk) sparse_blk) [
    | inl sparse ↦
        let (m1, reads, entered) =
          read_sect_bitmap_lem m blk (Writable-Sound (disk m) _ w) inside cached.bitmap_size in
        let read = Keeps-Held m m1 w cached entered.keeps entered.cached in
        let at_blk : m1.block_offset.at blk ≡ m.block_offset.at blk =
          ap (λ (d : Disk). d.bat.at blk) entered.keeps.same_disk in
        let (m2, creates, added, stored) =
          create_block-Held m1 blk read.writable (block_size-Same m m1 read.same block_size)
            (omega (arith, read.grows.size)) (omega (arith, read.same.blocks)) (at_blk ∙ sparse)
            entered.cached entered.entered in
        let found : (m.block_offset.at blk == sparse_blk) ≡ true = ground arith in
        (
          m2,
          0 + 1,
          rw (offset_loaded, found, reads) creates,
          omega arith,
          Held-trans m m1 m2 0 1 read added,
          stored,
        )
    | inr stored ↦
        let found : (m.block_offset.at blk == sparse_blk) ≡ false = ground arith in
        (m, 0, rw (offset_loaded, found) refl, omega arith, Held-refl m w cached, stored)
  ]
