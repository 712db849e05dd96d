-- ===== src/Io/Write/Prepare.antt =====
-- From the sector before to the place of the next.
use mini_vhd.Prelude.{ℕ, ◌+◌, ◌*◌, ◌/◌, ◌≤◌, ◌<◌, ◌≡◌, ◌≢◌, refl, sym, ap, ◌∙◌, arith}
use mini_vhd.Prelude.{true, false, ◌==◌, Option, some}
use mini_vhd.Memory.{load}
use mini_vhd.Layout.{sector_size, sparse_blk}
use mini_vhd.Image.{Meta, Disk, disk}
use mini_vhd.Io.{enter_block, is_block}
use mini_vhd.Io.SparseRead.Enter.{enter_block_lem}
use mini_vhd.Io.Write.{leave_block, add_block, prepare_sector}
use mini_vhd.Io.Write.State.{
  Writable, Writable-Sound, live_cell, live_cell-Cached, Same, Same-refl, is_block-some,
}
use mini_vhd.Io.Write.Room.{Grows, Grows-refl}
use mini_vhd.Io.Write.Persist.{Persists, Persists-refl}
use mini_vhd.Io.Write.Held.{Held, Held-trans, Keeps-Held, add_block-Held, block_size-Same}

-- The block is allocated, its bitmap is in memory and the stream at the sector.
pub record Ready (m m' : Meta) (blk sib : ℕ) : Type 0 where
  pub same : Same m m'
  pub writable : Writable (disk m') m'.sparse.bat_offset
  pub added : ℕ
  pub few : added ≤ 1
  pub grows : Grows m m' added
  pub persists : Persists m m'
  pub bitmap_size : m'.bitmap.curr_bitmap.size ≡ m'.bitmap.sector_count * sector_size
  pub entered : m'.bitmap.curr_block ≡ some blk
  pub stored : m'.block_offset.at blk ≢ sparse_blk
  pub placed : m'.f.pos ≡ (m'.block_offset.at blk + m'.bitmap.sector_count + sib) * sector_size
  pub cells :
      (b k j : ℕ)
      → b < m.block_offset.size
      → k < m.sect_per_block
      → j < sector_size
      → live_cell m' b k j ≡ live_cell m b k j

pub prepare_stay :
    (m : Meta) (blk sib : ℕ)
    → Writable (disk m) m.sparse.bat_offset
    → m.bitmap.curr_bitmap.size ≡ m.bitmap.sector_count * sector_size
    → m.bitmap.curr_block ≡ some blk
    → blk < m.block_offset.size
    → m.block_offset.at blk ≢ sparse_blk
    → m.f.pos ≡ (m.block_offset.at blk + m.bitmap.sector_count + sib) * sector_size
    → (m' : Meta) × (prepare_sector m (some blk) blk sib ≡ some m') × Ready m m' blk sib
unfolding prepare_sector leave_block add_block enter_block
prepare_stay m blk sib w sized current inside allocated positioned =
    let here : is_block m.bitmap.curr_block blk ≡ true =
      ap (λ o. is_block o blk) current ∙ is_block-some blk in
    let loaded : load m.block_offset blk ≡ some (m.block_offset.at blk) = ground arith in
    let found : (m.block_offset.at blk == sparse_blk) ≡ false = ground arith in
    (
      m,
      rw (here, loaded, found, is_block-some blk) refl,
      record {
        same = Same-refl m;
        writable = w;
        added = 0;
        few = omega arith;
        grows = Grows-refl m;
        persists = Persists-refl m;
        bitmap_size = sized;
        entered = current;
        stored = allocated;
        placed = positioned;
        cells = λ b k j hb hk hj. refl;
      },
    )

Held-Ready :
    (m m' : Meta) (blk sib added : ℕ)
    → Held m added m'
    → added ≤ 1
    → m'.bitmap.curr_block ≡ some blk
    → m'.block_offset.at blk ≢ sparse_blk
    → m'.f.pos ≡ (m'.block_offset.at blk + m'.bitmap.sector_count + sib) * sector_size
    → Ready m m' blk sib
Held-Ready m m' blk sib added held few current allocated positioned = record {
  same = held.same;
  writable = held.writable;
  added = added;
  few = few;
  grows = held.grows;
  persists = held.persists;
  bitmap_size = held.cached.bitmap_size;
  entered = current;
  stored = allocated;
  placed = positioned;
  cells = λ b k j hb hk hj.
      live_cell-Cached m' b k j held.cached (omega (arith, held.writable.capacity, held.same.spb))
      ∙ held.cells b k j hb hk hj;
}

-- The last block of the loop is left, and the bitmap in memory is that in the file.
pub prepare_move :
    (m m1 : Meta) (prev : Option ℕ) (blk sib : ℕ)
    → leave_block m prev blk ≡ some m1
    → Held m 0 m1
    → prev ≢ some blk
    → m.sparse.block_sz / sector_size ≡ m.sect_per_block
    → m.f.size + 512 ≤ 0xffffffff * 512
    → blk < m.block_offset.size
    → (m' : Meta) × (prepare_sector m prev blk sib ≡ some m') × Ready m m' blk sib
unfolding prepare_sector
prepare_move m m1 prev blk sib leaves left moved block_size small inside =
    let inside1 : blk < m1.block_offset.size = omega (arith, left.same.blocks) in
    let (m2, new, adds, few, added, allocated) =
      add_block-Held m1 blk left.writable inside1 left.cached
        (block_size-Same m m1 left.same block_size) (omega (arith, left.grows.size)) in
    let inside2 : blk < m2.block_offset.size = omega (arith, added.same.blocks) in
    let sound2 = Writable-Sound (disk m2) _ added.writable in
    let (m3, enters, entered) =
      enter_block_lem m2 blk sound2 inside2 prev sib added.cached
        (record { same_block = λ e. absurd (moved e); at_sector = λ e. absurd (moved e) }) in
    let same3 = entered.keeps.same_disk in
    let kept = Keeps-Held m2 m3 added.writable added.cached entered.keeps entered.cached in
    let held = Held-trans m m1 m3 0 (new + 0) left (Held-trans m1 m2 m3 new 0 added kept) in
    let at_blk : m3.block_offset.at blk ≡ m2.block_offset.at blk =
      ap (λ (d : Disk). d.bat.at blk) same3 in
    (
      m3,
      rw (leaves, adds) enters,
      Held-Ready m m3 blk sib (0 + (new + 0)) held (omega (arith, few)) entered.entered
          (λ e. allocated (sym at_blk ∙ e))
          (omega (arith, entered.placed allocated, at_blk, kept.same.count)),
    )
