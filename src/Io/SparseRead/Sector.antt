-- ===== src/Io/SparseRead/Sector.antt =====
-- One round of the read loop.
use mini_vhd.Prelude.{ℕ, ◌+◌, ◌-◌, ◌*◌, ◌/◌, ◌%◌, ◌<◌, ◌≡◌, ◌≢◌, inl, inr, refl, ap, ◌∙◌, arith}
use mini_vhd.Prelude.{true, false, Bool-cases, ◌==◌, if◌then◌else◌, some}
use mini_vhd.Memory.{fill, within}
use mini_vhd.Stdio.{read_mem, available}
use mini_vhd.Layout.{sector_size, sparse_blk}
use mini_vhd.Image.{Meta, Disk, disk}
use mini_vhd.Io.{Cursor, read_sector, take_sector, test_bit}
use mini_vhd.Io.Bits.{bit_set-zero}
use mini_vhd.Io.View.{bitmap_byte, present, sector_byte, address, Sound, Cached}
use mini_vhd.Io.SparseRead.Enter.{Keeps, Entered, Positioned, enter_block_lem}

module _ (s : ℕ) (c : Cursor) where
  abbrev m : Meta
  m = c.vhdm

  abbrev blk : ℕ
  blk = s / m.sect_per_block

  abbrev sib : ℕ
  sib = s % m.sect_per_block

  pub record Advanced (c' : Cursor) : Type 0 where
    pub keeps : Keeps m c'.vhdm
    pub cached : Cached c'.vhdm
    pub in_block : c'.prev_blk ≡ some blk
    pub entered : c'.vhdm.bitmap.curr_block ≡ some blk
    pub placed :
        m.block_offset.at blk ≢ sparse_blk → c'.vhdm.f.pos ≡ address (disk m) s + sector_size
    pub buff : c'.buff ≡ c.buff + sector_size
    pub reads :
        (i : ℕ)
        → c'.mem i
          ≡ (if within c.buff sector_size i then sector_byte (disk m) s (i - c.buff) else c.mem i)

  module _ (sound : Sound (disk m)) (inside : blk < m.block_offset.size) where
    present-stored : present (disk m) s ≡ true → m.block_offset.at blk ≢ sparse_blk
    unfolding present bitmap_byte
    present-stored p e = ground (arith, bit_set-zero sib)

    pub test_bit_lem :
        (m' : Meta) (pos : ℕ)
        → Entered m blk sound inside m' pos
        → test_bit m'.bitmap.curr_bitmap sib ≡ some (present (disk m) s)
    unfolding present
    test_bit_lem m' pos done =
        let count : m'.bitmap.sector_count ≡ m.bitmap.sector_count =
          ap (λ (d : Disk). d.bitmap_sectors) done.keeps.same_disk in
        let room : sib / 8 < m'.bitmap.sector_count * 512 =
          omega (arith, sound.capacity, sound.spb_pos) in
        let value : m'.bitmap.curr_bitmap.at (sib / 8) ≡ bitmap_byte (disk m) blk (sib / 8) =
          done.cached.current blk (sib / 8) done.entered room
          ∙ ap (λ (d : Disk). bitmap_byte d blk (sib / 8)) done.keeps.same_disk in
        ground (arith, room, value, done.cached.bitmap_size)

    take_sector-Advanced :
        (m' : Meta)
        → Entered m blk sound inside m' (address (disk m) s)
        → Advanced (take_sector (present (disk m) s) m' blk c)
    unfolding sector_byte take_sector
    take_sector-Advanced m' done = elim (Bool-cases (present (disk m) s)) [
      | inl here ↦ rw here (record {
        keeps = record {
          same_disk = done.keeps.same_disk;
          same_footer = done.keeps.same_footer;
          same_sparse = done.keeps.same_sparse;
          same_calls = done.keeps.same_calls;
        };
        cached = record { bitmap_size = done.cached.bitmap_size; current = done.cached.current };
        in_block = refl;
        entered = done.entered;
        placed = λ h. omega (arith, done.placed h, full here);
        buff = refl;
        reads = reads_here here;
      })
      | inr absent ↦ rw absent (record {
        keeps = record {
          same_disk = done.keeps.same_disk;
          same_footer = done.keeps.same_footer;
          same_sparse = done.keeps.same_sparse;
          same_calls = done.keeps.same_calls;
        };
        cached = record { bitmap_size = done.cached.bitmap_size; current = done.cached.current };
        in_block = refl;
        entered = done.entered;
        placed = λ h. omega (arith, done.placed h);
        buff = refl;
        reads = reads_absent absent;
      })
    ]
      where
        full : present (disk m) s ≡ true → available m'.f sector_size ≡ sector_size
        full here = omega (
          arith,
          ap (λ (d : Disk). d.size) done.keeps.same_disk,
          done.placed (present-stored here),
          sound.extent blk inside (present-stored here),
          sound.spb_pos,
        )

        reads_here :
            present (disk m) s ≡ true
            → (i : ℕ)
            → read_mem m'.f c.mem c.buff sector_size i ≡ (
                if within c.buff sector_size i
                then sector_byte (disk m) s (i - c.buff)
                else c.mem i)
        reads_here here i =
            rw (full here, here, done.placed (present-stored here))
              (ap
                (λ (d : Disk).
                  if within c.buff sector_size i
                  then d.byte (address (disk m) s + (i - c.buff))
                  else c.mem i)
                done.keeps.same_disk)

        reads_absent :
            present (disk m) s ≡ false
            → (i : ℕ)
            → fill c.mem c.buff 0 sector_size i ≡ (
                if within c.buff sector_size i
                then sector_byte (disk m) s (i - c.buff)
                else c.mem i)
        reads_absent absent i = rw absent refl

    pub read_sector_lem :
        Cached m
        → Positioned m blk sound inside c.prev_blk sib
        → (c' : Cursor) × (read_sector s c ≡ some c') × Advanced c'
    read_sector_lem cached positioned =
        let (m', enters, done) =
          enter_block_lem m blk sound inside c.prev_blk sib cached positioned in
        let nonzero : (m.sect_per_block == 0) ≡ false = ground (arith, sound.spb_pos) in
        (
          take_sector (present (disk m) s) m' blk c,
          unfold read_sector in rw (nonzero, enters, test_bit_lem m' _ done) refl,
          take_sector-Advanced m' done,
        )
