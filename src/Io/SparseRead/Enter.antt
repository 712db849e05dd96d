-- ===== src/Io/SparseRead/Enter.antt =====
-- Bringing a block's bitmap into memory, and the stream to a sector.
use mini_vhd.Prelude.{ℕ, ◌+◌, ◌*◌, ◌<◌, ◌≡◌, ◌≢◌, inl, inr, refl, ap, ◌∙◌, arith}
use mini_vhd.Prelude.{true, Bool-cases, ◌==◌, ==_iff, Option, none, some}
use mini_vhd.Memory.{load}
use mini_vhd.Stdio.{seek_set, seek_cur, available}
use mini_vhd.Layout.{sector_size, sparse_blk}
use mini_vhd.Image.{Meta, disk}
use mini_vhd.Io.{zero_bitmap, load_bitmap, read_sect_bitmap, seek_sector, enter_block, is_block}
use mini_vhd.Io.View.{bitmap_byte, Sound, Cached}

pub is_block→eq : (o : Option ℕ) (blk : ℕ) → is_block o blk ≡ true → o ≡ some blk
is_block→eq none blk h = cc
is_block→eq (some b) blk h = ap some ((==_iff b blk).0 h)

-- What a read may change: the position and the bitmap in memory.
pub record Keeps (m m' : Meta) : Type 0 where
  pub same_disk : disk m' ≡ disk m
  pub same_footer : m'.footer ≡ m.footer
  pub same_sparse : m'.sparse ≡ m.sparse
  pub same_calls :
      (m'.write_sectors ≡ m.write_sectors)
      × (m'.format_sector_count ≡ m.format_sector_count)
      × (m'.read_sectors ≡ m.read_sectors)
      × (m'.owned ≡ m.owned)
      × (m'.readonly ≡ m.readonly)
      × (m'.filename ≡ m.filename)

pub Keeps-refl : (m : Meta) → Keeps m m
Keeps-refl m = record {
  same_disk = refl;
  same_footer = refl;
  same_sparse = refl;
  same_calls = (refl, refl, refl, refl, refl, refl);
}

pub Keeps-trans : (m m' m'' : Meta) → Keeps m m' → Keeps m' m'' → Keeps m m''
Keeps-trans m m' m'' one two = record {
  same_disk = two.same_disk ∙ one.same_disk;
  same_footer = two.same_footer ∙ one.same_footer;
  same_sparse = two.same_sparse ∙ one.same_sparse;
  same_calls = (
    two.same_calls.0 ∙ one.same_calls.0,
    two.same_calls.1 ∙ one.same_calls.1,
    two.same_calls.2 ∙ one.same_calls.2,
    two.same_calls.3 ∙ one.same_calls.3,
    two.same_calls.4 ∙ one.same_calls.4,
    two.same_calls.5 ∙ one.same_calls.5,
  );
}

module _ (m : Meta) (blk : ℕ) (sound : Sound (disk m)) (inside : blk < m.block_offset.size) where
  abbrev offset : ℕ
  offset = m.block_offset.at blk

  abbrev bitmap_bytes : ℕ
  bitmap_bytes = m.bitmap.sector_count * sector_size

  offset_loaded : load m.block_offset blk ≡ some offset
  offset_loaded = ground arith

  pub record Entered (m' : Meta) (pos : ℕ) : Type 0 where
    pub keeps : Keeps m m'
    pub cached : Cached m'
    pub entered : m'.bitmap.curr_block ≡ some blk
    pub placed : offset ≢ sparse_blk → m'.f.pos ≡ pos

  full_bitmap :
      offset ≢ sparse_blk
      → available (seek_set m.f (offset * sector_size)) bitmap_bytes ≡ bitmap_bytes
  full_bitmap h = omega (arith, sound.extent blk inside h)

  zero_bitmap-Entered :
      m.bitmap.curr_bitmap.size ≡ bitmap_bytes
      → offset ≡ sparse_blk
      → (pos : ℕ) → Entered (zero_bitmap m blk) pos
  unfolding zero_bitmap bitmap_byte
  zero_bitmap-Entered e sparse pos = record {
    keeps = record {
      same_disk = refl;
      same_footer = refl;
      same_sparse = refl;
      same_calls = (refl, refl, refl, refl, refl, refl);
    };
    cached = record { bitmap_size = e; current = λ b i p h. ground arith };
    entered = refl;
    placed = λ h. absurd (h sparse);
  }

  load_bitmap-Entered :
      m.bitmap.curr_bitmap.size ≡ bitmap_bytes
      → offset ≢ sparse_blk
      → Entered (load_bitmap m blk offset) ((offset + m.bitmap.sector_count) * sector_size)
  unfolding load_bitmap bitmap_byte
  load_bitmap-Entered e stored = record {
    keeps = record {
      same_disk = refl;
      same_footer = refl;
      same_sparse = refl;
      same_calls = (refl, refl, refl, refl, refl, refl);
    };
    cached = record { bitmap_size = e; current = λ b i p h. ground (arith, full_bitmap stored) };
    entered = refl;
    placed = λ h. omega (arith, full_bitmap h);
  }

  pub read_sect_bitmap_lem :
      m.bitmap.curr_bitmap.size ≡ bitmap_bytes
      → (m' : Meta) × (read_sect_bitmap m blk ≡ some m')
        × Entered m' ((offset + m.bitmap.sector_count) * sector_size)
  read_sect_bitmap_lem e = elim (Bool-cases (offset == sparse_blk)) [
    | inl sparse ↦ (
      zero_bitmap m blk,
      unfold read_sect_bitmap in rw (offset_loaded, sparse) refl,
      zero_bitmap-Entered e ((==_iff _ _).0 sparse) _,
    )
    | inr stored ↦ (
      load_bitmap m blk offset,
      unfold read_sect_bitmap in rw (offset_loaded, stored) refl,
      load_bitmap-Entered e (λ p. ground arith),
    )
  ]

  module _ (prev_blk : Option ℕ) (sib : ℕ) where
    abbrev target : ℕ
    target = (offset + m.bitmap.sector_count + sib) * sector_size

    -- If the loop is already in the block, its bitmap is in memory and the stream at the sector.
    pub record Positioned : Type 0 where
      pub same_block : prev_blk ≡ some blk → m.bitmap.curr_block ≡ some blk
      pub at_sector : prev_blk ≡ some blk → offset ≢ sparse_blk → m.f.pos ≡ target

    pub enter_block_lem :
        Cached m
        → Positioned
        → (m' : Meta) × (enter_block m prev_blk blk sib ≡ some m') × Entered m' target
    enter_block_lem cached positioned = elim (Bool-cases (is_block prev_blk blk)) [
      | inl stay ↦ (
        m,
        unfold enter_block in rw stay refl,
        record {
          keeps = record {
            same_disk = refl;
            same_footer = refl;
            same_sparse = refl;
            same_calls = (refl, refl, refl, refl, refl, refl);
          };
          cached = cached;
          entered = positioned.same_block (is_block→eq prev_blk blk stay);
          placed = positioned.at_sector (is_block→eq prev_blk blk stay);
        },
      )
      | inr move ↦ elim (Bool-cases (is_block m.bitmap.curr_block blk)) [
        | inl known ↦ (
          record m { f = seek_set m.f target },
          unfold enter_block seek_sector in rw (move, known, offset_loaded) refl,
          record {
            keeps = record {
              same_disk = refl;
              same_footer = refl;
              same_sparse = refl;
              same_calls = (refl, refl, refl, refl, refl, refl);
            };
            cached = record { bitmap_size = cached.bitmap_size; current = cached.current };
            entered = is_block→eq m.bitmap.curr_block blk known;
            placed = λ h. refl;
          },
        )
        | inr unknown ↦
            let (m', read, done) = read_sect_bitmap_lem cached.bitmap_size in
            (
              record m' { f = seek_cur m'.f (sib * sector_size) },
              unfold enter_block in rw (move, unknown, read) refl,
              record {
                keeps = record {
                  same_disk = done.keeps.same_disk;
                  same_footer = done.keeps.same_footer;
                  same_sparse = done.keeps.same_sparse;
                  same_calls = done.keeps.same_calls;
                };
                cached = record {
                  bitmap_size = done.cached.bitmap_size;
                  current = done.cached.current;
                };
                entered = done.entered;
                placed = λ h. omega (arith, done.placed h);
              },
            )
      ]
    ]
