-- ===== src/Io/Write/State.antt =====
-- The state in which an image is written: where its blocks lie, and what it holds while the bitmap
-- in memory is ahead of the file.
use mini_vhd.Prelude.{ℕ, ◌+◌, ◌*◌, ◌/◌, ◌%◌, ◌≤◌, ◌<◌, ◌≡◌, ◌≢◌, ◌⊎◌, inl, inr, refl, ap, arith}
use mini_vhd.Prelude.{◌∙◌, sym, equal_or_not, Option, none}
use mini_vhd.Io.Bits.{bit_set-zero}
use mini_vhd.Prelude.{true, false, Bool-cases, if◌then◌else◌, some}
use mini_vhd.Layout.{sector_size, footer_size, sparse_blk}
use mini_vhd.Image.{Meta, Disk, disk}
use mini_vhd.Io.{bit_set, is_block}
use mini_vhd.Io.View.{bitmap_byte, sector_byte, present, Sound, Cached}
use mini_vhd.Io.SparseRead.Enter.{is_block→eq}

-- The blocks lie behind the block table and before the last 512 bytes, and do not overlap.
pub record Writable (d : Disk) (bat_offset : ℕ) : Type 0 where
  pub spb_pos : 0 < d.spb
  pub capacity : d.spb ≤ d.bitmap_sectors * 4096
  pub table : bat_offset + d.bat.size * 4 + footer_size ≤ d.size
  pub behind :
      (b : ℕ)
      → b < d.bat.size
      → d.bat.at b ≢ sparse_blk
      → bat_offset + d.bat.size * 4 ≤ d.bat.at b * sector_size
  pub room :
      (b : ℕ)
      → b < d.bat.size
      → d.bat.at b ≢ sparse_blk
      → (d.bat.at b + d.bitmap_sectors + d.spb) * sector_size + footer_size ≤ d.size
  pub apart :
      (a b : ℕ)
      → a < d.bat.size
      → b < d.bat.size
      → a ≢ b
      → d.bat.at a ≢ sparse_blk
      → d.bat.at b ≢ sparse_blk
      → (d.bat.at a + d.bitmap_sectors + d.spb ≤ d.bat.at b)
        ⊎ (d.bat.at b + d.bitmap_sectors + d.spb ≤ d.bat.at a)

pub Writable-Sound : (d : Disk) (bat_offset : ℕ) → Writable d bat_offset → Sound d
Writable-Sound d bat_offset w = record {
  spb_pos = w.spb_pos;
  capacity = w.capacity;
  extent = λ b h stored. omega (arith, w.room b h stored);
}

-- Bytes of two blocks are at two places.
pub distinct_places :
    (d : Disk) (bat_offset a b x y : ℕ)
    → Writable d bat_offset
    → a < d.bat.size
    → b < d.bat.size
    → a ≢ b
    → d.bat.at a ≢ sparse_blk
    → d.bat.at b ≢ sparse_blk
    → x < (d.bitmap_sectors + d.spb) * sector_size
    → y < (d.bitmap_sectors + d.spb) * sector_size
    → d.bat.at a * sector_size + x ≢ d.bat.at b * sector_size + y
distinct_places d bat_offset a b x y w ha hb ne sa sb hx hy = elim (w.apart a b ha hb ne sa sb) [
  | inl before ↦ λ e. omega arith
  | inr behind ↦ λ e. omega arith
]

-- Byte `j` of sector `k` of block `b`, given the byte of the sector bitmap that has its bit.
unfoldable pub cell : Disk → ℕ → ℕ → ℕ → ℕ → ℕ
cell d byte b k j =
    if bit_set byte k then d.byte ((d.bat.at b + d.bitmap_sectors + k) * sector_size + j) else 0

unfoldable pub disk_cell : Disk → ℕ → ℕ → ℕ → ℕ
disk_cell d b k j = cell d (bitmap_byte d b (k / 8)) b k j

-- The bitmap in memory stands for that of its block.
unfoldable pub live_byte : Meta → ℕ → ℕ → ℕ
live_byte m b i =
    if is_block m.bitmap.curr_block b then m.bitmap.curr_bitmap.at i else bitmap_byte (disk m) b i

unfoldable pub live_cell : Meta → ℕ → ℕ → ℕ → ℕ
live_cell m b k j = cell (disk m) (live_byte m b (k / 8)) b k j

pub sector_byte-disk_cell :
    (d : Disk) (s j : ℕ) → sector_byte d s j ≡ disk_cell d (s / d.spb) (s % d.spb) j
unfolding sector_byte present disk_cell cell
sector_byte-disk_cell d s j = refl

pub live_byte-Cached :
    (m : Meta) (b i : ℕ)
    → Cached m
    → i < m.bitmap.sector_count * sector_size
    → live_byte m b i ≡ bitmap_byte (disk m) b i
unfolding live_byte
live_byte-Cached m b i cached h = elim (Bool-cases (is_block m.bitmap.curr_block b)) [
  | inl same ↦ rw same (cached.current b i (is_block→eq m.bitmap.curr_block b same) h)
  | inr other ↦ rw other refl
]

pub live_cell-Cached :
    (m : Meta) (b k j : ℕ)
    → Cached m
    → k < m.bitmap.sector_count * 4096
    → live_cell m b k j ≡ disk_cell (disk m) b k j
unfolding live_cell disk_cell
live_cell-Cached m b k j cached h =
    ap (λ (byte : ℕ). cell (disk m) byte b k j) (live_byte-Cached m b (k / 8) cached (omega arith))

-- What no part of a write changes.
pub record Same (m m' : Meta) : Type 0 where
  pub footer : m'.footer ≡ m.footer
  pub sparse : m'.sparse ≡ m.sparse
  pub spb : m'.sect_per_block ≡ m.sect_per_block
  pub count : m'.bitmap.sector_count ≡ m.bitmap.sector_count
  pub blocks : m'.block_offset.size ≡ m.block_offset.size
  pub calls :
      (m'.write_sectors ≡ m.write_sectors)
      × (m'.format_sector_count ≡ m.format_sector_count)
      × (m'.read_sectors ≡ m.read_sectors)
      × (m'.owned ≡ m.owned)
      × (m'.readonly ≡ m.readonly)
      × (m'.filename ≡ m.filename)

pub Same-refl : (m : Meta) → Same m m
Same-refl m = record {
  footer = refl;
  sparse = refl;
  spb = refl;
  count = refl;
  blocks = refl;
  calls = (refl, refl, refl, refl, refl, refl);
}

pub Same-trans : (m m' m'' : Meta) → Same m m' → Same m' m'' → Same m m''
Same-trans m m' m'' one two = record {
  footer = two.footer ∙ one.footer;
  sparse = two.sparse ∙ one.sparse;
  spb = two.spb ∙ one.spb;
  count = two.count ∙ one.count;
  blocks = two.blocks ∙ one.blocks;
  calls = (
    two.calls.0 ∙ one.calls.0,
    two.calls.1 ∙ one.calls.1,
    two.calls.2 ∙ one.calls.2,
    two.calls.3 ∙ one.calls.3,
    two.calls.4 ∙ one.calls.4,
    two.calls.5 ∙ one.calls.5,
  );
}

pub is_block-some : (b : ℕ) → is_block (some b) b ≡ true
is_block-some b = ground arith

pub is_block-other : (o : Option ℕ) (b : ℕ) → o ≢ some b → is_block o b ≡ false
is_block-other none b h = refl
is_block-other (some a) b h = elim (equal_or_not a b) [
  | inl same ↦ absurd (h (ap some same))
  | inr other ↦ ground arith
]

pub live_byte-current :
    (m : Meta) (b i : ℕ)
    → m.bitmap.curr_block ≡ some b
    → live_byte m b i ≡ m.bitmap.curr_bitmap.at i
unfolding live_byte
live_byte-current m b i h = rw (h, is_block-some b) refl

pub live_byte-other :
    (m : Meta) (b i : ℕ) → m.bitmap.curr_block ≢ some b → live_byte m b i ≡ bitmap_byte (disk m) b i
unfolding live_byte
live_byte-other m b i h = rw (is_block-other m.bitmap.curr_block b h) refl

pub bitmap_byte-sparse : (d : Disk) (b i : ℕ) → d.bat.at b ≡ sparse_blk → bitmap_byte d b i ≡ 0
unfolding bitmap_byte
bitmap_byte-sparse d b i h = ground arith

pub bitmap_byte-stored :
    (d : Disk) (b i : ℕ)
    → d.bat.at b ≢ sparse_blk
    → bitmap_byte d b i ≡ d.byte (d.bat.at b * sector_size + i)
unfolding bitmap_byte
bitmap_byte-stored d b i h = ground arith

pub cell-ext_bits :
    (d d' : Disk) (byte byte' b k j : ℕ)
    → bit_set byte k ≡ bit_set byte' k
    → (bit_set byte k ≡ true
        → d.byte ((d.bat.at b + d.bitmap_sectors + k) * sector_size + j)
          ≡ d'.byte ((d'.bat.at b + d'.bitmap_sectors + k) * sector_size + j))
    → cell d byte b k j ≡ cell d' byte' b k j
unfolding cell
cell-ext_bits d d' byte byte' b k j e same = elim (Bool-cases (bit_set byte k)) [
  | inl set ↦ rw (sym e, set) (same set)
  | inr unset ↦ rw (sym e, unset) refl
]

pub cell-ext :
    (d d' : Disk) (byte byte' b k j : ℕ)
    → byte ≡ byte'
    → (bit_set byte k ≡ true
        → d.byte ((d.bat.at b + d.bitmap_sectors + k) * sector_size + j)
          ≡ d'.byte ((d'.bat.at b + d'.bitmap_sectors + k) * sector_size + j))
    → cell d byte b k j ≡ cell d' byte' b k j
cell-ext d d' byte byte' b k j e =
    cell-ext_bits d d' byte byte' b k j (ap (λ (v : ℕ). bit_set v k) e)

-- A byte with a bit set is not zero, so its block is allocated.
pub stored-if-set :
    (d : Disk) (b i k : ℕ) → bit_set (bitmap_byte d b i) k ≡ true → d.bat.at b ≢ sparse_blk
stored-if-set d b i k set sparse =
    let none_set : bit_set (bitmap_byte d b i) k ≡ false =
      ap (λ (byte : ℕ). bit_set byte k) (bitmap_byte-sparse d b i sparse) ∙ bit_set-zero k in
    cc
