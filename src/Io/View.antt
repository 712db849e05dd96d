-- ===== src/Io/View.antt =====
-- What an image holds, apart from how the library caches it.
use mini_vhd.Prelude.{ℕ, ◌+◌, ◌*◌, ◌/◌, ◌%◌, ◌≤◌, ◌<◌, ◌≡◌, ◌≢◌, Bool, if◌then◌else◌, ◌==◌, some}
use mini_vhd.Layout.{sector_size, sparse_blk}
use mini_vhd.Image.{Meta, Disk, disk}
use mini_vhd.Io.{bit_set}

-- Byte `i` of the sector bitmap of block `b`: zero while the block is sparse.
unfoldable pub bitmap_byte : Disk → ℕ → ℕ → ℕ
bitmap_byte d b i = if d.bat.at b == sparse_blk then 0 else d.byte (d.bat.at b * sector_size + i)

-- Whether the image stores sector `s` itself.
unfoldable pub present : Disk → ℕ → Bool
present d s = bit_set (bitmap_byte d (s / d.spb) (s % d.spb / 8)) (s % d.spb)

-- Where sector `s` begins in the file, once its block is allocated.
abbrev pub address : Disk → ℕ → ℕ
address d s = (d.bat.at (s / d.spb) + d.bitmap_sectors + s % d.spb) * sector_size

-- Byte `j` of sector `s`: an absent sector reads as zeros.
unfoldable pub sector_byte : Disk → ℕ → ℕ → ℕ
sector_byte d s j = if present d s then d.byte (address d s + j) else 0

-- The blocks lie inside the file, and a sector bitmap has a bit for each sector.
pub record Sound (d : Disk) : Type 0 where
  pub spb_pos : 0 < d.spb
  pub capacity : d.spb ≤ d.bitmap_sectors * 4096
  pub extent :
      (b : ℕ)
      → b < d.bat.size
      → d.bat.at b ≢ sparse_blk
      → (d.bat.at b + d.bitmap_sectors + d.spb) * sector_size ≤ d.size

-- The bitmap in memory is that of the current block in the file.
pub record Cached (m : Meta) : Type 0 where
  pub bitmap_size : m.bitmap.curr_bitmap.size ≡ m.bitmap.sector_count * sector_size
  pub current :
      (b i : ℕ)
      → m.bitmap.curr_block ≡ some b
      → i < m.bitmap.sector_count * sector_size
      → m.bitmap.curr_bitmap.at i ≡ bitmap_byte (disk m) b i
