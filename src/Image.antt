-- ===== src/Image.antt =====
-- internal.h: an open image. The parent of a differencing image stands behind it in a list.
use mini_vhd.Prelude.{ℕ, Bool, Option, List}
use mini_vhd.Memory.{Mem, Block}
use mini_vhd.Stdio.{File}
use mini_vhd.Layout.{Footer, SparseHeader}

-- `curr_block` is `none` for -1.
pub record SectorBitmap : Type 0 where
  pub curr_bitmap : Block
  pub sector_count : ℕ
  pub curr_block : Option ℕ

-- The values of the two function pointers.
pub data ReadSectors : Type 0 where
  unset_read fixed_read sparse_read diff_read : ReadSectors

pub data WriteSectors : Type 0 where
  unset_write fixed_write sparse_diff_write noop_write : WriteSectors

-- Which of the block table, the bitmap and the formatting buffer is allocated: the pointer is not null.
pub record Owned : Type 0 where
  pub table : Bool
  pub bitmap : Bool
  pub zero_data : Bool

pub record Meta : Type 0 where
  pub f : File
  pub readonly : Bool
  pub filename : List ℕ
  pub footer : Footer
  pub sparse : SparseHeader
  pub block_offset : Block
  pub sect_per_block : ℕ
  pub bitmap : SectorBitmap
  pub read_sectors : ReadSectors
  pub write_sectors : WriteSectors
  pub format_sector_count : ℕ
  pub owned : Owned

-- The part of an image that a reader of the file sees: the file's bytes, the block table and the
-- block's shape.
pub record Disk : Type 0 where
  pub size : ℕ
  pub byte : Mem
  pub bat : Block
  pub spb : ℕ
  pub bitmap_sectors : ℕ

abbrev pub disk : Meta → Disk
disk m = record {
  size = m.f.size;
  byte = m.f.byte;
  bat = m.block_offset;
  spb = m.sect_per_block;
  bitmap_sectors = m.bitmap.sector_count;
}
