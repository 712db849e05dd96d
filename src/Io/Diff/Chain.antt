-- ===== src/Io/Diff/Chain.antt =====
-- What a chain of images holds.
use mini_vhd.Prelude.{ℕ, ◌+◌, ◌*◌, ◌≤◌, ◌≡◌, ◌≢◌, ◌==◌, if◌then◌else◌, List, [], ◌∷◌}
use mini_vhd.Layout.{sector_size, type_diff, type_dynamic}
use mini_vhd.Image.{Meta, Disk, disk}
use mini_vhd.Io.{total_sectors}
use mini_vhd.Io.View.{present, sector_byte, Sound, Cached}

-- Byte `j` of sector `s` of an image of the given type, `below` being its parent's.
unfoldable pub image_byte : ℕ → Disk → ℕ → ℕ → ℕ → ℕ
image_byte disk_type d s j below =
    if disk_type == type_diff
    then if present d s then sector_byte d s j else below
    else if disk_type == type_dynamic
    then sector_byte d s j
    else d.byte (s * sector_size + j)

unfoldable pub chain_byte : List Meta → ℕ → ℕ → ℕ
chain_byte [] s j = 0
chain_byte (m ∷ parents) s j = image_byte m.footer.disk_type (disk m) s j (chain_byte parents s j)

-- A chain whose images hold at least `n` sectors each, down to the first that needs no parent.
pub data Chain (n : ℕ) : List Meta → Type 0 where
  fixed :
      {m : Meta} {parents : List Meta}
      → m.footer.disk_type ≢ type_diff
      → m.footer.disk_type ≢ type_dynamic
      → n ≤ total_sectors m
      → total_sectors m * sector_size ≤ m.f.size
      → Chain n (m ∷ parents)
  dynamic :
      {m : Meta} {parents : List Meta}
      → m.footer.disk_type ≡ type_dynamic
      → n ≤ total_sectors m
      → Sound (disk m)
      → Cached m
      → total_sectors m ≤ m.block_offset.size * m.sect_per_block
      → Chain n (m ∷ parents)
  differencing :
      {m : Meta} {parents : List Meta}
      → m.footer.disk_type ≡ type_diff
      → n ≤ total_sectors m
      → Sound (disk m)
      → Cached m
      → total_sectors m ≤ m.block_offset.size * m.sect_per_block
      → Chain n parents
      → Chain n (m ∷ parents)
