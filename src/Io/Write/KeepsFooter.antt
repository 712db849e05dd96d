-- ===== src/Io/Write/KeepsFooter.antt =====
-- A new block goes before the footer.
use mini_vhd.Prelude.{ℕ, ◌+◌, ◌-◌, ◌*◌, ◌/◌, ◌≤◌, ◌<◌, ◌≡◌, ◌∙◌, arith, true, some}
use mini_vhd.Stdio.{read_mem, seek_end}
use mini_vhd.Layout.{sector_size, footer_size, sparse_blk}
use mini_vhd.Cookie.{is_conectix_str}
use mini_vhd.Image.{Meta, disk}
use mini_vhd.Io.View.{Cached}
use mini_vhd.Io.Write.{zero_bytes, create_block}
use mini_vhd.Io.Write.State.{Writable}
use mini_vhd.Io.Write.Append.{take_footer_found}
use mini_vhd.Io.Write.Create.{create_block-Created}

-- When a writable image's file ends in a sector with the cookie, adding a block for the current block,
-- which is sparse, in a file below 2 ^ 32 - 2 sectors, succeeds and leaves an image that is writable
-- again, and whose file is larger but ends in the same 512 bytes.
pub create_block_footer :
    (m : Meta) (blk : ℕ)
    → Writable (disk m) m.sparse.bat_offset
    → m.sparse.block_sz / sector_size ≡ m.sect_per_block
    → m.f.size + 512 ≤ 0xffffffff * 512
    → blk < m.block_offset.size
    → m.block_offset.at blk ≡ sparse_blk
    → Cached m
    → m.bitmap.curr_block ≡ some blk
    → is_conectix_str (read_mem (seek_end m.f footer_size) zero_bytes 0 footer_size) ≡ true
    → (m' : Meta) × (create_block m blk ≡ some m')
      × Writable (disk m') m'.sparse.bat_offset
      × (m.f.size < m'.f.size)
      × ((i : ℕ) → i < 512 → m'.f.byte (m'.f.size - 512 + i) ≡ m.f.byte (m.f.size - 512 + i))
create_block_footer m blk w block_size small inside sparse cached current found =
    let (m', runs, done) =
      create_block-Created m blk w block_size small inside sparse cached current in
    (
      m',
      runs,
      done.writable,
      done.grows,
      λ i h. done.footer i h ∙ take_footer_found m.f i (omega (arith, w.table)) h found,
    )
