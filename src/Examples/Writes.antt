-- ===== src/Examples/Writes.antt =====
-- Sector writes at concrete inputs.
use mini_vhd.Prelude.{
  ℕ, ◌+◌, ◌-◌, ◌*◌, ◌%◌, ◌<◌, ◌≡◌, ◌≢◌, refl, arith, min, if◌then◌else◌, ltb, some,
}
use mini_vhd.Prelude.{sym, get_or, true}
use mini_vhd.Stdio.{read_mem, seek_end}
use mini_vhd.Io.View.{Cached}
use mini_vhd.Io.Write.State.{bitmap_byte-sparse}
use mini_vhd.Cookie.{conectix_cookie, is_conectix_str, begins_with}
use mini_vhd.Io.Write.{zero_bytes, create_block}
use mini_vhd.Io.Write.KeepsFooter.{create_block_footer}
use mathlib.Core.Option.{some-injective}
use mini_vhd.Memory.{Mem}
use mini_vhd.Layout.{sparse_blk}
use mini_vhd.Image.{Meta, disk}
use mini_vhd.Io.{Transfer, sparse_read}
use mini_vhd.Io.Write.{sparse_diff_write}
use mini_vhd.Io.Write.State.{Writable}
use mini_vhd.Io.Write.Written.{Written, sparse_diff_write-Written}
use mini_vhd.Io.Write.ReadBack.{sparse_read-sparse_diff_write, sparse_diff_write_nothing}
use mini_vhd.Examples.Sectors.{image, image-Cached, blank}

abbrev pub pattern : Mem
pattern i = (i + 7) % 256

-- Only the first block is stored.
first_stored : (b : ℕ) → (disk image).bat.at b ≢ sparse_blk → b ≡ 0
first_stored b h = ground arith

pub image-Writable : Writable (disk image) 1536
image-Writable = record {
  spb_pos = omega arith;
  capacity = omega arith;
  table = omega arith;
  behind = λ b h stored. ground arith;
  room = λ b h stored. ground arith;
  apart = λ a b ha hb ne sa sb. absurd (omega (arith, first_stored a sa, first_stored b sb));
}

-- From the first block into the second, which is added, and past the end of the disk.
sparse_diff_write_example :
    (t : Transfer) × (sparse_diff_write image 6 12 pattern ≡ some t)
    × (t.truncated ≡ 12 - (16 - 6))
    × Written image 6 (min 12 (16 - 6)) pattern t
sparse_diff_write_example =
    sparse_diff_write-Written image 6 12 pattern image-Writable image-Cached refl (omega arith)
      (omega arith) (omega arith) (omega arith) (omega arith)

read_back_example :
    (t : Transfer) × (r : Transfer) × (sparse_diff_write image 6 12 pattern ≡ some t)
    × (sparse_read t.vhdm 6 12 blank ≡ some r)
    × (r.truncated ≡ t.truncated)
    × ((i : ℕ) → r.mem i ≡ (if ltb i (min 12 (16 - 6) * 512) then pattern i else blank i))
read_back_example =
    sparse_read-sparse_diff_write image 6 12 pattern blank image-Writable image-Cached refl
      (omega arith) (omega arith) (omega arith) (omega arith) (omega arith)

-- The same image after a read of its second block.
abbrev after_sparse_block : Meta
after_sparse_block = record image { bitmap = record image.bitmap { curr_block = some 1 } }

write_nothing_example :
    (t : Transfer) × (sparse_diff_write after_sparse_block 0 0 pattern ≡ some t)
    × (0xffffffff * 512 < t.vhdm.f.size)
    × ((k : ℕ)
        → k < after_sparse_block.bitmap.sector_count * 512
        → t.vhdm.f.byte (0xffffffff * 512 + k) ≡ after_sparse_block.bitmap.curr_bitmap.at k)
    × ((i : ℕ)
        → i < after_sparse_block.f.size
        → i < 0xffffffff * 512
        → t.vhdm.f.byte i ≡ after_sparse_block.f.byte i)
write_nothing_example =
    sparse_diff_write_nothing after_sparse_block 0 1 pattern refl (omega arith) refl (omega arith)
      (omega arith)

-- That image with a cookie in its last sector.
abbrev with_footer : Meta
with_footer = record after_sparse_block {
  f = record image.f {
    byte = λ i. if ltb i (19 * 512) then i % 251 else get_or conectix_cookie (i - 19 * 512) 0;
  };
}

with_footer-Writable : Writable (disk with_footer) 1536
with_footer-Writable = record {
  spb_pos = image-Writable.spb_pos;
  capacity = image-Writable.capacity;
  table = image-Writable.table;
  behind = image-Writable.behind;
  room = image-Writable.room;
  apart = image-Writable.apart;
}

with_footer-Cached : Cached with_footer
with_footer-Cached = record {
  bitmap_size = refl;
  current = λ b i p h.
      sym (bitmap_byte-sparse (disk with_footer) b i (second_sparse b (some-injective 1 b p)));
}
  where
    second_sparse : (b : ℕ) → 1 ≡ b → (disk with_footer).bat.at b ≡ sparse_blk
    second_sparse b e = ground (arith, e)

cookie_found : is_conectix_str (read_mem (seek_end with_footer.f 512) zero_bytes 0 512) ≡ true
unfolding is_conectix_str begins_with
cookie_found = refl

footer_kept_example :
    (m' : Meta) × (create_block with_footer 1 ≡ some m')
    × Writable (disk m') m'.sparse.bat_offset
    × (20 * 512 < m'.f.size)
    × ((i : ℕ)
        → i < 512
        → m'.f.byte (m'.f.size - 512 + i) ≡ with_footer.f.byte (20 * 512 - 512 + i))
footer_kept_example =
    create_block_footer with_footer 1 with_footer-Writable refl (omega arith) (omega arith) refl
      with_footer-Cached refl cookie_found
