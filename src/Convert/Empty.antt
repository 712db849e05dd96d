-- ===== src/Convert/Empty.antt =====
-- convert.c: the new dynamic image that a raw image is copied to.
use mini_vhd.Prelude.{ℕ, ◌+◌, ◌*◌, ◌/◌, ◌%◌, ◌≤◌, ◌<◌, ◌≡◌, refl, ap, min, ◌∙◌, u32, arith}
use mini_vhd.Memory.{Mem}
use mini_vhd.Layout.{Geom}
use mini_vhd.Image.{Meta, disk}
use mini_vhd.Io.{total_sectors}
use mini_vhd.Io.View.{sector_byte, present, bitmap_byte}
use mini_vhd.Io.Bits.{bit_set-zero}
use mini_vhd.Io.SparseRead.Loop.{div_below}
use mini_vhd.Io.Write.Room.{absent, growth, sparse_count-le}
use native.Mathlib.Nat.{mul-le-mul_right}
use mini_vhd.Io.Write.State.{bitmap_byte-sparse}
use mini_vhd.Manage.Sectors.Format.{Formattable}
use mini_vhd.Create.Sparse.{blocks_for, bat_sectors_for}
use mini_vhd.Create.Sparse.Opens.{Fresh}
use mini_vhd.Convert.Copy.{Copied}
use mini_vhd.World.{World, Host, FilePath}

-- An image without blocks holds zeros.
sector_byte-empty :
    (m : Meta) (s j : ℕ)
    → m.block_offset.at (s / m.sect_per_block) ≡ 0xffffffff
    → sector_byte (disk m) s j ≡ 0
unfolding sector_byte present
sector_byte-empty m s j empty =
    let zero : bitmap_byte (disk m) (s / m.sect_per_block) (s % m.sect_per_block / 8) ≡ 0 =
      bitmap_byte-sparse (disk m) (s / m.sect_per_block) (s % m.sect_per_block / 8) empty in
    rw (zero, bit_set-zero (s % m.sect_per_block)) refl

-- All blocks of the largest geometry fit below 2 ^ 32 - 1 sectors.
room_for-blocks :
    (total : ℕ)
    → total ≤ 65535 * 16 * 255
    → 4608
        + bat_sectors_for (blocks_for (total * 512) 4096) * 512
        + blocks_for (total * 512) 4096 * (4104 * 512)
        + 512
      ≤ 0xffffffff * 512
unfolding bat_sectors_for blocks_for
room_for-blocks total few =
    let whole : u32 (total * 512 / 512) ≡ total = omega arith in rw whole (ground arith)

-- An image without blocks is ready for a copy of the whole disk.
pub Fresh-Formattable :
    (raw : Mem) (host : Host) (path : FilePath) (total : ℕ) (geom : Geom) (w : World) (m : Meta)
    (v : World)
    → Fresh host path (total * 512) geom 4096 w m v
    → total ≤ 65535 * 16 * 255
    → Formattable m 0 total
      × (total ≤ m.block_offset.size * m.sect_per_block)
      × Copied raw total 0 m
Fresh-Formattable raw host path total geom w m v fresh few =
    let sectors : total_sectors m ≡ total = omega (arith, fresh.sectors) in
    let blocks = blocks_for (total * 512) 4096 in
    let growth_is : growth m ≡ 4104 * 512 = omega (arith, fresh.spb, fresh.bitmap_sectors) in
    let fewer : min total (absent m) ≤ blocks =
      omega (arith, sparse_count-le m.block_offset.size m.block_offset.at, fresh.blocks_are) in
    let scaled = mul-le-mul_right (4104 * 512) fewer in
    (
      record {
        writable = fresh.writable;
        cached = fresh.cached;
        block_size = fresh.block_sz;
        covered = fresh.covered;
        inside = omega (arith, sectors);
        room = omega (
          arith,
          scaled,
          fresh.size,
          room_for-blocks total few,
          ap (λ g. min total (absent m) * g) growth_is,
        );
        writes = fresh.writes;
        buffer = fresh.buffer;
      },
      omega (arith, sectors, fresh.covered),
      λ s j hs hj.
          let inside : s / m.sect_per_block < m.block_offset.size =
            div_below s m.sect_per_block m.block_offset.size fresh.writable.spb_pos
              (omega (arith, sectors, fresh.covered)) in
          sector_byte-empty m s j (fresh.empty (s / m.sect_per_block) inside) ∙ ground arith,
    )
