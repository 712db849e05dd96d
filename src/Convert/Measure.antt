-- ===== src/Convert/Measure.antt =====
-- convert.c: the raw image that a conversion reads, and its geometry.
use mini_vhd.Prelude.{
  ℕ, zero, suc, ◌+◌, ◌*◌, ◌≤◌, ◌<◌, ◌≡◌, refl, sym, ◌∙◌, true, false, ◌==◌, some, u32, arith,
}
use mini_vhd.Stdio.{File}
use mini_vhd.Geometry.{calculate_geometry, calc_size_bytes, calc_size_sectors}
use mini_vhd.Geometry.Bounds.{calculate_geometry-Covers, total_sectors-le}
use mini_vhd.Create.Fixed.{no_geometry}
use mini_vhd.Convert.{open_existing_raw_img, measure_raw}
use mini_vhd.World.{World, Host, FilePath, read_mode, fopen}

-- A raw image whose size is that of its geometry.
pub record RawImage (raw : File) : Type 0 where
  pub some_byte : 0 < raw.size
  pub whole : calc_size_bytes (calculate_geometry raw.size) ≡ raw.size

positive : (a b c : ℕ) → 0 < u32 (a * b * c) → 0 < a
positive zero b c h = absurd (omega arith)
positive (suc a) b c h = omega arith

-- The sectors of a raw image.
pub record Measured (raw : File) : Type 0 where
  pub sectors : raw.size ≡ calc_size_sectors (calculate_geometry raw.size) * 512
  pub low : 0 < calc_size_sectors (calculate_geometry raw.size)
  pub high : calc_size_sectors (calculate_geometry raw.size) ≤ 65535 * 16 * 255
  pub some_geometry : no_geometry (calculate_geometry raw.size) ≡ false

pub RawImage-Measured : (raw : File) → RawImage raw → Measured raw
unfolding calc_size_sectors
RawImage-Measured raw image =
    let g = calculate_geometry raw.size in
    let covers = calculate_geometry-Covers raw.size in
    let (few, inside) = total_sectors-le raw.size in
    let sectors : raw.size ≡ calc_size_sectors g * 512 = sym image.whole ∙ covers.bytes in
    let low : 0 < calc_size_sectors g = omega (arith, sectors, image.some_byte) in
    record {
      sectors = sectors;
      low = low;
      high = omega (arith, covers.inside, few);
      some_geometry =
          let cyl = positive g.cyl g.heads g.spt low in
          ground (arith, covers.heads_low, covers.spt_low);
    }

-- The image is read from its start.
pub open_existing_raw_img_run :
    (host : Host) (raw_path : FilePath) (w : World) (raw : File)
    → host.permits raw_path read_mode ≡ true
    → w.files raw_path ≡ some raw
    → calc_size_bytes (calculate_geometry raw.size) ≡ raw.size
    → open_existing_raw_img host raw_path w
      ≡ some (
        some (record raw { pos = 0 }, calculate_geometry raw.size),
        record w { handles = w.handles + 1 },
      )
unfolding open_existing_raw_img measure_raw fopen
open_existing_raw_img_run host raw_path w raw reads found whole =
    let same : (calc_size_bytes (calculate_geometry raw.size) == raw.size) ≡ true = ground arith in
    rw (reads, found, same) refl
