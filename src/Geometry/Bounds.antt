-- ===== src/Geometry/Bounds.antt =====
-- The chosen geometry fits the disk, and wastes less than a cylinder.
use mini_vhd.Prelude.{ℕ, ◌+◌, ◌*◌, ◌/◌, ◌^◌, ◌≤◌, ◌<◌, ◌≡◌, refl, sym, ap, ◌∙◌, arith, u8, u16}
use mini_vhd.Layout.{Geom, GeomFits}
use mini_vhd.Geometry.{
  Chs, choose_chs, total_sectors, calculate_geometry, calc_size_bytes, calc_size_sectors,
}
use native.Mathlib.Nat.{div-mul-le_self, lt-div-mul-add, le_trans, lt_of_lt_of_le}

abbrev pub max_sectors : ℕ
max_sectors = 65535 * 16 * 255

record Chosen (ts : ℕ) (c : Chs) : Type 0 where
  tracks : c.cth ≡ ts / c.spt
  heads_low : 4 ≤ c.heads
  heads_high : c.heads ≤ 16
  spt_low : 17 ≤ c.spt
  spt_high : c.spt ≤ 255
  cylinders : c.cth / c.heads < 65536

add-one-le : {a b : ℕ} → a < b → a + 1 ≤ b
add-one-le h = omega arith

scale_le : (a b k : ℕ) → a ≤ b → a * k ≤ b * k
scale_le a b k h = grind arith

choose_chs-Chosen : (ts : ℕ) → ts ≤ max_sectors → Chosen ts (choose_chs ts)
unfolding choose_chs
choose_chs-Chosen ts h = ground arith

-- Dividing twice and multiplying back loses less than one cylinder.
cylinder_loss :
    (ts spt heads : ℕ)
    → 0 < spt
    → 0 < heads
    → (ts / spt / heads * heads * spt ≤ ts) × (ts < ts / spt / heads * heads * spt + heads * spt)
cylinder_loss ts spt heads hs hh =
    let tracks = ts / spt in
    let cyl = tracks / heads in
    (
      le_trans (scale_le (cyl * heads) tracks spt (div-mul-le_self tracks heads))
          (div-mul-le_self ts spt),
      lt_of_lt_of_le (lt-div-mul-add hs) (
          omega (
            arith,
            scale_le (tracks + 1) (cyl * heads + heads) spt
                (add-one-le (lt-div-mul-add {a = tracks} hh)),
          )),
    )

pub total_sectors-le :
    (size : ℕ) → (total_sectors size ≤ max_sectors) × (total_sectors size ≤ size / 512)
unfolding total_sectors
total_sectors-le size = ground arith

-- Below 2 ^ 32 sectors nothing is cut but what the largest geometry leaves.
total_sectors_small : (size : ℕ) → size / 512 ≤ max_sectors → total_sectors size ≡ size / 512
unfolding total_sectors
total_sectors_small size h = ground arith

total_sectors_large :
    (size : ℕ) → max_sectors ≤ size / 512 → size / 512 < 2 ^ 32 → total_sectors size ≡ max_sectors
unfolding total_sectors
total_sectors_large size h small = ground arith

geometry_of : ℕ → Geom
geometry_of ts =
    let c = choose_chs ts in
    record { cyl = u16 (c.cth / c.heads); heads = u8 c.heads; spt = u8 c.spt }

largest_geometry : geometry_of max_sectors ≡ record { cyl = 65535; heads = 16; spt = 255 }
unfolding geometry_of choose_chs
largest_geometry = refl

calculate_geometry_large :
    (size : ℕ)
    → max_sectors ≤ size / 512
    → size / 512 < 2 ^ 32
    → calculate_geometry size ≡ record { cyl = 65535; heads = 16; spt = 255 }
unfolding calculate_geometry geometry_of
calculate_geometry_large size h small =
    ap geometry_of (total_sectors_large size h small) ∙ largest_geometry

pub record Covers (size : ℕ) (g : Geom) : Type 0 where
  pub fits : GeomFits g
  pub heads_low : 4 ≤ g.heads
  pub heads_high : g.heads ≤ 16
  pub spt_low : 17 ≤ g.spt
  pub inside : calc_size_sectors g ≤ total_sectors size
  pub filled : size / 512 ≤ 65535 * 16 * 255 → size / 512 < calc_size_sectors g + g.heads * g.spt
  pub largest :
      65535 * 16 * 255 ≤ size / 512
      → size / 512 < 2 ^ 32
      → g ≡ record { cyl = 65535; heads = 16; spt = 255 }
  pub tight : total_sectors size < calc_size_sectors g + g.heads * g.spt
  pub bytes : calc_size_bytes g ≡ calc_size_sectors g * 512
  pub no_larger : calc_size_bytes g ≤ size

-- For every size the geometry's fields fit their C types, with 4 to 16 heads and at least 17 sectors
-- a track; it has no more sectors than the size, and the two size functions agree on it, with no more
-- bytes than the size. A disk of 65535 * 16 * 255 sectors at most has less than one cylinder more
-- than the geometry, and one of at least that many but fewer than 2 ^ 32 gets the largest geometry.
pub calculate_geometry-Covers : (size : ℕ) → Covers size (calculate_geometry size)
unfolding calculate_geometry calc_size_bytes calc_size_sectors
calculate_geometry-Covers size =
    let ts = total_sectors size in
    let (small, le_size) = total_sectors-le size in
    let c = choose_chs ts in
    let chosen = choose_chs-Chosen ts small in
    let cyl : u16 (c.cth / c.heads) ≡ ts / c.spt / c.heads =
      omega (arith, ap (λ (t : ℕ). t / c.heads) chosen.tracks) in
    let heads : u8 c.heads ≡ c.heads = omega arith in
    let spt : u8 c.spt ≡ c.spt = omega arith in
    let (below, above) = cylinder_loss ts c.spt c.heads (omega arith) (omega arith) in
    let shape : calculate_geometry size
        ≡ record { cyl = ts / c.spt / c.heads; heads = c.heads; spt = c.spt } =
      rw (cyl, heads, spt) refl in
    rw (cyl, heads, spt)
      (record {
        fits = record { cyl_fits = omega arith; heads_fits = omega arith; spt_fits = omega arith };
        heads_low = chosen.heads_low;
        heads_high = chosen.heads_high;
        spt_low = chosen.spt_low;
        inside = omega arith;
        filled = λ h. omega (arith, total_sectors_small size h);
        largest = λ h small. sym shape ∙ calculate_geometry_large size h small;
        tight = omega arith;
        bytes = omega arith;
        no_larger = omega arith;
      })
