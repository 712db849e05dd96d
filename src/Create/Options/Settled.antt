-- ===== src/Create/Options/Settled.antt =====
-- create.c: the options that mvhd_create_ex goes on with.
use mini_vhd.Prelude.{
  ℕ, ◌*◌, ◌%◌, ◌≤◌, ◌<◌, ◌≡◌, refl, ap, subst, Bool, true, false, ltb, ◌==◌, ◌&&◌, if◌then◌else◌,
  arith,
}
use mini_vhd.Layout.{Geom, GeomFits, sector_size, max_size_in_bytes}
use mini_vhd.Geometry.{calculate_geometry, calc_size_sectors, calc_size_bytes}
use mini_vhd.Geometry.Bounds.{calculate_geometry-Covers}
use native.Mathlib.Nat.{mul-le-mul_right}
use mathlib.Core.Bool.{false≢true}
use mini_vhd.World.{err_invalid_size, err_invalid_geom}
use mini_vhd.Create.Options.{
  CreationOptions, Checked, rejected, accepted, settle_size, is_invalid_size,
}

-- A size of whole sectors that a VHD may have, and a geometry that does not exceed it.
pub record Settled (o : CreationOptions) : Type 0 where
  pub positive : 0 < o.size_in_bytes
  pub whole : o.size_in_bytes % sector_size ≡ 0
  pub limit : o.size_in_bytes ≤ max_size_in_bytes
  pub within_size : calc_size_bytes o.geometry ≤ o.size_in_bytes

options_of : CreationOptions → Checked → CreationOptions
options_of o (rejected e) = o
options_of o (accepted r) = r

is_accepted : Checked → Bool
is_accepted (rejected e) = false
is_accepted (accepted r) = true

-- Neither test has rejected what is accepted.
settled_by :
    (bad_size bad_geom : Bool) (r o : CreationOptions)
    → (if bad_size
        then rejected err_invalid_size
        else if bad_geom
        then rejected err_invalid_geom
        else accepted r)
      ≡ accepted o
    → (bad_size ≡ false) × (bad_geom ≡ false) × (r ≡ o)
unfolding options_of is_accepted
settled_by true bad_geom r o e = absurd (false≢true (ap is_accepted e))
settled_by false true r o e = absurd (false≢true (ap is_accepted e))
settled_by false false r o e = (refl, refl, ap (options_of o) e)

sectors_below : (g : Geom) → GeomFits g → g.cyl * g.heads * g.spt ≤ 65535 * 255 * 255
sectors_below g fits =
    let rows : g.cyl * g.heads ≤ 65535 * g.heads =
      mul-le-mul_right g.heads (omega (arith, fits.cyl_fits)) in
    let tracks : g.cyl * g.heads ≤ 65535 * 255 = omega (arith, rows, fits.heads_fits) in
    let all : g.cyl * g.heads * g.spt ≤ 65535 * 255 * g.spt = mul-le-mul_right g.spt tracks in
    omega (arith, all, fits.spt_fits)

abbrev size_from : ℕ → ℕ → ℕ
size_from size_in_bytes sectors =
    if size_in_bytes == 0 then sectors * sector_size else size_in_bytes

settled_number :
    (n k : ℕ)
    → k ≤ 65535 * 255 * 255
    → is_invalid_size n k ≡ false
    → (0 < size_from n k) × (size_from n k % 512 ≡ 0) × (size_from n k ≤ max_size_in_bytes)
settled_number n k small ok = (ground arith, ground arith, ground arith)

chosen :
    (unset : Bool) (size : ℕ) (g : Geom)
    → (unset ≡ false → calc_size_bytes g ≤ size)
    → calc_size_bytes (if unset then calculate_geometry size else g) ≤ size
chosen true size g used = (calculate_geometry-Covers size).no_larger
chosen false size g used = used refl

settled_geometry :
    (o : CreationOptions) (k : ℕ)
    → k ≡ o.geometry.cyl * o.geometry.heads * o.geometry.spt
    → k ≤ 65535 * 255 * 255
    → (ltb 0 o.size_in_bytes && ltb o.size_in_bytes (k * sector_size)) ≡ false
    → calc_size_bytes
        (if k == 0 then calculate_geometry (size_from o.size_in_bytes k) else o.geometry)
      ≤ size_from o.size_in_bytes k
unfolding calc_size_bytes
settled_geometry o k sectors small ok =
    chosen (k == 0) (size_from o.size_in_bytes k) o.geometry
      λ used. let some_sector : 0 < k = ground (arith, used) in ground (arith, sectors, small)

-- The options that mvhd_create_ex accepts for a fixed or a dynamic image have a size of whole sectors
-- that is not 0 and within the limit of a VHD, even where it comes from the geometry, and a geometry
-- of no more bytes.
pub settle_size-Settled :
    (o r : CreationOptions) → GeomFits o.geometry → settle_size o ≡ accepted r → Settled r
unfolding settle_size calc_size_sectors
settle_size-Settled o r fits e =
    let s = o.geometry.cyl * o.geometry.heads * o.geometry.spt in
    let small = sectors_below o.geometry fits in
    let k = calc_size_sectors o.geometry in
    let sectors : k ≡ s = omega (arith, small) in
    let few : k ≤ 65535 * 255 * 255 = omega (arith, small) in
    let (size_ok, geom_ok, same) = settled_by (is_invalid_size o.size_in_bytes k) _ _ r e in
    let (positive, whole, limit) = settled_number o.size_in_bytes k few size_ok in
    subst Settled same (record {
      positive = positive;
      whole = whole;
      limit = limit;
      within_size = settled_geometry o k sectors few geom_ok;
    })
