-- ===== src/Geometry.antt =====
-- manage.c and util.c: the geometry of a disk of a given size, and the size of a geometry.
pub mod Bounds
use mini_vhd.Prelude.{ℕ, ◌+◌, ◌*◌, ◌/◌, ◌%◌, ◌^◌, u8, u16, u32, u64, ltb, leb, if◌then◌else◌, ◌||◌}
use mini_vhd.Layout.{Geom, sector_size}

-- The local variables `spt`, `heads` and `cth`.
pub record Chs : Type 0 where
  pub spt : ℕ
  pub heads : ℕ
  pub cth : ℕ

abbrev pub chs : ℕ → ℕ → ℕ → Chs
chs spt heads cth = record { spt = spt; heads = heads; cth = cth }

-- The third attempt, where 31 sectors a track were too few.
unfoldable pub try_63 : ℕ → Chs → Chs
try_63 ts c = if leb (c.heads * 1024) c.cth then chs 63 16 (ts / 63) else c

unfoldable pub try_31 : ℕ → Chs → Chs
try_31 ts c = if leb (c.heads * 1024) c.cth || ltb 16 c.heads then chs 31 16 (ts / 31) else c

unfoldable pub try_17 : ℕ → Chs
try_17 ts =
    let cth = ts / 17 in
    let heads = (cth + 1023) / 1024 in chs 17 (if ltb heads 4 then 4 else heads) cth

unfoldable pub choose_chs : ℕ → Chs
unfolding try_63 try_31 try_17
choose_chs ts =
    if leb (65535 * 16 * 63) ts then chs 255 16 (ts / 255) else try_63 ts (try_31 ts (try_17 ts))

-- `ts`, cut to 32 bits and to the largest geometry.
unfoldable pub total_sectors : ℕ → ℕ
total_sectors size =
    let ts = u32 (size / sector_size) in if ltb (65535 * 16 * 255) ts then 65535 * 16 * 255 else ts

unfoldable pub calculate_geometry : ℕ → Geom
calculate_geometry size =
    let c = choose_chs (total_sectors size) in
    record { cyl = u16 (c.cth / c.heads); heads = u8 c.heads; spt = u8 c.spt }

unfoldable pub calc_size_bytes : Geom → ℕ
calc_size_bytes geom = u64 (geom.cyl * geom.heads * geom.spt * sector_size)

unfoldable pub calc_size_sectors : Geom → ℕ
calc_size_sectors geom = u32 (geom.cyl * geom.heads * geom.spt)
