-- ===== src/Examples/Machine.antt =====
-- A machine with one file, and the theorems on opening, creating and formatting at concrete inputs.
use mini_vhd.Prelude.{
  ◌+◌, ◌*◌, ◌/◌, ◌%◌, ◌≤◌, ◌≡◌, ◌↔◌, ◌⊎◌, refl, arith, true, false, none, some, [], ◌∷◌, length,
  get_or, All, IsByte,
}
use mini_vhd.Geometry.{calc_size_sectors}
use mini_vhd.Layout.{Footer, Geom, type_fixed, type_dynamic, start_ts}
use mini_vhd.Image.{Meta}
use mini_vhd.Util.Crc.{crc32, crc_bytes, fill_table, crc32_for_byte, shift_bits}
use mini_vhd.Checksum.OnDisk.{be_word}
use mini_vhd.Memory.{bytes_at}
use mini_vhd.Manage.Table.{fill_bat-be_word}
use mini_vhd.Manage.{calc_sparse_values, fill_bat}
use mini_vhd.Manage.Shape.{calc_sparse_values-capacity}
use mini_vhd.Manage.Open.{open_alone}
use mini_vhd.Manage.Open.Balance.{Settles}
use mini_vhd.Manage.Open.Ready.{Ready}
use mini_vhd.Manage.Open.Outcome.{open_alone-Settles}
use mini_vhd.Manage.Sectors.{format_sectors}
use mini_vhd.Manage.Sectors.Format.{Formattable, Zeroed, format_sectors-Zeroed}
use mini_vhd.Util.Uuid.{generate_uuid}
use mini_vhd.Util.Uuid.Version.{generate_uuid-version}
use mini_vhd.Create.{handle, gen_footer}
use mini_vhd.Create.Signed.{Signed, gen_footer-Signed}
use mini_vhd.Create.Fixed.{create_fixed_raw}
use mini_vhd.Create.Fixed.Opens.{CanCreate, Made, create_fixed_raw-Made}
use mini_vhd.Create.Options.{CreationOptions, settle_size, accepted}
use mini_vhd.Create.Options.Settled.{Settled, settle_size-Settled}
use mini_vhd.World.{Host, World, failed}
use mini_vhd.Examples.Sectors.{image, image-Cached}
use mini_vhd.Examples.Writes.{image-Writable}

abbrev pub host : Host
host = record {
  permits = λ path mode. true;
  mtime = λ path. some start_ts;
  now = start_ts + 1000;
  rand = λ seed n. seed * 31 + n * 17;
  garbage = λ which i. 0xcc;
  utf16be_to_utf8 = λ room count text. failed;
  utf16le_to_utf8 = λ room count text. failed;
  utf8_to_utf16be = λ room count text. failed;
  utf8_to_utf16le = λ room count text. failed;
  guess_style = λ path. 1;
  is_absolute = λ style path. false;
  dirname = λ style path. 0;
  basename = λ style path. path;
  join = λ style dir path. path;
  relative = λ style dir path. path;
}

-- Every path has a file of eight zeros.
abbrev pub world : World
world = record {
  files = λ path. some (record { size = 8; byte = λ i. 0; pos = 0 });
  err = none;
  allocs = [];
  handles = 0;
  blocks = 0;
  style = 1;
}

open_alone_example :
    Settles world (Ready world (97 ∷ []) true) (open_alone host (97 ∷ []) true world)
open_alone_example = open_alone-Settles world (97 ∷ []) true host

capacity_example :
    ((calc_sparse_values image).sect_per_block
      ≤ (calc_sparse_values image).bitmap.sector_count * 4096)
    ↔ ((image.sparse.block_sz / 512 % 4096 ≡ 0) ⊎ (8 ≤ image.sparse.block_sz / 512 % 4096))
capacity_example = calc_sparse_values-capacity image

image-Formattable : Formattable image 6 5
image-Formattable = record {
  writable = image-Writable;
  cached = image-Cached;
  block_size = refl;
  covered = omega arith;
  inside = omega arith;
  room = omega arith;
  writes = refl;
  buffer = refl;
}

format_sectors_example : (m' : Meta) × (format_sectors image 6 5 ≡ some m') × Zeroed image 6 5 m'
format_sectors_example =
    format_sectors-Zeroed image 6 5 image-Formattable (omega arith) (omega arith)

generate_uuid_example :
    (length (generate_uuid host) ≡ 16)
    × All IsByte (generate_uuid host)
    × (get_or (generate_uuid host) 6 0 / 16 ≡ 4)
    × (get_or (generate_uuid host) 8 0 / 64 ≡ 2)
generate_uuid_example = generate_uuid-version host

abbrev pub geom : Geom
geom = record { cyl = 4; heads = 4; spt = 17 }

abbrev options : CreationOptions
options = record {
  type = type_dynamic;
  path = some (97 ∷ []);
  parent_path = none;
  size_in_bytes = 0;
  geometry = geom;
  block_size_in_sectors = 0;
}

settled : settle_size options ≡ accepted (record options { size_in_bytes = 139264 })
unfolding settle_size calc_size_sectors
settled = refl

settle_size_example : Settled (record options { size_in_bytes = 139264 })
settle_size_example =
    settle_size-Settled options (record options { size_in_bytes = 139264 })
      (record { cyl_fits = omega arith; heads_fits = omega arith; spt_fits = omega arith }) settled

gen_footer_example :
    (f : Footer) × (gen_footer host 139264 geom type_fixed 0 ≡ some f)
    × Signed host 139264 geom type_fixed f
gen_footer_example =
    gen_footer-Signed host 139264 geom type_fixed 0
      (record { cyl_fits = omega arith; heads_fits = omega arith; spt_fits = omega arith })
      (omega arith) (omega arith) (omega arith) (omega arith) (omega arith)

pub can_create : CanCreate host (97 ∷ []) 139264 geom world
can_create = record {
  memory = refl;
  short = omega arith;
  creates = refl;
  opens = refl;
  geom_fits = record { cyl_fits = omega arith; heads_fits = omega arith; spt_fits = omega arith };
  some_geometry = refl;
  size_fits = omega arith;
  clock_low = omega arith;
  clock_high = omega arith;
}

create_fixed_raw_example :
    (m : Meta) × (v : World) × (create_fixed_raw 1 host (97 ∷ []) none 139264 geom world
      ≡ some (handle (m ∷ []), v))
    × Made host 139264 geom world m v
create_fixed_raw_example = create_fixed_raw-Made 0 host (97 ∷ []) 139264 geom world can_create

table_example :
    ((fill_bat image).block_offset.at 1 ≡ be_word (bytes_at image.f.byte (1536 + 1 * 4) 4))
    × ((fill_bat image).block_offset.size ≡ 2)
table_example =
    fill_bat-be_word image 1 (λ i. omega arith) (omega arith) (omega arith) (omega arith)

-- The CRC of "123456789".
crc_test : (crc32 (λ i. 0) (49 ∷ 50 ∷ 51 ∷ 52 ∷ 53 ∷ 54 ∷ 55 ∷ 56 ∷ 57 ∷ [])).0 ≡ 0xcbf43926
unfolding crc32 crc_bytes fill_table crc32_for_byte shift_bits
crc_test = refl
