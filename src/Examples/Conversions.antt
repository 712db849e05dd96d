-- ===== src/Examples/Conversions.antt =====
-- A raw image of 272 sectors, and what is made of it.
use mini_vhd.Prelude.{ℕ, ◌+◌, ◌%◌, ◌<◌, ◌≡◌, refl, true, false, none, some, [], ◌∷◌, arith}
use mini_vhd.Stdio.{File}
use mini_vhd.Geometry.{calculate_geometry, calc_size_bytes, total_sectors, choose_chs}
use mini_vhd.Image.{Meta, disk}
use mini_vhd.Io.Write.Again.{SameDisk}
use mini_vhd.Manage.Open.{open_image}
use mini_vhd.Manage.Open.Ready.{Ready}
use mini_vhd.Manage.Open.Balance.{Holds}
use mini_vhd.Manage.Open.Reopen.{open_image_again}
use mini_vhd.Convert.{convert_to_raw}
use mini_vhd.Convert.Raw.{CanExtract, Extract, convert_to_raw-Extract}
use mini_vhd.Convert.RoundTrip.{close_and_copy, convert_to_raw-convert_to_vhd_sparse}
use mini_vhd.Create.{handle}
use mini_vhd.Create.Sparse.{create_sparse_diff}
use mini_vhd.Create.Sparse.Opens.{Fresh, create_sparse_diff-Fresh}
use mini_vhd.Convert.{convert_to_vhd_sparse}
use mini_vhd.Convert.Sparse.{CanConvert, Converted, convert_to_vhd_sparse-Converted}
use mini_vhd.World.{World, same_bytes}
use mini_vhd.Examples.Machine.{host, world, geom, can_create}

create_sparse_diff_example :
    (m : Meta) × (v : World) × (create_sparse_diff 1 host (97 ∷ []) none 139264 geom 4096 world
      ≡ some (handle (m ∷ []), v))
    × Fresh host (97 ∷ []) 139264 geom 4096 world m v
create_sparse_diff_example =
    create_sparse_diff-Fresh 0 host (97 ∷ []) 139264 geom 4096 world can_create (record {
      limit = omega arith;
      some_sector = omega arith;
      whole_bytes = refl;
      block_fits = omega arith;
    })

abbrev pub raw : File
raw = record { size = 139264; byte = λ i. (i + 7) % 256; pos = 0 }

-- Every path has the raw image.
abbrev pub raw_world : World
raw_world = record {
  files = λ path. some raw;
  err = none;
  allocs = [];
  handles = 0;
  blocks = 0;
  style = 1;
}

raw_whole : calc_size_bytes (calculate_geometry 139264) ≡ 139264
unfolding calc_size_bytes calculate_geometry total_sectors choose_chs
raw_whole = refl

pub can_convert : CanConvert host (98 ∷ []) (97 ∷ []) raw_world raw
unfolding same_bytes
can_convert = record {
  memory = refl;
  apart = refl;
  short = omega arith;
  reads = refl;
  creates = refl;
  opens = refl;
  clock_low = omega arith;
  clock_high = omega arith;
  found = refl;
  image = record { some_byte = omega arith; whole = raw_whole };
}

convert_to_vhd_sparse_example :
    (m : Meta) × (v : World) × (convert_to_vhd_sparse 1 host (98 ∷ []) (97 ∷ []) raw_world
      ≡ some (handle (m ∷ []), v))
    × Converted raw (97 ∷ []) raw_world m v
convert_to_vhd_sparse_example =
    convert_to_vhd_sparse-Converted 0 host (98 ∷ []) (97 ∷ []) raw_world raw can_convert

-- The image that it makes, in a world whose every path has it.
made :
    (m : Meta) × (v : World) × (convert_to_vhd_sparse 1 host (98 ∷ []) (97 ∷ []) raw_world
      ≡ some (handle (m ∷ []), v))
    × Converted raw (97 ∷ []) raw_world m v
made = convert_to_vhd_sparse-Converted 0 host (98 ∷ []) (97 ∷ []) raw_world raw can_convert

abbrev image : Meta
image = made.0

image-Converted : Converted raw (97 ∷ []) raw_world image made.1
image-Converted = made.3

abbrev image_world : World
image_world = record {
  files = λ path. some image.f;
  err = none;
  allocs = [];
  handles = 0;
  blocks = 0;
  style = 1;
}

open_image_again_example :
    (m2 : Meta) × (v : World) × (open_image 1 host (97 ∷ []) true image_world
      ≡ some (some (m2 ∷ []), v))
    × (m2.footer ≡ image.footer)
    × (m2.sparse ≡ image.sparse)
    × SameDisk (disk image) (disk m2)
    × Ready image_world (97 ∷ []) true m2
    × Holds image_world m2 v
open_image_again_example =
    open_image_again host image_world (97 ∷ []) true image
      (record {
        memory = refl;
        short = omega arith;
        permitted = refl;
        file = image.f;
        found = refl;
        size = refl;
        byte = refl;
      })
      image-Converted.reopenable image-Converted.writable 0

can_extract : CanExtract host (97 ∷ []) (99 ∷ []) image_world image
unfolding same_bytes
can_extract = record {
  memory = refl;
  apart = refl;
  short = omega arith;
  opens = refl;
  creates = refl;
  file = image.f;
  found = refl;
  size = refl;
  byte = refl;
  reopenable = image-Converted.reopenable;
  writable = image-Converted.writable;
  covered = image-Converted.covered;
  sectors = omega (arith, image-Converted.geometry, image-Converted.sectors);
  small = omega (arith, image-Converted.geometry);
}

convert_to_raw_example :
    (raw : File) × (u : World) × (convert_to_raw 1 host (97 ∷ []) (99 ∷ []) image_world
      ≡ some (some raw, u))
    × Extract image image_world raw u
convert_to_raw_example =
    convert_to_raw-Extract 0 host (97 ∷ []) (99 ∷ []) image_world image can_extract

pub apart : same_bytes (97 ∷ []) (99 ∷ []) ≡ false
unfolding same_bytes
apart = refl

round_trip_example :
    (m : Meta) × (v : World) × (copy : File) × (end : World) × (convert_to_vhd_sparse 1 host
        (98 ∷ [])
        (97 ∷ [])
        raw_world
      ≡ some (handle (m ∷ []), v))
    × (close_and_copy 1 host (97 ∷ []) (99 ∷ []) m v ≡ some (some copy, end))
    × (copy.size ≡ 139264)
    × ((i : ℕ) → i < 139264 → copy.byte i ≡ (i + 7) % 256)
    × (end.handles ≡ 0 + 1)
    × (end.blocks ≡ 0)
    × (end.err ≡ none)
round_trip_example =
    convert_to_raw-convert_to_vhd_sparse 0 host (98 ∷ []) (97 ∷ []) (99 ∷ []) raw_world raw
      can_convert apart refl refl
