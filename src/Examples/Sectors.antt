-- ===== src/Examples/Sectors.antt =====
-- Geometries and sector reads at concrete inputs.
use mini_vhd.Prelude.{
  ◌-◌, ◌*◌, ◌%◌, ◌≡◌, refl, arith, min, false, true, ◌==◌, if◌then◌else◌, none, some, [],
}
use mini_vhd.Memory.{Mem}
use mini_vhd.Layout.{Footer, SparseHeader}
use mini_vhd.Geometry.{calculate_geometry, choose_chs, calc_size_bytes, calc_size_sectors}
use mini_vhd.Geometry
use mini_vhd.Geometry.Bounds.{Covers, calculate_geometry-Covers}
use mini_vhd.Image.{Meta, disk, sparse_read as by_sparse_read, sparse_diff_write}
use mini_vhd.Io.{Transfer, check_sectors, sparse_read}
use mini_vhd.Io.Sectors.{check_sectors_cut, check_sectors_past_end}
use mini_vhd.Io.View.{Sound, Cached}
use mini_vhd.Io.SparseRead.{Returned, sparse_read-Returned}

geometry_of_40_mib : calculate_geometry 42823680 ≡ record { cyl = 984; heads = 5; spt = 17 }
unfolding calculate_geometry choose_chs Geometry.total_sectors
geometry_of_40_mib = refl

calculate_geometry_example : Covers 42823680 (calculate_geometry 42823680)
calculate_geometry_example = calculate_geometry-Covers 42823680

check_sectors_cut_example : check_sectors 10 8 16 ≡ record { transfer = 6; truncated = 2 }
check_sectors_cut_example = check_sectors_cut 10 8 16 (omega arith) (omega arith) (omega arith)

check_sectors_past_end_example : check_sectors 20 8 16 ≡ record { transfer = 8; truncated = 0 }
check_sectors_past_end_example =
    check_sectors_past_end 20 8 16 (omega arith) (omega arith) (omega arith)

abbrev pub small_footer : Footer
small_footer = record {
  cookie = [];
  features = 2;
  fi_fmt_vers = 0;
  data_offset = 512;
  timestamp = 0;
  cr_app = [];
  cr_vers = 0;
  cr_host_os = [];
  orig_sz = 8192;
  curr_sz = 8192;
  geom = record { cyl = 1; heads = 1; spt = 16 };
  disk_type = 3;
  checksum = 0;
  uuid = [];
  saved_st = 0;
  reserved = [];
}

abbrev small_header : SparseHeader
small_header = record {
  cookie = [];
  data_offset = 0;
  bat_offset = 1536;
  head_vers = 0;
  max_bat_ent = 2;
  block_sz = 4096;
  checksum = 0;
  par_uuid = [];
  par_timestamp = 0;
  reserved_1 = 0;
  par_utf16_name = [];
  par_loc_entry = [];
  reserved_2 = [];
}

-- Two blocks of 8 sectors; the first lies at sector 4 of the file, the second is sparse.
abbrev pub image : Meta
image = record {
  f = record { size = 20 * 512; byte = λ i. i % 251; pos = 0 };
  readonly = false;
  filename = [];
  footer = small_footer;
  sparse = small_header;
  block_offset = record { size = 2; at = λ b. if b == 0 then 4 else 0xffffffff };
  sect_per_block = 8;
  bitmap = record {
    curr_bitmap = record { size = 512; at = λ i. 0 };
    sector_count = 1;
    curr_block = none;
  };
  read_sectors = by_sparse_read;
  write_sectors = sparse_diff_write;
  format_sector_count = 64;
  owned = record { table = true; bitmap = true; zero_data = true };
}

pub image-Sound : Sound (disk image)
image-Sound = record {
  spb_pos = omega arith;
  capacity = omega arith;
  extent = λ b h stored. ground arith;
}

pub image-Cached : Cached image
image-Cached = record { bitmap_size = refl; current = λ b i p h. cc }

abbrev pub blank : Mem
blank i = 0

sparse_read_example :
    (t : Transfer) × (sparse_read image 6 12 blank ≡ some t)
    × (t.truncated ≡ 12 - (16 - 6))
    × Returned image 6 (min 12 (16 - 6)) blank t
sparse_read_example =
    sparse_read-Returned image 6 12 blank image-Sound image-Cached (omega arith) (omega arith)
      (omega arith)
