-- ===== src/Examples/Structures.antt =====
-- Tests of the byte swaps and of the structures on disk, and the theorems at concrete inputs.
use mini_vhd.Prelude.{
  ℕ, ◌+◌, ◌^◌, ◌≡◌, ◌↔◌, refl, arith, true, List, [], ◌∷◌, ◌++◌, replicate, drop,
}
use mini_vhd.Prelude.{◌-◌}
use mini_vhd.Layout.{Footer, ParLoc, SparseHeader}
use mini_vhd.Endian.{from_be16, to_be32}
use mini_vhd.StructRw.{buffer_to_footer, footer_to_buffer, buffer_to_header, header_to_buffer}
use mini_vhd.StructRw.RoundTrip.{
  buffer_to_footer-footer_to_buffer, buffer_to_header-header_to_buffer,
}
use mini_vhd.StructRw.Restore.{footer_to_buffer-buffer_to_footer, header_to_buffer-buffer_to_header}
use mini_vhd.Checksum.{footer_checksum_valid, sparse_checksum_valid}
use mini_vhd.Checksum.OnDisk.{footer_accepted_iff, header_accepted_iff, be_word, sum_without}

abbrev sample : Footer
sample = record {
  cookie = 99 ∷ 111 ∷ 110 ∷ 101 ∷ 99 ∷ 116 ∷ 105 ∷ 120 ∷ [];
  features = 2;
  fi_fmt_vers = 0x10000;
  data_offset = 512;
  timestamp = 1000;
  cr_app = 109 ∷ 86 ∷ 72 ∷ 68 ∷ [];
  cr_vers = 0xe0000;
  cr_host_os = 87 ∷ 105 ∷ 50 ∷ 107 ∷ [];
  orig_sz = 8192;
  curr_sz = 8192;
  geom = record { cyl = 4; heads = 4; spt = 17 };
  disk_type = 3;
  checksum = 7;
  uuid = replicate 16 9;
  saved_st = 0;
  reserved = replicate 427 0;
}

abbrev locator : ParLoc
locator = record {
  plat_code = 0x57326b75;
  plat_data_space = 512;
  plat_data_len = 20;
  reserved = 0;
  plat_data_offset = 4096;
}

abbrev sample_header : SparseHeader
sample_header = record {
  cookie = 99 ∷ 120 ∷ 115 ∷ 112 ∷ 97 ∷ 114 ∷ 115 ∷ 101 ∷ [];
  data_offset = 0xffffffffffffffff;
  bat_offset = 1536;
  head_vers = 0x10000;
  max_bat_ent = 2;
  block_sz = 0x200000;
  checksum = 0;
  par_uuid = replicate 16 0;
  par_timestamp = 0;
  reserved_1 = 0;
  par_utf16_name = replicate 512 0;
  par_loc_entry = replicate 8 locator;
  reserved_2 = replicate 256 0;
}

swaps : (from_be16 0x1234 ≡ 0x3412) × (to_be32 0x12345678 ≡ 0x78563412)
unfolding from_be16 to_be32
swaps = (refl, refl)

footer_round_trip_example : buffer_to_footer (footer_to_buffer sample) ≡ sample
footer_round_trip_example = buffer_to_footer-footer_to_buffer sample (omega arith)

header_round_trip_example : buffer_to_header (header_to_buffer sample_header) ≡ sample_header
header_round_trip_example = buffer_to_header-header_to_buffer sample_header (omega arith)

abbrev sector : List ℕ
sector = replicate 68 1 ++ replicate 444 200

abbrev two_sectors : List ℕ
two_sectors = replicate 1024 3

footer_restored_example : footer_to_buffer (buffer_to_footer sector) ≡ sector
footer_restored_example = footer_to_buffer-buffer_to_footer sector (omega arith)

header_restored_example : header_to_buffer (buffer_to_header two_sectors) ≡ two_sectors
header_restored_example = header_to_buffer-buffer_to_header two_sectors (omega arith)

footer_accepted_example :
    (footer_checksum_valid (buffer_to_footer sector) ≡ true)
    ↔ (be_word (drop 64 sector) + sum_without 64 sector ≡ 2 ^ 32 - 1)
footer_accepted_example = footer_accepted_iff sector (omega arith)

header_accepted_example :
    (sparse_checksum_valid (buffer_to_header two_sectors) ≡ true)
    ↔ (be_word (drop 36 two_sectors) + sum_without 36 two_sectors ≡ 2 ^ 32 - 1)
header_accepted_example = header_accepted_iff two_sectors (omega arith)
