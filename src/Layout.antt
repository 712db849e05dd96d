-- ===== src/Layout.antt =====
-- internal.h and minivhd.h: the constants and the structures of a VHD image.
use mini_vhd.Prelude.{ℕ, ◌<◌, ◌^◌, ◌≡◌, List, length, All}

abbrev pub footer_size : ℕ
footer_size = 512

abbrev pub sparse_size : ℕ
sparse_size = 1024

abbrev pub sector_size : ℕ
sector_size = 512

abbrev pub bat_ent_per_sect : ℕ
bat_ent_per_sect = 128

abbrev pub max_size_in_bytes : ℕ
max_size_in_bytes = 0x1fe00000000

abbrev pub sparse_blk : ℕ
sparse_blk = 0xffffffff

abbrev pub max_path_chars : ℕ
max_path_chars = 260

abbrev pub max_path_bytes : ℕ
max_path_bytes = 1040

abbrev pub dif_loc_w2ru : ℕ
dif_loc_w2ru = 0x57327275

abbrev pub dif_loc_w2ku : ℕ
dif_loc_w2ku = 0x57326b75

abbrev pub start_ts : ℕ
start_ts = 946684800

abbrev pub type_fixed : ℕ
type_fixed = 2

abbrev pub type_dynamic : ℕ
type_dynamic = 3

abbrev pub type_diff : ℕ
type_diff = 4

abbrev pub block_default : ℕ
block_default = 0

abbrev pub block_small : ℕ
block_small = 1024

abbrev pub block_large : ℕ
block_large = 4096

pub record Geom : Type 0 where
  pub cyl : ℕ
  pub heads : ℕ
  pub spt : ℕ

-- An array of bytes is the list of its bytes, an integer its value.
pub record Footer : Type 0 where
  pub cookie : List ℕ
  pub features : ℕ
  pub fi_fmt_vers : ℕ
  pub data_offset : ℕ
  pub timestamp : ℕ
  pub cr_app : List ℕ
  pub cr_vers : ℕ
  pub cr_host_os : List ℕ
  pub orig_sz : ℕ
  pub curr_sz : ℕ
  pub geom : Geom
  pub disk_type : ℕ
  pub checksum : ℕ
  pub uuid : List ℕ
  pub saved_st : ℕ
  pub reserved : List ℕ

pub record ParLoc : Type 0 where
  pub plat_code : ℕ
  pub plat_data_space : ℕ
  pub plat_data_len : ℕ
  pub reserved : ℕ
  pub plat_data_offset : ℕ

pub record SparseHeader : Type 0 where
  pub cookie : List ℕ
  pub data_offset : ℕ
  pub bat_offset : ℕ
  pub head_vers : ℕ
  pub max_bat_ent : ℕ
  pub block_sz : ℕ
  pub checksum : ℕ
  pub par_uuid : List ℕ
  pub par_timestamp : ℕ
  pub reserved_1 : ℕ
  pub par_utf16_name : List ℕ
  pub par_loc_entry : List ParLoc
  pub reserved_2 : List ℕ

-- The widths of the C types.
pub record GeomFits (g : Geom) : Type 0 where
  pub cyl_fits : g.cyl < 2 ^ 16
  pub heads_fits : g.heads < 2 ^ 8
  pub spt_fits : g.spt < 2 ^ 8

pub record FooterFits (f : Footer) : Type 0 where
  pub cookie_fits : length f.cookie ≡ 8
  pub features_fits : f.features < 2 ^ 32
  pub fi_fmt_vers_fits : f.fi_fmt_vers < 2 ^ 32
  pub data_offset_fits : f.data_offset < 2 ^ 64
  pub timestamp_fits : f.timestamp < 2 ^ 32
  pub cr_app_fits : length f.cr_app ≡ 4
  pub cr_vers_fits : f.cr_vers < 2 ^ 32
  pub cr_host_os_fits : length f.cr_host_os ≡ 4
  pub orig_sz_fits : f.orig_sz < 2 ^ 64
  pub curr_sz_fits : f.curr_sz < 2 ^ 64
  pub geom_fits : GeomFits f.geom
  pub disk_type_fits : f.disk_type < 2 ^ 32
  pub checksum_fits : f.checksum < 2 ^ 32
  pub uuid_fits : length f.uuid ≡ 16
  pub saved_st_fits : f.saved_st < 2 ^ 8
  pub reserved_fits : length f.reserved ≡ 427

pub record ParLocFits (p : ParLoc) : Type 0 where
  pub plat_code_fits : p.plat_code < 2 ^ 32
  pub plat_data_space_fits : p.plat_data_space < 2 ^ 32
  pub plat_data_len_fits : p.plat_data_len < 2 ^ 32
  pub reserved_fits : p.reserved < 2 ^ 32
  pub plat_data_offset_fits : p.plat_data_offset < 2 ^ 64

pub record HeaderFits (h : SparseHeader) : Type 0 where
  pub cookie_fits : length h.cookie ≡ 8
  pub data_offset_fits : h.data_offset < 2 ^ 64
  pub bat_offset_fits : h.bat_offset < 2 ^ 64
  pub head_vers_fits : h.head_vers < 2 ^ 32
  pub max_bat_ent_fits : h.max_bat_ent < 2 ^ 32
  pub block_sz_fits : h.block_sz < 2 ^ 32
  pub checksum_fits : h.checksum < 2 ^ 32
  pub par_uuid_fits : length h.par_uuid ≡ 16
  pub par_timestamp_fits : h.par_timestamp < 2 ^ 32
  pub reserved_1_fits : h.reserved_1 < 2 ^ 32
  pub par_utf16_name_fits : length h.par_utf16_name ≡ 512
  pub par_loc_count : length h.par_loc_entry ≡ 8
  pub par_loc_fits : All ParLocFits h.par_loc_entry
  pub reserved_2_fits : length h.reserved_2 ≡ 256
