-- ===== src/Manage.antt =====
-- manage.c: the parts of a handle that opening fills from the file.
pub mod ParentPath
pub mod Open
pub mod Sectors
pub mod Shape
pub mod Table
use mini_vhd.Prelude.{ℕ, zero, suc, ◌+◌, ◌*◌, ◌/◌, ◌%◌, ltb, ◌==◌, Bool, true, false, not}
use mini_vhd.Prelude.{if◌then◌else◌, Option, none, some, List, replicate}
use mini_vhd.Memory.{Mem, Block, update, bytes_at}
use mini_vhd.Stdio.{File, seek_set64, seek_end, read_mem, after_read}
use mini_vhd.Endian.{from_be32, load_le}
use mini_vhd.Layout.{
  Footer, SparseHeader, footer_size, sparse_size, sector_size, type_fixed, type_dynamic, type_diff,
}
use mini_vhd.StructRw.{buffer_to_footer, buffer_to_header}
use mini_vhd.Cookie.{is_conectix_str}
use mini_vhd.Image.{
  Meta, Owned, unset_read, fixed_read as by_fixed_read, sparse_read as by_sparse_read,
  diff_read as by_diff_read, unset_write, fixed_write as by_fixed_write,
  sparse_diff_write as by_sparse_diff_write, noop_write as by_noop_write,
}
use mini_vhd.World.{Host, M, fail, calloc, pure, err_mem, ◌>>=◌}

-- What calloc gives: a structure of zeros.
abbrev pub zero_footer : Footer
zero_footer = record {
  cookie = replicate 8 0;
  features = 0;
  fi_fmt_vers = 0;
  data_offset = 0;
  timestamp = 0;
  cr_app = replicate 4 0;
  cr_vers = 0;
  cr_host_os = replicate 4 0;
  orig_sz = 0;
  curr_sz = 0;
  geom = record { cyl = 0; heads = 0; spt = 0 };
  disk_type = 0;
  checksum = 0;
  uuid = replicate 16 0;
  saved_st = 0;
  reserved = replicate 427 0;
}

abbrev pub zero_header : SparseHeader
zero_header = record {
  cookie = replicate 8 0;
  data_offset = 0;
  bat_offset = 0;
  head_vers = 0;
  max_bat_ent = 0;
  block_sz = 0;
  checksum = 0;
  par_uuid = replicate 16 0;
  par_timestamp = 0;
  reserved_1 = 0;
  par_utf16_name = replicate 512 0;
  par_loc_entry = replicate 8 (record {
    plat_code = 0;
    plat_data_space = 0;
    plat_data_len = 0;
    reserved = 0;
    plat_data_offset = 0;
  });
  reserved_2 = replicate 256 0;
}

abbrev pub null_block : Block
null_block = record { size = 0; at = λ i. 0 }

-- A handle of zeros that has been given its file.
abbrev pub new_meta : List ℕ → Bool → File → Meta
new_meta filename readonly f = record {
  f = f;
  readonly = readonly;
  filename = filename;
  footer = zero_footer;
  sparse = zero_header;
  block_offset = null_block;
  sect_per_block = 0;
  bitmap = record { curr_bitmap = null_block; sector_count = 0; curr_block = some 0 };
  read_sectors = unset_read;
  write_sectors = unset_write;
  format_sector_count = 0;
  owned = record { table = false; bitmap = false; zero_data = false };
}

unfoldable pub file_is_vhd : Host → File → Bool × File
file_is_vhd host f =
    let f = seek_end f footer_size in
    (is_conectix_str (read_mem f (host.garbage 0) 0 8), after_read f 8)

unfoldable pub read_footer : Host → Meta → Meta
read_footer host m =
    let f = seek_end m.f footer_size in
    let buffer = read_mem f (host.garbage 1) 0 footer_size in
    record m { f = after_read f footer_size; footer = buffer_to_footer (bytes_at buffer 0 512) }

unfoldable pub read_sparse_header : Host → Meta → Meta
read_sparse_header host m =
    let f = seek_set64 m.f m.footer.data_offset in
    let buffer = read_mem f (host.garbage 2) 0 sparse_size in
    record m { f = after_read f sparse_size; sparse = buffer_to_header (bytes_at buffer 0 1024) }

-- One entry of the block table, over the zeros of calloc.
unfoldable pub read_entry : File → ℕ
read_entry f = from_be32 (load_le (bytes_at (read_mem f (λ i. 0) 0 4) 0 4))

-- for (i = 0; i < vhdm->sparse.max_bat_ent; i++), by the rounds that are left.
unfoldable pub read_entries : ℕ → ℕ → File → Mem → File × Mem
read_entries zero i f at = (f, at)
read_entries (suc n) i f at = read_entries n (i + 1) (after_read f 4) (update at i (read_entry f))

unfoldable pub fill_bat : Meta → Meta
fill_bat m =
    let f = seek_set64 m.f m.sparse.bat_offset in
    let filled = read_entries m.sparse.max_bat_ent 0 f (λ i. 0) in
    record m {
      f = filled.0;
      block_offset = record { size = m.sparse.max_bat_ent; at = filled.1 };
      owned = record m.owned { table = true };
    }

unfoldable pub read_bat : Meta → M (Option Meta)
read_bat m = do got ← calloc; if not got then fail err_mem else pure (some (fill_bat m))

unfoldable pub calc_sparse_values : Meta → Meta
calc_sparse_values m =
    let sect_per_block = m.sparse.block_sz / sector_size in
    let bm_bytes = sect_per_block / 8 in
    let sectors = bm_bytes / sector_size in
    record m {
      sect_per_block = sect_per_block;
      bitmap = record m.bitmap {
        sector_count = if ltb 0 (bm_bytes % sector_size) then sectors + 1 else sectors;
      };
    }

unfoldable pub empty_bitmap : Meta → Meta
empty_bitmap m = record m {
  bitmap = record m.bitmap {
    curr_bitmap = record { size = m.bitmap.sector_count * sector_size; at = λ i. 0 };
    curr_block = none;
  };
  owned = record m.owned { bitmap = true };
}

unfoldable pub init_sector_bitmap : Meta → M (Option Meta)
init_sector_bitmap m = do
  got ← calloc
  if not got then fail err_mem else pure (some (empty_bitmap m))

-- The switch of assign_io_funcs: another type leaves the pointers as they are.
unfoldable pub assign_by_type : Meta → Meta
assign_by_type m =
    if m.footer.disk_type == type_fixed
    then record m { read_sectors = by_fixed_read; write_sectors = by_fixed_write }
    else if m.footer.disk_type == type_dynamic
    then record m { read_sectors = by_sparse_read; write_sectors = by_sparse_diff_write }
    else if m.footer.disk_type == type_diff
    then record m { read_sectors = by_diff_read; write_sectors = by_sparse_diff_write }
    else m

unfoldable pub assign_io_funcs : Meta → Meta
assign_io_funcs m =
    if m.readonly
    then record (assign_by_type m) { write_sectors = by_noop_write }
    else assign_by_type m

abbrev pub get_type : Meta → ℕ
get_type m = m.footer.disk_type
