-- ===== src/Examples/Parents.antt =====
-- A differencing image whose parent is another file.
use mini_vhd.Prelude.{
  ℕ, ltb, ◌==◌, if◌then◌else◌, get_or, ◌≢◌, [], ◌∷◌, ◌+◌, ◌≡◌, refl, arith, true, some,
}
use mini_vhd.Endian.{load_le, store_le, from_be16, from_be32, from_be64}
use mini_vhd.Util.Clock.{file_mod_timestamp, epoch_to_vhd_ts}
use mini_vhd.Manage.ParentPath.{
  get_diff_parent_path, resolve_absolute, resolve_in, resolve, search_paths, read_locators,
  read_locator, find_file, parent_path_exists, try_path, candidate, c_string,
}
use mini_vhd.Cookie.{conectix_cookie, is_conectix_str, begins_with}
use mini_vhd.StructRw.{
  buffer_to_footer, footer_fields, bytes, number, next_buffer_to_struct, swap_in, buffer_to_header,
  header_fields, read_par_locs, read_par_loc,
}
use mini_vhd.Checksum.{
  footer_checksum_valid, gen_footer_checksum, add_bytes, footer_bytes, sparse_checksum_valid,
  gen_sparse_checksum, sparse_bytes, par_loc_bytes,
}
use mini_vhd.Manage.Open.{
  open_in, open_stream, load_footer, load_by_type, load_header, add_format_buffer,
}
use mini_vhd.Manage.{
  file_is_vhd, read_footer, read_sparse_header, read_bat, fill_bat, read_entries,
  init_sector_bitmap, calc_sparse_values, empty_bitmap, assign_io_funcs, assign_by_type,
}
use mini_vhd.Manage.Open.{open_alone, open_image}
use mini_vhd.Manage.Open.Recursion.{Calls}
use mini_vhd.Manage.Open.Lineage.{Lineage, alone, child as with_child, open_image-Lineage}
use mini_vhd.Layout.{type_diff}
use mini_vhd.Image.{Meta}
use mini_vhd.World.{World, put_file, Host, fopen, same_bytes}
use mini_vhd.Examples.Loops.{
  child, child_of, searched, state, self, other, host_for, is_diff, enters,
}

-- The same image on a machine where its parent is a fixed image of no sectors.
abbrev to_other : Host
to_other = host_for other

-- The cookie, the disk type and the checksum of its footer.
abbrev parent_byte : ℕ → ℕ
parent_byte i =
    if ltb i 8
    then get_or conectix_cookie i 0
    else if i == 63
    then 2
    else if i == 64
    then 0xff
    else if i == 65
    then 0xff
    else if i == 66
    then 0xfc
    else if i == 67
    then 0xa0
    else 0

abbrev family : ℕ → ℕ → World
family handles blocks =
    put_file other (record { size = 512; byte = parent_byte; pos = 0 }) (state handles blocks)

opens_child :
    open_alone to_other self true (family 0 0)
    ≡ some (some child, family (0 + 1) (0 + 1 + 1 + 1 + 1))
unfolding open_alone open_in open_stream fopen load_footer file_is_vhd is_conectix_str begins_with
    read_footer buffer_to_footer footer_fields bytes number next_buffer_to_struct swap_in
    footer_checksum_valid gen_footer_checksum add_bytes footer_bytes load_by_type load_header
    read_sparse_header buffer_to_header header_fields read_par_locs read_par_loc
    sparse_checksum_valid gen_sparse_checksum sparse_bytes par_loc_bytes read_bat fill_bat
    read_entries init_sector_bitmap calc_sparse_values empty_bitmap assign_io_funcs assign_by_type
    add_format_buffer same_bytes load_le store_le from_be16 from_be32 from_be64
opens_child = refl

finds_other :
    get_diff_parent_path to_other child (family (0 + 1) (0 + 1 + 1 + 1 + 1))
    ≡ some ((searched, some other), family 1 4)
unfolding open_alone open_in open_stream fopen load_footer file_is_vhd is_conectix_str begins_with
    read_footer buffer_to_footer footer_fields bytes number next_buffer_to_struct swap_in
    footer_checksum_valid gen_footer_checksum add_bytes footer_bytes load_by_type load_header
    read_sparse_header buffer_to_header header_fields read_par_locs read_par_loc
    sparse_checksum_valid gen_sparse_checksum sparse_bytes par_loc_bytes read_bat fill_bat
    read_entries init_sector_bitmap calc_sparse_values empty_bitmap assign_io_funcs assign_by_type
    add_format_buffer same_bytes load_le store_le from_be16 from_be32 from_be64 get_diff_parent_path
    resolve_absolute resolve_in resolve search_paths read_locators read_locator find_file
    parent_path_exists try_path candidate c_string
finds_other = refl

stats_other : file_mod_timestamp to_other other (family 1 4) ≡ some (0, family 1 4)
unfolding file_mod_timestamp epoch_to_vhd_ts
stats_other = refl

abbrev call_other : Calls to_other self true (family 0 0) other (family 1 4)
call_other = record {
  child = child;
  after_open = family (0 + 1) (0 + 1 + 1 + 1 + 1);
  opens = opens_child;
  diff = is_diff;
  searched = searched;
  after_search = family 1 4;
  finds = finds_other;
  par_mod_ts = 0;
  after_stat = family 1 4;
  stats = stats_other;
  no_error = refl;
  enters = enters (family 1 4);
}

abbrev parent : Meta
parent = child_of (open_alone to_other other true (family 1 4))

opens_parent :
    open_alone to_other other true (family 1 4) ≡ some (some parent, family (1 + 1) (4 + 1 + 1))
unfolding open_alone open_in open_stream fopen load_footer file_is_vhd is_conectix_str begins_with
    read_footer buffer_to_footer footer_fields bytes number next_buffer_to_struct swap_in
    footer_checksum_valid gen_footer_checksum add_bytes footer_bytes load_by_type load_header
    read_sparse_header buffer_to_header header_fields read_par_locs read_par_loc
    sparse_checksum_valid gen_sparse_checksum sparse_bytes par_loc_bytes read_bat fill_bat
    read_entries init_sector_bitmap calc_sparse_values empty_bitmap assign_io_funcs assign_by_type
    add_format_buffer same_bytes load_le store_le from_be16 from_be32 from_be64
opens_parent = refl

is_fixed : parent.footer.disk_type ≢ type_diff
unfolding open_alone open_in open_stream fopen load_footer file_is_vhd is_conectix_str begins_with
    read_footer buffer_to_footer footer_fields bytes number next_buffer_to_struct swap_in
    footer_checksum_valid gen_footer_checksum add_bytes footer_bytes load_by_type load_header
    read_sparse_header buffer_to_header header_fields read_par_locs read_par_loc
    sparse_checksum_valid gen_sparse_checksum sparse_bytes par_loc_bytes read_bat fill_bat
    read_entries init_sector_bitmap calc_sparse_values empty_bitmap assign_io_funcs assign_by_type
    add_format_buffer same_bytes load_le store_le from_be16 from_be32 from_be64
is_fixed h = absurd (omega arith)

same_uuid : searched.sparse.par_uuid ≡ parent.footer.uuid
unfolding open_alone open_in open_stream fopen load_footer file_is_vhd is_conectix_str begins_with
    read_footer buffer_to_footer footer_fields bytes number next_buffer_to_struct swap_in
    footer_checksum_valid gen_footer_checksum add_bytes footer_bytes load_by_type load_header
    read_sparse_header buffer_to_header header_fields read_par_locs read_par_loc
    sparse_checksum_valid gen_sparse_checksum sparse_bytes par_loc_bytes read_bat fill_bat
    read_entries init_sector_bitmap calc_sparse_values empty_bitmap assign_io_funcs assign_by_type
    add_format_buffer same_bytes load_le store_le from_be16 from_be32 from_be64 get_diff_parent_path
    resolve_absolute resolve_in resolve search_paths read_locators read_locator find_file
    parent_path_exists try_path candidate c_string
same_uuid = refl

two_images :
    Lineage to_other self true (family 0 0) 1 (searched ∷ parent ∷ []) (family (1 + 1) (4 + 1 + 1))
two_images =
    with_child self true (family 0 0) other (family 1 4) 0 parent [] (family (1 + 1) (4 + 1 + 1))
      call_other
      (alone other true (family 1 4) parent (family (1 + 1) (4 + 1 + 1)) opens_parent is_fixed)
      same_uuid

lineage_example :
    open_image 2 to_other self true (family 0 0)
    ≡ some (some (searched ∷ parent ∷ []), family (1 + 1) (4 + 1 + 1))
lineage_example =
    (open_image-Lineage 2 to_other self true (family 0 0) (searched ∷ parent ∷ [])
        (family (1 + 1) (4 + 1 + 1))).1
      (1, omega arith, two_images)
