-- ===== src/Manage/Open.antt =====
-- manage.c: mvhd_open, mvhd_close and mvhd_diff_update_par_timestamp. An open image is the list of the
-- handle and its parents; the recursion of mvhd_open has no bound in the code, so it runs on fuel.
pub mod Balance
pub mod Stages
pub mod Ready
pub mod Outcome
pub mod Accept
pub mod Run
pub mod FixedImage
pub mod SparseImage
pub mod Reopen
pub mod Recursion
pub mod Parented
pub mod Lineage
pub mod Close
use mini_vhd.Prelude.{ℕ, zero, suc, leb, ◌==◌, ◌||◌, Bool, true, false, not}
use mini_vhd.Prelude.{if◌then◌else◌, Option, none, some, List, [], ◌∷◌, length}
use mini_vhd.Memory.{of_list}
use mini_vhd.Stdio.{File, seek_set64, write}
use mini_vhd.Layout.{type_fixed, type_dynamic, type_diff, max_path_bytes}
use mini_vhd.StructRw.{header_to_buffer}
use mini_vhd.Checksum.{footer_checksum_valid, sparse_checksum_valid, gen_sparse_checksum}
use mini_vhd.Image.{Meta}
use mini_vhd.Util.Clock.{file_mod_timestamp}
use mini_vhd.Manage.{
  new_meta, file_is_vhd, read_footer, read_sparse_header, read_bat, calc_sparse_values,
  init_sector_bitmap, assign_io_funcs,
}
use mini_vhd.Manage.ParentPath.{get_diff_parent_path}
use mini_vhd.World.{
  FilePath, Error, err_mem, err_not_vhd, err_type, err_footer_checksum, err_sparse_checksum,
  err_path_len, err_invalid_par_uuid, err_timestamp, Mode, read_mode, update_mode, Host, M, ◌>>=◌,
  ◌>>◌, ◌>>?◌, pure, set_err, get_err, fail, calloc, free, free_if, same_bytes, fopen, fclose_read,
  fclose,
}

-- The labels of mvhd_open, each of which goes on with the next one.
unfoldable pub cleanup_vhdm : {A : Type 0} → M (Option A)
cleanup_vhdm = do free; pure none

unfoldable pub cleanup_file : {A : Type 0} → M (Option A)
cleanup_file = do fclose_read; cleanup_vhdm

unfoldable pub cleanup_bat : {A : Type 0} → Meta → M (Option A)
cleanup_bat m = do free_if m.owned.table; cleanup_file

unfoldable pub cleanup_bitmap : {A : Type 0} → Meta → M (Option A)
cleanup_bitmap m = do free_if m.owned.bitmap; cleanup_bat m

unfoldable pub cleanup_format_buff : {A : Type 0} → Meta → M (Option A)
cleanup_format_buff m = do free_if m.owned.zero_data; cleanup_bitmap m

-- *err = e; goto label
abbrev pub stop : {A : Type 0} → Error → M (Option A) → M (Option A)
stop e label = do set_err (some e); label

-- If the step failed, goto label.
abbrev pub or_label : M (Option Meta) → Option Meta → M (Option Meta)
or_label label none = label
or_label label (some m) = pure (some m)

abbrev pub or_goto : M (Option Meta) → M (Option Meta) → M (Option Meta)
or_goto step label = step >>= or_label label

abbrev pub mode_for : Bool → Mode
mode_for true = read_mode
mode_for false = update_mode

abbrev pub with_stream : FilePath → Bool → Option File → M (Option Meta)
with_stream path readonly none = cleanup_vhdm
with_stream path readonly (some f) = pure (some (new_meta path readonly f))

unfoldable pub open_stream : Host → FilePath → Bool → M (Option Meta)
open_stream host path readonly =
    if leb max_path_bytes (length path)
    then stop err_path_len cleanup_vhdm
    else fopen host path (mode_for readonly) >>= with_stream path readonly

unfoldable pub load_footer : Host → Meta → M (Option Meta)
load_footer host m =
    let looked = file_is_vhd host m.f in
    let m = read_footer host (record m { f = looked.1 }) in
    if not looked.0
    then stop err_not_vhd cleanup_file
    else if not (footer_checksum_valid m.footer)
    then stop err_footer_checksum cleanup_file
    else pure (some m)

-- The part for a dynamic or a differencing image.
unfoldable pub load_header : Host → Meta → M (Option Meta)
load_header host m =
    let m = read_sparse_header host m in
    if not (sparse_checksum_valid m.sparse)
    then stop err_sparse_checksum cleanup_file
    else or_goto (read_bat m) cleanup_file >>? λ m.
        or_goto (init_sector_bitmap (calc_sparse_values m)) (cleanup_bat m)

unfoldable pub load_by_type : Host → Meta → M (Option Meta)
load_by_type host m =
    if (m.footer.disk_type == type_diff) || (m.footer.disk_type == type_dynamic)
    then load_header host m
    else if not (m.footer.disk_type == type_fixed)
    then stop err_type (cleanup_bitmap m)
    else pure (some m)

abbrev pub with_format_buffer : Meta → Meta
with_format_buffer m = record m {
  format_sector_count = 64;
  owned = record m.owned { zero_data = true };
}

unfoldable pub add_format_buffer : Meta → M (Option Meta)
add_format_buffer m = do
  got ← calloc
  if not got then stop err_mem (cleanup_bitmap m) else pure (some (with_format_buffer m))

-- The error of a parent whose time is not the one that the header has.
abbrev pub warn_if : Bool → M (Unit {0})
warn_if other = if other then set_err (some err_timestamp) else pure tt

-- The UUID of the parent: on a mismatch its handle is left open.
unfoldable pub accept_parent : Meta → List Meta → M (Option (List Meta))
accept_parent m [] = cleanup_format_buff m
accept_parent m (parent ∷ more) =
    if not (same_bytes m.sparse.par_uuid parent.footer.uuid)
    then stop err_invalid_par_uuid (cleanup_format_buff m)
    else pure (some (m ∷ parent ∷ more))

abbrev pub with_parents : Meta → Option (List Meta) → M (Option (List Meta))
with_parents m none = cleanup_format_buff m
with_parents m (some parents) = accept_parent m parents

unfoldable pub open_stamped :
    (FilePath → Bool → M (Option (List Meta))) → Meta → FilePath → ℕ → M (Option (List Meta))
open_stamped open_again m par_path par_mod_ts = do
  warn_if (not (m.sparse.par_timestamp == par_mod_ts))
  open_again par_path true >>= with_parents m

abbrev pub if_no_error :
    (FilePath → Bool → M (Option (List Meta)))
    → Meta
    → FilePath
    → ℕ
    → Option Error
    → M (Option (List Meta))
if_no_error open_again m par_path par_mod_ts (some e) = cleanup_format_buff m
if_no_error open_again m par_path par_mod_ts none = open_stamped open_again m par_path par_mod_ts

unfoldable pub open_at :
    (FilePath → Bool → M (Option (List Meta))) → Host → Meta → FilePath → M (Option (List Meta))
open_at open_again host m par_path = do
  par_mod_ts ← file_mod_timestamp host par_path
  get_err >>= if_no_error open_again m par_path par_mod_ts

abbrev pub with_par_path :
    (FilePath → Bool → M (Option (List Meta)))
    → Host
    → Meta × Option FilePath
    → M (Option (List Meta))
with_par_path open_again host (m, none) = cleanup_format_buff m
with_par_path open_again host (m, some par_path) = open_at open_again host m par_path

-- The part for a differencing image: `open_again` is the call of mvhd_open.
unfoldable pub open_parent :
    (FilePath → Bool → M (Option (List Meta))) → Host → Meta → M (Option (List Meta))
open_parent open_again host m =
    if not (m.footer.disk_type == type_diff)
    then pure (some (m ∷ []))
    else get_diff_parent_path host m >>= with_par_path open_again host

unfoldable pub open_in : Bool → Host → FilePath → Bool → M (Option Meta)
open_in got host path readonly =
    if not got
    then fail err_mem
    else open_stream host path readonly >>? load_footer host >>? load_by_type host >>? λ m.
        add_format_buffer (assign_io_funcs m)

-- All of mvhd_open before the parent.
unfoldable pub open_alone : Host → FilePath → Bool → M (Option Meta)
open_alone host path readonly = do got ← calloc; open_in got host path readonly

unfoldable pub open_image : ℕ → Host → FilePath → Bool → M (Option (List Meta))
open_image zero host path readonly = λ w. none
open_image (suc fuel) host path readonly =
    open_alone host path readonly >>? λ m. open_parent (open_image fuel host) host m

-- The frees of one handle, after its stream is closed.
unfoldable pub close_one : Meta → M (Unit {0})
close_one m = do
  fclose m.readonly m.filename m.f
  free_if m.owned.table
  free_if m.owned.bitmap
  free_if m.owned.zero_data
  free

-- mvhd_close: the parents first.
unfoldable pub close : List Meta → M (Unit {0})
close [] = pure tt
close (m ∷ parents) = do close parents; close_one m

-- fwrite on a stream: one that is open for reading only refuses it.
abbrev pub write_stream : Meta → File → File → File
write_stream m f written_to = if m.readonly then f else written_to

abbrev pub put_par_timestamp : Meta → ℕ → Meta
put_par_timestamp m par_mod_ts =
    let stamped = record m.sparse { par_timestamp = par_mod_ts } in
    let sparse = record stamped { checksum = gen_sparse_checksum stamped } in
    let f = seek_set64 m.f m.footer.data_offset in
    record m {
      sparse = sparse;
      f = write_stream m f (write f (of_list (header_to_buffer sparse)) 0 1024);
    }

unfoldable pub stamp_by : Host → Meta → FilePath → M (Meta × Bool)
stamp_by host m par_path = do
  par_mod_ts ← file_mod_timestamp host par_path
  e ← get_err
  elim e [ some other ↦ pure (m, false) | none ↦ pure (put_par_timestamp m par_mod_ts, true) ]

abbrev refuse : Meta → M (Meta × Bool)
refuse m = do set_err (some err_type); pure (m, false)

-- The handle after the call, and whether it returns 0.
unfoldable pub diff_update_par_timestamp : Host → Meta → M (Meta × Bool)
diff_update_par_timestamp host m = if not (m.footer.disk_type == type_diff) then refuse m else do
  r ← get_diff_parent_path host m
  elim r.1 [ none ↦ pure (r.0, false) | some path ↦ stamp_by host r.0 path ]
