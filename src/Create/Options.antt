-- ===== src/Create/Options.antt =====
-- create.c: mvhd_create_ex.
pub mod Settled
use mini_vhd.Prelude.{
  ℕ, ◌*◌, ◌%◌, ltb, ◌==◌, ◌&&◌, ◌||◌, Bool, not, if◌then◌else◌, Option, none, some,
}
use mini_vhd.Layout.{
  Geom, sector_size, max_size_in_bytes, type_fixed, type_dynamic, type_diff, block_default,
  block_small, block_large,
}
use mini_vhd.Geometry.{calculate_geometry, calc_size_sectors}
use mini_vhd.Manage.{zero_footer}
use mini_vhd.Create.{Created, return_null}
use mini_vhd.Create.Fixed.{create_fixed_raw}
use mini_vhd.Create.Sparse.{create_sparse_diff}
use mini_vhd.World.{
  FilePath, Host, Error, err_file, err_type, err_invalid_size, err_invalid_geom,
  err_invalid_block_size, M,
}

-- MVHDCreationOptions, without the callback.
pub record CreationOptions : Type 0 where
  pub type : ℕ
  pub path : Option FilePath
  pub parent_path : Option FilePath
  pub size_in_bytes : ℕ
  pub geometry : Geom
  pub block_size_in_sectors : ℕ

-- The options that the first switch leaves, or the error with which it returns.
pub data Checked : Type 0 where
  rejected : Error → Checked
  accepted : CreationOptions → Checked

abbrev is_invalid_size : ℕ → ℕ → Bool
is_invalid_size size_in_bytes geom_sector_size =
    (ltb 0 size_in_bytes && ltb 0 (size_in_bytes % sector_size))
    || ltb max_size_in_bytes size_in_bytes
    || (size_in_bytes == 0 && geom_sector_size == 0)

unfoldable pub settle_size : CreationOptions → Checked
settle_size options =
    let geom_sector_size = calc_size_sectors options.geometry in
    let from_geometry = geom_sector_size * sector_size in
    let size_in_bytes =
      if options.size_in_bytes == 0 then from_geometry else options.size_in_bytes in
    if is_invalid_size options.size_in_bytes geom_sector_size
    then rejected err_invalid_size
    else if ltb 0 options.size_in_bytes && ltb options.size_in_bytes from_geometry
    then rejected err_invalid_geom
    else accepted (record options {
      size_in_bytes = size_in_bytes;
      geometry =
          if geom_sector_size == 0 then calculate_geometry size_in_bytes else options.geometry;
    })

abbrev need_parent : CreationOptions → Option FilePath → Checked
need_parent options none = rejected err_file
need_parent options (some path) = accepted options

unfoldable pub check_type : CreationOptions → Checked
check_type options =
    if (options.type == type_fixed) || (options.type == type_dynamic)
    then settle_size options
    else if options.type == type_diff
    then need_parent options options.parent_path
    else rejected err_type

-- The block size, for an image that is not fixed.
unfoldable pub settle_block : CreationOptions → Checked
settle_block options =
    let block_size =
      if options.block_size_in_sectors == block_default
      then block_large
      else options.block_size_in_sectors in
    if options.type == type_fixed
    then accepted options
    else if not (block_size == block_large) && not (block_size == block_small)
    then rejected err_invalid_block_size
    else accepted (record options { block_size_in_sectors = block_size })

-- The last switch; the type is one of the three.
unfoldable pub create_checked : ℕ → Host → FilePath → Checked → M Created
create_checked fuel host path (rejected e) = return_null e
create_checked fuel host path (accepted options) =
    if options.type == type_fixed
    then create_fixed_raw fuel host path none options.size_in_bytes options.geometry
    else if options.type == type_dynamic
    then create_sparse_diff fuel host path none options.size_in_bytes options.geometry
        options.block_size_in_sectors
    else create_sparse_diff fuel host path options.parent_path 0 zero_footer.geom
        options.block_size_in_sectors

abbrev with_path : ℕ → Host → CreationOptions → Option FilePath → M Created
with_path fuel host options none = return_null err_file
with_path fuel host options (some path) = create_checked fuel host path (settle_block options)

abbrev with_checked : ℕ → Host → Checked → M Created
with_checked fuel host (rejected e) = return_null e
with_checked fuel host (accepted options) = with_path fuel host options options.path

unfoldable pub create_ex : ℕ → Host → CreationOptions → M Created
create_ex fuel host options = with_checked fuel host (check_type options)
