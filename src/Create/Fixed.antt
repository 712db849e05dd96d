-- ===== src/Create/Fixed.antt =====
-- create.c: mvhd_create_fixed and mvhd_create_fixed_raw, without the calls of progress_callback.
pub mod Image
pub mod Opens
use mini_vhd.Prelude.{ℕ, zero, suc, ◌/◌, u32, ◌==◌, ◌||◌, Bool, false, not, if◌then◌else◌}
use mini_vhd.Prelude.{Option, none, some}
use mini_vhd.Memory.{Mem, of_list}
use mini_vhd.Stdio.{File, seek_set, read_mem, after_read, write}
use mini_vhd.Layout.{Footer, Geom, sector_size, footer_size, type_fixed}
use mini_vhd.StructRw.{footer_to_buffer}
use mini_vhd.Geometry.{calculate_geometry, calc_size_bytes}
use mini_vhd.Manage.Open.{open_image}
use mini_vhd.Create.{Created, null, from_open, return_null, gen_footer}
use mini_vhd.World.{
  FilePath, Host, err_invalid_geom, err_mem, err_conv_size, create_mode, M, ◌>>=◌, ◌>>◌, pure, lift,
  set_err, calloc, free, fopen, fclose_written,
}

-- geom->cyl == 0 || geom->heads == 0 || geom->spt == 0
abbrev pub no_geometry : Geom → Bool
no_geometry geom = (geom.cyl == 0) || (geom.heads == 0) || (geom.spt == 0)

-- for (s = 0; s < size_sectors; s++), from the raw image: a short read leaves what the buffer held.
unfoldable pub copy_sectors : ℕ → File → Mem → File → File
copy_sectors zero raw_img img_data f = f
copy_sectors (suc n) raw_img img_data f =
    let img_data = read_mem raw_img img_data 0 sector_size in
    copy_sectors n (after_read raw_img sector_size) img_data (write f img_data 0 sector_size)

-- The same loop with no raw image.
unfoldable pub zero_sectors : ℕ → File → File
zero_sectors zero f = f
zero_sectors (suc n) f = zero_sectors n (write f (λ i. 0) 0 sector_size)

-- cleanup_vhdm, which leaves the new file open.
unfoldable pub drop_vhdm : M Created
drop_vhdm = do free; pure null

-- From the footer to the end: the image is written, closed and opened.
unfoldable pub finish : ℕ → Host → FilePath → Footer → File → M Created
finish fuel host path footer f = do
  fclose_written path (write f (of_list (footer_to_buffer footer)) 0 footer_size)
  free
  vhdm ← open_image fuel host path false
  pure (from_open vhdm)

abbrev put_footer : ℕ → Host → FilePath → Option Footer → File → M Created
put_footer fuel host path footer f = lift footer >>= λ footer. finish fuel host path footer f

unfoldable pub fill_fixed : ℕ → Host → FilePath → Option File → ℕ → Geom → File → M Created
fill_fixed fuel host path none size_in_bytes geom f =
    put_footer fuel host path (gen_footer host size_in_bytes geom type_fixed 0)
      (zero_sectors (u32 (size_in_bytes / sector_size)) f)
fill_fixed fuel host path (some raw_img) size_in_bytes geom f =
    if not (calc_size_bytes (calculate_geometry raw_img.size) == raw_img.size)
    then set_err (some err_conv_size) >> drop_vhdm
    else put_footer fuel host path (gen_footer host raw_img.size geom type_fixed 0)
        (copy_sectors (u32 (size_in_bytes / sector_size)) (seek_set raw_img 0) (λ i. 0) f)

abbrev fill_opened : ℕ → Host → FilePath → Option File → ℕ → Geom → Option File → M Created
fill_opened fuel host path raw_img size_in_bytes geom none = drop_vhdm
fill_opened fuel host path raw_img size_in_bytes geom (some f) =
    fill_fixed fuel host path raw_img size_in_bytes geom (seek_set f 0)

abbrev with_vhdm : ℕ → Host → FilePath → Option File → ℕ → Geom → Bool → M Created
with_vhdm fuel host path raw_img size_in_bytes geom got =
    if not got
    then return_null err_mem
    else fopen host path create_mode >>= fill_opened fuel host path raw_img size_in_bytes geom

unfoldable pub create_fixed_raw : ℕ → Host → FilePath → Option File → ℕ → Geom → M Created
create_fixed_raw fuel host path raw_img size_in_bytes geom =
    if no_geometry geom
    then return_null err_invalid_geom
    else calloc >>= with_vhdm fuel host path raw_img size_in_bytes geom

unfoldable pub create_fixed : ℕ → Host → FilePath → Geom → M Created
create_fixed fuel host path geom = create_fixed_raw fuel host path none (calc_size_bytes geom) geom
