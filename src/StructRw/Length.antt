-- ===== src/StructRw/Length.antt =====
-- The bytes of a footer fill its sector, and those of a header its two.
use mini_vhd.Prelude.{
  ℕ, ◌*◌, ◌^◌, ◌<◌, ◌≡◌, refl, ap, ◌∙◌, List, [], ◌∷◌, All, length, length-append, true, false,
  arith,
}
use mini_vhd.Layout.{Footer, FooterFits, ParLoc, ParLocFits, SparseHeader, HeaderFits}
use mini_vhd.StructRw.{
  put_bytes, put_number, put_par_loc, put_par_locs, footer_to_buffer, header_to_buffer,
}
use mini_vhd.StructRw.Fields.{
  length-store_le, put_bytes_lem, put_number_1, put_number_2, put_number_4, put_number_8,
}

length-put_bytes : (n : ℕ) (xs : List ℕ) → length xs ≡ n → length (put_bytes n xs) ≡ n
length-put_bytes n xs e = ap length (put_bytes_lem n xs e) ∙ e

length-put_number_1 : (v : ℕ) → v < 2 ^ 8 → length (put_number 1 false v) ≡ 1
length-put_number_1 v h = ap length (put_number_1 v h) ∙ length-store_le 1 v

length-put_number_2 : (v : ℕ) → v < 2 ^ 16 → length (put_number 2 true v) ≡ 2
length-put_number_2 v h = ap length (put_number_2 v h) ∙ length-store_le 2 _

length-put_number_4 : (v : ℕ) → v < 2 ^ 32 → length (put_number 4 true v) ≡ 4
length-put_number_4 v h = ap length (put_number_4 v h) ∙ length-store_le 4 _

length-put_number_8 : (v : ℕ) → v < 2 ^ 64 → length (put_number 8 true v) ≡ 8
length-put_number_8 v h = ap length (put_number_8 v h) ∙ length-store_le 8 _

pub length-footer_to_buffer : (f : Footer) → FooterFits f → length (footer_to_buffer f) ≡ 512
unfolding footer_to_buffer
length-footer_to_buffer f fits = simp (
  length-append,
  length-put_bytes 8 f.cookie fits.cookie_fits,
  length-put_number_4 f.features fits.features_fits,
  length-put_number_4 f.fi_fmt_vers fits.fi_fmt_vers_fits,
  length-put_number_8 f.data_offset fits.data_offset_fits,
  length-put_number_4 f.timestamp fits.timestamp_fits,
  length-put_bytes 4 f.cr_app fits.cr_app_fits,
  length-put_number_4 f.cr_vers fits.cr_vers_fits,
  length-put_bytes 4 f.cr_host_os fits.cr_host_os_fits,
  length-put_number_8 f.orig_sz fits.orig_sz_fits,
  length-put_number_8 f.curr_sz fits.curr_sz_fits,
  length-put_number_2 f.geom.cyl fits.geom_fits.cyl_fits,
  length-put_number_1 f.geom.heads fits.geom_fits.heads_fits,
  length-put_number_1 f.geom.spt fits.geom_fits.spt_fits,
  length-put_number_4 f.disk_type fits.disk_type_fits,
  length-put_number_4 f.checksum fits.checksum_fits,
  length-put_bytes 16 f.uuid fits.uuid_fits,
  length-put_number_1 f.saved_st fits.saved_st_fits,
  length-put_bytes 427 f.reserved fits.reserved_fits,
)

length-put_par_loc : (p : ParLoc) → ParLocFits p → length (put_par_loc p) ≡ 24
unfolding put_par_loc
length-put_par_loc p fits = simp (
  length-append,
  length-put_number_4 p.plat_code fits.plat_code_fits,
  length-put_number_4 p.plat_data_space fits.plat_data_space_fits,
  length-put_number_4 p.plat_data_len fits.plat_data_len_fits,
  length-put_number_4 p.reserved fits.reserved_fits,
  length-put_number_8 p.plat_data_offset fits.plat_data_offset_fits,
)

length-put_par_locs :
    (ps : List ParLoc) → All ParLocFits ps → length (put_par_locs ps) ≡ length ps * 24
unfolding put_par_locs
length-put_par_locs [] fits = refl
length-put_par_locs (p ∷ ps) (fit, fits) = omega (
  arith,
  length-append {0} (put_par_loc p) (put_par_locs ps),
  length-put_par_loc p fit,
  length-put_par_locs ps fits,
)

pub length-header_to_buffer : (h : SparseHeader) → HeaderFits h → length (header_to_buffer h) ≡ 1024
unfolding header_to_buffer
length-header_to_buffer h fits =
    let locators : length (put_par_locs h.par_loc_entry) ≡ 192 =
      length-put_par_locs h.par_loc_entry fits.par_loc_fits ∙ ap (λ n. n * 24) fits.par_loc_count in
    simp (
      length-append,
      length-put_bytes 8 h.cookie fits.cookie_fits,
      length-put_number_8 h.data_offset fits.data_offset_fits,
      length-put_number_8 h.bat_offset fits.bat_offset_fits,
      length-put_number_4 h.head_vers fits.head_vers_fits,
      length-put_number_4 h.max_bat_ent fits.max_bat_ent_fits,
      length-put_number_4 h.block_sz fits.block_sz_fits,
      length-put_number_4 h.checksum fits.checksum_fits,
      length-put_bytes 16 h.par_uuid fits.par_uuid_fits,
      length-put_number_4 h.par_timestamp fits.par_timestamp_fits,
      length-put_number_4 h.reserved_1 fits.reserved_1_fits,
      length-put_bytes 512 h.par_utf16_name fits.par_utf16_name_fits,
      locators,
      length-put_bytes 256 h.reserved_2 fits.reserved_2_fits,
    )
