-- ===== src/StructRw/RoundTrip.antt =====
-- What the library writes as a footer or a header is what it reads back.
use mini_vhd.Prelude.{ℕ, zero, suc, ◌≡◌, refl, arith}
use mini_vhd.Prelude.{List, [], ◌∷◌, ◌++◌, length, All}
use mini_vhd.Prelude.{append_assoc}
use mini_vhd.Layout.{Footer, ParLoc, SparseHeader, FooterFits, ParLocFits, HeaderFits}
use mini_vhd.StructRw.{buffer_to_footer, footer_to_buffer}
use mini_vhd.StructRw.{read_par_loc, read_par_locs, put_par_loc, put_par_locs}
use mini_vhd.StructRw.{buffer_to_header, header_to_buffer}
use mini_vhd.StructRw.Fields.{
  read_bytes, read_bytes_last, byte_field, short_field, int_field, long_field,
}

-- Reading the bytes written for a footer gives the footer back, field by field, if its fields fit.
pub buffer_to_footer-footer_to_buffer :
    (f : Footer) → FooterFits f → buffer_to_footer (footer_to_buffer f) ≡ f
unfolding buffer_to_footer footer_to_buffer
buffer_to_footer-footer_to_buffer f fits =
    rw
      (
        read_bytes 8 f.cookie _ fits.cookie_fits,
        int_field.read_back f.features _ fits.features_fits,
        int_field.read_back f.fi_fmt_vers _ fits.fi_fmt_vers_fits,
        long_field.read_back f.data_offset _ fits.data_offset_fits,
        int_field.read_back f.timestamp _ fits.timestamp_fits,
        read_bytes 4 f.cr_app _ fits.cr_app_fits,
        int_field.read_back f.cr_vers _ fits.cr_vers_fits,
        read_bytes 4 f.cr_host_os _ fits.cr_host_os_fits,
        long_field.read_back f.orig_sz _ fits.orig_sz_fits,
        long_field.read_back f.curr_sz _ fits.curr_sz_fits,
        short_field.read_back f.geom.cyl _ fits.geom_fits.cyl_fits,
        byte_field.read_back f.geom.heads _ fits.geom_fits.heads_fits,
        byte_field.read_back f.geom.spt _ fits.geom_fits.spt_fits,
        int_field.read_back f.disk_type _ fits.disk_type_fits,
        int_field.read_back f.checksum _ fits.checksum_fits,
        read_bytes 16 f.uuid _ fits.uuid_fits,
        byte_field.read_back f.saved_st _ fits.saved_st_fits,
        read_bytes_last 427 f.reserved fits.reserved_fits,
      )
      refl

read_par_loc_back :
    (p : ParLoc) (rest : List ℕ) → ParLocFits p → read_par_loc (put_par_loc p ++ rest) ≡ (p, rest)
unfolding read_par_loc put_par_loc
read_par_loc_back p rest fits =
    rw
      (
        append_assoc,
        append_assoc,
        append_assoc,
        append_assoc,
        int_field.read_back p.plat_code _ fits.plat_code_fits,
        int_field.read_back p.plat_data_space _ fits.plat_data_space_fits,
        int_field.read_back p.plat_data_len _ fits.plat_data_len_fits,
        int_field.read_back p.reserved _ fits.reserved_fits,
        long_field.read_back p.plat_data_offset _ fits.plat_data_offset_fits,
      )
      refl

read_par_locs_back :
    (n : ℕ) (ps : List ParLoc) (rest : List ℕ)
    → length ps ≡ n
    → All ParLocFits ps
    → read_par_locs n (put_par_locs ps ++ rest) ≡ (ps, rest)
unfolding read_par_locs put_par_locs
read_par_locs_back zero [] rest e fits = refl
read_par_locs_back zero (p ∷ ps) rest e fits = absurd (omega arith)
read_par_locs_back (suc n) [] rest e fits = absurd (omega arith)
read_par_locs_back (suc n) (p ∷ ps) rest e (fit, fits) =
    rw
      (
        append_assoc,
        read_par_loc_back p (put_par_locs ps ++ rest) fit,
        read_par_locs_back n ps rest (omega arith) fits,
      )
      refl

-- Reading the bytes written for a sparse header gives the header back, the eight parent locators
-- included, if its fields fit.
pub buffer_to_header-header_to_buffer :
    (h : SparseHeader) → HeaderFits h → buffer_to_header (header_to_buffer h) ≡ h
unfolding buffer_to_header header_to_buffer
buffer_to_header-header_to_buffer h fits =
    rw
      (
        read_bytes 8 h.cookie _ fits.cookie_fits,
        long_field.read_back h.data_offset _ fits.data_offset_fits,
        long_field.read_back h.bat_offset _ fits.bat_offset_fits,
        int_field.read_back h.head_vers _ fits.head_vers_fits,
        int_field.read_back h.max_bat_ent _ fits.max_bat_ent_fits,
        int_field.read_back h.block_sz _ fits.block_sz_fits,
        int_field.read_back h.checksum _ fits.checksum_fits,
        read_bytes 16 h.par_uuid _ fits.par_uuid_fits,
        int_field.read_back h.par_timestamp _ fits.par_timestamp_fits,
        int_field.read_back h.reserved_1 _ fits.reserved_1_fits,
        read_bytes 512 h.par_utf16_name _ fits.par_utf16_name_fits,
        read_par_locs_back 8 h.par_loc_entry _ fits.par_loc_count fits.par_loc_fits,
        read_bytes_last 256 h.reserved_2 fits.reserved_2_fits,
      )
      refl
