-- ===== src/StructRw/InRange.antt =====
-- What the library reads from a buffer fits the C types of the structure.
use mini_vhd.Prelude.{ℕ, zero, suc, ◌+◌, ◌*◌, ◌≡◌, refl, ap, arith}
use mini_vhd.Prelude.{List, length, All, length-take}
use mini_vhd.Layout.{FooterFits, ParLocFits, HeaderFits}
use mini_vhd.StructRw.{bytes, next_buffer_to_struct}
use mini_vhd.StructRw.{buffer_to_footer, read_par_loc, read_par_locs, buffer_to_header}
use mini_vhd.StructRw.Fields.{byte_field, short_field, int_field, long_field}
use mini_vhd.StructRw.Restore.{IsBuffer, through_bytes, through, through_par_loc, through_par_locs}

bytes-length : (n m : ℕ) (b : List ℕ) → IsBuffer (n + m) b → length (bytes n b).0 ≡ n
unfolding bytes next_buffer_to_struct
bytes-length n m b h = omega (arith, length-take n b)

par_loc_fits : (m : ℕ) (b : List ℕ) → IsBuffer (24 + m) b → ParLocFits (read_par_loc b).0
unfolding read_par_loc
par_loc_fits m b h =
    let s0 = through int_field (20 + m) _ (omega arith, h.1) in
    let s1 = through int_field (16 + m) _ (omega arith, s0.1.1) in
    let s2 = through int_field (12 + m) _ (omega arith, s1.1.1) in
    let s3 = through int_field (8 + m) _ (omega arith, s2.1.1) in
    record {
      plat_code_fits = int_field.in_range _ (omega arith) h.1;
      plat_data_space_fits = int_field.in_range _ (omega arith) s0.1.1;
      plat_data_len_fits = int_field.in_range _ (omega arith) s1.1.1;
      reserved_fits = int_field.in_range _ (omega arith) s2.1.1;
      plat_data_offset_fits = long_field.in_range _ (omega arith) s3.1.1;
    }

par_locs_fit :
    (n m : ℕ) (b : List ℕ)
    → IsBuffer (n * 24 + m) b
    → (length (read_par_locs n b).0 ≡ n) × All ParLocFits (read_par_locs n b).0
unfolding read_par_locs
par_locs_fit zero m b h = (refl, tt)
par_locs_fit (suc n) m b h =
    let h' : IsBuffer (24 + (n * 24 + m)) b = (omega arith, h.1) in
    let s1 = through_par_loc (n * 24 + m) b h' in
    let rest = par_locs_fit n m _ s1.1 in (ap suc rest.0, (par_loc_fits (n * 24 + m) b h', rest.1))

pub buffer_to_footer-Fits : (b : List ℕ) → IsBuffer 512 b → FooterFits (buffer_to_footer b)
unfolding buffer_to_footer
buffer_to_footer-Fits b h =
    let s0 = through_bytes 8 504 _ h in
    let s1 = through int_field 500 _ s0.1 in
    let s2 = through int_field 496 _ s1.1 in
    let s3 = through long_field 488 _ s2.1 in
    let s4 = through int_field 484 _ s3.1 in
    let s5 = through_bytes 4 480 _ s4.1 in
    let s6 = through int_field 476 _ s5.1 in
    let s7 = through_bytes 4 472 _ s6.1 in
    let s8 = through long_field 464 _ s7.1 in
    let s9 = through long_field 456 _ s8.1 in
    let s10 = through short_field 454 _ s9.1 in
    let s11 = through byte_field 453 _ s10.1 in
    let s12 = through byte_field 452 _ s11.1 in
    let s13 = through int_field 448 _ s12.1 in
    let s14 = through int_field 444 _ s13.1 in
    let s15 = through_bytes 16 428 _ s14.1 in
    let s16 = through byte_field 427 _ s15.1 in
    record {
      cookie_fits = bytes-length 8 504 _ h;
      features_fits = int_field.in_range _ (omega arith) s0.1.1;
      fi_fmt_vers_fits = int_field.in_range _ (omega arith) s1.1.1;
      data_offset_fits = long_field.in_range _ (omega arith) s2.1.1;
      timestamp_fits = int_field.in_range _ (omega arith) s3.1.1;
      cr_app_fits = bytes-length 4 480 _ s4.1;
      cr_vers_fits = int_field.in_range _ (omega arith) s5.1.1;
      cr_host_os_fits = bytes-length 4 472 _ s6.1;
      orig_sz_fits = long_field.in_range _ (omega arith) s7.1.1;
      curr_sz_fits = long_field.in_range _ (omega arith) s8.1.1;
      geom_fits = record {
        cyl_fits = short_field.in_range _ (omega arith) s9.1.1;
        heads_fits = byte_field.in_range _ (omega arith) s10.1.1;
        spt_fits = byte_field.in_range _ (omega arith) s11.1.1;
      };
      disk_type_fits = int_field.in_range _ (omega arith) s12.1.1;
      checksum_fits = int_field.in_range _ (omega arith) s13.1.1;
      uuid_fits = bytes-length 16 428 _ s14.1;
      saved_st_fits = byte_field.in_range _ (omega arith) s15.1.1;
      reserved_fits = bytes-length 427 0 _ s16.1;
    }

pub buffer_to_header-Fits : (b : List ℕ) → IsBuffer 1024 b → HeaderFits (buffer_to_header b)
unfolding buffer_to_header
buffer_to_header-Fits b h =
    let s0 = through_bytes 8 1016 _ h in
    let s1 = through long_field 1008 _ s0.1 in
    let s2 = through long_field 1000 _ s1.1 in
    let s3 = through int_field 996 _ s2.1 in
    let s4 = through int_field 992 _ s3.1 in
    let s5 = through int_field 988 _ s4.1 in
    let s6 = through int_field 984 _ s5.1 in
    let s7 = through_bytes 16 968 _ s6.1 in
    let s8 = through int_field 964 _ s7.1 in
    let s9 = through int_field 960 _ s8.1 in
    let s10 = through_bytes 512 448 _ s9.1 in
    let s11 = through_par_locs 8 256 _ s10.1 in
    record {
      cookie_fits = bytes-length 8 1016 _ h;
      data_offset_fits = long_field.in_range _ (omega arith) s0.1.1;
      bat_offset_fits = long_field.in_range _ (omega arith) s1.1.1;
      head_vers_fits = int_field.in_range _ (omega arith) s2.1.1;
      max_bat_ent_fits = int_field.in_range _ (omega arith) s3.1.1;
      block_sz_fits = int_field.in_range _ (omega arith) s4.1.1;
      checksum_fits = int_field.in_range _ (omega arith) s5.1.1;
      par_uuid_fits = bytes-length 16 968 _ s6.1;
      par_timestamp_fits = int_field.in_range _ (omega arith) s7.1.1;
      reserved_1_fits = int_field.in_range _ (omega arith) s8.1.1;
      par_utf16_name_fits = bytes-length 512 448 _ s9.1;
      par_loc_count = (par_locs_fit 8 256 _ s10.1).0;
      par_loc_fits = (par_locs_fit 8 256 _ s10.1).1;
      reserved_2_fits = bytes-length 256 0 _ s11.1;
    }
