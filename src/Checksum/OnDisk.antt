-- ===== src/Checksum/OnDisk.antt =====
-- The checksums as the VHD format states them, over the bytes of the file.
use mini_vhd.Prelude.{
  ℕ, ◌+◌, ◌*◌, ◌-◌, ◌^◌, ◌≤◌, ◌<◌, ◌≡◌, ◌↔◌, refl, sym, ap, ◌∙◌, arith, u32, true, ◌==◌,
}
use mini_vhd.Prelude.{List, [], ◌∷◌, length, take, drop, All, IsByte, take-append-drop, drop-drop}
use mini_vhd.Endian.{store_le, load_le}
use mini_vhd.Endian.RoundTrip.{be32, from_be32_bytes}
use mini_vhd.Layout.{Footer, SparseHeader, ParLoc, FooterFits, HeaderFits, ParLocFits}
use mini_vhd.StructRw.{
  number, put_number, put_par_loc, put_par_locs, buffer_to_footer, footer_to_buffer,
  buffer_to_header, header_to_buffer, next_buffer_to_struct,
}
use mini_vhd.StructRw.Fields.{rest_bytes, rest_number, int_field}
use mini_vhd.StructRw.Restore.{
  IsBuffer, footer_to_buffer-buffer_to_footer, header_to_buffer-buffer_to_header,
}
use mini_vhd.StructRw.InRange.{buffer_to_footer-Fits, buffer_to_header-Fits}
use mini_vhd.Checksum.{footer_bytes, sparse_bytes, par_loc_bytes, add_bytes}
use mini_vhd.Checksum.{
  gen_footer_checksum, gen_sparse_checksum, footer_checksum_valid, sparse_checksum_valid,
}
use mini_vhd.StructRw.Restore.{IsBuffer-drop}
use mini_vhd.Checksum.Sums.{
  sum, sum-append, sum-le, sum-put_1, sum-put_2, sum-put_4, sum-put_8, sum-put_bytes,
}

-- The struct in memory and the sectors on disk have the same sum.
sum-footer : (f : Footer) → FooterFits f → sum (footer_to_buffer f) ≡ sum (footer_bytes f)
unfolding footer_to_buffer footer_bytes
sum-footer f fits = simp sum-append (
    omega (
      arith,
      sum-put_bytes 8 f.cookie fits.cookie_fits,
      sum-put_4 f.features fits.features_fits,
      sum-put_4 f.fi_fmt_vers fits.fi_fmt_vers_fits,
      sum-put_8 f.data_offset fits.data_offset_fits,
      sum-put_4 f.timestamp fits.timestamp_fits,
      sum-put_bytes 4 f.cr_app fits.cr_app_fits,
      sum-put_4 f.cr_vers fits.cr_vers_fits,
      sum-put_bytes 4 f.cr_host_os fits.cr_host_os_fits,
      sum-put_8 f.orig_sz fits.orig_sz_fits,
      sum-put_8 f.curr_sz fits.curr_sz_fits,
      sum-put_2 f.geom.cyl fits.geom_fits.cyl_fits,
      sum-put_1 f.geom.heads fits.geom_fits.heads_fits,
      sum-put_1 f.geom.spt fits.geom_fits.spt_fits,
      sum-put_4 f.disk_type fits.disk_type_fits,
      sum-put_4 f.checksum fits.checksum_fits,
      sum-put_bytes 16 f.uuid fits.uuid_fits,
      sum-put_1 f.saved_st fits.saved_st_fits,
      sum-put_bytes 427 f.reserved fits.reserved_fits,
    ))

sum-par_locs :
    (ps : List ParLoc) → All ParLocFits ps → sum (put_par_locs ps) ≡ sum (par_loc_bytes ps)
unfolding put_par_locs put_par_loc par_loc_bytes
sum-par_locs [] fits = refl
sum-par_locs (p ∷ ps) (fit, fits) = simp sum-append (
    omega (
      arith,
      sum-put_4 p.plat_code fit.plat_code_fits,
      sum-put_4 p.plat_data_space fit.plat_data_space_fits,
      sum-put_4 p.plat_data_len fit.plat_data_len_fits,
      sum-put_4 p.reserved fit.reserved_fits,
      sum-put_8 p.plat_data_offset fit.plat_data_offset_fits,
      sum-par_locs ps fits,
    ))

sum-header : (h : SparseHeader) → HeaderFits h → sum (header_to_buffer h) ≡ sum (sparse_bytes h)
unfolding header_to_buffer sparse_bytes
sum-header h fits = simp sum-append (
    omega (
      arith,
      sum-put_bytes 8 h.cookie fits.cookie_fits,
      sum-put_8 h.data_offset fits.data_offset_fits,
      sum-put_8 h.bat_offset fits.bat_offset_fits,
      sum-put_4 h.head_vers fits.head_vers_fits,
      sum-put_4 h.max_bat_ent fits.max_bat_ent_fits,
      sum-put_4 h.block_sz fits.block_sz_fits,
      sum-put_4 h.checksum fits.checksum_fits,
      sum-put_bytes 16 h.par_uuid fits.par_uuid_fits,
      sum-put_4 h.par_timestamp fits.par_timestamp_fits,
      sum-put_4 h.reserved_1 fits.reserved_1_fits,
      sum-put_bytes 512 h.par_utf16_name fits.par_utf16_name_fits,
      sum-par_locs h.par_loc_entry fits.par_loc_fits,
      sum-put_bytes 256 h.reserved_2 fits.reserved_2_fits,
    ))

-- The sum without the field, and the field's own share.
split_footer :
    (f : Footer)
    → sum (footer_bytes f)
      ≡ sum (footer_bytes (record f { checksum = 0 })) + sum (store_le 4 f.checksum)
unfolding footer_bytes store_le
split_footer f = simp sum-append (omega arith)

split_header :
    (h : SparseHeader)
    → sum (sparse_bytes h)
      ≡ sum (sparse_bytes (record h { checksum = 0 })) + sum (store_le 4 h.checksum)
unfolding sparse_bytes store_le
split_header h = simp sum-append (omega arith)

-- Where the fields stand in the sectors.
checksum_place : (b : List ℕ) → (buffer_to_footer b).checksum ≡ (number 4 true (drop 64 b)).0
unfolding buffer_to_footer
checksum_place b = simp (rest_bytes, rest_number, drop-drop) refl

sparse_checksum_place : (b : List ℕ) → (buffer_to_header b).checksum ≡ (number 4 true (drop 36 b)).0
unfolding buffer_to_header
sparse_checksum_place b = simp (rest_bytes, rest_number, drop-drop) refl

-- The big-endian word at the front of a buffer.
abbrev pub be_word : List ℕ → ℕ
be_word (b0 ∷ b1 ∷ b2 ∷ b3 ∷ bs) = be32 b0 b1 b2 b3
be_word _ = 0

number-eq-be_word : (d : List ℕ) → 4 ≤ length d → All IsByte d → (number 4 true d).0 ≡ be_word d
unfolding number next_buffer_to_struct store_le load_le
number-eq-be_word [] h bs = absurd (omega arith)
number-eq-be_word (b0 ∷ []) h bs = absurd (omega arith)
number-eq-be_word (b0 ∷ b1 ∷ []) h bs = absurd (omega arith)
number-eq-be_word (b0 ∷ b1 ∷ b2 ∷ []) h bs = absurd (omega arith)
number-eq-be_word (b0 ∷ b1 ∷ b2 ∷ b3 ∷ d) h (h0, (h1, (h2, (h3, bs)))) =
    omega (arith, from_be32_bytes (load_le (b0 ∷ b1 ∷ b2 ∷ b3 ∷ [])))

-- Everything but the four bytes at `place`.
abbrev pub sum_without : ℕ → List ℕ → ℕ
sum_without place b = sum (take place b) + sum (drop (place + 4) b)

sum_split :
    (place m : ℕ) (b : List ℕ)
    → IsBuffer (place + (4 + m)) b
    → sum b ≡ sum_without place b + sum (store_le 4 (number 4 true (drop place b)).0)
sum_split place m b h =
    let d = drop place b in
    let (len, bs) = IsBuffer-drop place (4 + m) b h in
    let value = (number 4 true d).0 in
    let small : value < 2 ^ 32 = int_field.in_range d (omega arith) bs in
    omega (
      arith,
      ap sum (take-append-drop place b),
      sum-append (take place b) d,
      ap sum (int_field.write_back d (omega arith) bs),
      sum-append (put_number 4 true value) (drop 4 d),
      sum-put_4 value small,
      ap sum (drop-drop 4 place b),
    )

-- `sum` modulo 2 ^ 32 is what the loop leaves.
add_bytes_wraps : (acc : ℕ) (bs : List ℕ) → acc < 2 ^ 32 → add_bytes acc bs ≡ u32 (acc + sum bs)
unfolding add_bytes
add_bytes_wraps acc [] h = omega arith
add_bytes_wraps acc (b ∷ bs) h = omega (arith, add_bytes_wraps (u32 (acc + b)) bs (omega arith))

sum_without-le : (place n : ℕ) (b : List ℕ) → IsBuffer n b → sum_without place b ≤ 255 * n
sum_without-le place n b (len, bs) = omega (
  arith,
  sum-le b bs,
  ap sum (take-append-drop place b),
  sum-append (take place b) (drop place b),
  ap sum (take-append-drop 4 (drop place b)),
  sum-append (take 4 (drop place b)) (drop 4 (drop place b)),
  ap sum (drop-drop 4 place b),
)

gen_footer_checksum_lem :
    (b : List ℕ)
    → IsBuffer 512 b
    → gen_footer_checksum (buffer_to_footer b) ≡ 2 ^ 32 - 1 - sum_without 64 b
unfolding gen_footer_checksum
gen_footer_checksum_lem b h =
    let f = buffer_to_footer b in
    let whole : sum (footer_bytes f) ≡ sum b =
      sym (sum-footer f (buffer_to_footer-Fits b h))
      ∙ ap sum (footer_to_buffer-buffer_to_footer b h) in
    omega (
      arith,
      whole,
      split_footer f,
      ap (λ (c : ℕ). sum (store_le 4 c)) (checksum_place b),
      sum_split 64 444 b h,
      sum_without-le 64 512 b h,
      add_bytes_wraps 0 (footer_bytes (record f { checksum = 0 })) (omega arith),
    )

gen_sparse_checksum_lem :
    (b : List ℕ)
    → IsBuffer 1024 b
    → gen_sparse_checksum (buffer_to_header b) ≡ 2 ^ 32 - 1 - sum_without 36 b
unfolding gen_sparse_checksum
gen_sparse_checksum_lem b h =
    let f = buffer_to_header b in
    let whole : sum (sparse_bytes f) ≡ sum b =
      sym (sum-header f (buffer_to_header-Fits b h))
      ∙ ap sum (header_to_buffer-buffer_to_header b h) in
    omega (
      arith,
      whole,
      split_header f,
      ap (λ (c : ℕ). sum (store_le 4 c)) (sparse_checksum_place b),
      sum_split 36 984 b h,
      sum_without-le 36 1024 b h,
      add_bytes_wraps 0 (sparse_bytes (record f { checksum = 0 })) (omega arith),
    )

complement_iff :
    (stored gen rest word : ℕ)
    → gen ≡ 2 ^ 32 - 1 - rest
    → stored ≡ word
    → rest ≤ 2 ^ 32 - 1
    → ((stored == gen) ≡ true) ↔ (word + rest ≡ 2 ^ 32 - 1)
complement_iff stored gen rest word g w h = ground arith

-- A footer sector is accepted exactly when its big-endian checksum word, at byte 64, and the sum of
-- its other 508 bytes make up 2 ^ 32 - 1: the checksum is the ones' complement of that sum.
pub footer_accepted_iff :
    (b : List ℕ)
    → IsBuffer 512 b
    → (footer_checksum_valid (buffer_to_footer b) ≡ true)
      ↔ (be_word (drop 64 b) + sum_without 64 b ≡ 2 ^ 32 - 1)
unfolding footer_checksum_valid
footer_accepted_iff b h =
    let (len, bs) = IsBuffer-drop 64 448 b h in
    complement_iff _ _ (sum_without 64 b) (be_word (drop 64 b)) (gen_footer_checksum_lem b h)
      (checksum_place b ∙ number-eq-be_word (drop 64 b) (omega arith) bs)
      (omega (arith, sum_without-le 64 512 b h))

-- A sparse header is accepted exactly when its checksum word, at byte 36, and the sum of its other
-- 1020 bytes make up 2 ^ 32 - 1.
pub header_accepted_iff :
    (b : List ℕ)
    → IsBuffer 1024 b
    → (sparse_checksum_valid (buffer_to_header b) ≡ true)
      ↔ (be_word (drop 36 b) + sum_without 36 b ≡ 2 ^ 32 - 1)
unfolding sparse_checksum_valid
header_accepted_iff b h =
    let (len, bs) = IsBuffer-drop 36 988 b h in
    complement_iff _ _ (sum_without 36 b) (be_word (drop 36 b)) (gen_sparse_checksum_lem b h)
      (sparse_checksum_place b ∙ number-eq-be_word (drop 36 b) (omega arith) bs)
      (omega (arith, sum_without-le 36 1024 b h))
