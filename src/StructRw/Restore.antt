-- ===== src/StructRw/Restore.antt =====
-- A footer or a header that the library reads and writes again keeps every byte of the file.
use mini_vhd.Prelude.{ℕ, zero, suc, ◌+◌, ◌*◌, ◌≡◌, refl, arith, Bool}
use mini_vhd.Prelude.{List, ◌++◌, length, All, IsByte, drop}
use mini_vhd.Prelude.{append_assoc, length-drop, All-drop}
use mini_vhd.StructRw.{bytes, number, put_bytes, put_number}
use mini_vhd.StructRw.{buffer_to_footer, footer_to_buffer}
use mini_vhd.StructRw.{read_par_loc, read_par_locs, put_par_loc, put_par_locs}
use mini_vhd.StructRw.{buffer_to_header, header_to_buffer}
use mini_vhd.StructRw.Fields.{
  IsMember, byte_field, short_field, int_field, long_field, rest_bytes, rest_number,
}
use mini_vhd.StructRw.Fields.{write_back_bytes, write_back_last}

-- A buffer of `m` bytes.
abbrev pub IsBuffer : ℕ → List ℕ → Type 0
IsBuffer m b = (length b ≡ m) × All IsByte b

-- Past `n` of them.
pub IsBuffer-drop : (n m : ℕ) (b : List ℕ) → IsBuffer (n + m) b → IsBuffer m (drop n b)
IsBuffer-drop n m b (e, bs) = (omega (arith, length-drop n b), All-drop IsByte n b bs)

last_bytes : (n : ℕ) (b : List ℕ) → IsBuffer n b → put_bytes n (bytes n b).0 ≡ b
last_bytes n b h = write_back_last n b h.0

pub through_bytes :
    (n m : ℕ) (b : List ℕ)
    → IsBuffer (n + m) b
    → (put_bytes n (bytes n b).0 ++ (bytes n b).1 ≡ b) × IsBuffer m (bytes n b).1
through_bytes n m b h =
    (rw (rest_bytes n b) (write_back_bytes n b), rw (rest_bytes n b) (IsBuffer-drop n m b h))

pub through :
    {n : ℕ} {req_endian : Bool}
    → IsMember n req_endian
    → (m : ℕ) (b : List ℕ) → IsBuffer (n + m) b
    → (put_number n req_endian (number n req_endian b).0 ++ (number n req_endian b).1 ≡ b)
      × IsBuffer m (number n req_endian b).1
through {n} {req_endian} member m b h = (
  rw (rest_number n req_endian b) (member.write_back b (omega arith) h.1),
  rw (rest_number n req_endian b) (IsBuffer-drop n m b h),
)

-- One parent locator, 24 bytes.
pub through_par_loc :
    (m : ℕ) (b : List ℕ)
    → IsBuffer (24 + m) b
    → (put_par_loc (read_par_loc b).0 ++ (read_par_loc b).1 ≡ b) × IsBuffer m (read_par_loc b).1
unfolding put_par_loc read_par_loc
through_par_loc m b h =
    let s1 = through int_field (20 + m) b (omega arith, h.1) in
    let s2 = through int_field (16 + m) _ (omega arith, s1.1.1) in
    let s3 = through int_field (12 + m) _ (omega arith, s2.1.1) in
    let s4 = through int_field (8 + m) _ (omega arith, s3.1.1) in
    let s5 = through long_field m _ s4.1 in
    (
      rw (append_assoc, append_assoc, append_assoc, append_assoc, s5.0, s4.0, s3.0, s2.0, s1.0)
          refl,
      s5.1,
    )

pub through_par_locs :
    (n m : ℕ) (b : List ℕ)
    → IsBuffer (n * 24 + m) b
    → (put_par_locs (read_par_locs n b).0 ++ (read_par_locs n b).1 ≡ b)
      × IsBuffer m (read_par_locs n b).1
unfolding put_par_locs read_par_locs
through_par_locs zero m b h = (refl, (omega arith, h.1))
through_par_locs (suc n) m b h =
    let s1 = through_par_loc (n * 24 + m) b (omega arith, h.1) in
    let s2 = through_par_locs n m _ s1.1 in (rw (append_assoc, s2.0, s1.0) refl, s2.1)

-- Writing the footer that was read from any 512 bytes gives those bytes back.
pub footer_to_buffer-buffer_to_footer :
    (b : List ℕ) → IsBuffer 512 b → footer_to_buffer (buffer_to_footer b) ≡ b
unfolding buffer_to_footer footer_to_buffer
footer_to_buffer-buffer_to_footer b h =
    let s1 = through_bytes 8 504 _ h in
    let s2 = through int_field 500 _ s1.1 in
    let s3 = through int_field 496 _ s2.1 in
    let s4 = through long_field 488 _ s3.1 in
    let s5 = through int_field 484 _ s4.1 in
    let s6 = through_bytes 4 480 _ s5.1 in
    let s7 = through int_field 476 _ s6.1 in
    let s8 = through_bytes 4 472 _ s7.1 in
    let s9 = through long_field 464 _ s8.1 in
    let s10 = through long_field 456 _ s9.1 in
    let s11 = through short_field 454 _ s10.1 in
    let s12 = through byte_field 453 _ s11.1 in
    let s13 = through byte_field 452 _ s12.1 in
    let s14 = through int_field 448 _ s13.1 in
    let s15 = through int_field 444 _ s14.1 in
    let s16 = through_bytes 16 428 _ s15.1 in
    let s17 = through byte_field 427 _ s16.1 in
    rw
      (
        last_bytes 427 _ s17.1,
        s17.0,
        s16.0,
        s15.0,
        s14.0,
        s13.0,
        s12.0,
        s11.0,
        s10.0,
        s9.0,
        s8.0,
        s7.0,
        s6.0,
        s5.0,
        s4.0,
        s3.0,
        s2.0,
        s1.0,
      )
      refl

-- Writing the sparse header that was read from any 1024 bytes gives those bytes back.
pub header_to_buffer-buffer_to_header :
    (b : List ℕ) → IsBuffer 1024 b → header_to_buffer (buffer_to_header b) ≡ b
unfolding buffer_to_header header_to_buffer
header_to_buffer-buffer_to_header b h =
    let s1 = through_bytes 8 1016 _ h in
    let s2 = through long_field 1008 _ s1.1 in
    let s3 = through long_field 1000 _ s2.1 in
    let s4 = through int_field 996 _ s3.1 in
    let s5 = through int_field 992 _ s4.1 in
    let s6 = through int_field 988 _ s5.1 in
    let s7 = through int_field 984 _ s6.1 in
    let s8 = through_bytes 16 968 _ s7.1 in
    let s9 = through int_field 964 _ s8.1 in
    let s10 = through int_field 960 _ s9.1 in
    let s11 = through_bytes 512 448 _ s10.1 in
    let s12 = through_par_locs 8 256 _ s11.1 in
    rw
      (
        last_bytes 256 _ s12.1,
        s12.0,
        s11.0,
        s10.0,
        s9.0,
        s8.0,
        s7.0,
        s6.0,
        s5.0,
        s4.0,
        s3.0,
        s2.0,
        s1.0,
      )
      refl
