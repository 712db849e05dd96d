-- ===== src/StructRw/Fields.antt =====
-- One member at a time: what is written is read back, and what is read is written back.
use mini_vhd.Prelude.{ℕ, zero, suc, ◌+◌, ◌*◌, ◌/◌, ◌%◌, ◌^◌, ◌<◌, ◌≤◌, ◌≡◌, refl, ap, arith}
use mini_vhd.Prelude.{Bool, true, false, List, [], ◌∷◌, ◌++◌, take, drop, length, All, IsByte}
use mini_vhd.Prelude.{take-append, drop-append, take-append-drop, length-take, All-take}
use mini_vhd.Endian.{store_le, load_le, from_be16, from_be32, from_be64, to_be16, to_be32, to_be64}
use mini_vhd.Endian.RoundTrip.{be16_inverse, be32_inverse, be64_inverse}
use mini_vhd.StructRw.{bytes, number, put_bytes, put_number}
use mini_vhd.StructRw.{next_buffer_to_struct, next_struct_to_buffer}
use native.Mathlib.Nat.{pow-suc}

take_all : (n : ℕ) (xs : List ℕ) → length xs ≡ n → take n xs ≡ xs
take_all zero [] e = refl
take_all zero (x ∷ xs) e = absurd (omega arith)
take_all (suc n) [] e = refl
take_all (suc n) (x ∷ xs) e = rw (take_all n xs (omega arith))

pub length-store_le : (n v : ℕ) → length (store_le n v) ≡ n
unfolding store_le
length-store_le zero v = refl
length-store_le (suc n) v = ap suc (length-store_le n (v / 256))

pub store_le-bytes : (n v : ℕ) → All IsByte (store_le n v)
unfolding store_le
store_le-bytes zero v = tt
store_le-bytes (suc n) v = (omega arith, store_le-bytes n (v / 256))

pub load_le-store_le : (n v : ℕ) → v < 256 ^ n → load_le (store_le n v) ≡ v
unfolding store_le load_le
load_le-store_le zero v h = omega arith
load_le-store_le (suc n) v h =
    omega (arith, load_le-store_le n (v / 256) (omega (arith, pow-suc 256 n)))

store_le-load_le :
    (n : ℕ) (bs : List ℕ) → length bs ≡ n → All IsByte bs → store_le n (load_le bs) ≡ bs
unfolding store_le load_le
store_le-load_le zero [] e h = refl
store_le-load_le zero (b ∷ bs) e h = absurd (omega arith)
store_le-load_le (suc n) [] e h = absurd (omega arith)
store_le-load_le (suc n) (b ∷ bs) e (hb, h) =
    let low : (b + 256 * load_le bs) % 256 ≡ b = omega arith in
    let high : (b + 256 * load_le bs) / 256 ≡ load_le bs = omega arith in
    rw (low, high, store_le-load_le n bs (omega arith) h)

load_le-lt : (n : ℕ) (bs : List ℕ) → length bs ≡ n → All IsByte bs → load_le bs < 256 ^ n
unfolding load_le
load_le-lt zero [] e h = omega arith
load_le-lt zero (b ∷ bs) e h = absurd (omega arith)
load_le-lt (suc n) [] e h = absurd (omega arith)
load_le-lt (suc n) (b ∷ bs) e (hb, h) =
    omega (arith, load_le-lt n bs (omega arith) h, pow-suc 256 n)

pub read_bytes :
    (n : ℕ) (xs rest : List ℕ) → length xs ≡ n → bytes n (put_bytes n xs ++ rest) ≡ (xs, rest)
unfolding bytes put_bytes next_buffer_to_struct next_struct_to_buffer
read_bytes n xs rest e = rw (take_all n xs e, take-append n xs rest e, drop-append n xs rest e)

take-take : (n : ℕ) (xs : List ℕ) → take n (take n xs) ≡ take n xs
take-take zero xs = refl
take-take (suc n) [] = refl
take-take (suc n) (x ∷ xs) = rw (take-take n xs)

pub read_bytes_last : (n : ℕ) (xs : List ℕ) → length xs ≡ n → (bytes n (put_bytes n xs)).0 ≡ xs
unfolding bytes put_bytes next_buffer_to_struct next_struct_to_buffer
read_bytes_last n xs e = rw (take_all n xs e, take_all n xs e)

-- An integer member of `n` bytes, whose conversions are `from` and `to`.
module _ (n : ℕ) (req_endian : Bool) (from to : ℕ → ℕ)
    (comes_in : (memb : List ℕ)
      → (next_buffer_to_struct n req_endian memb).0 ≡ store_le n (from (load_le (take n memb))))
    (goes_out : (memb : List ℕ)
      → next_struct_to_buffer n req_endian memb ≡ store_le n (to (load_le (take n memb))))
    (inverse : (v : ℕ)
      → v < 256 ^ n
      → (from (to v) ≡ v) × (to (from v) ≡ v) × (from v < 256 ^ n) × (to v < 256 ^ n))
    (advances : (b : List ℕ) → (next_buffer_to_struct n req_endian b).1 ≡ drop n b) where
  put_number_lem : (v : ℕ) → v < 256 ^ n → put_number n req_endian v ≡ store_le n (to v)
  unfolding put_number
  put_number_lem v h =
      rw (goes_out, take_all n (store_le n v) (length-store_le n v), load_le-store_le n v h)

  -- What a read gives, whatever the buffer holds, if the member's own bytes are bytes.
  number_lem :
      (b memb rest : List ℕ)
      → take n b ≡ memb
      → drop n b ≡ rest
      → load_le memb < 256 ^ n
      → number n req_endian b ≡ (from (load_le memb), rest)
  unfolding number
  number_lem b memb rest e d h = rw (
    comes_in b,
    e,
    advances b,
    d,
    load_le-store_le n (from (load_le memb)) (inverse (load_le memb) h).2,
  )

  pub read_number :
      (v : ℕ) (rest : List ℕ)
      → v < 256 ^ n
      → number n req_endian (put_number n req_endian v ++ rest) ≡ (v, rest)
  read_number v rest h =
      let stored = store_le n (to v) in
      let len : length stored ≡ n = length-store_le n (to v) in
      let back : load_le stored ≡ to v = load_le-store_le n (to v) (inverse v h).3 in
      rw (
        put_number_lem v h,
        number_lem (stored ++ rest) stored rest (take-append n stored rest len)
            (drop-append n stored rest len) (rw back (inverse v h).3),
        back,
        (inverse v h).0,
      )

  pub number-lt : (b : List ℕ) → n ≤ length b → All IsByte b → (number n req_endian b).0 < 256 ^ n
  number-lt b h bs =
      let len : length (take n b) ≡ n = omega (arith, length-take n b) in
      let small : load_le (take n b) < 256 ^ n =
        load_le-lt n (take n b) len (All-take IsByte n b bs) in
      rw (number_lem b (take n b) (drop n b) refl refl small) (inverse (load_le (take n b)) small).2

  pub restore_number :
      (b : List ℕ)
      → n ≤ length b
      → All IsByte b
      → put_number n req_endian (number n req_endian b).0 ++ drop n b ≡ b
  restore_number b h bs =
      let len : length (take n b) ≡ n = omega (arith, length-take n b) in
      let small : load_le (take n b) < 256 ^ n =
        load_le-lt n (take n b) len (All-take IsByte n b bs) in
      rw (
        number_lem b (take n b) (drop n b) refl refl small,
        put_number_lem (from (load_le (take n b))) (inverse (load_le (take n b)) small).2,
        (inverse (load_le (take n b)) small).1,
        store_le-load_le n (take n b) len (All-take IsByte n b bs),
        take-append-drop n b,
      )

-- The two laws of an integer member.
pub record IsMember (n : ℕ) (req_endian : Bool) : Type 0 where
  pub read_back :
      (v : ℕ) (rest : List ℕ)
      → v < 256 ^ n
      → number n req_endian (put_number n req_endian v ++ rest) ≡ (v, rest)
  pub write_back :
      (b : List ℕ)
      → n ≤ length b
      → All IsByte b
      → put_number n req_endian (number n req_endian b).0 ++ drop n b ≡ b
  pub in_range : (b : List ℕ) → n ≤ length b → All IsByte b → (number n req_endian b).0 < 256 ^ n

write_back_1 :
    (b : List ℕ)
    → 1 ≤ length b
    → All IsByte b
    → put_number 1 false (number 1 false b).0 ++ drop 1 b ≡ b
unfolding number put_number next_buffer_to_struct next_struct_to_buffer store_le load_le
write_back_1 [] h bs = absurd (omega arith)
write_back_1 (x ∷ b) h (hx, bs) = ap (λ (t : ℕ). t ∷ b) (omega arith)

in_range_1 : (b : List ℕ) → 1 ≤ length b → All IsByte b → (number 1 false b).0 < 256 ^ 1
unfolding number next_buffer_to_struct load_le
in_range_1 [] h bs = absurd (omega arith)
in_range_1 (x ∷ b) h (hx, bs) = omega arith

pub byte_field : IsMember 1 false
unfolding number put_number next_buffer_to_struct next_struct_to_buffer store_le load_le
byte_field = record {
  read_back = λ v rest h. ap (λ (t : ℕ). (t, rest)) (omega arith);
  write_back = write_back_1;
  in_range = in_range_1;
}

pub short_field : IsMember 2 true
unfolding next_buffer_to_struct next_struct_to_buffer
short_field = record {
  read_back = read_number 2 true from_be16 to_be16 (λ m. refl) (λ m. refl) be16_inverse (λ b. refl);
  write_back =
      restore_number 2 true from_be16 to_be16 (λ m. refl) (λ m. refl) be16_inverse (λ b. refl);
  in_range = number-lt 2 true from_be16 to_be16 (λ m. refl) (λ m. refl) be16_inverse (λ b. refl);
}

pub int_field : IsMember 4 true
unfolding next_buffer_to_struct next_struct_to_buffer
int_field = record {
  read_back = read_number 4 true from_be32 to_be32 (λ m. refl) (λ m. refl) be32_inverse (λ b. refl);
  write_back =
      restore_number 4 true from_be32 to_be32 (λ m. refl) (λ m. refl) be32_inverse (λ b. refl);
  in_range = number-lt 4 true from_be32 to_be32 (λ m. refl) (λ m. refl) be32_inverse (λ b. refl);
}

pub long_field : IsMember 8 true
unfolding next_buffer_to_struct next_struct_to_buffer
long_field = record {
  read_back = read_number 8 true from_be64 to_be64 (λ m. refl) (λ m. refl) be64_inverse (λ b. refl);
  write_back =
      restore_number 8 true from_be64 to_be64 (λ m. refl) (λ m. refl) be64_inverse (λ b. refl);
  in_range = number-lt 8 true from_be64 to_be64 (λ m. refl) (λ m. refl) be64_inverse (λ b. refl);
}

-- An array of bytes is copied as it is.
pub write_back_bytes : (n : ℕ) (b : List ℕ) → put_bytes n (bytes n b).0 ++ drop n b ≡ b
unfolding bytes put_bytes next_buffer_to_struct next_struct_to_buffer
write_back_bytes n b = rw (take-take n b) (take-append-drop n b)

-- What a member leaves of a buffer.
pub rest_bytes : (n : ℕ) (b : List ℕ) → (bytes n b).1 ≡ drop n b
unfolding bytes next_buffer_to_struct
rest_bytes n b = refl

pub rest_number : (n : ℕ) (req_endian : Bool) (b : List ℕ) → (number n req_endian b).1 ≡ drop n b
unfolding number next_buffer_to_struct
rest_number n req_endian b = refl

pub write_back_last : (n : ℕ) (b : List ℕ) → length b ≡ n → put_bytes n (bytes n b).0 ≡ b
unfolding bytes put_bytes next_buffer_to_struct next_struct_to_buffer
write_back_last n b e = rw (take_all n b e, take_all n b e)

-- What a member is written as.
pub put_bytes_lem : (n : ℕ) (xs : List ℕ) → length xs ≡ n → put_bytes n xs ≡ xs
unfolding put_bytes next_struct_to_buffer
put_bytes_lem n xs e = take_all n xs e

pub put_number_1 : (v : ℕ) → v < 2 ^ 8 → put_number 1 false v ≡ store_le 1 v
unfolding put_number next_struct_to_buffer store_le load_le
put_number_1 v h = refl

pub put_number_2 : (v : ℕ) → v < 2 ^ 16 → put_number 2 true v ≡ store_le 2 (to_be16 v)
unfolding next_buffer_to_struct next_struct_to_buffer
put_number_2 =
    put_number_lem 2 true from_be16 to_be16 (λ m. refl) (λ m. refl) be16_inverse (λ b. refl)

pub put_number_4 : (v : ℕ) → v < 2 ^ 32 → put_number 4 true v ≡ store_le 4 (to_be32 v)
unfolding next_buffer_to_struct next_struct_to_buffer
put_number_4 =
    put_number_lem 4 true from_be32 to_be32 (λ m. refl) (λ m. refl) be32_inverse (λ b. refl)

pub put_number_8 : (v : ℕ) → v < 2 ^ 64 → put_number 8 true v ≡ store_le 8 (to_be64 v)
unfolding next_buffer_to_struct next_struct_to_buffer
put_number_8 =
    put_number_lem 8 true from_be64 to_be64 (λ m. refl) (λ m. refl) be64_inverse (λ b. refl)
