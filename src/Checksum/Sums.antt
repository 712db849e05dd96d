-- ===== src/Checksum/Sums.antt =====
-- Sums of bytes: they do not see the order in which an integer is stored.
use mini_vhd.Prelude.{ℕ, ◌+◌, ◌*◌, ◌^◌, ◌≤◌, ◌<◌, ◌≡◌, arith, u32, true, false}
use mini_vhd.Prelude.{List, [], ◌∷◌, ◌++◌, length, All, IsByte}
use mini_vhd.Endian.{store_le}
use mini_vhd.Endian.RoundTrip.{to_be16_bytes, to_be32_bytes, to_be64_bytes}
use mini_vhd.StructRw.{put_bytes, put_number}
use mini_vhd.StructRw.Fields.{put_number_2, put_number_4, put_number_8, put_number_1, put_bytes_lem}
use mini_vhd.Checksum.{add_bytes}

abbrev pub sum : List ℕ → ℕ
sum [] = 0
sum (b ∷ bs) = b + sum bs

pub sum-append : (xs ys : List ℕ) → sum (xs ++ ys) ≡ sum xs + sum ys
sum-append [] ys = omega arith
sum-append (x ∷ xs) ys = omega (arith, sum-append xs ys)

pub sum-le : (bs : List ℕ) → All IsByte bs → sum bs ≤ 255 * length bs
sum-le [] h = omega arith
sum-le (b ∷ bs) (hb, h) = omega (arith, sum-le bs h)

-- The wrapping loop gives the sum itself where that fits 32 bits.
pub add_bytes-eq-sum :
    (acc : ℕ) (bs : List ℕ) → acc + sum bs < 2 ^ 32 → add_bytes acc bs ≡ acc + sum bs
unfolding add_bytes
add_bytes-eq-sum acc [] h = omega arith
add_bytes-eq-sum acc (b ∷ bs) h =
    let small : u32 (acc + b) ≡ acc + b = omega arith in
    rw small (omega (arith, add_bytes-eq-sum (acc + b) bs (omega arith)))

-- The wrapping loop agrees with the sum on 32 bits, whatever the bytes.
pub sum-put_1 : (v : ℕ) → v < 2 ^ 8 → sum (put_number 1 false v) ≡ sum (store_le 1 v)
sum-put_1 v h = rw (put_number_1 v h)

pub sum-put_2 : (v : ℕ) → v < 2 ^ 16 → sum (put_number 2 true v) ≡ sum (store_le 2 v)
unfolding store_le
sum-put_2 v h = rw (put_number_2 v h) (omega (arith, to_be16_bytes v))

pub sum-put_4 : (v : ℕ) → v < 2 ^ 32 → sum (put_number 4 true v) ≡ sum (store_le 4 v)
unfolding store_le
sum-put_4 v h = rw (put_number_4 v h) (omega (arith, to_be32_bytes v))

pub sum-put_8 : (v : ℕ) → v < 2 ^ 64 → sum (put_number 8 true v) ≡ sum (store_le 8 v)
unfolding store_le
sum-put_8 v h = rw (put_number_8 v h) (omega (arith, to_be64_bytes v))

pub sum-put_bytes : (n : ℕ) (xs : List ℕ) → length xs ≡ n → sum (put_bytes n xs) ≡ sum xs
sum-put_bytes n xs h = rw (put_bytes_lem n xs h)
