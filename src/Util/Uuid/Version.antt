-- ===== src/Util/Uuid/Version.antt =====
-- The bits of mvhd_generate_uuid that RFC 4122 fixes.
use mini_vhd.Prelude.{
  ℕ, ◌/◌, ◌<◌, ◌≡◌, refl, ◌==◌, ltb, ◌&&◌, bit_and, bit_or, u8, Bool, true, length, get_or, All,
  IsByte, arith,
}
use mini_vhd.Prelude.{passes, passes-at}
use mini_vhd.Util.Uuid.{random_bytes, generate_uuid}
use mini_vhd.World.{Host}

-- The two bytes, for each of the 256 values that they may be made from.
abbrev version_byte : ℕ → Bool
version_byte n = let b = bit_or (bit_and n 0x0f) 0x40 in (b / 16 == 4) && ltb b 256

abbrev variant_byte : ℕ → Bool
variant_byte n = let b = bit_or (bit_and n 0x3f) 0x80 in (b / 64 == 2) && ltb b 256

every_version : passes version_byte 256 ≡ true
unfolding passes
every_version = refl

every_variant : passes variant_byte 256 ≡ true
unfolding passes
every_variant = refl

version : (n : ℕ) → n < 256 → let b = bit_or (bit_and n 0x0f) 0x40 in (b / 16 ≡ 4) × (b < 256)
version n h =
    let ok = passes-at version_byte 256 n every_version h in
    (ground (arith, ok), ground (arith, ok))

variant : (n : ℕ) → n < 256 → let b = bit_or (bit_and n 0x3f) 0x80 in (b / 64 ≡ 2) × (b < 256)
variant n h =
    let ok = passes-at variant_byte 256 n every_variant h in
    (ground (arith, ok), ground (arith, ok))

-- A UUID is sixteen bytes, of version 4 and of the variant whose first bits are 1 0.
pub generate_uuid-version :
    (host : Host)
    → (length (generate_uuid host) ≡ 16)
      × All IsByte (generate_uuid host)
      × (get_or (generate_uuid host) 6 0 / 16 ≡ 4)
      × (get_or (generate_uuid host) 8 0 / 64 ≡ 2)
unfolding generate_uuid random_bytes
generate_uuid-version host =
    let r = host.rand host.now in
    let six = version (u8 (r 6)) (omega arith) in
    let eight = variant (u8 (r 8)) (omega arith) in
    let byte : (n : ℕ) → u8 (r n) < 256 = λ n. omega arith in
    (
      refl,
      (
        byte 0,
        (
          byte 1,
          (
            byte 2,
            (
              byte 3,
              (
                byte 4,
                (
                  byte 5,
                  (
                    six.1,
                    (
                      byte 7,
                      (
                        eight.1,
                        (
                          byte 9,
                          (byte 10, (byte 11, (byte 12, (byte 13, (byte 14, (byte 15, tt)))))),
                        ),
                      ),
                    ),
                  ),
                ),
              ),
            ),
          ),
        ),
      ),
      six.0,
      eight.0,
    )
