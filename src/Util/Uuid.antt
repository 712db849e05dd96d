-- ===== src/Util/Uuid.antt =====
-- util.c: mvhd_generate_uuid.
pub mod Version
use mini_vhd.Prelude.{ℕ, zero, suc, ◌+◌, bit_and, bit_or, u8, List, [], ◌∷◌}
use mini_vhd.World.{Host}

-- for (n = 0; n < 16; n++) uuid[n] = rand()
unfoldable pub random_bytes : (ℕ → ℕ) → ℕ → ℕ → List ℕ
random_bytes rand n zero = []
random_bytes rand n (suc more) = u8 (rand n) ∷ random_bytes rand (n + 1) more

abbrev pub set_version : List ℕ → List ℕ
set_version (u0 ∷ u1 ∷ u2 ∷ u3 ∷ u4 ∷ u5 ∷ u6 ∷ u7 ∷ u8 ∷ rest) =
    u0
    ∷ u1
    ∷ u2
    ∷ u3
    ∷ u4
    ∷ u5
    ∷ bit_or (bit_and u6 0x0f) 0x40
    ∷ u7
    ∷ bit_or (bit_and u8 0x3f) 0x80
    ∷ rest
set_version other = other

unfoldable pub generate_uuid : Host → List ℕ
unfolding random_bytes
generate_uuid host = set_version (random_bytes (host.rand host.now) 0 16)
