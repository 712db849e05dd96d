-- ===== src/Examples/Damage.antt =====
-- A damaged footer at a concrete input.
use mini_vhd.Prelude.{ℕ, ◌≡◌, refl, arith, true, false, List, [], ◌∷◌, ◌++◌, replicate}
use mini_vhd.StructRw.{buffer_to_footer}
use mini_vhd.StructRw.Restore.{IsBuffer}
use mini_vhd.Checksum.{footer_checksum_valid}
use mini_vhd.Checksum.OnDisk.{footer_accepted_iff}
use mini_vhd.Checksum.Detect.{set_at, footer_checksum_valid-set_at}

-- A byte 1, the checksum that complements it, and zeros elsewhere.
abbrev good : List ℕ
good = (1 ∷ replicate 63 0) ++ ((255 ∷ 255 ∷ 255 ∷ 254 ∷ []) ++ replicate 444 0)

good-IsBuffer : IsBuffer 512 good
good-IsBuffer = omega arith

good_accepted : footer_checksum_valid (buffer_to_footer good) ≡ true
good_accepted = (footer_accepted_iff good good-IsBuffer).1 refl

damage_example : footer_checksum_valid (buffer_to_footer (set_at 100 7 good)) ≡ false
damage_example =
    footer_checksum_valid-set_at good 100 7 good-IsBuffer good_accepted (omega arith) (omega arith)
      (λ e. omega arith)
