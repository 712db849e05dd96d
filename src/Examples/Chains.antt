-- ===== src/Examples/Chains.antt =====
-- Fixed images and chains at concrete inputs.
use mini_vhd.Prelude.{
  ℕ, ◌+◌, ◌-◌, ◌*◌, ◌/◌, ◌%◌, ◌<◌, ◌≡◌, refl, arith, min, if◌then◌else◌, ltb, some, List, [], ◌∷◌,
}
use mini_vhd.Memory.{within}
use mini_vhd.Image.{Meta}
use mini_vhd.Io.{Transfer}
use mini_vhd.Io.SparseRead.Enter.{Keeps}
use mini_vhd.Io.Fixed.{fixed_read, fixed_write}
use mini_vhd.Io.Fixed.Moves.{SameImage, fixed_read_lem, fixed_write_lem}
use mini_vhd.Io.Diff.{diff_read, ChainTransfer}
use mini_vhd.Io.Diff.Chain.{chain_byte, Chain, fixed, differencing}
use mini_vhd.Io.Diff.Read.{diff_read_lem}
use mini_vhd.Examples.Sectors.{image, image-Sound, image-Cached, blank, small_footer}
use mini_vhd.Examples.Writes.{pattern}

abbrev fixed_image : Meta
fixed_image = record image { footer = record small_footer { disk_type = 2 } }

fixed_read_example :
    (t : Transfer) × (fixed_read fixed_image 6 12 blank ≡ some t)
    × (t.truncated ≡ 12 - (16 - 6))
    × Keeps fixed_image t.vhdm
    × ((i : ℕ)
        → t.mem i
          ≡ (if ltb i (min 12 (16 - 6) * 512) then fixed_image.f.byte (6 * 512 + i) else blank i))
fixed_read_example = fixed_read_lem fixed_image 6 12 (omega arith) (omega arith) (omega arith) blank

fixed_write_example :
    (t : Transfer) × (fixed_write fixed_image 6 12 pattern ≡ some t)
    × (t.truncated ≡ 12 - (16 - 6))
    × SameImage fixed_image t.vhdm
    × ((i : ℕ)
        → i < fixed_image.f.size
        → t.vhdm.f.byte i ≡ (
            if within (6 * 512) (min 12 (16 - 6) * 512) i
            then pattern (i - 6 * 512)
            else fixed_image.f.byte i))
fixed_write_example =
    fixed_write_lem fixed_image 6 12 (omega arith) (omega arith) (omega arith) pattern

abbrev child : Meta
child = record image { footer = record small_footer { disk_type = 4 } }

-- A differencing image over a fixed one.
abbrev two_images : List Meta
two_images = child ∷ fixed_image ∷ []

two_images-Chain : Chain 16 two_images
two_images-Chain =
    differencing refl (omega arith) image-Sound
      (record { bitmap_size = refl; current = image-Cached.current }) (omega arith)
      (fixed (λ e. omega arith) (λ e. omega arith) (omega arith) (omega arith))

diff_read_example :
    (t : ChainTransfer) × (diff_read two_images 6 12 blank ≡ some t)
    × (t.truncated ≡ 12 - (16 - 6))
    × Chain 16 t.chain
    × ((s j : ℕ) → chain_byte t.chain s j ≡ chain_byte two_images s j)
    × ((i : ℕ)
        → t.mem i ≡ (
            if ltb i (min 12 (16 - 6) * 512)
            then chain_byte two_images (6 + i / 512) (i % 512)
            else blank i))
diff_read_example =
    diff_read_lem child (fixed_image ∷ []) 6 12 blank two_images-Chain (omega arith) (omega arith)
