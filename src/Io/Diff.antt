-- ===== src/Io/Diff.antt =====
-- io.c: reading a differencing image. Its chain is the image followed by its parents; the first image
-- of the chain that is not a differencing one, or that has the sector, is read.
pub mod Chain
pub mod Step
pub mod Sector
pub mod Read
use mini_vhd.Prelude.{ℕ, zero, suc, ◌+◌, ◌-◌, ◌/◌, ◌%◌, u32, ltb, ◌==◌, ◌||◌, Bool, if◌then◌else◌}
use mini_vhd.Prelude.{true, Option, none, some, List, [], ◌∷◌}
use mini_vhd.Memory.{Mem}
use mini_vhd.Layout.{sector_size, type_diff, type_dynamic}
use mini_vhd.Image.{Meta}
use mini_vhd.Io.{
  ◌>>=◌, check_sectors, total_sectors, is_block, read_sect_bitmap, test_bit, sparse_read, Transfer,
}
use mini_vhd.Io.Fixed.{fixed_read}

-- Reads one sector to the pointer `buff`, with the function for the image's type.
unfoldable pub read_one : Meta → ℕ → Mem → ℕ → Option (Meta × Mem)
read_one m s mem buff = do
  t ←
      if m.footer.disk_type == type_diff || m.footer.disk_type == type_dynamic
      then sparse_read m s 1 (λ i. mem (buff + i))
      else fixed_read m s 1 (λ i. mem (buff + i))
  some (t.vhdm, λ i. if ltb i buff then mem i else t.mem (i - buff))

-- Brings in the bitmap of the sector's block, and tests the sector's bit.
unfoldable pub find_bit : Meta → ℕ → Option (Meta × Bool)
find_bit m s =
    let blk = s / m.sect_per_block in
    if m.sect_per_block == 0 then none else do
      m' ← if is_block m.bitmap.curr_block blk then some m else read_sect_bitmap m blk
      present ← test_bit m'.bitmap.curr_bitmap (s % m.sect_per_block)
      some (m', present)

-- The while loop's test: whether it ends at this image.
unfoldable pub ends_here : Meta → ℕ → Option (Meta × Bool)
ends_here m s = if m.footer.disk_type == type_diff then find_bit m s else some (m, true)

unfoldable pub read_head : Meta → List Meta → ℕ → Mem → ℕ → Option (List Meta × Mem)
read_head m parents s mem buff = do r ← read_one m s mem buff; some (r.0 ∷ parents, r.1)

abbrev pub behind : Meta → Option (List Meta × Mem) → Option (List Meta × Mem)
behind m read = do r ← read; some (m ∷ r.0, r.1)

-- The result is the chain and the caller's memory; a chain without a next image is a null pointer.
unfoldable pub diff_sector : List Meta → ℕ → Mem → ℕ → Option (List Meta × Mem)
diff_sector [] s mem buff = none
diff_sector (m ∷ parents) s mem buff =
    let deeper = diff_sector parents s mem buff in
    do
      found ← ends_here m s
      if found.1 then read_head found.0 parents s mem buff else behind found.0 deeper

unfoldable pub diff_loop : ℕ → ℕ → List Meta → Mem → ℕ → Option (List Meta × Mem)
diff_loop zero s chain mem buff = some (chain, mem)
diff_loop (suc n) s chain mem buff = do
  r ← diff_sector chain s mem buff
  diff_loop n (s + 1) r.0 r.1 (buff + sector_size)

pub record ChainTransfer : Type 0 where
  pub chain : List Meta
  pub mem : Mem
  pub truncated : ℕ

unfoldable pub diff_read : List Meta → ℕ → ℕ → Mem → Option ChainTransfer
diff_read [] offset num_sectors out_buff = none
diff_read (m ∷ parents) offset num_sectors out_buff = do
  let checked = check_sectors offset num_sectors (total_sectors m)
  let ls = u32 (offset + checked.transfer)
  r ← diff_loop (ls - offset) offset (m ∷ parents) out_buff 0
  some (record { chain = r.0; mem = r.1; truncated = checked.truncated })
