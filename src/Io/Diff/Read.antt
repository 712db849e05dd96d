-- ===== src/Io/Diff/Read.antt =====
-- mvhd_diff_read returns, for each sector, that of the first image of the chain that has it.
use mini_vhd.Prelude.{
  ℕ, zero, suc, ◌+◌, ◌-◌, ◌*◌, ◌/◌, ◌%◌, ◌^◌, ◌≤◌, ◌<◌, ◌≡◌, refl, sym, ◌∙◌, arith, min, u32,
}
use mini_vhd.Prelude.{ltb, if◌then◌else◌, some, List, ◌∷◌}
use mini_vhd.Memory.{Mem, within}
use mini_vhd.Layout.{sector_size}
use mini_vhd.Image.{Meta}
use mini_vhd.Io.{Checked, check_sectors, total_sectors}
use mini_vhd.Io.Sectors.{check_sectors_cut}
use mini_vhd.Io.Diff.{diff_loop, diff_read, ChainTransfer}
use mini_vhd.Io.Diff.Chain.{chain_byte, Chain}
use mini_vhd.Io.Diff.Step.{SectorRead}
use mini_vhd.Io.Diff.Sector.{diff_sector_lem}
use mathlib.Core.Path.{subst}

pub record LoopRead (n k s : ℕ) (chain : List Meta) (mem : Mem) (buff : ℕ) (r : List Meta × Mem)
    : Type 0 where
  pub healthy : Chain n r.0
  pub kept : (t j : ℕ) → chain_byte r.0 t j ≡ chain_byte chain t j
  pub moved :
      (i : ℕ)
      → r.1 i ≡ (
          if within buff (k * sector_size) i
          then chain_byte chain (s + (i - buff) / sector_size) ((i - buff) % sector_size)
          else mem i)

LoopRead-suc :
    (n k s : ℕ) (chain : List Meta) (mem : Mem) (buff : ℕ) (r q : List Meta × Mem)
    → SectorRead n s chain mem buff r
    → LoopRead n k (s + 1) r.0 r.1 (buff + sector_size) q
    → LoopRead n (suc k) s chain mem buff q
LoopRead-suc n k s chain mem buff r q one rest = record {
  healthy = rest.healthy;
  kept = λ t j. rest.kept t j ∙ one.kept t j;
  moved = λ i. ground (
    arith,
    rest.moved i,
    one.placed.at i,
    one.kept (s + 1 + (i - (buff + 512)) / 512) ((i - (buff + 512)) % 512),
  );
}

diff_loop_lem :
    (k n s : ℕ) (chain : List Meta) (mem : Mem) (buff : ℕ)
    → Chain n chain
    → s + k ≤ n
    → (r : List Meta × Mem) × (diff_loop k s chain mem buff ≡ some r)
      × LoopRead n k s chain mem buff r
unfolding diff_loop
diff_loop_lem zero n s chain mem buff healthy room = (
  (chain, mem),
  refl,
  record { healthy = healthy; kept = λ t j. refl; moved = λ i. sym (ground arith) },
)
diff_loop_lem (suc k) n s chain mem buff healthy room =
    let (r, reads, one) = diff_sector_lem n s chain mem buff healthy (omega arith) in
    let (q, more, rest) =
      diff_loop_lem k n (s + 1) r.0 r.1 (buff + sector_size) one.healthy (omega arith) in
    (q, rw (reads, more) refl, LoopRead-suc n k s chain mem buff r q one rest)

diff_read_runs :
    (m : Meta) (parents : List Meta) (offset num_sectors : ℕ) (out_buff : Mem) (checked : Checked)
    (r : List Meta × Mem)
    → check_sectors offset num_sectors (total_sectors m) ≡ checked
    → diff_loop (u32 (offset + checked.transfer) - offset) offset (m ∷ parents) out_buff 0 ≡ some r
    → diff_read (m ∷ parents) offset num_sectors out_buff
      ≡ some (record { chain = r.0; mem = r.1; truncated = checked.truncated })
unfolding diff_read
diff_read_runs m parents offset num_sectors out_buff checked r e q = rw (e, q) refl

-- In a chain of images down to one that needs no parent, which all have at least the sectors of the
-- first, where a dynamic or a differencing one is sound, holds the bitmap of its current block and
-- has a block table that covers its disk, and the file of a fixed one holds its disk, a read from
-- inside the disk never faults: the buffer gets, for each sector up to the end of the disk, the bytes
-- of the first image of the chain that has the sector or needs no parent, and keeps every byte after
-- them; the sectors cut off are reported; and the chain holds what it held and is as sound as before.
pub diff_read_lem :
    (m : Meta) (parents : List Meta) (offset num_sectors : ℕ) (out_buff : Mem)
    → Chain (total_sectors m) (m ∷ parents)
    → offset ≤ total_sectors m
    → num_sectors < 2 ^ 32
    → (t : ChainTransfer) × (diff_read (m ∷ parents) offset num_sectors out_buff ≡ some t)
      × (t.truncated ≡ num_sectors - (total_sectors m - offset))
      × Chain (total_sectors m) t.chain
      × ((s j : ℕ) → chain_byte t.chain s j ≡ chain_byte (m ∷ parents) s j)
      × ((i : ℕ)
          → t.mem i ≡ (
              if ltb i (min num_sectors (total_sectors m - offset) * sector_size)
              then chain_byte (m ∷ parents) (offset + i / sector_size) (i % sector_size)
              else out_buff i))
diff_read_lem m parents offset num_sectors out_buff healthy start small =
    let count = min num_sectors (total_sectors m - offset) in
    let cut = check_sectors_cut offset num_sectors (total_sectors m) start (omega arith) small in
    let rounds : u32 (offset + count) - offset ≡ count = omega arith in
    let (r, runs, done) =
      diff_loop_lem count (total_sectors m) offset (m ∷ parents) out_buff 0 healthy (omega arith) in
    (
      record { chain = r.0; mem = r.1; truncated = num_sectors - (total_sectors m - offset) },
      diff_read_runs m parents offset num_sectors out_buff _ r cut
          (subst (λ k. diff_loop k offset (m ∷ parents) out_buff 0 ≡ some r) (sym rounds) runs),
      refl,
      done.healthy,
      done.kept,
      λ i. ground (arith, done.moved i),
    )
