-- ===== src/Io/Write/Round.antt =====
-- One round of the write loop.
use mini_vhd.Prelude.{
  ℕ, ◌+◌, ◌-◌, ◌*◌, ◌/◌, ◌%◌, ◌≤◌, ◌<◌, ◌≡◌, ◌≢◌, ◌⊎◌, inl, inr, refl, sym, ap, ◌∙◌, arith,
}
use mini_vhd.Prelude.{false, equal_or_not, ◌==◌, none, some, if◌then◌else◌}
use mini_vhd.Memory.{within}
use mini_vhd.Layout.{sector_size, sparse_blk}
use mini_vhd.Image.{Meta, disk}
use mini_vhd.Io.{Cursor}
use mini_vhd.Io.View.{Cached}
use mini_vhd.Io.Write.{leave_block, prepare_sector, put_sector, write_sector}
use mini_vhd.Io.Write.State.{Writable, live_cell, Same, Same-trans}
use mini_vhd.Io.Write.Room.{Grows, Grows-same, Grows-trans}
use mini_vhd.Io.Write.Persist.{Persists, Persists-trans}
use mini_vhd.Io.Write.Held.{Held-refl, leave_block-Held, growth-Same, block_size-Same}
use mini_vhd.Io.Write.Prepare.{Ready, prepare_stay, prepare_move}
use mini_vhd.Io.Write.Put.{Put, put_sector-Put}
use mathlib.Core.Path.{subst}
use mathlib.Core.Option.{some-injective}
use native.Mathlib.Nat.{div-add-mod, mod-lt}

-- Byte `j` of sector `t`, in blocks of `k` sectors.
unfoldable pub live_sector : ℕ → Meta → ℕ → ℕ → ℕ
live_sector k m t j = live_cell m (t / k) (t % k) j

-- The loop is in block `p`, and at sector `s` if the block has it.
pub record InBlock (k s p : ℕ) (m : Meta) : Type 0 where
  pub current : m.bitmap.curr_block ≡ some p
  pub inside : p < m.block_offset.size
  pub stored : m.block_offset.at p ≢ sparse_blk
  pub placed :
      s / k ≡ p → m.f.pos ≡ (m.block_offset.at p + m.bitmap.sector_count + s % k) * sector_size

-- Before sector `s`: the bitmap in memory may be ahead of the file, for the block of the loop only.
pub record Ongoing (k blocks s : ℕ) (c : Cursor) : Type 0 where
  pub spb : c.vhdm.sect_per_block ≡ k
  pub count : c.vhdm.block_offset.size ≡ blocks
  pub writable : Writable (disk c.vhdm) c.vhdm.sparse.bat_offset
  pub block_size : c.vhdm.sparse.block_sz / sector_size ≡ c.vhdm.sect_per_block
  pub bitmap_size : c.vhdm.bitmap.curr_bitmap.size ≡ c.vhdm.bitmap.sector_count * sector_size
  pub status :
      ((c.prev_blk ≡ none) × Cached c.vhdm)
      ⊎ ((p : ℕ) × (c.prev_blk ≡ some p) × InBlock k s p c.vhdm)

prepare_sector-Ready :
    (k blocks s : ℕ) (c : Cursor)
    → Ongoing k blocks s c
    → c.vhdm.f.size + 512 ≤ 0xffffffff * 512
    → s / k < blocks
    → (m : Meta) × (prepare_sector c.vhdm c.prev_blk (s / k) (s % k) ≡ some m)
      × Ready c.vhdm m (s / k) (s % k)
unfolding leave_block
prepare_sector-Ready k blocks s c on small inside =
    let inside' : s / k < c.vhdm.block_offset.size = omega (arith, on.count) in
    elim on.status [
      | inl (first, cached) ↦
          prepare_move c.vhdm c.vhdm c.prev_blk (s / k) (s % k) (rw first refl)
            (Held-refl c.vhdm on.writable cached) (λ e. ground arith) on.block_size small inside'
      | inr (p, last, in_block) ↦ elim (equal_or_not p (s / k)) [
        | inl same ↦
            rw (last, same)
              (prepare_stay c.vhdm (s / k) (s % k) on.writable on.bitmap_size
                (in_block.current ∙ ap some same) inside'
                (λ e. in_block.stored (ap c.vhdm.block_offset.at same ∙ e))
                (in_block.placed (sym same)
                  ∙ ap
                      (λ (q : ℕ).
                        (c.vhdm.block_offset.at q + c.vhdm.bitmap.sector_count + s % k)
                        * sector_size)
                      same))
        | inr differ ↦
            let (m1, leaves, left) =
              leave_block-Held c.vhdm (s / k) on.writable inside' p on.bitmap_size in_block.current
                in_block.inside in_block.stored differ in
            prepare_move c.vhdm m1 c.prev_blk (s / k) (s % k) (rw last leaves) left
              (λ e. differ (some-injective p (s / k) (sym last ∙ e))) on.block_size small inside'
      ]
    ]

write_sector_runs :
    (k s : ℕ) (c c' : Cursor) (m : Meta)
    → c.vhdm.sect_per_block ≡ k
    → 0 < k
    → prepare_sector c.vhdm c.prev_blk (s / k) (s % k) ≡ some m
    → put_sector m (s / k) (s % k) c ≡ some c'
    → write_sector s c ≡ some c'
unfolding write_sector
write_sector_runs k s c c' m spb =
    subst
      (λ (k : ℕ).
        0 < k
        → prepare_sector c.vhdm c.prev_blk (s / k) (s % k) ≡ some m
        → put_sector m (s / k) (s % k) c ≡ some c'
        → write_sector s c ≡ some c')
      spb
      (λ pos prepares puts.
        let nonzero : (c.vhdm.sect_per_block == 0) ≡ false = ground arith in
        rw (nonzero, prepares) puts)

mod_next : (s k : ℕ) → 0 < k → (s + 1) / k ≡ s / k → (s + 1) % k ≡ s % k + 1
mod_next s k hk e = grind (arith, div-add-mod s k, div-add-mod (s + 1) k)

-- Two sectors are in two blocks, or at two places of one.
sectors_apart : (s t k : ℕ) → t ≢ s → (t / k ≢ s / k) ⊎ (t % k ≢ s % k)
sectors_apart s t k ne = elim (equal_or_not (t / k) (s / k)) [
  | inl same ↦ inr (λ e. ne (sym (div-add-mod t k) ∙ rw (same, e) (div-add-mod s k)))
  | inr other ↦ inl other
]

-- What `n` rounds from sector `s` on have done.
pub record Wrote (k blocks n s : ℕ) (c c' : Cursor) : Type 0 where
  pub same : Same c.vhdm c'.vhdm
  pub added : ℕ
  pub few : added ≤ n
  pub grows : Grows c.vhdm c'.vhdm added
  pub persists : Persists c.vhdm c'.vhdm
  pub buff : c'.buff ≡ c.buff + n * sector_size
  pub mem : c'.mem ≡ c.mem
  pub last : ((n ≡ 0) × (c'.prev_blk ≡ c.prev_blk)) ⊎ ((p : ℕ) × (c'.prev_blk ≡ some p))
  pub cells :
      (t j : ℕ)
      → t / k < blocks
      → j < sector_size
      → live_sector k c'.vhdm t j ≡ (
          if within s n t
          then c.mem (c.buff + (t - s) * sector_size + j)
          else live_sector k c.vhdm t j)

Ongoing-next :
    (k blocks s : ℕ) (c c' : Cursor) (m : Meta)
    → Ongoing k blocks s c
    → 0 < k
    → s / k < blocks
    → Ready c.vhdm m (s / k) (s % k)
    → Put m (s / k) (s % k) c c'
    → Ongoing k blocks (s + 1) c'
Ongoing-next k blocks s c c' m on pos inside ready put =
    let same = Same-trans c.vhdm m c'.vhdm ready.same put.same in
    record {
      spb = same.spb ∙ on.spb;
      count = same.blocks ∙ on.count;
      writable = put.writable;
      block_size = block_size-Same c.vhdm c'.vhdm same on.block_size;
      bitmap_size = put.bitmap_size;
      status = inr (
        s / k,
        put.in_block,
        record {
          current = put.entered;
          inside = omega (arith, same.blocks, on.count);
          stored = put.stored;
          placed = λ e. omega (arith, put.placed, mod_next s k pos e);
        },
      );
    }

Wrote-one :
    (k blocks s : ℕ) (c c' : Cursor) (m : Meta)
    → Ongoing k blocks s c
    → 0 < k
    → Ready c.vhdm m (s / k) (s % k)
    → Put m (s / k) (s % k) c c'
    → Wrote k blocks 1 s c c'
unfolding live_sector
Wrote-one k blocks s c c' m on pos ready put = record {
  same = Same-trans c.vhdm m c'.vhdm ready.same put.same;
  added = ready.added + 0;
  few = omega (arith, ready.few);
  grows =
      Grows-trans c.vhdm m c'.vhdm ready.added 0 (growth-Same c.vhdm m ready.same) ready.grows
        (Grows-same m c'.vhdm put.bat (omega (arith, put.size)));
  persists = Persists-trans c.vhdm m c'.vhdm ready.persists put.persists;
  buff = omega (arith, put.buff);
  mem = put.mem;
  last = inr (s / k, put.in_block);
  cells = λ t j ht hj. elim (equal_or_not t s) [
    | inl same ↦
        ap (λ (a : ℕ). live_cell c'.vhdm (a / k) (a % k) j) same
        ∙ put.written j hj
        ∙ sym (ground (arith, same))
    | inr other ↦
        put.others (t / k) (t % k) j (omega (arith, ready.same.blocks, on.count))
          (omega (arith, ready.same.spb, on.spb, mod-lt t pos)) hj (sectors_apart s t k other)
        ∙ ready.cells (t / k) (t % k) j (omega (arith, on.count))
            (omega (arith, on.spb, mod-lt t pos)) hj
        ∙ sym (ground (arith, other))
  ];
}

pub write_sector_lem :
    (k blocks s : ℕ) (c : Cursor)
    → Ongoing k blocks s c
    → 0 < k
    → c.vhdm.f.size + 512 ≤ 0xffffffff * 512
    → s / k < blocks
    → (c' : Cursor) × (write_sector s c ≡ some c')
      × Ongoing k blocks (s + 1) c'
      × Wrote k blocks 1 s c c'
write_sector_lem k blocks s c on pos small inside =
    let (m, prepares, ready) = prepare_sector-Ready k blocks s c on small inside in
    let (c', puts, put) =
      put_sector-Put m (s / k) (s % k) c ready.writable ready.bitmap_size ready.entered
        (omega (arith, ready.same.blocks, on.count)) ready.stored
        (omega (arith, ready.same.spb, on.spb, mod-lt s pos)) ready.placed in
    (
      c',
      write_sector_runs k s c c' m on.spb pos prepares puts,
      Ongoing-next k blocks s c c' m on pos inside ready put,
      Wrote-one k blocks s c c' m on pos ready put,
    )
