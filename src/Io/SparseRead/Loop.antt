-- ===== src/Io/SparseRead/Loop.antt =====
-- The read loop over any number of sectors.
use mini_vhd.Prelude.{
  ℕ, zero, suc, ◌+◌, ◌-◌, ◌*◌, ◌/◌, ◌%◌, ◌≤◌, ◌<◌, ◌≡◌, refl, sym, ap, ◌∙◌, arith,
}
use mini_vhd.Prelude.{if◌then◌else◌, some}
use mini_vhd.Memory.{within}
use mini_vhd.Layout.{sector_size}
use mini_vhd.Image.{Disk, disk}
use mini_vhd.Io.{Cursor, read_loop}
use mini_vhd.Io.View.{sector_byte, address, Sound, Cached}
use mini_vhd.Io.SparseRead.Enter.{Keeps, Keeps-trans, Positioned}
use mini_vhd.Io.SparseRead.Sector.{Advanced, read_sector_lem}
use mathlib.Core.Option.{some-injective}
use mathlib.Core.Path.{subst}
use native.Mathlib.Nat.{div-mul-le_self, div-add-mod}

pub div_below : (s k b : ℕ) → 0 < k → s < b * k → s / k < b
div_below s k b hk h = grind (arith, div-mul-le_self s k)

-- The sector after one in the same block is the next of the block.
mod_next : (s k : ℕ) → 0 < k → (s + 1) / k ≡ s / k → (s + 1) % k ≡ s % k + 1
mod_next s k hk e = grind (arith, div-add-mod s k, div-add-mod (s + 1) k)

address_next :
    (d : Disk) (s : ℕ)
    → 0 < d.spb
    → (s + 1) / d.spb ≡ s / d.spb
    → address d (s + 1) ≡ address d s + sector_size
address_next d s h e = omega (arith, ap d.bat.at e, mod_next s d.spb h e)

Positioned_next :
    (s : ℕ) (c c' : Cursor) (sound : Sound (disk c.vhdm)) (sound' : Sound (disk c'.vhdm))
    → Advanced s c c'
    → (inside' : (s + 1) / c'.vhdm.sect_per_block < c'.vhdm.block_offset.size)
    → Positioned c'.vhdm
        ((s + 1) / c'.vhdm.sect_per_block)
        sound'
        inside'
        c'.prev_blk
        ((s + 1) % c'.vhdm.sect_per_block)
Positioned_next s c c' sound sound' step inside' = record {
  same_block = λ p. step.entered ∙ sym step.in_block ∙ p;
  at_sector = λ p stored.
      let same = step.keeps.same_disk in
      let e : (s + 1) / c.vhdm.sect_per_block ≡ s / c.vhdm.sect_per_block =
        ap (λ (d : Disk). (s + 1) / d.spb) (sym same)
        ∙ some-injective _ _ (sym p ∙ step.in_block) in
      let moved =
        ap (λ (d : Disk). d.bat.at ((s + 1) / d.spb)) same ∙ ap c.vhdm.block_offset.at e in
      step.placed (λ z. stored (moved ∙ z))
      ∙ sym (address_next (disk c.vhdm) s sound.spb_pos e)
      ∙ ap (λ (d : Disk). address d (s + 1)) (sym same);
}

-- What `n` rounds from sector `s` on leave behind.
pub record Read (n s : ℕ) (c c' : Cursor) : Type 0 where
  pub keeps : Keeps c.vhdm c'.vhdm
  pub cached : Cached c'.vhdm
  pub reads :
      (i : ℕ)
      → c'.mem i ≡ (
          if within c.buff (n * sector_size) i
          then sector_byte
              (disk c.vhdm)
              (s + (i - c.buff) / sector_size)
              ((i - c.buff) % sector_size)
          else c.mem i)

Read-suc :
    (n s : ℕ) (c c' c'' : Cursor) → Advanced s c c' → Read n (s + 1) c' c'' → Read (suc n) s c c''
Read-suc n s c c' c'' step rest = record {
  keeps = Keeps-trans c.vhdm c'.vhdm c''.vhdm step.keeps rest.keeps;
  cached = rest.cached;
  reads = λ i. ground (
    arith,
    step.buff,
    step.reads i,
    rest.reads i,
    ap
        (λ (d : Disk).
          sector_byte d (s + 1 + (i - c'.buff) / sector_size) ((i - c'.buff) % sector_size))
        step.keeps.same_disk,
  );
}

pub read_loop_lem :
    (n s : ℕ) (c : Cursor) (sound : Sound (disk c.vhdm))
    → Cached c.vhdm
    → s + n ≤ c.vhdm.block_offset.size * c.vhdm.sect_per_block
    → ((inside : s / c.vhdm.sect_per_block < c.vhdm.block_offset.size)
        → Positioned c.vhdm
            (s / c.vhdm.sect_per_block)
            sound
            inside
            c.prev_blk
            (s % c.vhdm.sect_per_block))
    → (c' : Cursor) × (read_loop n s c ≡ some c') × Read n s c c'
unfolding read_loop
read_loop_lem zero s c sound cached room positioned = (
  c,
  refl,
  record {
    keeps = record {
      same_disk = refl;
      same_footer = refl;
      same_sparse = refl;
      same_calls = (refl, refl, refl, refl, refl, refl);
    };
    cached = cached;
    reads = λ i. ground arith;
  },
)
read_loop_lem (suc n) s c sound cached room positioned =
    let inside =
      div_below s c.vhdm.sect_per_block c.vhdm.block_offset.size sound.spb_pos (omega arith) in
    let (c', one, step) = read_sector_lem s c sound inside cached (positioned inside) in
    let same = step.keeps.same_disk in
    let sound' = subst Sound (sym same) sound in
    let room' : s + 1 + n ≤ c'.vhdm.block_offset.size * c'.vhdm.sect_per_block =
      subst (λ (d : Disk). s + 1 + n ≤ d.bat.size * d.spb) (sym same) (omega arith) in
    let (c'', more, rest) =
      read_loop_lem n (s + 1) c' sound' step.cached room'
        (Positioned_next s c c' sound sound' step) in
    (c'', rw (one, more) refl, Read-suc n s c c' c'' step rest)
