-- ===== src/Io/Diff/Step.antt =====
-- One sector of a chain.
use mini_vhd.Prelude.{
  ℕ, ◌+◌, ◌-◌, ◌*◌, ◌/◌, ◌%◌, ◌≤◌, ◌<◌, ◌≡◌, ◌≢◌, inl, inr, refl, sym, ap, ◌∙◌, arith,
}
use mini_vhd.Prelude.{
  ltb, ◌==◌, ◌||◌, true, false, Bool-cases, if◌then◌else◌, none, some, List, ◌∷◌,
}
use mini_vhd.Prelude.{u32}
use mini_vhd.Memory.{Mem, within}
use mini_vhd.Layout.{Footer, sector_size, type_diff, type_dynamic}
use mini_vhd.Image.{Meta, Disk, disk}
use mini_vhd.Io.{Cursor, total_sectors, is_block}
use mini_vhd.Io.View.{present, sector_byte, Sound, Cached}
use mini_vhd.Io.SparseRead.Enter.{Keeps, Entered, is_block→eq, read_sect_bitmap_lem}
use mini_vhd.Io.SparseRead.Sector.{test_bit_lem}
use mini_vhd.Io.SparseRead.Loop.{div_below}
use mini_vhd.Io.SparseRead.{sparse_read-Returned}
use mini_vhd.Io.Fixed.Moves.{fixed_read_lem}
use mini_vhd.Io.Diff.{read_one, find_bit, ends_here, read_head, diff_sector}
use mini_vhd.Io.Diff.Chain.{image_byte, chain_byte, Chain, fixed, dynamic}
use mathlib.Core.Path.{subst}

-- The sector's bytes go to the buffer at `buff`, and nothing else of the memory changes.
pub record Placed (bytes : ℕ → ℕ) (mem : Mem) (buff : ℕ) (mem' : Mem) : Type 0 where
  pub at : (i : ℕ) → mem' i ≡ (if within buff sector_size i then bytes (i - buff) else mem i)

-- The bitmap of the block comes in, and the answer is whether the image has the sector.
pub find_bit_lem :
    (m : Meta) (s : ℕ)
    → Sound (disk m)
    → Cached m
    → s < m.block_offset.size * m.sect_per_block
    → (m' : Meta) × (find_bit m s ≡ some (m', present (disk m) s)) × Keeps m m' × Cached m'
unfolding find_bit
find_bit_lem m s sound cached room =
    let inside = div_below s m.sect_per_block m.block_offset.size sound.spb_pos room in
    let nonzero : (m.sect_per_block == 0) ≡ false = ground (arith, sound.spb_pos) in
    let c : Cursor = record { vhdm = m; prev_blk = none; buff = 0; mem = λ i. 0 } in
    elim (Bool-cases (is_block m.bitmap.curr_block (s / m.sect_per_block))) [
      | inl known ↦
          let entered : Entered m (s / m.sect_per_block) sound inside m m.f.pos = record {
            keeps = record {
              same_disk = refl;
              same_footer = refl;
              same_sparse = refl;
              same_calls = (refl, refl, refl, refl, refl, refl);
            };
            cached = cached;
            entered = is_block→eq m.bitmap.curr_block _ known;
            placed = λ h. refl;
          } in
          (
            m,
            rw (nonzero, known, test_bit_lem s c sound inside m _ entered) refl,
            entered.keeps,
            cached,
          )
      | inr unknown ↦
          let (m', reads, entered) =
            read_sect_bitmap_lem m (s / m.sect_per_block) sound inside cached.bitmap_size in
          (
            m',
            rw (nonzero, unknown, reads, test_bit_lem s c sound inside m' _ entered) refl,
            entered.keeps,
            entered.cached,
          )
    ]

sector_place :
    (d : Disk) (s x : ℕ) → x < 512 → sector_byte d (s + x / 512) (x % 512) ≡ sector_byte d s x
sector_place d s x h =
    let quotient : s + x / 512 ≡ s = omega arith in
    let remainder : x % 512 ≡ x = omega arith in rw (quotient, remainder) refl

pub read_sparse :
    (m : Meta) (s n : ℕ) (mem : Mem) (buff : ℕ)
    → ((m.footer.disk_type == type_diff) || (m.footer.disk_type == type_dynamic)) ≡ true
    → n ≤ total_sectors m
    → s < n
    → Sound (disk m)
    → Cached m
    → total_sectors m ≤ m.block_offset.size * m.sect_per_block
    → (m' : Meta) × (mem' : Mem) × (read_one m s mem buff ≡ some (m', mem'))
      × Keeps m m'
      × Cached m'
      × Placed (sector_byte (disk m) s) mem buff mem'
unfolding read_one
read_sparse m s n mem buff is_sparse large hs sound cached covered =
    let (t, reads, cut, done) =
      sparse_read-Returned m s 1 (λ i. mem (buff + i)) sound cached covered (omega arith)
        (omega arith) in
    let same_place = λ (x : ℕ) (h : x < 512). sector_place (disk m) s x h in
    (
      t.vhdm,
      λ i. if ltb i buff then mem i else t.mem (i - buff),
      rw (is_sparse, reads) refl,
      done.keeps,
      done.cached,
      record { at = λ i. ground (arith, done.reads (i - buff), same_place (i - buff)) },
    )

read_fixed :
    (m : Meta) (s n : ℕ) (mem : Mem) (buff : ℕ)
    → m.footer.disk_type ≢ type_diff
    → m.footer.disk_type ≢ type_dynamic
    → n ≤ total_sectors m
    → s < n
    → total_sectors m * sector_size ≤ m.f.size
    → (m' : Meta) × (mem' : Mem) × (read_one m s mem buff ≡ some (m', mem'))
      × Keeps m m'
      × Placed (λ j. m.f.byte (s * sector_size + j)) mem buff mem'
unfolding read_one
read_fixed m s n mem buff not_diff not_dynamic large hs whole =
    let (t, reads, cut, keeps, moves) =
      fixed_read_lem m s 1 whole (omega arith) (omega arith) (λ i. mem (buff + i)) in
    let is_fixed : ((m.footer.disk_type == type_diff) || (m.footer.disk_type == type_dynamic))
        ≡ false =
      ground arith in
    (
      t.vhdm,
      λ i. if ltb i buff then mem i else t.mem (i - buff),
      rw (is_fixed, reads) refl,
      keeps,
      record { at = λ i. ground (arith, moves (i - buff)) },
    )

-- What reading sector `s` of a chain leaves behind.
pub record SectorRead (n s : ℕ) (chain : List Meta) (mem : Mem) (buff : ℕ) (r : List Meta × Mem)
    : Type 0 where
  pub healthy : Chain n r.0
  pub kept : (t j : ℕ) → chain_byte r.0 t j ≡ chain_byte chain t j
  pub placed : Placed (chain_byte chain s) mem buff r.1

pub same_type : (m m' : Meta) → Keeps m m' → m'.footer.disk_type ≡ m.footer.disk_type
same_type m m' keeps = ap (λ (f : Footer). f.disk_type) keeps.same_footer

pub same_total : (m m' : Meta) → Keeps m m' → total_sectors m' ≡ total_sectors m
same_total m m' keeps = ap (λ (f : Footer). u32 (f.curr_sz / sector_size)) keeps.same_footer

pub covers :
    (m m' : Meta)
    → Keeps m m'
    → total_sectors m ≤ m.block_offset.size * m.sect_per_block
    → total_sectors m' ≤ m'.block_offset.size * m'.sect_per_block
covers m m' keeps h =
    subst (λ (d : Disk). total_sectors m' ≤ d.bat.size * d.spb) (sym keeps.same_disk)
      (omega (arith, same_total m m' keeps))

pub head_kept :
    (m m' : Meta) (parents : List Meta)
    → Keeps m m'
    → (t j : ℕ) → chain_byte (m' ∷ parents) t j ≡ chain_byte (m ∷ parents) t j
unfolding chain_byte
head_kept m m' parents keeps t j =
    ap (λ (k : ℕ). image_byte k (disk m') t j (chain_byte parents t j)) (same_type m m' keeps)
    ∙ ap (λ (d : Disk). image_byte m.footer.disk_type d t j (chain_byte parents t j))
        keeps.same_disk

pub read_head_runs :
    (m m1 m' : Meta) (parents : List Meta) (s : ℕ) (mem mem' : Mem) (buff : ℕ)
    → ends_here m s ≡ some (m1, true)
    → read_one m1 s mem buff ≡ some (m', mem')
    → diff_sector (m ∷ parents) s mem buff ≡ some (m' ∷ parents, mem')
unfolding diff_sector read_head
read_head_runs m m1 m' parents s mem mem' buff ends reads = rw (ends, reads) refl

ends-not_diff : (m : Meta) (s : ℕ) → m.footer.disk_type ≢ type_diff → ends_here m s ≡ some (m, true)
unfolding ends_here
ends-not_diff m s h =
    let off : (m.footer.disk_type == type_diff) ≡ false = ground arith in rw off refl

pub fixed_sector :
    (n s : ℕ) (m : Meta) (parents : List Meta) (mem : Mem) (buff : ℕ)
    → m.footer.disk_type ≢ type_diff
    → m.footer.disk_type ≢ type_dynamic
    → n ≤ total_sectors m
    → total_sectors m * sector_size ≤ m.f.size
    → s < n
    → (r : List Meta × Mem) × (diff_sector (m ∷ parents) s mem buff ≡ some r)
      × SectorRead n s (m ∷ parents) mem buff r
unfolding chain_byte image_byte
fixed_sector n s m parents mem buff nd ny large whole hs =
    let (m', mem', reads, keeps, placed) = read_fixed m s n mem buff nd ny large hs whole in
    let same = same_type m m' keeps in
    let not_diff : (m.footer.disk_type == type_diff) ≡ false = ground arith in
    let not_dynamic : (m.footer.disk_type == type_dynamic) ≡ false = ground arith in
    (
      (m' ∷ parents, mem'),
      read_head_runs m m m' parents s mem mem' buff (ends-not_diff m s nd) reads,
      record {
        healthy =
            fixed (λ e. nd (sym same ∙ e)) (λ e. ny (sym same ∙ e))
              (omega (arith, same_total m m' keeps))
              (omega (arith, same_total m m' keeps, ap (λ (d : Disk). d.size) keeps.same_disk));
        kept = head_kept m m' parents keeps;
        placed = record { at = λ i. rw (not_diff, not_dynamic) (placed.at i) };
      },
    )

image_byte-dynamic :
    (disk_type : ℕ) (d : Disk) (s j below : ℕ)
    → disk_type ≡ type_dynamic
    → image_byte disk_type d s j below ≡ sector_byte d s j
unfolding image_byte
image_byte-dynamic disk_type d s j below is = ap (λ (k : ℕ). image_byte k d s j below) is

pub dynamic_sector :
    (n s : ℕ) (m : Meta) (parents : List Meta) (mem : Mem) (buff : ℕ)
    → m.footer.disk_type ≡ type_dynamic
    → n ≤ total_sectors m
    → Sound (disk m)
    → Cached m
    → total_sectors m ≤ m.block_offset.size * m.sect_per_block
    → s < n
    → (r : List Meta × Mem) × (diff_sector (m ∷ parents) s mem buff ≡ some r)
      × SectorRead n s (m ∷ parents) mem buff r
unfolding chain_byte
dynamic_sector n s m parents mem buff is large sound cached covered hs =
    let either : ((m.footer.disk_type == type_diff) || (m.footer.disk_type == type_dynamic))
        ≡ true =
      ground arith in
    let (m', mem', reads, keeps, cached', placed) =
      read_sparse m s n mem buff either large hs sound cached covered in
    (
      (m' ∷ parents, mem'),
      read_head_runs m m m' parents s mem mem' buff (ends-not_diff m s (λ e. absurd (omega arith)))
          reads,
      record {
        healthy =
            dynamic (same_type m m' keeps ∙ is) (omega (arith, same_total m m' keeps))
              (subst Sound (sym keeps.same_disk) sound) cached' (covers m m' keeps covered);
        kept = head_kept m m' parents keeps;
        placed = record {
          at = λ i.
              placed.at i
              ∙ ap (λ (x : ℕ). if within buff sector_size i then x else mem i)
                  (sym (image_byte-dynamic m.footer.disk_type (disk m) s (i - buff) _ is));
        };
      },
    )
