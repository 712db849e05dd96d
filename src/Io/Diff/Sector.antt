-- ===== src/Io/Diff/Sector.antt =====
-- A sector of a differencing image: its own, or its parent's.
use mini_vhd.Prelude.{ℕ, ◌*◌, ◌≤◌, ◌<◌, ◌≡◌, inl, inr, refl, sym, ap, ◌∙◌, arith}
use mini_vhd.Prelude.{◌==◌, ◌||◌, true, false, Bool-cases, some, List, [], ◌∷◌}
use mini_vhd.Memory.{Mem}
use mini_vhd.Layout.{type_diff, type_dynamic}
use mini_vhd.Image.{Meta, Disk, disk}
use mini_vhd.Io.{total_sectors}
use mini_vhd.Io.View.{present, sector_byte, Sound, Cached}
use mini_vhd.Io.SparseRead.Enter.{Keeps, Keeps-trans}
use mini_vhd.Prelude.{Bool}
use mini_vhd.Io.Diff.{find_bit, ends_here, diff_sector}
use mini_vhd.Io.Diff.Chain.{image_byte, chain_byte, Chain, fixed, dynamic, differencing}
use mini_vhd.Io.Diff.Step.{
  Placed, SectorRead, find_bit_lem, read_sparse, read_head_runs, same_type, same_total, covers,
  head_kept, fixed_sector, dynamic_sector,
}
use mathlib.Core.Path.{subst}

module _ (n s : ℕ) (m : Meta) (parents : List Meta) (mem : Mem) (buff : ℕ)
    (is : m.footer.disk_type ≡ type_diff) (large : n ≤ total_sectors m) (sound : Sound (disk m))
    (cached : Cached m) (covered : total_sectors m ≤ m.block_offset.size * m.sect_per_block)
    (hs : s < n) where
  is_diff : (m.footer.disk_type == type_diff) ≡ true
  is_diff = ground arith

  ends-find_bit :
      (m1 : Meta) (here : Bool) → find_bit m s ≡ some (m1, here) → ends_here m s ≡ some (m1, here)
  unfolding ends_here
  ends-find_bit m1 here found = rw is_diff found

  still_diff :
      (m' : Meta) (parents' : List Meta)
      → Keeps m m'
      → Cached m'
      → Chain n parents'
      → Chain n (m' ∷ parents')
  still_diff m' parents' keeps cached' rest =
      differencing (same_type m m' keeps ∙ is) (omega (arith, same_total m m' keeps))
        (subst Sound (sym keeps.same_disk) sound) cached' (covers m m' keeps covered) rest

  own_sector :
      (m1 : Meta)
      → Keeps m m1
      → Cached m1
      → Chain n parents
      → present (disk m) s ≡ true
      → ends_here m s ≡ some (m1, true)
      → (r : List Meta × Mem) × (diff_sector (m ∷ parents) s mem buff ≡ some r)
        × SectorRead n s (m ∷ parents) mem buff r
  unfolding chain_byte image_byte
  own_sector m1 keeps cached1 rest here ends =
      let same = same_type m m1 keeps in
      let either : ((m1.footer.disk_type == type_diff) || (m1.footer.disk_type == type_dynamic))
          ≡ true =
        ground (arith, same) in
      let (m2, mem', reads, keeps', cached2, placed) =
        read_sparse m1 s n mem buff either (omega (arith, same_total m m1 keeps)) hs
          (subst Sound (sym keeps.same_disk) sound) cached1 (covers m m1 keeps covered) in
      let all = Keeps-trans m m1 m2 keeps keeps' in
      let placed' =
        subst (λ (d : Disk). Placed (sector_byte d s) mem buff mem') keeps.same_disk placed in
      (
        (m2 ∷ parents, mem'),
        read_head_runs m m1 m2 parents s mem mem' buff ends reads,
        record {
          healthy = still_diff m2 parents all cached2 rest;
          kept = head_kept m m2 parents all;
          placed = record { at = λ i. rw (is_diff, here) (placed'.at i) };
        },
      )

  parent_runs :
      (m1 : Meta) (r : List Meta × Mem)
      → ends_here m s ≡ some (m1, false)
      → diff_sector parents s mem buff ≡ some r
      → diff_sector (m ∷ parents) s mem buff ≡ some (m1 ∷ r.0, r.1)
  unfolding diff_sector
  parent_runs m1 r ends reads = rw (ends, reads) refl

  parent_sector :
      (m1 : Meta) (r : List Meta × Mem)
      → Keeps m m1
      → Cached m1
      → present (disk m) s ≡ false
      → SectorRead n s parents mem buff r
      → SectorRead n s (m ∷ parents) mem buff (m1 ∷ r.0, r.1)
  unfolding chain_byte image_byte
  parent_sector m1 r keeps cached1 absent done = record {
    healthy = still_diff m1 r.0 keeps cached1 done.healthy;
    kept = λ t j.
        head_kept m m1 r.0 keeps t j
        ∙ ap (image_byte m.footer.disk_type (disk m) t j) (done.kept t j);
    placed = record { at = λ i. rw (is_diff, absent) (done.placed.at i) };
  }

  diff_sector_here :
      Chain n parents
      → ((r : List Meta × Mem) × (diff_sector parents s mem buff ≡ some r)
          × SectorRead n s parents mem buff r)
      → (r : List Meta × Mem) × (diff_sector (m ∷ parents) s mem buff ≡ some r)
        × SectorRead n s (m ∷ parents) mem buff r
  diff_sector_here rest deeper =
      let (m1, finds, keeps, cached1) = find_bit_lem m s sound cached (omega arith) in
      elim (Bool-cases (present (disk m) s)) [
        | inl here ↦
            own_sector m1 keeps cached1 rest here
              (ends-find_bit m1 true (finds ∙ ap (λ b. some (m1, b)) here))
        | inr absent ↦
            let (r, reads, done) = deeper in
            (
              (m1 ∷ r.0, r.1),
              parent_runs m1 r (ends-find_bit m1 false (finds ∙ ap (λ b. some (m1, b)) absent))
                  reads,
              parent_sector m1 r keeps cached1 absent done,
            )
      ]

pub diff_sector_lem :
    (n s : ℕ) (chain : List Meta) (mem : Mem) (buff : ℕ)
    → Chain n chain
    → s < n
    → (r : List Meta × Mem) × (diff_sector chain s mem buff ≡ some r)
      × SectorRead n s chain mem buff r
diff_sector_lem n s [] mem buff chained hs = elim chained [ ]
diff_sector_lem n s (m ∷ parents) mem buff (fixed nd ny large whole) hs =
    fixed_sector n s m parents mem buff nd ny large whole hs
diff_sector_lem n s (m ∷ parents) mem buff (dynamic is large sound cached covered) hs =
    dynamic_sector n s m parents mem buff is large sound cached covered hs
diff_sector_lem n s (m ∷ parents) mem buff (differencing is large sound cached covered rest) hs =
    diff_sector_here n s m parents mem buff is large sound cached covered hs rest
      (diff_sector_lem n s parents mem buff rest hs)
