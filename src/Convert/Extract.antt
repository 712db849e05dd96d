-- ===== src/Convert/Extract.antt =====
-- convert.c: the loop of mvhd_convert_to_raw writes the sectors of a dynamic image to a raw one.
use mini_vhd.Prelude.{
  ℕ, zero, suc, ◌+◌, ◌-◌, ◌*◌, ◌/◌, ◌%◌, ◌^◌, ◌≤◌, ◌<◌, ◌≡◌, refl, sym, ap, ◌∙◌, subst, arith, min,
  u32, ltb, Option, none, some, Bool-cases, inl, inr, List, [], ◌∷◌,
}
use mini_vhd.Memory.{Mem}
use mini_vhd.Stdio.{File, write}
use mini_vhd.Stdio.Writes.{write-new}
use mini_vhd.Layout.{Footer}
use mini_vhd.Image.{Meta, Disk, disk, sparse_read as by_sparse_read}
use mini_vhd.Io.{total_sectors, Transfer}
use mini_vhd.Io.Diff.{ChainTransfer}
use mini_vhd.Io.View.{sector_byte, Sound, Cached}
use mini_vhd.Io.SparseRead.{Returned, sparse_read-Returned}
use mini_vhd.Io.SparseRead.Enter.{Keeps, Keeps-refl, Keeps-trans}
use mini_vhd.Manage.Sectors.{read_sectors, call_read, alone}
use mini_vhd.Convert.{chunk, raw_loop}

-- The first `e` sectors of the disk are in the file, which ends behind them.
pub record Extracted (d : Disk) (e : ℕ) (raw : File) : Type 0 where
  pub at_end : raw.pos ≡ e * 512
  pub size : raw.size ≡ e * 512
  pub holds : (s j : ℕ) → s < e → j < 512 → raw.byte (s * 512 + j) ≡ sector_byte d s j

-- An image whose first `total` sectors can be read.
pub record CanRead (m : Meta) (total : ℕ) : Type 0 where
  pub sound : Sound (disk m)
  pub cached : Cached m
  pub covered : total_sectors m ≤ m.block_offset.size * m.sect_per_block
  pub within : total ≤ total_sectors m
  pub reads : m.read_sectors ≡ by_sparse_read

CanRead-Keeps :
    (m m' : Meta) (total : ℕ) → Keeps m m' → Cached m' → CanRead m total → CanRead m' total
CanRead-Keeps m m' total keeps cached can =
    let sectors : total_sectors m' ≡ total_sectors m =
      ap (λ (f : Footer). u32 (f.curr_sz / 512)) keeps.same_footer in
    let capacity : m'.block_offset.size * m'.sect_per_block
        ≡ m.block_offset.size * m.sect_per_block =
      ap (λ (d : Disk). d.bat.size * d.spb) keeps.same_disk in
    record {
      sound = subst Sound (sym keeps.same_disk) can.sound;
      cached = cached;
      covered = omega (arith, sectors, capacity, can.covered);
      within = omega (arith, sectors, can.within);
      reads = keeps.same_calls.2 ∙ can.reads;
    }

-- One call of mvhd_read_sectors on the disk.
read_part :
    (m : Meta) (total i n : ℕ) (buff : Mem)
    → CanRead m total
    → i + n ≤ total
    → (t : Transfer) × (read_sectors (m ∷ []) i n buff
        ≡ some (record { chain = t.vhdm ∷ []; mem = t.mem; truncated = t.truncated }))
      × Returned m i n buff t
unfolding read_sectors call_read
read_part m total i n buff can inside =
    let below : total_sectors m < 2 ^ 32 = omega arith in
    let whole : min n (total_sectors m - i) ≡ n = omega (arith, can.within) in
    let (t, runs, cut, done) =
      sparse_read-Returned m i n buff can.sound can.cached can.covered (omega (arith, can.within))
        (omega (arith, can.within)) in
    (
      t,
      ap (λ calls. call_read calls m [] i n buff) can.reads ∙ ap (alone []) runs,
      subst (λ k. Returned m i k buff t) whole done,
    )

-- The write of a round.
write-Extracted :
    (d : Disk) (e n : ℕ) (raw : File) (mem : Mem)
    → Extracted d e raw
    → ((k : ℕ) → k < n * 512 → mem k ≡ sector_byte d (e + k / 512) (k % 512))
    → Extracted d (e + n) (write raw mem 0 (n * 512))
write-Extracted d e n raw mem done reads = record {
  at_end = omega (arith, done.at_end);
  size = ground (arith, done.at_end, done.size);
  holds = λ s j hs hj. elim (Bool-cases (ltb s e)) [
    | inl before ↦
        let old : s < e = ground arith in
        let place : s * 512 + j < raw.pos = omega (arith, done.at_end) in
        ground (arith, place, done.at_end, done.size) ∙ done.holds s j old hj
    | inr new ↦
        let k = (s - e) * 512 + j in
        let low : e ≤ s = ground arith in
        let place : raw.pos + k ≡ s * 512 + j = omega (arith, done.at_end) in
        let sector : e + k / 512 ≡ s = omega arith in
        let rest : k % 512 ≡ j = omega arith in
        ap (write raw mem 0 (n * 512)).byte (sym place)
        ∙ write-new raw mem 0 (n * 512) k (omega arith)
        ∙ ap mem (omega arith)
        ∙ reads k (omega arith)
        ∙ ap (λ q. sector_byte d q (k % 512)) sector
        ∙ ap (sector_byte d s) rest
  ];
}

raw_loop_step :
    (n i total : ℕ) (chain : List Meta) (buff : Mem) (raw : File) (t : ChainTransfer)
    (r : Option (List Meta × File))
    → read_sectors chain i (chunk i total) buff ≡ some t
    → raw_loop n (i + 8) total t.chain t.mem (write raw t.mem 0 (chunk i total * 512)) ≡ r
    → raw_loop (suc n) i total chain buff raw ≡ r
unfolding raw_loop
raw_loop_step n i total chain buff raw t r reads loops =
    subst
      (λ (o : Option ChainTransfer).
        elim o [
          | none ↦ none
          | some t ↦
              raw_loop n (i + 8) total t.chain t.mem (write raw t.mem 0 (chunk i total * 512))
        ]
        ≡ r)
      (sym reads) loops

-- The loop from a sector `e` on, which is its counter up to the end of the disk.
pub raw_loop-Extracted :
    (n i e total : ℕ) (d : Disk) (m : Meta) (buff : Mem) (raw : File)
    → disk m ≡ d
    → CanRead m total
    → e ≡ min i total
    → total ≤ i + n * 8
    → i + n * 8 < total + 8
    → Extracted d e raw
    → (m' : Meta) × (raw' : File) × (raw_loop n i total (m ∷ []) buff raw ≡ some (m' ∷ [], raw'))
      × Keeps m m'
      × Extracted d total raw'
unfolding raw_loop
raw_loop-Extracted zero i e total d m buff raw same can cut enough few done =
    (m, raw, refl, Keeps-refl m, subst (λ k. Extracted d k raw) (omega arith) done)
raw_loop-Extracted (suc n) i e total d m buff raw same can cut enough few done =
    let more : i < total = omega arith in
    let here : e ≡ i = omega arith in
    let c = chunk i total in
    let fits : i + c ≤ total = ground arith in
    let (t, reads, back) = read_part m total i c buff can fits in
    let next : Extracted d (i + c) (write raw t.mem 0 (c * 512)) =
      write-Extracted d i c raw t.mem (subst (λ k. Extracted d k raw) here done) λ k small.
        back.reads k
        ∙ ground (arith, ap (λ (x : Disk). sector_byte x (i + k / 512) (k % 512)) same) in
    let (m', raw', loops, kept, all) =
      raw_loop-Extracted n (i + 8) (i + c) total d t.vhdm t.mem (write raw t.mem 0 (c * 512))
        (back.keeps.same_disk ∙ same) (CanRead-Keeps m t.vhdm total back.keeps back.cached can)
        (ground arith) (omega arith) (omega arith) next in
    (
      m',
      raw',
      raw_loop_step n i total (m ∷ []) buff raw _ (some (m' ∷ [], raw')) reads loops,
      Keeps-trans m t.vhdm m' back.keeps kept,
      all,
    )
