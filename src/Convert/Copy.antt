-- ===== src/Convert/Copy.antt =====
-- convert.c: the loop of mvhd_convert_to_vhd_sparse puts the raw image into an image without blocks.
use mini_vhd.Prelude.{
  ℕ, zero, suc, ◌+◌, ◌-◌, ◌*◌, ◌≤◌, ◌<◌, ◌≡◌, refl, sym, ap, ◌∙◌, subst, arith, min, ltb, true,
  if◌then◌else◌, Option, none, some, Bool-cases, inl, inr,
}
use mini_vhd.Memory.{Mem, within}
use mini_vhd.Stdio.{File, read_mem, after_read}
use mini_vhd.Image.{Meta, disk}
use mini_vhd.Io.View.{sector_byte, Cached}
use mini_vhd.Io.Write.State.{Writable, Same, Same-refl, Same-trans}
use mini_vhd.Io.Write.Room.{Grows, Grows-refl}
use mini_vhd.Io.Write.Persist.{Persists, Persists-refl, Persists-trans}
use mini_vhd.Manage.Sectors.Format.{Formattable, Formattable-rest, write_part, capacity-Same}
use mini_vhd.Convert.{all_zero, chunk, cleared, put_chunk, sparse_loop}

all_zero-zero : (n : ℕ) (buff : Mem) (k : ℕ) → all_zero n buff ≡ true → k < n → buff k ≡ 0
unfolding all_zero
all_zero-zero zero buff k e h = absurd (omega arith)
all_zero-zero (suc n) buff k e h = elim (Bool-cases (ltb k n)) [
  | inl before ↦ all_zero-zero n buff k (ground arith) (ground arith)
  | inr last ↦ let here : k ≡ n = ground arith in ap buff here ∙ ground arith
]

-- The first `i` sectors are those of the raw image, and the others are zero.
abbrev pub Copied : Mem → ℕ → ℕ → Meta → Type 0
Copied raw total i m =
    (s j : ℕ)
    → s < total
    → j < 512
    → sector_byte (disk m) s j ≡ (if ltb s i then raw (s * 512 + j) else 0)

-- What the loop keeps of the handle.
pub record Going (m m' : Meta) : Type 0 where
  pub same : Same m m'
  pub writable : Writable (disk m') m'.sparse.bat_offset
  pub cached : Cached m'
  pub persists : Persists m m'

read_mem-byte :
    (f : File) (dst : Mem) (n k : ℕ)
    → k < n
    → f.pos + n ≤ f.size
    → read_mem f dst 0 n k ≡ f.byte (f.pos + k)
read_mem-byte f dst n k small inside = ground arith

module _ (total : ℕ) (raw : File) (size : raw.size ≡ total * 512) where
  chunk-le : (i : ℕ) → chunk i total ≤ total - i
  chunk-le i = ground arith

  chunk-le_8 : (i : ℕ) → chunk i total ≤ 8
  chunk-le_8 i = ground arith

  -- Sectors of zeros are there when they are skipped.
  skipped :
      (i s j : ℕ)
      → ((k : ℕ) → k < chunk i total * 512 → raw.byte (i * 512 + k) ≡ 0)
      → j < 512
      → (if ltb s i then raw.byte (s * 512 + j) else 0)
        ≡ (if ltb s (i + chunk i total) then raw.byte (s * 512 + j) else 0)
  skipped i s j zeros hj = elim (Bool-cases (ltb s i)) [
    | inl before ↦
        let inside : ltb s (i + chunk i total) ≡ true = let n = chunk i total in ground arith in
        rw (before, inside) refl
    | inr later ↦ elim (Bool-cases (ltb s (i + chunk i total))) [
      | inl inside ↦
          let low : i ≤ s = ground arith in
          let high : s < i + chunk i total = ground arith in
          let place : i * 512 + ((s - i) * 512 + j) ≡ s * 512 + j = omega arith in
          rw (later, inside)
            (sym (ap raw.byte (sym place) ∙ zeros ((s - i) * 512 + j) (omega arith)))
      | inr behind ↦ rw (later, behind) refl
    ]
  ]

  merged :
      (i c s j old : ℕ) (buff : Mem) {new : ℕ}
      → new ≡ (if within i c s then buff ((s - i) * 512 + j) else old)
      → old ≡ (if ltb s i then raw.byte (s * 512 + j) else 0)
      → ((k : ℕ) → k < c * 512 → buff k ≡ raw.byte (i * 512 + k))
      → j < 512
      → new ≡ (if ltb s (i + c) then raw.byte (s * 512 + j) else 0)
  merged i c s j old buff wrote copied holds hj = elim (Bool-cases (within i c s)) [
    | inl inside ↦
        let low : i ≤ s = ground arith in
        let high : s < i + c = ground arith in
        let place : i * 512 + ((s - i) * 512 + j) ≡ s * 512 + j = omega arith in
        let now : ltb s (i + c) ≡ true = ground arith in
        wrote ∙ rw (inside, now) (holds ((s - i) * 512 + j) (omega arith) ∙ ap raw.byte place)
    | inr outside ↦
        let same : ltb s (i + c) ≡ ltb s i = ground arith in wrote ∙ rw (outside, same) copied
  ]

  -- The buffer of a round.
  abbrev round_buff : ℕ → Mem → Mem
  round_buff i buff = read_mem raw (cleared i total buff) 0 (chunk i total * 512)

  round_buff-raw :
      (i : ℕ) (buff : Mem) (k : ℕ)
      → raw.pos ≡ i * 512
      → i < total
      → k < chunk i total * 512
      → round_buff i buff k ≡ raw.byte (i * 512 + k)
  round_buff-raw i buff k at more small =
      let fits = chunk-le i in
      read_mem-byte raw (cleared i total buff) (chunk i total * 512) k small
        (omega (arith, size, at, fits))
      ∙ ap (λ p. raw.byte (p + k)) at

  -- One round of the loop, without the reading.
  put_chunk-Copied :
      (i : ℕ) (m : Meta) (buff : Mem)
      → Formattable m i (total - i)
      → total ≤ m.block_offset.size * m.sect_per_block
      → Copied raw.byte total i m
      → i < total
      → ((k : ℕ) → k < chunk i total * 512 → buff k ≡ raw.byte (i * 512 + k))
      → (m' : Meta) × (put_chunk m i (chunk i total) buff ≡ some m')
        × Copied raw.byte total (i + chunk i total) m'
        × Going m m'
        × (added : ℕ) × (added ≤ chunk i total)
        × Grows m m' added
  unfolding put_chunk
  put_chunk-Copied i m buff ready covers copied more holds =
      let some_sector : 0 < chunk i total = ground arith in
      elim (Bool-cases (all_zero 4096 buff)) [
        | inl zeros ↦ (
          m,
          rw zeros refl,
          λ s j hs hj.
              copied s j hs hj
              ∙ skipped i s j
                  (λ k h.
                    sym (holds k h) ∙ all_zero-zero 4096 buff k zeros (omega (arith, chunk-le_8 i)))
                  hj,
          record {
            same = Same-refl m;
            writable = ready.writable;
            cached = ready.cached;
            persists = Persists-refl m;
          },
          0,
          omega arith,
          Grows-refl m,
        )
        | inr other ↦
            let (t, runs, done) =
              write_part m i (total - i) (chunk i total) buff ready (chunk-le i) some_sector in
            (
              t.vhdm,
              rw (other, runs) refl,
              λ s j hs hj.
                  merged i (chunk i total) s j (sector_byte (disk m) s j) buff
                    (done.writes s j (omega (arith, covers)) hj) (copied s j hs hj) holds hj,
              record {
                same = done.same;
                writable = done.writable;
                cached = done.cached;
                persists = done.persists;
              },
              done.added,
              done.few,
              done.grows,
            )
      ]

sparse_loop_step :
    (n i total : ℕ) (m m1 : Meta) (raw : File) (buff : Mem) (r : Option Meta)
    → put_chunk m i (chunk i total) (read_mem raw (cleared i total buff) 0 (chunk i total * 512))
      ≡ some m1
    → sparse_loop n
        (i + 8)
        total
        m1
        (after_read raw (chunk i total * 512))
        (read_mem raw (cleared i total buff) 0 (chunk i total * 512))
      ≡ r
    → sparse_loop (suc n) i total m raw buff ≡ r
unfolding sparse_loop
sparse_loop_step n i total m m1 raw buff r puts loops =
    subst
      (λ (o : Option Meta).
        elim o [
          | none ↦ none
          | some vhdm ↦
              sparse_loop n (i + 8) total vhdm (after_read raw (chunk i total * 512))
                (read_mem raw (cleared i total buff) 0 (chunk i total * 512))
        ]
        ≡ r)
      (sym puts) loops

-- The loop from a sector `e` on, which is its counter up to the end of the disk.
pub sparse_loop-Copied :
    (n i e total : ℕ) (m : Meta) (raw : File) (buff : Mem)
    → raw.size ≡ total * 512
    → raw.pos ≡ e * 512
    → e ≡ min i total
    → total ≤ i + n * 8
    → i + n * 8 < total + 8
    → Formattable m e (total - e)
    → total ≤ m.block_offset.size * m.sect_per_block
    → Copied raw.byte total e m
    → (m' : Meta) × (sparse_loop n i total m raw buff ≡ some m')
      × Copied raw.byte total total m'
      × Going m m'
unfolding sparse_loop
sparse_loop-Copied zero i e total m raw buff size at cut enough few ready covers copied = (
  m,
  refl,
  subst (λ k. Copied raw.byte total k m) (omega arith) copied,
  record {
    same = Same-refl m;
    writable = ready.writable;
    cached = ready.cached;
    persists = Persists-refl m;
  },
)
sparse_loop-Copied (suc n) i e total m raw buff size at cut enough few ready covers copied =
    let more : i < total = omega arith in
    let here : e ≡ i = omega arith in
    let at_i : raw.pos ≡ i * 512 = omega arith in
    let c = chunk i total in
    let fits = chunk-le total raw size i in
    let ready_i : Formattable m i (total - i) =
      subst (λ k. Formattable m k (total - k)) here ready in
    let filled = round_buff total raw size i buff in
    let (m1, puts, copied1, going, added, few_added, grows) =
      put_chunk-Copied total raw size i m filled ready_i covers
        (subst (λ k. Copied raw.byte total k m) here copied) more
        (λ k small. round_buff-raw total raw size i buff k at_i more small) in
    let left : Formattable m1 (i + c) (total - (i + c)) =
      Formattable-rest m m1 i c (total - (i + c)) added
        (subst (Formattable m i) (omega arith) ready_i) going.same going.writable going.cached grows
        few_added in
    let moved : (after_read raw (c * 512)).pos ≡ (i + c) * 512 = omega arith in
    let next : i + c ≡ min (i + 8) total = ground arith in
    let (m', loops, done, gone) =
      sparse_loop-Copied n (i + 8) (i + c) total m1 (after_read raw (c * 512)) filled size moved
        next (omega arith) (omega arith) left
        (subst (λ k. total ≤ k) (sym (capacity-Same m m1 going.same)) covers) copied1 in
    (
      m',
      sparse_loop_step n i total m m1 raw buff (some m') puts loops,
      done,
      record {
        same = Same-trans m m1 m' going.same gone.same;
        writable = gone.writable;
        cached = gone.cached;
        persists = Persists-trans m m1 m' going.persists gone.persists;
      },
    )
