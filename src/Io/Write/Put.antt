-- ===== src/Io/Write/Put.antt =====
-- Writing one sector, and its bit in the bitmap in memory.
use mini_vhd.Prelude.{
  ℕ, ◌+◌, ◌*◌, ◌/◌, ◌≤◌, ◌<◌, ◌≡◌, ◌≢◌, ◌⊎◌, inl, inr, refl, sym, ap, ◌∙◌, arith,
}
use mini_vhd.Prelude.{true, Bool-cases, ltb, equal_or_not, some}
use mini_vhd.Memory.{update, Mem, Block}
use mini_vhd.Stdio.{write}
use mini_vhd.Stdio.Writes.{write-size, write-kept, write-new}
use mini_vhd.Layout.{sector_size, sparse_blk}
use mini_vhd.Image.{Meta, disk}
use mini_vhd.Io.{Cursor, bit_set, set_bit}
use mini_vhd.Io.Bits.{bit_set-set_bit_same, bit_set-set_bit_other}
use mini_vhd.Io.View.{bitmap_byte}
use mini_vhd.Io.Write.{put_sector}
use mini_vhd.Io.Write.State.{
  Writable, cell, cell-ext_bits, live_byte, live_cell, live_byte-current, live_byte-other, Same,
  stored-if-set, bitmap_byte-sparse, bitmap_byte-stored,
}
use mini_vhd.Io.Write.Persist.{Persists, Persists-inside}
use mathlib.Core.Path.{subst}
use mathlib.Core.Option.{some-injective}

before_or_after : (x q : ℕ) → x / 512 ≢ q → (x < q * 512) ⊎ (q * 512 + 512 ≤ x)
before_or_after x q ne = elim (Bool-cases (ltb x (q * 512))) [
  | inl before ↦ inl (ground arith)
  | inr after ↦ inr (ground arith)
]

-- The bit of sector `k` after that of sector `i` was set in the bitmap.
bit_set-update :
    (at : Mem) (i k : ℕ)
    → k ≢ i
    → bit_set (update at (i / 8) (set_bit (at (i / 8)) i) (k / 8)) k ≡ bit_set (at (k / 8)) k
bit_set-update at i k ne = elim (equal_or_not (k / 8) (i / 8)) [
  | inl same ↦
      ap (λ (v : ℕ). bit_set v k) (updated same)
      ∙ bit_set-set_bit_other (at (i / 8)) i k (λ e. omega arith)
      ∙ ap (λ (p : ℕ). bit_set (at p) k) (sym same)
  | inr other ↦ ap (λ (v : ℕ). bit_set v k) (kept other)
]
  where
    updated :
        k / 8 ≡ i / 8 → update at (i / 8) (set_bit (at (i / 8)) i) (k / 8) ≡ set_bit (at (i / 8)) i
    updated same = ground arith

    kept : k / 8 ≢ i / 8 → update at (i / 8) (set_bit (at (i / 8)) i) (k / 8) ≡ at (k / 8)
    kept other = ground arith

-- The sector is written, every other sector is as it was, and the stream is at the next one.
pub record Put (m : Meta) (blk sib : ℕ) (c c' : Cursor) : Type 0 where
  pub same : Same m c'.vhdm
  pub writable : Writable (disk c'.vhdm) c'.vhdm.sparse.bat_offset
  pub size : c'.vhdm.f.size ≡ m.f.size
  pub bat : c'.vhdm.block_offset ≡ m.block_offset
  pub persists : Persists m c'.vhdm
  pub bitmap_size : c'.vhdm.bitmap.curr_bitmap.size ≡ c'.vhdm.bitmap.sector_count * sector_size
  pub entered : c'.vhdm.bitmap.curr_block ≡ some blk
  pub stored : c'.vhdm.block_offset.at blk ≢ sparse_blk
  pub in_block : c'.prev_blk ≡ some blk
  pub placed :
      c'.vhdm.f.pos
      ≡ (c'.vhdm.block_offset.at blk + c'.vhdm.bitmap.sector_count + sib + 1) * sector_size
  pub buff : c'.buff ≡ c.buff + sector_size
  pub mem : c'.mem ≡ c.mem
  pub written : (j : ℕ) → j < sector_size → live_cell c'.vhdm blk sib j ≡ c.mem (c.buff + j)
  pub others :
      (b k j : ℕ)
      → b < m.block_offset.size
      → k < m.sect_per_block
      → j < sector_size
      → (b ≢ blk) ⊎ (k ≢ sib)
      → live_cell c'.vhdm b k j ≡ live_cell m b k j

module _ (m : Meta) (blk sib : ℕ) (c : Cursor) (w : Writable (disk m) m.sparse.bat_offset)
    (bitmap_size : m.bitmap.curr_bitmap.size ≡ m.bitmap.sector_count * sector_size)
    (current : m.bitmap.curr_block ≡ some blk) (inside : blk < m.block_offset.size)
    (stored : m.block_offset.at blk ≢ sparse_blk) (small : sib < m.sect_per_block)
    (placed : m.f.pos ≡ (m.block_offset.at blk + m.bitmap.sector_count + sib) * sector_size) where
  abbrev bits : Block
  bits = record {
    size = m.bitmap.curr_bitmap.size;
    at = update m.bitmap.curr_bitmap.at (sib / 8) (set_bit (m.bitmap.curr_bitmap.at (sib / 8)) sib);
  }

  abbrev put : Meta
  put = record m {
    f = write m.f c.mem c.buff sector_size;
    bitmap = record m.bitmap { curr_bitmap = bits };
  }

  abbrev next : Cursor
  next = record { vhdm = put; prev_blk = some blk; buff = c.buff + sector_size; mem = c.mem }

  put_sector_runs : put_sector m blk sib c ≡ some next
  unfolding put_sector
  put_sector_runs = ground (arith, w.capacity)

  put_size : put.f.size ≡ m.f.size
  put_size =
      write-size m.f c.mem c.buff sector_size (omega (arith, placed, w.room blk inside stored))

  -- A byte of a block that is not in the sector.
  put_byte :
      (b x : ℕ)
      → b < m.block_offset.size
      → m.block_offset.at b ≢ sparse_blk
      → x < (m.bitmap.sector_count + m.sect_per_block) * sector_size
      → (b ≢ blk) ⊎ (x / sector_size ≢ m.bitmap.sector_count + sib)
      → put.f.byte (m.block_offset.at b * sector_size + x)
        ≡ m.f.byte (m.block_offset.at b * sector_size + x)
  put_byte b x hb sb hx other =
      write-kept m.f c.mem c.buff sector_size _ (omega (arith, w.room b hb sb)) (outside other)
    where
      apart :
          b ≢ blk
          → (m.block_offset.at b * sector_size + x < m.f.pos)
            ⊎ (m.f.pos + sector_size ≤ m.block_offset.at b * sector_size + x)
      apart ne = elim (w.apart b blk hb inside ne sb stored) [
        | inl before ↦ inl (omega (arith, placed))
        | inr past ↦ inr (omega (arith, placed))
      ]

      outside :
          (b ≢ blk) ⊎ (x / sector_size ≢ m.bitmap.sector_count + sib)
          → (m.block_offset.at b * sector_size + x < m.f.pos)
            ⊎ (m.f.pos + sector_size ≤ m.block_offset.at b * sector_size + x)
      outside (inl ne) = apart ne
      outside (inr ne) = elim (equal_or_not b blk) [
        | inl same ↦ elim (before_or_after x (m.bitmap.sector_count + sib) ne) [
          | inl before ↦ inl (omega (arith, placed, ap m.block_offset.at same))
          | inr past ↦ inr (omega (arith, placed, ap m.block_offset.at same))
        ]
        | inr differ ↦ apart differ
      ]

  -- The bitmap of another block.
  put_bitmap :
      (b i : ℕ)
      → b < m.block_offset.size
      → i < m.bitmap.sector_count * sector_size
      → b ≢ blk
      → bitmap_byte (disk put) b i ≡ bitmap_byte (disk m) b i
  put_bitmap b i hb hi ne = elim (equal_or_not (m.block_offset.at b) sparse_blk) [
    | inl sparse ↦
        bitmap_byte-sparse (disk put) b i sparse ∙ sym (bitmap_byte-sparse (disk m) b i sparse)
    | inr here ↦
        bitmap_byte-stored (disk put) b i here
        ∙ put_byte b i hb here (omega arith) (inl ne)
        ∙ sym (bitmap_byte-stored (disk m) b i here)
  ]

  put_bits :
      (b k : ℕ)
      → b < m.block_offset.size
      → k < m.sect_per_block
      → (b ≢ blk) ⊎ (k ≢ sib)
      → bit_set (live_byte put b (k / 8)) k ≡ bit_set (live_byte m b (k / 8)) k
  put_bits b k hb hk other = elim (equal_or_not b blk) [
    | inl same ↦
        let here : m.bitmap.curr_block ≡ some b = current ∙ ap some (sym same) in
        ap (λ (v : ℕ). bit_set v k) (live_byte-current put b (k / 8) here)
        ∙ bit_set-update m.bitmap.curr_bitmap.at sib k (differs same)
        ∙ sym (ap (λ (v : ℕ). bit_set v k) (live_byte-current m b (k / 8) here))
    | inr ne ↦
        let away : m.bitmap.curr_block ≢ some b =
          λ e. ne (some-injective b blk (sym e ∙ current)) in
        ap (λ (v : ℕ). bit_set v k)
          (live_byte-other put b (k / 8) away
            ∙ put_bitmap b (k / 8) hb (omega (arith, w.capacity)) ne
            ∙ sym (live_byte-other m b (k / 8) away))
  ]
    where
      differs : b ≡ blk → k ≢ sib
      differs same e = elim other [ inl ne ↦ ne same | inr ne ↦ ne e ]

  live_stored : (b i k : ℕ) → bit_set (live_byte m b i) k ≡ true → m.block_offset.at b ≢ sparse_blk
  live_stored b i k set = elim (equal_or_not b blk) [
    | inl same ↦ λ e. stored (sym (ap m.block_offset.at same) ∙ e)
    | inr ne ↦ stored-if-set (disk m) b i k (
        ap (λ (v : ℕ). bit_set v k)
          (sym (live_byte-other m b i (λ e. ne (some-injective b blk (sym e ∙ current)))))
        ∙ set)
  ]

  put_cell_other :
      (b k j : ℕ)
      → b < m.block_offset.size
      → k < m.sect_per_block
      → j < sector_size
      → (b ≢ blk) ⊎ (k ≢ sib)
      → live_cell put b k j ≡ live_cell m b k j
  unfolding live_cell
  put_cell_other b k j hb hk hj other =
      cell-ext_bits (disk put) (disk m) _ _ b k j (put_bits b k hb hk other) (λ set.
        subst (λ (x : ℕ). put.f.byte x ≡ m.f.byte x) (omega arith)
          (put_byte b ((m.bitmap.sector_count + k) * sector_size + j) hb
            (live_stored b (k / 8) k (sym (put_bits b k hb hk other) ∙ set)) (omega arith)
            (elim other [ inl ne ↦ inl ne | inr ne ↦ inr (λ e. ne (omega arith)) ])))

  put_cell_same : (j : ℕ) → j < sector_size → live_cell put blk sib j ≡ c.mem (c.buff + j)
  unfolding live_cell cell
  put_cell_same j hj =
      let byte : live_byte put blk (sib / 8) ≡ set_bit (m.bitmap.curr_bitmap.at (sib / 8)) sib =
        live_byte-current put blk (sib / 8) current ∙ ground arith in
      let set = ap (λ (v : ℕ). bit_set v sib) byte ∙ bit_set-set_bit_same _ sib in
      rw set (ap put.f.byte (omega (arith, placed)) ∙ write-new m.f c.mem c.buff sector_size j hj)

  put-Persists : Persists m put
  put-Persists =
      Persists-inside m put refl refl put_size w.table
        λ i h outside. write-kept m.f c.mem c.buff sector_size i h (place i outside)
    where
      place :
          (i : ℕ)
          → (i < m.sparse.bat_offset + m.block_offset.size * 4) ⊎ (m.f.size ≤ i + 512)
          → (i < m.f.pos) ⊎ (m.f.pos + sector_size ≤ i)
      place i (inl before) = inl (omega (arith, placed, w.behind blk inside stored))
      place i (inr behind) = inr (omega (arith, placed, w.room blk inside stored))

  pub put_sector-Put : (c' : Cursor) × (put_sector m blk sib c ≡ some c') × Put m blk sib c c'
  put_sector-Put = (
    next,
    put_sector_runs,
    record {
      same = record {
        footer = refl;
        sparse = refl;
        spb = refl;
        count = refl;
        blocks = refl;
        calls = (refl, refl, refl, refl, refl, refl);
      };
      writable = record {
        spb_pos = w.spb_pos;
        capacity = w.capacity;
        table = omega (arith, put_size, w.table);
        behind = w.behind;
        room = λ b hb sb. omega (arith, put_size, w.room b hb sb);
        apart = w.apart;
      };
      size = put_size;
      bat = refl;
      persists = put-Persists;
      bitmap_size = bitmap_size;
      entered = current;
      stored = stored;
      in_block = refl;
      placed = omega (arith, placed);
      buff = refl;
      mem = refl;
      written = put_cell_same;
      others = put_cell_other;
    },
  )
