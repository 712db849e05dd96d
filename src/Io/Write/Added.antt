-- ===== src/Io/Write/Added.antt =====
-- The file and the table with the block that create_block adds.
use mini_vhd.Prelude.{ℕ, ◌+◌, ◌*◌, ◌/◌, ◌≤◌, ◌<◌, ◌≡◌, ◌≢◌, ◌⊎◌, inl, inr, ap, ◌∙◌, sym, arith}
use mini_vhd.Prelude.{equal_or_not, some, u32}
use mini_vhd.Prelude.{◌-◌, ltb, Bool-cases}
use mini_vhd.Memory.{update, of_list, Block, Mem}
use mini_vhd.Endian.{store_le, to_be32}
use mini_vhd.Stdio.{File, write, seek_set}
use mini_vhd.Stdio.Writes.{write-size, write-kept, write-new}
use mini_vhd.Layout.{sector_size, sparse_blk}
use mini_vhd.Image.{Meta, disk}
use mini_vhd.Io.View.{bitmap_byte}
use mini_vhd.Io.Write.{
  zero_bytes, create_block, write_bat_entry, take_footer, pad_to_sector, append_block,
}
use mini_vhd.Io.Write.Append.{
  take_footer_found, append_block_footer, Appended, append_block-Appended, take_footer-Start,
}
use mini_vhd.Io.Write.State.{
  Writable, disk_cell, cell-ext, stored-if-set, bitmap_byte-sparse, bitmap_byte-stored,
}
use mini_vhd.Io.Write.Persist.{Persists}
use mini_vhd.Cookie.Last.{is_conectix_str-last}
use mini_vhd.Endian.At.{word_at, word_at-ext, word_at-store_le}
use mathlib.Core.Path.{subst}

module _ (m : Meta) (blk : ℕ) (w : Writable (disk m) m.sparse.bat_offset)
    (block_size : m.sparse.block_sz / sector_size ≡ m.sect_per_block)
    (small : m.f.size + 512 ≤ 0xffffffff * 512) (inside : blk < m.block_offset.size)
    (sparse : m.block_offset.at blk ≡ sparse_blk) where
  abbrev pub padded : File
  padded = pad_to_sector (take_footer m.f).0

  abbrev pub place : ℕ
  place = padded.pos / sector_size

  abbrev pub appended : File
  appended =
      append_block padded (take_footer m.f).1
        (m.bitmap.sector_count + m.sparse.block_sz / sector_size)

  abbrev pub table : Block
  table = record { size = m.block_offset.size; at = update m.block_offset.at blk (u32 place) }

  abbrev pub at_entry : File
  at_entry = seek_set appended (m.sparse.bat_offset + blk * 4)

  abbrev pub entry : Mem
  entry = of_list (store_le 4 (to_be32 (table.at blk)))

  abbrev pub created : Meta
  created = record m { f = write at_entry entry 0 4; block_offset = table }

  pub appended-Appended :
      Appended m.f appended place (m.bitmap.sector_count + m.sparse.block_sz / sector_size)
  appended-Appended =
      append_block-Appended m.f (take_footer m.f).0 (take_footer m.f).1 _
        (take_footer-Start m.f (omega (arith, w.table)))

  pub create_block_runs : create_block m blk ≡ some created
  unfolding create_block write_bat_entry
  create_block_runs = ground (arith, w.table)

  pub new_place : table.at blk ≡ place
  new_place = ground (arith, appended-Appended.near)

  pub old_place : (b : ℕ) → b ≢ blk → table.at b ≡ m.block_offset.at b
  old_place b ne = ground arith

  pub size_created : created.f.size ≡ (place + m.bitmap.sector_count + m.sect_per_block + 6) * 512
  size_created =
      write-size at_entry entry 0 4
        (omega (arith, w.table, appended-Appended.after, appended-Appended.size))
      ∙ omega (arith, appended-Appended.size)

  kept :
      (i : ℕ)
      → i + 512 < m.f.size
      → m.sparse.bat_offset + m.block_offset.size * 4 ≤ i
      → created.f.byte i ≡ m.f.byte i
  kept i before behind =
      write-kept at_entry entry 0 4 i
        (omega (arith, appended-Appended.after, appended-Appended.size)) (inr (omega arith))
      ∙ appended-Appended.kept i before

  zeros :
      (x : ℕ)
      → x < (m.bitmap.sector_count + m.sect_per_block) * 512
      → created.f.byte (place * 512 + x) ≡ 0
  zeros x h =
      write-kept at_entry entry 0 4 _ (omega (arith, appended-Appended.size))
        (inr (omega (arith, w.table, appended-Appended.after)))
      ∙ appended-Appended.zeros _ (omega arith) (omega arith)

  -- The file ends in the footer that was taken.
  pub footer_created :
      (i : ℕ) → i < 512 → created.f.byte (created.f.size - 512 + i) ≡ (take_footer m.f).1 i
  footer_created i h =
      ap created.f.byte end_place
      ∙ write-kept at_entry entry 0 4 _ (omega (arith, block_size, appended-Appended.size))
          (inr (omega (arith, block_size, w.table, appended-Appended.after)))
      ∙ append_block_footer m.f (take_footer m.f).0 (take_footer m.f).1
          (m.bitmap.sector_count + m.sparse.block_sz / sector_size) i
          (take_footer-Start m.f (omega (arith, w.table))) h
    where
      end_place :
          created.f.size - 512 + i
          ≡ (place + (m.bitmap.sector_count + m.sparse.block_sz / sector_size) + 5) * 512 + i
      end_place = omega (arith, size_created, block_size)

  stored-created : (b : ℕ) → b ≢ blk → table.at b ≢ sparse_blk → m.block_offset.at b ≢ sparse_blk
  stored-created b ne sb e = sb (old_place b ne ∙ e)

  -- A byte of a block that was there.
  old_byte :
      (b x : ℕ)
      → b < m.block_offset.size
      → m.block_offset.at b ≢ sparse_blk
      → x < (m.bitmap.sector_count + m.sect_per_block) * 512
      → created.f.byte (m.block_offset.at b * 512 + x) ≡ m.f.byte (m.block_offset.at b * 512 + x)
  old_byte b x hb sb hx = kept _ (omega (arith, w.room b hb sb)) (omega (arith, w.behind b hb sb))

  other_than_new : (b : ℕ) → m.block_offset.at b ≢ sparse_blk → b ≢ blk
  other_than_new b sb e = sb (ap m.block_offset.at e ∙ sparse)

  pub new_stored : table.at blk ≢ sparse_blk
  new_stored = ground (arith, new_place, appended-Appended.near)

  pub bitmap_created :
      (b i : ℕ)
      → b < m.block_offset.size
      → i < m.bitmap.sector_count * sector_size
      → bitmap_byte (disk created) b i ≡ bitmap_byte (disk m) b i
  bitmap_created b i hb hi = elim (equal_or_not b blk) [
    | inl same ↦
        ap (λ (a : ℕ). bitmap_byte (disk created) a i) same
        ∙ bitmap_byte-stored (disk created) blk i new_stored
        ∙ ap (λ (q : ℕ). created.f.byte (q * 512 + i)) new_place
        ∙ zeros i (omega arith)
        ∙ sym (bitmap_byte-sparse (disk m) b i (ap m.block_offset.at same ∙ sparse))
    | inr ne ↦ elim (equal_or_not (m.block_offset.at b) sparse_blk) [
      | inl none_here ↦
          bitmap_byte-sparse (disk created) b i (old_place b ne ∙ none_here)
          ∙ sym (bitmap_byte-sparse (disk m) b i none_here)
      | inr here ↦
          bitmap_byte-stored (disk created) b i (λ e. here (sym (old_place b ne) ∙ e))
          ∙ ap (λ (q : ℕ). created.f.byte (q * 512 + i)) (old_place b ne)
          ∙ old_byte b i hb here (omega arith)
          ∙ sym (bitmap_byte-stored (disk m) b i here)
    ]
  ]

  pub cell_created :
      (b k j : ℕ)
      → b < m.block_offset.size
      → k < m.sect_per_block
      → j < sector_size
      → disk_cell (disk created) b k j ≡ disk_cell (disk m) b k j
  unfolding disk_cell
  cell_created b k j hb hk hj = sym (
      cell-ext (disk m) (disk created) _ _ b k j
        (sym (bitmap_created b (k / 8) hb (omega (arith, w.capacity))))
        (λ set.
          let sb = stored-if-set (disk m) b (k / 8) k set in
          let old = old_byte b ((m.bitmap.sector_count + k) * 512 + j) hb sb (omega arith) in
          let place_eq = old_place b (other_than_new b sb) in
          let here : created.f.byte ((m.block_offset.at b + m.bitmap.sector_count + k) * 512 + j)
              ≡ m.f.byte ((m.block_offset.at b + m.bitmap.sector_count + k) * 512 + j) =
            subst (λ (x : ℕ). created.f.byte x ≡ m.f.byte x) (omega arith) old in
          sym (
            ap (λ (q : ℕ). created.f.byte ((q + m.bitmap.sector_count + k) * 512 + j)) place_eq
            ∙ here)))

  -- An allocated block is the new one, or was allocated before.
  new_or_old :
      (b : ℕ)
      → table.at b ≢ sparse_blk
      → ((b ≡ blk) × (table.at b ≡ place))
        ⊎ ((table.at b ≡ m.block_offset.at b) × (m.block_offset.at b ≢ sparse_blk))
  new_or_old b sb = elim (equal_or_not b blk) [
    | inl same ↦ inl (same, ap table.at same ∙ new_place)
    | inr ne ↦ inr (old_place b ne, stored-created b ne sb)
  ]

  apart_created :
      (a b : ℕ)
      → a < m.block_offset.size
      → b < m.block_offset.size
      → a ≢ b
      → table.at a ≢ sparse_blk
      → table.at b ≢ sparse_blk
      → (table.at a + m.bitmap.sector_count + m.sect_per_block ≤ table.at b)
        ⊎ (table.at b + m.bitmap.sector_count + m.sect_per_block ≤ table.at a)
  apart_created a b ha hb ne sa sb = elim (new_or_old a sa) [
    | inl (a_new, a_at) ↦ elim (new_or_old b sb) [
      | inl (b_new, b_at) ↦ absurd (ne (a_new ∙ sym b_new))
      | inr (b_at, b_old) ↦
          inr (omega (arith, a_at, b_at, appended-Appended.after, w.room b hb b_old))
    ]
    | inr (a_at, a_old) ↦ elim (new_or_old b sb) [
      | inl (b_new, b_at) ↦
          inl (omega (arith, a_at, b_at, appended-Appended.after, w.room a ha a_old))
      | inr (b_at, b_old) ↦ elim (w.apart a b ha hb ne a_old b_old) [
        | inl before ↦ inl (omega (arith, a_at, b_at))
        | inr past ↦ inr (omega (arith, a_at, b_at))
      ]
    ]
  ]

  pub created-Writable : Writable (disk created) m.sparse.bat_offset
  created-Writable = record {
    spb_pos = w.spb_pos;
    capacity = w.capacity;
    table = omega (arith, size_created, w.table, appended-Appended.after);
    behind = λ b hb sb. elim (new_or_old b sb) [
      | inl (new, at) ↦ omega (arith, at, appended-Appended.after, w.table)
      | inr (at, old) ↦ omega (arith, at, w.behind b hb old)
    ];
    room = λ b hb sb. elim (new_or_old b sb) [
      | inl (new, at) ↦ omega (arith, at, size_created)
      | inr (at, old) ↦ omega (arith, at, w.room b hb old, appended-Appended.after, size_created)
    ];
    apart = apart_created;
  }

  created_front : (i : ℕ) → i < m.sparse.bat_offset + blk * 4 → created.f.byte i ≡ m.f.byte i
  created_front i h =
      write-kept at_entry entry 0 4 i
        (omega (arith, w.table, appended-Appended.after, appended-Appended.size)) (inl h)
      ∙ appended-Appended.kept i (omega (arith, w.table))

  created_behind :
      (i : ℕ)
      → m.sparse.bat_offset + blk * 4 + 4 ≤ i
      → i < m.sparse.bat_offset + m.block_offset.size * 4
      → created.f.byte i ≡ m.f.byte i
  created_behind i low high =
      write-kept at_entry entry 0 4 i
        (omega (arith, w.table, appended-Appended.after, appended-Appended.size)) (inr low)
      ∙ appended-Appended.kept i (omega (arith, w.table))

  created_entry :
      (b : ℕ)
      → b < m.block_offset.size
      → word_at m.f.byte (m.sparse.bat_offset + b * 4) ≡ m.block_offset.at b
      → word_at created.f.byte (m.sparse.bat_offset + b * 4) ≡ table.at b
  created_entry b hb was = elim (equal_or_not b blk) [
    | inl same ↦
        let place : m.sparse.bat_offset + b * 4 ≡ at_entry.pos = omega (arith, same) in
        ap (word_at created.f.byte) place
        ∙ word_at-store_le created.f.byte at_entry.pos (table.at blk)
            (omega (arith, new_place, appended-Appended.near))
            (λ k four. write-new at_entry entry 0 4 k four ∙ ap entry (omega arith))
        ∙ sym (ap table.at same)
    | inr ne ↦
        word_at-ext m.f.byte created.f.byte (m.sparse.bat_offset + b * 4) (λ k four.
          elim (lt-or-gt b ne) [
            | inl before ↦ created_front (m.sparse.bat_offset + b * 4 + k) (omega arith)
            | inr behind ↦
                created_behind (m.sparse.bat_offset + b * 4 + k) (omega arith) (omega arith)
          ])
        ∙ was
        ∙ sym (old_place b ne)
  ]
    where
      lt-or-gt : (b : ℕ) → b ≢ blk → (b < blk) ⊎ (blk < b)
      lt-or-gt b ne = elim (Bool-cases (ltb b blk)) [
        | inl before ↦ inl (ground arith)
        | inr behind ↦ inr (ground (arith, ne))
      ]

  pub created-Persists : Persists m created
  created-Persists front sector cookie p = record {
    begins = λ i h. created_front i (omega arith) ∙ p.begins i h;
    table = λ b h. created_entry b h (p.table b h);
    last = λ i h.
        let found =
          is_conectix_str-last m.f sector zero_bytes 512
            (record { large = omega (arith, w.table); last = p.last }) cookie (omega arith)
            (omega arith) in
        footer_created i h ∙ take_footer_found m.f i (omega (arith, w.table)) h found ∙ p.last i h;
  }
