-- ===== src/Manage/Table.antt =====
-- read_bat: the table in memory is the one in the file.
use mini_vhd.Prelude.{
  ℕ, zero, suc, ◌+◌, ◌-◌, ◌*◌, ◌^◌, ◌≤◌, ◌<◌, ◌≡◌, equal_or_not, Bool-cases, inl, inr, refl, ap,
  ap₂, ◌∙◌, ltb, true, if◌then◌else◌, ◌∷◌, IsByte, arith,
}
use mini_vhd.Checksum.OnDisk.{be_word}
use mini_vhd.Memory.{Mem, bytes_at, update, within}
use mini_vhd.Stdio.{File, seek_set64, read_mem, after_read}
use mini_vhd.Endian.{from_be32, load_le}
use mini_vhd.Endian.RoundTrip.{from_be32_bytes}
use mini_vhd.Endian.At.{word_at}
use mini_vhd.Image.{Meta}
use mini_vhd.Manage.{read_entry, read_entries, fill_bat}

read_entry-word_at : (f : File) → f.pos + 4 ≤ f.size → read_entry f ≡ word_at f.byte f.pos
unfolding read_entry
read_entry-word_at f inside =
    let at : (k : ℕ) → k < 4 → read_mem f (λ i. 0) 0 4 k ≡ f.byte (f.pos + k) =
      λ k h. ground arith in
    ap (λ bs. from_be32 (load_le bs))
      (ap₂ ◌∷◌ (at 0 (omega arith) ∙ ap f.byte (omega arith)) (
        ap₂ ◌∷◌ (at 1 (omega arith)) (
          ap₂ ◌∷◌ (at 2 (omega arith) ∙ ap f.byte (omega arith))
            (ap₂ ◌∷◌ (at 3 (omega arith) ∙ ap f.byte (omega arith)) refl))))

-- The entries from `i` on, for a stream at the first one.
read_entries-word_at :
    (n i : ℕ) (f : File) (at : Mem) (k : ℕ)
    → f.pos + n * 4 ≤ f.size
    → (read_entries n i f at).1 k
      ≡ (if within i n k then word_at f.byte (f.pos + (k - i) * 4) else at k)
unfolding read_entries
read_entries-word_at zero i f at k inside = ground arith
read_entries-word_at (suc n) i f at k inside =
    let next = after_read f 4 in
    let moved : next.pos ≡ f.pos + 4 = omega arith in
    let rest =
      read_entries-word_at n (i + 1) next (update at i (read_entry f)) k (omega (arith, moved)) in
    rest ∙ elim (equal_or_not k i) [
      | inl here ↦
          let place : f.pos ≡ f.pos + (k - i) * 4 = omega arith in
          ground (arith, here, read_entry-word_at f (omega arith) ∙ ap (word_at f.byte) place)
      | inr other ↦ elim (Bool-cases (ltb k i)) [
        | inl before ↦ ground arith
        | inr behind ↦
            let past : i < k = ground arith in
            let place : next.pos + (k - (i + 1)) * 4 ≡ f.pos + (k - i) * 4 = omega arith in
            ground (arith, ap (word_at f.byte) place)
      ]
    ]

-- The entries of the whole table.
pub fill_bat-word_at :
    (m : Meta) (b : ℕ)
    → m.sparse.bat_offset < 2 ^ 63
    → m.sparse.bat_offset + m.sparse.max_bat_ent * 4 ≤ m.f.size
    → b < m.sparse.max_bat_ent
    → ((fill_bat m).block_offset.at b ≡ word_at m.f.byte (m.sparse.bat_offset + b * 4))
      × ((fill_bat m).block_offset.size ≡ m.sparse.max_bat_ent)
unfolding fill_bat
fill_bat-word_at m b low inside small =
    let f : File = record m.f { pos = m.sparse.bat_offset } in
    let moved : seek_set64 m.f m.sparse.bat_offset ≡ f =
      let low_test : ltb m.sparse.bat_offset (2 ^ 63) ≡ true = ground arith in rw low_test refl in
    let read = read_entries-word_at m.sparse.max_bat_ent 0 f (λ i. 0) b inside in
    let own : within 0 m.sparse.max_bat_ent b ≡ true = ground arith in
    (
      ap (λ (g : File). (read_entries m.sparse.max_bat_ent 0 g (λ i. 0)).1 b) moved
          ∙ ground (arith, read, own),
      refl,
    )

-- On bytes, the word that the code reads is the big-endian one.
word_at-be_word :
    (byte : Mem) (place : ℕ)
    → ((i : ℕ) → IsByte (byte i))
    → word_at byte place ≡ be_word (bytes_at byte place 4)
unfolding load_le
word_at-be_word byte place bs = omega (
  arith,
  from_be32_bytes (load_le (bytes_at byte place 4)),
  bs place,
  bs (place + 1),
  bs (place + 1 + 1),
  bs (place + 1 + 1 + 1),
)

-- The block table that is read from a file of bytes that has the whole table is as large as the
-- header says, and has for each block the four bytes at its place in the file as a number whose first
-- byte is the highest.
pub fill_bat-be_word :
    (m : Meta) (b : ℕ)
    → ((i : ℕ) → IsByte (m.f.byte i))
    → m.sparse.bat_offset < 2 ^ 63
    → m.sparse.bat_offset + m.sparse.max_bat_ent * 4 ≤ m.f.size
    → b < m.sparse.max_bat_ent
    → ((fill_bat m).block_offset.at b ≡ be_word (bytes_at m.f.byte (m.sparse.bat_offset + b * 4) 4))
      × ((fill_bat m).block_offset.size ≡ m.sparse.max_bat_ent)
fill_bat-be_word m b bs low inside small =
    let (at, size) = fill_bat-word_at m b low inside small in
    (at ∙ word_at-be_word m.f.byte (m.sparse.bat_offset + b * 4) bs, size)
