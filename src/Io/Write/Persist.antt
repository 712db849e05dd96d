-- ===== src/Io/Write/Persist.antt =====
-- What a later open finds in the file: all before the block table, the table and the last sector.
use mini_vhd.Prelude.{
  ℕ, ◌+◌, ◌-◌, ◌*◌, ◌≤◌, ◌<◌, ◌≡◌, ◌⊎◌, inl, inr, sym, ap, ◌∙◌, arith, List, get_or,
}
use mini_vhd.Memory.{Mem, Block}
use mini_vhd.Layout.{SparseHeader}
use mini_vhd.Endian.At.{word_at, word_at-ext}
use mini_vhd.Cookie.Last.{HasCookie}
use mini_vhd.Image.{Meta}

-- The file has `front` before the block table, the table of the handle, and `sector` as its last one.
pub record Persisted (front : Mem) (sector : List ℕ) (m : Meta) : Type 0 where
  pub begins : (i : ℕ) → i < m.sparse.bat_offset → m.f.byte i ≡ front i
  pub table :
      (b : ℕ)
      → b < m.block_offset.size
      → word_at m.f.byte (m.sparse.bat_offset + b * 4) ≡ m.block_offset.at b
  pub last : (i : ℕ) → i < 512 → m.f.byte (m.f.size - 512 + i) ≡ get_or sector i 0

-- A step that keeps what a later open finds.
abbrev pub Persists : Meta → Meta → Type 0
Persists m m' =
    (front : Mem) (sector : List ℕ)
    → HasCookie sector
    → Persisted front sector m
    → Persisted front sector m'

pub Persists-refl : (m : Meta) → Persists m m
Persists-refl m front sector cookie p = p

pub Persists-trans : (m m' m'' : Meta) → Persists m m' → Persists m' m'' → Persists m m''
Persists-trans m m' m'' one two front sector cookie p =
    two front sector cookie (one front sector cookie p)

-- A step that writes between the block table and the last sector.
pub Persists-inside :
    (m m' : Meta)
    → m'.sparse ≡ m.sparse
    → m'.block_offset ≡ m.block_offset
    → m'.f.size ≡ m.f.size
    → m.sparse.bat_offset + m.block_offset.size * 4 + 512 ≤ m.f.size
    → ((i : ℕ)
        → i < m.f.size
        → (i < m.sparse.bat_offset + m.block_offset.size * 4) ⊎ (m.f.size ≤ i + 512)
        → m'.f.byte i ≡ m.f.byte i)
    → Persists m m'
Persists-inside m m' sparse bat size large same front sector cookie p =
    let place : m'.sparse.bat_offset ≡ m.sparse.bat_offset =
      ap (λ (h : SparseHeader). h.bat_offset) sparse in
    let blocks : m'.block_offset.size ≡ m.block_offset.size = ap (λ (b : Block). b.size) bat in
    record {
      begins = λ i h.
          same i (omega (arith, place)) (inl (omega (arith, place)))
          ∙ p.begins i (omega (arith, place));
      table = λ b h.
          word_at-ext m.f.byte m'.f.byte (m'.sparse.bat_offset + b * 4) (λ k four.
            same (m'.sparse.bat_offset + b * 4 + k) (omega (arith, place, blocks))
              (inl (omega (arith, place, blocks))))
          ∙ ap (λ q. word_at m.f.byte (q + b * 4)) place
          ∙ p.table b (omega (arith, blocks))
          ∙ ap (λ (t : Block). t.at b) (sym bat);
      last = λ i h.
          ap (λ n. m'.f.byte (n - 512 + i)) size
          ∙ same (m.f.size - 512 + i) (omega arith) (inr (omega arith))
          ∙ p.last i h;
    }
