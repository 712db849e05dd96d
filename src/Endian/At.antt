-- ===== src/Endian/At.antt =====
-- The words of a file, as read_bat reads them and write_bat_entry writes them.
use mini_vhd.Prelude.{ℕ, ◌+◌, ◌^◌, ◌<◌, ◌≡◌, sym, ap, ap₂, ◌∙◌, arith, [], ◌∷◌}
use mini_vhd.Memory.{Mem, bytes_at, of_list}
use mini_vhd.Endian.{from_be32, to_be32, load_le, store_le}
use mini_vhd.Endian.RoundTrip.{be32_inverse}
use mini_vhd.StructRw.Fields.{load_le-store_le}

-- The big-endian word at a place of a file.
abbrev pub word_at : Mem → ℕ → ℕ
word_at byte place = from_be32 (load_le (bytes_at byte place 4))

pub word_at-ext :
    (byte byte' : Mem) (place : ℕ)
    → ((k : ℕ) → k < 4 → byte' (place + k) ≡ byte (place + k))
    → word_at byte' place ≡ word_at byte place
word_at-ext byte byte' place same =
    let at : (k q : ℕ) → k < 4 → q ≡ place + k → byte' q ≡ byte q =
      λ k q h e. ap byte' e ∙ same k h ∙ ap byte (sym e) in
    ap (λ bs. from_be32 (load_le bs))
      (ap₂ ◌∷◌ (at 0 place (omega arith) (omega arith)) (
        ap₂ ◌∷◌ (at 1 (place + 1) (omega arith) (omega arith)) (
          ap₂ ◌∷◌ (at 2 (place + 1 + 1) (omega arith) (omega arith))
            (ap₂ ◌∷◌ (at 3 (place + 1 + 1 + 1) (omega arith) (omega arith)) (λ i. [])))))

-- A word that was written.
pub word_at-store_le :
    (byte : Mem) (place v : ℕ)
    → v < 2 ^ 32
    → ((k : ℕ) → k < 4 → byte (place + k) ≡ of_list (store_le 4 (to_be32 v)) k)
    → word_at byte place ≡ v
unfolding store_le
word_at-store_le byte place v small same =
    let (back, forth, from_fits, to_fits) = be32_inverse v small in
    ap (λ bs. from_be32 (load_le bs))
      (ap₂ ◌∷◌ (ap byte (omega arith) ∙ same 0 (omega arith)) (
        ap₂ ◌∷◌ (same 1 (omega arith)) (
          ap₂ ◌∷◌ (ap byte (omega arith) ∙ same 2 (omega arith))
            (ap₂ ◌∷◌ (ap byte (omega arith) ∙ same 3 (omega arith)) (λ i. [])))))
    ∙ ap from_be32 (load_le-store_le 4 (to_be32 v) to_fits)
    ∙ back
