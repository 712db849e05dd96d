-- ===== src/Io/Write/Again.antt =====
-- Two handles on one image: what the file holds, and where its blocks lie, are the same.
use mini_vhd.Prelude.{ℕ, ◌/◌, ◌<◌, ◌≡◌, inl, inr, refl, ◌∙◌, arith}
use mini_vhd.Image.{Disk}
use mini_vhd.Io.View.{bitmap_byte, present, sector_byte}
use mini_vhd.Io.Write.State.{Writable}

-- The tables agree on the blocks that they have.
pub record SameDisk (d d' : Disk) : Type 0 where
  pub size : d'.size ≡ d.size
  pub byte : d'.byte ≡ d.byte
  pub spb : d'.spb ≡ d.spb
  pub bitmap_sectors : d'.bitmap_sectors ≡ d.bitmap_sectors
  pub blocks : d'.bat.size ≡ d.bat.size
  pub entries : (b : ℕ) → b < d.bat.size → d'.bat.at b ≡ d.bat.at b

pub Writable-SameDisk :
    (d d' : Disk) (bat_offset : ℕ) → SameDisk d d' → Writable d bat_offset → Writable d' bat_offset
Writable-SameDisk d d' bat_offset same w = record {
  spb_pos = omega (arith, same.spb, w.spb_pos);
  capacity = omega (arith, same.spb, same.bitmap_sectors, w.capacity);
  table = omega (arith, same.blocks, same.size, w.table);
  behind = λ b h stored.
      let e = same.entries b (omega (arith, same.blocks)) in
      omega (arith, e, same.blocks, w.behind b (omega (arith, same.blocks)) (λ s. stored (e ∙ s)));
  room = λ b h stored.
      let e = same.entries b (omega (arith, same.blocks)) in
      omega (
        arith,
        e,
        same.bitmap_sectors,
        same.spb,
        same.size,
        w.room b (omega (arith, same.blocks)) (λ s. stored (e ∙ s)),
      );
  apart = λ a b ha hb ne sa sb.
      let ea = same.entries a (omega (arith, same.blocks)) in
      let eb = same.entries b (omega (arith, same.blocks)) in
      elim (w.apart a b (omega (arith, same.blocks)) (omega (arith, same.blocks)) ne
        (λ s. sa (ea ∙ s)) (λ s. sb (eb ∙ s))) [
          | inl before ↦ inl (omega (arith, ea, eb, same.bitmap_sectors, same.spb))
          | inr past ↦ inr (omega (arith, ea, eb, same.bitmap_sectors, same.spb))
        ];
}

-- A sector of one is that of the other.
pub sector_byte-SameDisk :
    (d d' : Disk) (s j : ℕ)
    → SameDisk d d'
    → s / d.spb < d.bat.size
    → sector_byte d' s j ≡ sector_byte d s j
unfolding sector_byte present bitmap_byte
sector_byte-SameDisk d d' s j same inside =
    let entry : d'.bat.at (s / d.spb) ≡ d.bat.at (s / d.spb) = same.entries (s / d.spb) inside in
    rw (same.spb, same.byte, same.bitmap_sectors, entry) refl
