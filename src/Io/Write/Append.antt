-- ===== src/Io/Write/Append.antt =====
-- What create_block appends to the file.
use mini_vhd.Prelude.{
  ℕ, ◌+◌, ◌-◌, ◌*◌, ◌/◌, ◌%◌, ◌≤◌, ◌<◌, ◌≡◌, ap, arith, Bool, ◌==◌, true, false, Bool-cases, inl,
  inr,
}
use mini_vhd.Memory.{Mem}
use mini_vhd.Stdio.{File, seek_end, after_read, read_mem}
use mini_vhd.Layout.{footer_size}
use mini_vhd.Cookie.{is_conectix_str}
use mini_vhd.Io.Write.{
  zero_bytes, take_footer, header_instead, pad_to_sector, append_block, write_empty_sectors,
}
use mini_vhd.Io.Write.Zeros.{
  Zeroed, Zeroed-zero, Zeroed-trans, write_padding-Zeroed, write_empty_sectors-Zeroed,
}

-- The stream is at the old footer, or at the end of the file.
pub record Start (f f' : File) : Type 0 where
  pub size : f'.size ≡ f.size
  pub byte : f'.byte ≡ f.byte
  pub inside : f'.pos ≤ f.size
  pub last : f.size ≤ f'.pos + 512

header_instead-Start :
    (f f' : File) (found : Bool) (footer : Mem)
    → Start f f'
    → Start f (header_instead found f' footer).0
unfolding header_instead
header_instead-Start f f' true footer start = start
header_instead-Start f f' false footer start = record {
  size = ground (arith, start.size);
  byte = ground (arith, start.byte);
  inside = ground (arith, start.size);
  last = ground (arith, start.size);
}

pub take_footer-Start : (f : File) → 512 ≤ f.size → Start f (take_footer f).0
unfolding take_footer
take_footer-Start f h =
    let f1 = seek_end f footer_size in
    let f2 = seek_end (after_read f1 footer_size) footer_size in
    let footer = read_mem f1 zero_bytes 0 footer_size in
    let start : Start f f2 = record {
      size = ground arith;
      byte = ground arith;
      inside = ground arith;
      last = ground arith;
    } in
    header_instead-Start f f2 (is_conectix_str footer) footer start

pub pad_to_sector-Zeroed :
    (f : File)
    → f.pos ≤ f.size
    → (n : ℕ) × (n < 512) × ((f.pos + n) % 512 ≡ 0) × Zeroed f (pad_to_sector f) n
unfolding pad_to_sector
pad_to_sector-Zeroed f h = elim (Bool-cases (f.pos % 512 == 0)) [
  | inl aligned ↦ (0, omega arith, ground arith, rw aligned (Zeroed-zero f h))
  | inr off ↦ (
    512 - f.pos % 512,
    ground arith,
    omega arith,
    rw off (write_padding-Zeroed f (512 - f.pos % 512) h),
  )
]

pub record Appended (f f' : File) (q sectors : ℕ) : Type 0 where
  pub after : f.size ≤ q * 512 + 512
  pub near : q * 512 < f.size + 512
  pub size : f'.size ≡ (q + sectors + 6) * 512
  pub kept : (i : ℕ) → i + 512 < f.size → f'.byte i ≡ f.byte i
  pub zeros : (i : ℕ) → q * 512 ≤ i → i < (q + sectors) * 512 → f'.byte i ≡ 0

pub append_block-Appended :
    (f f' : File) (footer : Mem) (sectors : ℕ)
    → Start f f'
    → Appended f
        (append_block (pad_to_sector f') footer sectors)
        ((pad_to_sector f').pos / 512)
        sectors
unfolding append_block
append_block-Appended f f' footer sectors start =
    let (n, small, aligned, pad) =
      pad_to_sector-Zeroed f' (omega (arith, start.inside, start.size)) in
    let f1 = pad_to_sector f' in
    let block = write_empty_sectors-Zeroed f1 sectors (omega (arith, pad.pos, pad.size)) in
    let f2 = write_empty_sectors f1 sectors in
    let spare = write_empty_sectors-Zeroed f2 5 (omega (arith, block.pos, block.size)) in
    let all = Zeroed-trans f' f1 _ n _ pad (Zeroed-trans f1 f2 _ _ _ block spare) in
    record {
      after = omega (arith, pad.pos, start.last);
      near = omega (arith, pad.pos, start.inside);
      size =
          omega (arith, all.pos, all.size, pad.pos, pad.size, start.last, start.inside, start.size);
      kept = λ i p. ground (
        arith,
        all.pos,
        all.size,
        pad.pos,
        start.last,
        start.inside,
        start.size,
        all.kept i,
        ap (λ (g : ℕ → ℕ). g i) start.byte,
      );
      zeros = λ i p q. ground (
        arith,
        all.pos,
        all.size,
        pad.pos,
        start.last,
        start.inside,
        start.size,
        block.zeros i,
        spare.kept i,
        block.pos,
      );
    }

-- The footer that was taken ends the file.
pub append_block_footer :
    (f f' : File) (footer : Mem) (sectors i : ℕ)
    → Start f f'
    → i < 512
    → (append_block (pad_to_sector f') footer sectors).byte
        (((pad_to_sector f').pos / 512 + sectors + 5) * 512 + i)
      ≡ footer i
unfolding append_block
append_block_footer f f' footer sectors i start hi =
    let (n, small, aligned, pad) =
      pad_to_sector-Zeroed f' (omega (arith, start.inside, start.size)) in
    let f1 = pad_to_sector f' in
    let block = write_empty_sectors-Zeroed f1 sectors (omega (arith, pad.pos, pad.size)) in
    let f2 = write_empty_sectors f1 sectors in
    let spare = write_empty_sectors-Zeroed f2 5 (omega (arith, block.pos, block.size)) in
    ground (arith, pad.pos, block.pos, spare.pos)

-- The footer at the end of a file that has one.
pub take_footer_found :
    (f : File) (i : ℕ)
    → 512 ≤ f.size
    → i < 512
    → is_conectix_str (read_mem (seek_end f footer_size) zero_bytes 0 footer_size) ≡ true
    → (take_footer f).1 i ≡ f.byte (f.size - 512 + i)
unfolding take_footer header_instead
take_footer_found f i h hi found = rw found (ground arith)
