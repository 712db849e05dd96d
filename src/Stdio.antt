-- ===== src/Stdio.antt =====
-- What the library uses of stdio.h: a binary stream on a regular file. A read stops at the end of
-- the file, a write extends it, and a gap that a seek left reads as zeros.
pub mod Writes
use mini_vhd.Prelude.{ℕ, ◌+◌, ◌-◌, ◌^◌, min, max, ltb, leb, ◌==◌}
use mini_vhd.Prelude.{if◌then◌else◌, ap-if, ◌≡◌, refl}
use mini_vhd.Memory.{Mem, within, copy}

pub record File : Type 0 where
  pub size : ℕ
  pub byte : Mem
  pub pos : ℕ

-- fseek(f, offset, SEEK_SET) and fseek(f, offset, SEEK_CUR)
abbrev pub seek_set : File → ℕ → File
seek_set f offset = record f { pos = offset }

abbrev pub seek_cur : File → ℕ → File
seek_cur f offset = record f { pos = f.pos + offset }

-- fseeko of a 64-bit offset: a negative position is refused, and nothing moves.
abbrev pub seek_set64 : File → ℕ → File
seek_set64 f offset = if ltb offset (2 ^ 63) then record f { pos = offset } else f

-- fseek(f, -back, SEEK_END): a position before the start is refused, and nothing moves.
abbrev pub seek_end : File → ℕ → File
seek_end f back = if leb back f.size then record f { pos = f.size - back } else f

-- How many of `n` bytes a read at the position gets.
abbrev pub available : File → ℕ → ℕ
available f n = min n (f.size - f.pos)

-- fread(dst + to, 1, n, f): the memory after it, and the stream after it.
abbrev pub read_mem : File → Mem → ℕ → ℕ → Mem
read_mem f dst to n = copy dst to f.byte f.pos (available f n)

abbrev pub after_read : File → ℕ → File
after_read f n = record f { pos = f.pos + available f n }

-- fwrite(src + from, 1, n, f)
abbrev pub write : File → Mem → ℕ → ℕ → File
write f src from n = record {
  size = if n == 0 then f.size else max f.size (f.pos + n);
  byte = λ i.
      if within f.pos n i then src (from + (i - f.pos)) else if ltb i f.size then f.byte i else 0;
  pos = f.pos + n;
}

-- A seek leaves the file's bytes.
pub seek_end-size : (f : File) (back : ℕ) → (seek_end f back).size ≡ f.size
seek_end-size f back =
    ap-if (λ g. g.size) (leb back f.size) (record f { pos = f.size - back }) f refl

pub seek_end-byte : (f : File) (back : ℕ) → (seek_end f back).byte ≡ f.byte
seek_end-byte f back =
    ap-if (λ g. g.byte) (leb back f.size) (record f { pos = f.size - back }) f refl

pub seek_set64-size : (f : File) (offset : ℕ) → (seek_set64 f offset).size ≡ f.size
seek_set64-size f offset =
    ap-if (λ g. g.size) (ltb offset (2 ^ 63)) (record f { pos = offset }) f refl

pub seek_set64-byte : (f : File) (offset : ℕ) → (seek_set64 f offset).byte ≡ f.byte
seek_set64-byte f offset =
    ap-if (λ g. g.byte) (ltb offset (2 ^ 63)) (record f { pos = offset }) f refl
