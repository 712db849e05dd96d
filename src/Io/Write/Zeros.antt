-- ===== src/Io/Write/Zeros.antt =====
-- Runs of zero bytes in the file.
use mini_vhd.Prelude.{ℕ, zero, suc, ◌+◌, ◌*◌, ◌≤◌, ◌<◌, ◌≡◌, refl, arith, max}
use mini_vhd.Stdio.{File, write}
use mini_vhd.Layout.{sector_size}
use mathlib.Core.Path.{subst}
use mini_vhd.Io.Write.{zero_bytes, write_empty_sectors, write_padding}

-- `f'` is `f` after `n` zero bytes were written at a position inside it.
pub record Zeroed (f f' : File) (n : ℕ) : Type 0 where
  pub pos : f'.pos ≡ f.pos + n
  pub size : f'.size ≡ max f.size (f.pos + n)
  pub kept : (i : ℕ) → i < f.pos → f'.byte i ≡ f.byte i
  pub zeros : (i : ℕ) → f.pos ≤ i → i < f.pos + n → f'.byte i ≡ 0

pub Zeroed-zero : (f : File) → f.pos ≤ f.size → Zeroed f f 0
Zeroed-zero f h = record {
  pos = omega arith;
  size = omega arith;
  kept = λ i p. refl;
  zeros = λ i p q. omega arith;
}

write-Zeroed : (f : File) (n : ℕ) → f.pos ≤ f.size → Zeroed f (write f zero_bytes 0 n) n
write-Zeroed f n h = record {
  pos = refl;
  size = ground arith;
  kept = λ i p. ground arith;
  zeros = λ i p q. ground arith;
}

pub Zeroed-trans :
    (f f' f'' : File) (a b : ℕ) → Zeroed f f' a → Zeroed f' f'' b → Zeroed f f'' (a + b)
Zeroed-trans f f' f'' a b one two = record {
  pos = omega (arith, one.pos, two.pos);
  size = omega (arith, one.pos, one.size, two.size);
  kept = λ i p. ground (arith, one.pos, one.kept i, two.kept i);
  zeros = λ i p q. ground (arith, one.pos, one.zeros i, two.kept i, two.zeros i);
}

Zeroed-inside : (f f' : File) (n : ℕ) → Zeroed f f' n → f'.pos ≤ f'.size
Zeroed-inside f f' n z = omega (arith, z.pos, z.size)

pub write_empty_sectors-Zeroed :
    (f : File) (n : ℕ) → f.pos ≤ f.size → Zeroed f (write_empty_sectors f n) (n * sector_size)
unfolding write_empty_sectors
write_empty_sectors-Zeroed f zero h = Zeroed-zero f h
write_empty_sectors-Zeroed f (suc n) h =
    let one = write-Zeroed f 512 h in
    subst (Zeroed f _) (omega arith) (
      Zeroed-trans f _ _ 512 (n * 512) one
        (write_empty_sectors-Zeroed (write f zero_bytes 0 512) n (Zeroed-inside f _ 512 one)))

pub write_padding-Zeroed : (f : File) (n : ℕ) → f.pos ≤ f.size → Zeroed f (write_padding f n) n
unfolding write_padding
write_padding-Zeroed f zero h = Zeroed-zero f h
write_padding-Zeroed f (suc n) h =
    let one = write-Zeroed f 1 h in
    subst (Zeroed f _) (omega arith) (
      Zeroed-trans f _ _ 1 n one
        (write_padding-Zeroed (write f zero_bytes 0 1) n (Zeroed-inside f _ 1 one)))
