-- ===== src/Create/Sparse/Image.antt =====
-- create.c: the file of a dynamic image without blocks: the copy of the footer, the header, the block
-- table, five empty sectors and the footer.
use mini_vhd.Prelude.{
  ℕ, zero, suc, ◌+◌, ◌-◌, ◌*◌, ◌/◌, ◌%◌, ◌^◌, ◌≤◌, ◌<◌, ◌≡◌, refl, ap, ap₂, ◌∙◌, subst, ltb, ◌==◌,
  not, if◌then◌else◌, u32, [], ◌∷◌, get_or, inl, inr, Bool-cases, arith,
}
use mini_vhd.Memory.{Mem, of_list}
use mini_vhd.Stdio.{File, seek_set, write}
use mini_vhd.Layout.{SparseHeader, max_size_in_bytes}
use mini_vhd.StructRw.{header_to_buffer}
use mini_vhd.Endian.{from_be32, load_le}
use mini_vhd.Endian.At.{word_at}
use mini_vhd.Io.Write.{write_empty_sectors}
use mini_vhd.Io.Write.Zeros.{Zeroed, write_empty_sectors-Zeroed}
use mini_vhd.Create.Sparse.{write_bat_sectors, write_tables, blocks_for, bat_sectors_for}
use mini_vhd.World.{empty_file}
use native.Mathlib.Nat.{div-add-mod', mod-lt, div-le_self}

-- The file has grown by `n` bytes, behind which the stream stands.
record Grown (f f' : File) (n : ℕ) : Type 0 where
  pub at_end : f'.pos ≡ f'.size
  pub size : f'.size ≡ f.size + n
  pub kept : (i : ℕ) → i < f.size → f'.byte i ≡ f.byte i

write-Grown : (f : File) (src : Mem) (n : ℕ) → f.pos ≡ f.size → 0 < n → Grown f (write f src 0 n) n
write-Grown f src n at_end some_byte = record {
  at_end = ground arith;
  size = ground arith;
  kept = λ i h. ground arith;
}

Grown-trans : (f g h : File) (a b : ℕ) → Grown f g a → Grown g h b → Grown f h (a + b)
Grown-trans f g h a b one two = record {
  at_end = two.at_end;
  size = omega (arith, one.size, two.size);
  kept = λ i small. two.kept i (omega (arith, one.size)) ∙ one.kept i small;
}

write_bat_sectors-Grown :
    (k : ℕ) (f : File)
    → f.pos ≡ f.size
    → Grown f (write_bat_sectors k f) (k * 512)
      × ((i : ℕ) → f.size ≤ i → i < f.size + k * 512 → (write_bat_sectors k f).byte i ≡ 0xff)
unfolding write_bat_sectors
write_bat_sectors-Grown zero f at_end = (
  record { at_end = at_end; size = omega arith; kept = λ i h. refl },
  λ i low high. absurd (omega arith),
)
write_bat_sectors-Grown (suc k) f at_end =
    let one = write-Grown f (λ i. 0xff) 512 at_end (omega arith) in
    let g = write f (λ i. 0xff) 0 512 in
    let (rest, ones) = write_bat_sectors-Grown k g one.at_end in
    (
      subst (λ n. Grown f (write_bat_sectors k g) n) (omega arith)
          (Grown-trans f g (write_bat_sectors k g) 512 (k * 512) one rest),
      λ i low high. elim (Bool-cases (ltb i (f.size + 512))) [
        | inl first ↦
            let inside : i < f.size + 512 = ground arith in
            rest.kept i (omega (arith, one.size)) ∙ ground arith
        | inr later ↦
            let behind : f.size + 512 ≤ i = ground arith in
            ones i (omega (arith, one.size)) (omega (arith, one.size))
      ],
    )

Zeroed-Grown : (f f' : File) (n : ℕ) → f.pos ≡ f.size → Zeroed f f' n → Grown f f' n
Zeroed-Grown f f' n at_end z = record {
  at_end = omega (arith, z.pos, z.size);
  size = omega (arith, z.size);
  kept = λ i h. z.kept i (omega arith);
}

-- The file between its first and its last sector.
pub record Tabled (h : SparseHeader) (num_bat_sect : ℕ) (f : File) : Type 0 where
  pub at_end : f.pos ≡ f.size
  pub size : f.size ≡ 1536 + num_bat_sect * 512 + 2560
  pub header : (i : ℕ) → i < 1024 → f.byte (512 + i) ≡ get_or (header_to_buffer h) i 0
  pub table : (i : ℕ) → 1536 ≤ i → i < 1536 + num_bat_sect * 512 → f.byte i ≡ 0xff

pub write_tables-Tabled :
    (h : SparseHeader) (num_bat_sect : ℕ) (copy : Mem)
    → Tabled h num_bat_sect (write_tables h num_bat_sect (write (seek_set empty_file 0) copy 0 512))
unfolding write_tables
write_tables-Tabled h num_bat_sect copy =
    let start = seek_set empty_file 0 in
    let f1 = write start copy 0 512 in
    let f2 = write f1 (of_list (header_to_buffer h)) 0 1024 in
    let f3 = write_bat_sectors num_bat_sect f2 in
    let f4 = write_empty_sectors f3 5 in
    let g2 = write-Grown f1 (of_list (header_to_buffer h)) 1024 refl (omega arith) in
    let (g3, ones) = write_bat_sectors-Grown num_bat_sect f2 g2.at_end in
    let g4 : Grown f3 f4 (5 * 512) =
      Zeroed-Grown f3 f4 (5 * 512) g3.at_end
        (write_empty_sectors-Zeroed f3 5 (omega (arith, g3.at_end))) in
    let first : f1.size ≡ 512 = refl in
    record {
      at_end = g4.at_end;
      size = omega (arith, g4.size, g3.size, g2.size);
      header = λ i small.
          g4.kept (512 + i) (omega (arith, g3.size, g2.size))
          ∙ g3.kept (512 + i) (omega (arith, g2.size))
          ∙ ground arith;
      table = λ i low high.
          g4.kept i (omega (arith, g3.size, g2.size))
          ∙ ones i (omega (arith, g2.size)) (omega (arith, g2.size));
    }

-- A word of ones.
pub word_at-ones :
    (byte : Mem) (place : ℕ)
    → ((k : ℕ) → k < 4 → byte (place + k) ≡ 0xff)
    → word_at byte place ≡ 0xffffffff
unfolding from_be32 load_le
word_at-ones byte place ones =
    ap (λ bs. from_be32 (load_le bs))
      (ap₂ ◌∷◌ (ap byte (omega arith) ∙ ones 0 (omega arith)) (
        ap₂ ◌∷◌ (ones 1 (omega arith)) (
          ap₂ ◌∷◌ (ap byte (omega arith) ∙ ones 2 (omega arith))
            (ap₂ ◌∷◌ (ap byte (omega arith) ∙ ones 3 (omega arith)) (λ i. [])))))

covers :
    (s block_size : ℕ)
    → s < 2 ^ 32 - 1
    → 0 < block_size
    → (s
        ≤ (if not (s % block_size == 0) then u32 (s / block_size + 1) else s / block_size)
          * block_size)
      × ((if not (s % block_size == 0) then u32 (s / block_size + 1) else s / block_size) < 2 ^ 32)
covers s block_size small pos =
    let split = div-add-mod' s block_size in
    let below = mod-lt s pos in
    let fewer = div-le_self s block_size in
    elim (Bool-cases (s % block_size == 0)) [
      | inl even ↦ rw even (ground arith, omega arith)
      | inr odd ↦
          let one_more : u32 (s / block_size + 1) ≡ s / block_size + 1 = omega arith in
          rw (odd, one_more) (grind arith, omega arith)
    ]

-- The blocks cover the disk.
pub blocks_for-covers :
    (size_in_bytes block_size : ℕ)
    → size_in_bytes ≤ max_size_in_bytes
    → 0 < block_size
    → (size_in_bytes / 512 ≤ blocks_for size_in_bytes block_size * block_size)
      × (blocks_for size_in_bytes block_size < 2 ^ 32)
unfolding blocks_for
blocks_for-covers size_in_bytes block_size small pos =
    let whole : u32 (size_in_bytes / 512) ≡ size_in_bytes / 512 = omega arith in
    rw whole (covers (size_in_bytes / 512) block_size (omega arith) pos)

-- The block table has room for them.
pub bat_sectors_for-room : (num_blks : ℕ) → num_blks * 4 ≤ bat_sectors_for num_blks * 512
unfolding bat_sectors_for
bat_sectors_for-room num_blks = ground arith
