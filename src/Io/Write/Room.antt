-- ===== src/Io/Write/Room.antt =====
-- The blocks that an image has room for: those that its table marks as sparse.
use mini_vhd.Prelude.{
  ℕ, zero, suc, ◌+◌, ◌*◌, ◌≤◌, ◌<◌, ◌≡◌, ◌≢◌, refl, sym, ap, arith, min, ◌==◌, true, false,
  if◌then◌else◌, equal_or_not, inl, inr,
}
use mini_vhd.Memory.{Mem, Block}
use mini_vhd.Layout.{sector_size, sparse_blk}
use mini_vhd.Image.{Meta}
use native.Mathlib.Nat.{mul-le-mul_right}

-- How many of the first `n` blocks are sparse.
unfoldable pub sparse_count : ℕ → Mem → ℕ
sparse_count zero at = 0
sparse_count (suc n) at = if at n == sparse_blk then suc (sparse_count n at) else sparse_count n at

abbrev pub absent : Meta → ℕ
absent m = sparse_count m.block_offset.size m.block_offset.at

pub sparse_count-le : (n : ℕ) (at : Mem) → sparse_count n at ≤ n
unfolding sparse_count
sparse_count-le zero at = omega arith
sparse_count-le (suc n) at = ground (arith, sparse_count-le n at)

pub sparse_count-same :
    (n : ℕ) (at at' : Mem)
    → ((b : ℕ) → b < n → at' b ≡ at b)
    → sparse_count n at' ≡ sparse_count n at
unfolding sparse_count
sparse_count-same zero at at' same = refl
sparse_count-same (suc n) at at' same =
    ground (arith, same n (omega arith), sparse_count-same n at at' (λ b h. same b (omega arith)))

-- A block that is stored is one less.
pub sparse_count-stored :
    (n : ℕ) (at at' : Mem) (blk : ℕ)
    → blk < n
    → at blk ≡ sparse_blk
    → at' blk ≢ sparse_blk
    → ((b : ℕ) → b ≢ blk → at' b ≡ at b)
    → sparse_count n at ≡ suc (sparse_count n at')
unfolding sparse_count
sparse_count-stored zero at at' blk inside sparse stored same = absurd (omega arith)
sparse_count-stored (suc n) at at' blk inside sparse stored same = elim (equal_or_not n blk) [
  | inl here ↦
      let rest : sparse_count n at' ≡ sparse_count n at =
        sparse_count-same n at at' (λ b h. same b (λ e. omega arith)) in
      let was : (at n == sparse_blk) ≡ true = ground (arith, ap at here, sparse) in
      let is : (at' n == sparse_blk) ≡ false = ground (arith, ap at' here, stored) in
      rw (was, is) (ap suc (sym rest))
  | inr other ↦
      let rest = sparse_count-stored n at at' blk (omega arith) sparse stored same in
      let kept = same n other in ground arith
]

-- The most that a new block adds to the file.
abbrev pub growth : Meta → ℕ
growth m = (m.bitmap.sector_count + m.sect_per_block + 7) * sector_size

-- `m'` has `added` blocks more than `m`.
pub record Grows (m m' : Meta) (added : ℕ) : Type 0 where
  pub stored : absent m ≡ absent m' + added
  pub size : m'.f.size ≤ m.f.size + added * growth m

pub Grows-refl : (m : Meta) → Grows m m 0
Grows-refl m = record { stored = omega arith; size = omega arith }

-- A step that leaves the block table, and does not make the file larger.
pub Grows-same :
    (m m' : Meta) → m'.block_offset ≡ m.block_offset → m'.f.size ≤ m.f.size → Grows m m' 0
Grows-same m m' same size = record {
  stored = omega (arith, ap (λ (b : Block). sparse_count b.size b.at) same);
  size = omega arith;
}

pub Grows-trans :
    (m m' m'' : Meta) (a b : ℕ)
    → growth m' ≡ growth m
    → Grows m m' a
    → Grows m' m'' b
    → Grows m m'' (a + b)
Grows-trans m m' m'' a b same one two = record {
  stored = omega (arith, one.stored, two.stored);
  size = omega (arith, one.size, two.size, ap (λ g. b * g) same);
}

-- The room for the rest of a request of `n` sectors, after its first one.
pub room-rest :
    (m m' : Meta) (n k added : ℕ)
    → growth m' ≡ growth m
    → Grows m m' added
    → added ≤ k
    → m'.f.size + min n (absent m') * growth m' ≤ m.f.size + min (k + n) (absent m) * growth m
room-rest m m' n k added same grows few =
    let fewer : min n (absent m') + added ≤ min (k + n) (absent m) = omega (arith, grows.stored) in
    let scaled = mul-le-mul_right (growth m) fewer in
    omega (arith, scaled, grows.size, ap (λ g. min n (absent m') * g) same)
