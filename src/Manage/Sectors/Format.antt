-- ===== src/Manage/Sectors/Format.antt =====
-- mvhd_format_sectors on a sparse or differencing image: the rounds over the buffer of zeros, then the
-- rest.
use mini_vhd.Prelude.{
  ℕ, zero, suc, ◌+◌, ◌-◌, ◌*◌, ◌/◌, ◌%◌, ◌^◌, ◌≤◌, ◌<◌, ◌≡◌, ◌∙◌, refl, sym, ap, subst, arith, min,
  u32, if◌then◌else◌, ltb, ◌==◌, true, false, some,
}
use mini_vhd.Memory.{Mem, within}
use mini_vhd.Layout.{Footer, sector_size}
use mini_vhd.Image.{Meta, disk, sparse_diff_write as by_sparse_diff_write}
use mini_vhd.Io.{Transfer, total_sectors}
use mini_vhd.Io.View.{sector_byte, Cached}
use mini_vhd.Io.Write.{zero_bytes}
use mini_vhd.Io.Write.State.{Writable, Same, Same-refl, Same-trans}
use mini_vhd.Io.Write.Room.{absent, growth, Grows, Grows-refl, Grows-trans, room-rest}
use mini_vhd.Io.Write.Held.{growth-Same, block_size-Same}
use mini_vhd.Io.Write.Written.{Written, sparse_diff_write-Written}
use native.Mathlib.Nat.{mul-le-mul_right}
use mini_vhd.Manage.Sectors.{write_sectors, call_write, format_loop, format_sectors, format_by}

-- An image that a request of `count` sectors at `offset` may be written to, whole.
pub record Formattable (m : Meta) (offset count : ℕ) : Type 0 where
  pub writable : Writable (disk m) m.sparse.bat_offset
  pub cached : Cached m
  pub block_size : m.sparse.block_sz / sector_size ≡ m.sect_per_block
  pub covered : total_sectors m ≤ m.block_offset.size * m.sect_per_block
  pub inside : offset + count ≤ total_sectors m
  pub room : m.f.size + min count (absent m) * growth m + 512 ≤ 0xffffffff * 512
  pub writes : m.write_sectors ≡ by_sparse_diff_write
  pub buffer : m.format_sector_count ≡ 64

-- The sectors of the request are zero, and the others as before.
pub record Zeroed (m : Meta) (offset count : ℕ) (m' : Meta) : Type 0 where
  pub same : Same m m'
  pub writable : Writable (disk m') m'.sparse.bat_offset
  pub cached : Cached m'
  pub added : ℕ
  pub few : added ≤ count
  pub grows : Grows m m' added
  pub zeroes :
      (s j : ℕ)
      → s < m.block_offset.size * m.sect_per_block
      → j < sector_size
      → sector_byte (disk m') s j ≡ (if within offset count s then 0 else sector_byte (disk m) s j)

zeroed :
    (m : Meta) (offset n : ℕ) (t : Transfer)
    → Written m offset n zero_bytes t
    → Zeroed m offset n t.vhdm
zeroed m offset n t done = record {
  same = done.same;
  writable = done.writable;
  cached = done.cached;
  added = done.added;
  few = done.few;
  grows = done.grows;
  zeroes = done.writes;
}

-- One call on a part of the request.
pub write_part :
    (m : Meta) (offset count n : ℕ) (in_buff : Mem)
    → Formattable m offset count
    → n ≤ count
    → 0 < n
    → (t : Transfer) × (write_sectors m offset n in_buff ≡ some t) × Written m offset n in_buff t
unfolding write_sectors call_write
write_part m offset count n in_buff h fits some_sector =
    let below : total_sectors m < 2 ^ 32 = omega arith in
    let whole : min n (total_sectors m - offset) ≡ n = omega (arith, h.inside) in
    let fewer : min n (absent m) ≤ min count (absent m) = omega arith in
    let fits_in : m.f.size + min n (absent m) * growth m + 512 ≤ 0xffffffff * 512 =
      omega (arith, mul-le-mul_right (growth m) fewer, h.room) in
    let (t, runs, cut, done) =
      sparse_diff_write-Written m offset n in_buff h.writable h.cached h.block_size h.covered
        (omega (arith, h.inside)) some_sector (omega (arith, h.inside))
        (subst (λ k. m.f.size + min k (absent m) * growth m + 512 ≤ 0xffffffff * 512) (sym whole)
          fits_in) in
    (
      t,
      ap (λ calls. call_write calls m offset n in_buff) h.writes ∙ runs,
      subst (λ k. Written m offset k in_buff t) whole done,
    )

write_zeros :
    (m : Meta) (offset count n : ℕ)
    → Formattable m offset count
    → n ≤ count
    → 0 < n
    → (t : Transfer) × (write_sectors m offset n zero_bytes ≡ some t) × Zeroed m offset n t.vhdm
write_zeros m offset count n h fits some_sector =
    let (t, runs, done) = write_part m offset count n zero_bytes h fits some_sector in
    (t, runs, zeroed m offset n t done)

pub capacity-Same :
    (m m1 : Meta)
    → Same m m1
    → m1.block_offset.size * m1.sect_per_block ≡ m.block_offset.size * m.sect_per_block
capacity-Same m m1 same = rw (same.blocks, same.spb) refl

Zeroed-trans :
    (m m1 m2 : Meta) (offset a b : ℕ)
    → Zeroed m offset a m1
    → Zeroed m1 (offset + a) b m2
    → Zeroed m offset (a + b) m2
Zeroed-trans m m1 m2 offset a b one two =
    let grown = growth-Same m m1 one.same in
    record {
      same = Same-trans m m1 m2 one.same two.same;
      writable = two.writable;
      cached = two.cached;
      added = one.added + two.added;
      few = omega (arith, one.few, two.few);
      grows = Grows-trans m m1 m2 one.added two.added grown one.grows two.grows;
      zeroes = λ s j hs hj.
          two.zeroes s j (subst (λ n. s < n) (sym (capacity-Same m m1 one.same)) hs) hj
          ∙ ground (arith, one.zeroes s j hs hj);
    }

-- What is left of a request after its first `a` sectors.
pub Formattable-rest :
    (m m1 : Meta) (offset a b added : ℕ)
    → Formattable m offset (a + b)
    → Same m m1
    → Writable (disk m1) m1.sparse.bat_offset
    → Cached m1
    → Grows m m1 added
    → added ≤ a
    → Formattable m1 (offset + a) b
Formattable-rest m m1 offset a b added h same writable cached grows few =
    let grown = growth-Same m m1 same in
    let sectors : total_sectors m1 ≡ total_sectors m =
      ap (λ (f : Footer). u32 (f.curr_sz / sector_size)) same.footer in
    record {
      writable = writable;
      cached = cached;
      block_size = block_size-Same m m1 same h.block_size;
      covered =
          subst (λ k. total_sectors m1 ≤ k) (sym (capacity-Same m m1 same))
            (omega (arith, sectors, h.covered));
      inside = omega (arith, sectors, h.inside);
      room = omega (arith, h.room, room-rest m m1 b a added grown grows few);
      writes = same.calls.0 ∙ h.writes;
      buffer = same.calls.1 ∙ h.buffer;
    }

-- That of a request after a call on its first sectors.
Formattable-Zeroed :
    (m m1 : Meta) (offset a b : ℕ)
    → Formattable m offset (a + b)
    → Zeroed m offset a m1
    → Formattable m1 (offset + a) b
Formattable-Zeroed m m1 offset a b h done =
    Formattable-rest m m1 offset a b done.added h done.same done.writable done.cached done.grows
      done.few

format_loop_step :
    (n : ℕ) (m : Meta) (offset c : ℕ) (t : Transfer)
    → m.format_sector_count ≡ c
    → write_sectors m offset c zero_bytes ≡ some t
    → t.vhdm.format_sector_count ≡ c
    → offset + c < 2 ^ 32
    → (r : Meta × ℕ) → format_loop n t.vhdm (offset + c) ≡ some r
    → format_loop (suc n) m offset ≡ some r
unfolding format_loop
format_loop_step n m offset c t size runs same_size small r loops =
    let runs' : write_sectors m offset m.format_sector_count zero_bytes ≡ some t =
      ap (λ k. write_sectors m offset k zero_bytes) size ∙ runs in
    let next : u32 (offset + t.vhdm.format_sector_count) ≡ offset + c = omega arith in
    rw runs' (ap (format_loop n t.vhdm) next ∙ loops)

-- The rounds of the loop, which leave `rest` sectors.
format_loop-Zeroed :
    (n : ℕ) (m : Meta) (offset rest : ℕ)
    → Formattable m offset (n * 64 + rest)
    → 0 < rest
    → (m' : Meta) × (format_loop n m offset ≡ some (m', offset + n * 64))
      × Zeroed m offset (n * 64) m'
unfolding format_loop
format_loop-Zeroed zero m offset rest h more = (
  m,
  ap (λ k. some (m, k)) (omega arith),
  record {
    same = Same-refl m;
    writable = h.writable;
    cached = h.cached;
    added = 0;
    few = omega arith;
    grows = Grows-refl m;
    zeroes = λ s j hs hj. ground arith;
  },
)
format_loop-Zeroed (suc n) m offset rest h more =
    let (t, runs, first) =
      write_zeros m offset (suc n * 64 + rest) 64 h (omega arith) (omega arith) in
    let left : Formattable t.vhdm (offset + 64) (n * 64 + rest) =
      Formattable-Zeroed m t.vhdm offset 64 (n * 64 + rest)
        (subst (λ k. Formattable m offset k) (omega arith) h) first in
    let (m', loops, others) = format_loop-Zeroed n t.vhdm (offset + 64) rest left more in
    (
      m',
      format_loop_step n m offset 64 t h.buffer runs left.buffer (omega (arith, h.inside))
          (m', offset + suc n * 64) (loops ∙ ap (λ k. some (m', k)) (omega arith)),
      subst (λ k. Zeroed m offset k m') (omega arith)
          (Zeroed-trans m t.vhdm m' offset 64 (n * 64) first others),
    )

format_sectors_runs :
    (m m1 : Meta) (offset num_sectors c : ℕ) (t : Transfer)
    → m.format_sector_count ≡ c
    → 0 < c
    → num_sectors < 2 ^ 31
    → format_loop (num_sectors / c) m offset ≡ some (m1, offset + num_sectors / c * c)
    → write_sectors m1 (offset + num_sectors / c * c) (num_sectors % c) zero_bytes ≡ some t
    → format_sectors m offset num_sectors ≡ some t.vhdm
unfolding format_sectors format_by
format_sectors_runs m m1 offset num_sectors c t size some_buffer small loops runs =
    let some_count : (c == 0) ≡ false = ground arith in
    let positive : ltb num_sectors (2 ^ 31) ≡ true = ground arith in
    ap (λ k. format_by k m offset num_sectors) size ∙ rw (some_count, positive, loops, runs) refl

-- Formatting sectors that lie on the disk, not a multiple of the buffer's 64, never faults: they read
-- as zeros, every other sector holds what it held, and the image is writable again.
pub format_sectors-Zeroed :
    (m : Meta) (offset num_sectors : ℕ)
    → Formattable m offset num_sectors
    → num_sectors < 2 ^ 31
    → 0 < num_sectors % 64
    → (m' : Meta) × (format_sectors m offset num_sectors ≡ some m') × Zeroed m offset num_sectors m'
format_sectors-Zeroed m offset num_sectors h small more =
    let n = num_sectors / 64 in
    let rest = num_sectors % 64 in
    let split : num_sectors ≡ n * 64 + rest = omega arith in
    let (m1, loops, first) =
      format_loop-Zeroed n m offset rest (subst (Formattable m offset) split h) more in
    let left =
      Formattable-Zeroed m m1 offset (n * 64) rest (subst (Formattable m offset) split h) first in
    let (t, runs, others) = write_zeros m1 (offset + n * 64) rest rest left (omega arith) more in
    (
      t.vhdm,
      format_sectors_runs m m1 offset num_sectors 64 t h.buffer (omega arith) small loops runs,
      subst (λ k. Zeroed m offset k t.vhdm) (sym split)
          (Zeroed-trans m m1 t.vhdm offset (n * 64) rest first others),
    )
