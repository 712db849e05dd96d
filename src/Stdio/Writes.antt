-- ===== src/Stdio/Writes.antt =====
-- Writes inside a file.
use mini_vhd.Prelude.{ℕ, ◌+◌, ◌≤◌, ◌<◌, ◌≡◌, ◌⊎◌, inl, inr, arith}
use mini_vhd.Memory.{Mem}
use mini_vhd.Stdio.{File, write}

pub write-size :
    (f : File) (src : Mem) (from n : ℕ) → f.pos + n ≤ f.size → (write f src from n).size ≡ f.size
write-size f src from n h = ground arith

pub write-kept :
    (f : File) (src : Mem) (from n i : ℕ)
    → i < f.size
    → (i < f.pos) ⊎ (f.pos + n ≤ i)
    → (write f src from n).byte i ≡ f.byte i
write-kept f src from n i h (inl before) = ground arith
write-kept f src from n i h (inr behind) = ground arith

pub write-new :
    (f : File) (src : Mem) (from n k : ℕ)
    → k < n
    → (write f src from n).byte (f.pos + k) ≡ src (from + k)
write-new f src from n k h = ground arith
