-- ===== src/Memory.antt =====
-- Memory: a buffer of the caller (`Mem`), and an array that the library allocates (`Block`), whose
-- accesses out of range are faults.
use mini_vhd.Prelude.{ℕ, zero, suc, ◌+◌, ◌-◌, ltb, leb, ◌==◌}
use mini_vhd.Prelude.{if◌then◌else◌, Bool, ◌&&◌, Option, none, some, List, [], ◌∷◌, get_or}

-- The bytes from a pointer on.
abbrev pub Mem : Type 0
Mem = ℕ → ℕ

-- `index` lies in the `n` places from `start` on.
abbrev pub within : ℕ → ℕ → ℕ → Bool
within start n index = leb start index && ltb index (start + n)

-- memcpy(dst + to, src + from, n)
abbrev pub copy : Mem → ℕ → Mem → ℕ → ℕ → Mem
copy dst to src from n i = if within to n i then src (from + (i - to)) else dst i

-- memset(dst + to, value, n)
abbrev pub fill : Mem → ℕ → ℕ → ℕ → Mem
fill dst to value n i = if within to n i then value else dst i

abbrev pub update : Mem → ℕ → ℕ → Mem
update mem k value i = if i == k then value else mem i

pub record Block : Type 0 where
  pub size : ℕ
  pub at : Mem

-- An element read, and an element write; `none` is an index out of range.
abbrev pub load : Block → ℕ → Option ℕ
load b i = if ltb i b.size then some (b.at i) else none

abbrev pub store : Block → ℕ → ℕ → Option Block
store b i value =
    if ltb i b.size then some (record { size = b.size; at = update b.at i value }) else none

-- The `n` bytes at `start`, and a buffer that begins with given bytes.
abbrev pub bytes_at : Mem → ℕ → ℕ → List ℕ
bytes_at mem start zero = []
bytes_at mem start (suc n) = mem start ∷ bytes_at mem (start + 1) n

abbrev pub of_list : List ℕ → Mem
of_list xs i = get_or xs i 0
