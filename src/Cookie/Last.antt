-- ===== src/Cookie/Last.antt =====
-- The last sector of a file, and the cookie that it may begin with.
use mini_vhd.Prelude.{
  ℕ, zero, suc, ◌+◌, ◌-◌, ◌≤◌, ◌<◌, ◌≡◌, refl, sym, ap, ap₂, ◌∙◌, subst, true, leb, length, List,
  [], ◌∷◌, get_or, arith,
}
use mini_vhd.Memory.{Mem, bytes_at}
use mini_vhd.Stdio.{File, seek_end, read_mem}
use mini_vhd.Cookie.{is_conectix_str, begins_with, conectix_cookie}

-- The last sector of the file.
pub record EndsIn (file : File) (sector : List ℕ) : Type 0 where
  pub large : 512 ≤ file.size
  pub last : (i : ℕ) → i < 512 → file.byte (file.size - 512 + i) ≡ get_or sector i 0

pub bytes_at-list :
    (mem : Mem) (start n : ℕ) (xs : List ℕ)
    → length xs ≡ n
    → ((i : ℕ) → i < n → mem (start + i) ≡ get_or xs i 0)
    → bytes_at mem start n ≡ xs
bytes_at-list mem start zero [] e h = refl
bytes_at-list mem start zero (x ∷ xs) e h = absurd (omega arith)
bytes_at-list mem start (suc n) [] e h = absurd (omega arith)
bytes_at-list mem start (suc n) (x ∷ xs) e h =
    let head : mem start ≡ x = ap mem (omega arith) ∙ h 0 (omega arith) in
    let rest : bytes_at mem (start + 1) n ≡ xs =
      bytes_at-list mem (start + 1) n xs (omega (arith, e))
        λ i small. ap mem (omega arith) ∙ h (suc i) (omega arith) in
    ap₂ ◌∷◌ head rest

-- What a read of the start of the last sector gives.
pub read_last :
    (file : File) (sector : List ℕ) (dst : Mem) (n i : ℕ)
    → EndsIn file sector
    → n ≤ 512
    → i < n
    → read_mem (seek_end file 512) dst 0 n (0 + i) ≡ get_or sector i 0
read_last file sector dst n i ends small h =
    let inside : leb 512 file.size ≡ true = ground (arith, ends.large) in
    let at : seek_end file 512 ≡ record file { pos = file.size - 512 } = rw inside refl in
    subst (λ (f : File). read_mem f dst 0 n (0 + i) ≡ get_or sector i 0) (sym at)
      (ground (arith, ends.last i (omega arith)))

begins_with-at :
    (cs : List ℕ) (mem : Mem) (i : ℕ)
    → ((k : ℕ) → k < length cs → mem (i + k) ≡ get_or cs k 0)
    → begins_with cs mem i ≡ true
unfolding begins_with
begins_with-at [] mem i h = refl
begins_with-at (c ∷ cs) mem i h =
    let head : mem i ≡ c = ap mem (omega arith) ∙ h 0 (omega arith) in
    let rest : begins_with cs mem (i + 1) ≡ true =
      begins_with-at cs mem (i + 1) λ k small. ap mem (omega arith) ∙ h (suc k) (omega arith) in
    ground (arith, head, rest)

pub EndsIn-moved :
    (file moved : File) (sector : List ℕ)
    → moved.size ≡ file.size
    → moved.byte ≡ file.byte
    → EndsIn file sector
    → EndsIn moved sector
EndsIn-moved file moved sector size byte ends = record {
  large = omega (arith, size, ends.large);
  last = λ i small.
      ap (λ (b : Mem). b (moved.size - 512 + i)) byte
      ∙ ap (λ n. file.byte (n - 512 + i)) size
      ∙ ends.last i small;
}

-- A sector that begins with the cookie.
abbrev pub HasCookie : List ℕ → Type 0
HasCookie sector = (i : ℕ) → i < 8 → get_or sector i 0 ≡ get_or conectix_cookie i 0

-- The test of such a sector, when at least its cookie is read.
pub is_conectix_str-last :
    (file : File) (sector : List ℕ) (dst : Mem) (n : ℕ)
    → EndsIn file sector
    → HasCookie sector
    → 8 ≤ n
    → n ≤ 512
    → is_conectix_str (read_mem (seek_end file 512) dst 0 n) ≡ true
unfolding is_conectix_str
is_conectix_str-last file sector dst n ends cookie whole fits =
    begins_with-at conectix_cookie (read_mem (seek_end file 512) dst 0 n) 0
      λ k small. read_last file sector dst n k ends fits (omega arith) ∙ cookie k small
