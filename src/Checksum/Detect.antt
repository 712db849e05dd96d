-- ===== src/Checksum/Detect.antt =====
-- A footer in which one byte is damaged.
use mathlib.Core.Path.{subst}
use mini_vhd.Prelude.{
  ℕ, zero, suc, ◌+◌, ◌-◌, ◌≤◌, ◌<◌, ◌≡◌, ◌≢◌, inl, inr, refl, sym, ap, ◌∙◌, arith,
}
use mini_vhd.Prelude.{true, false, Bool-cases, ltb, List, [], ◌∷◌, length, get_or, take, drop, All}
use mini_vhd.Prelude.{IsByte, length-drop}
use mini_vhd.StructRw.{buffer_to_footer}
use mini_vhd.StructRw.Restore.{IsBuffer}
use mini_vhd.Checksum.{footer_checksum_valid}
use mini_vhd.Checksum.Sums.{sum}
use mini_vhd.Checksum.OnDisk.{be_word, sum_without, footer_accepted_iff}

-- buffer[i] = v
abbrev pub set_at : ℕ → ℕ → List ℕ → List ℕ
set_at i v [] = []
set_at zero v (x ∷ xs) = v ∷ xs
set_at (suc i) v (x ∷ xs) = x ∷ set_at i v xs

sum-set_at :
    (i v : ℕ) (xs : List ℕ) → i < length xs → sum (set_at i v xs) + get_or xs i 0 ≡ sum xs + v
sum-set_at i v [] h = absurd (omega arith)
sum-set_at zero v (x ∷ xs) h = omega arith
sum-set_at (suc i) v (x ∷ xs) h = omega (arith, sum-set_at i v xs (omega arith))

length-set_at : (i v : ℕ) (xs : List ℕ) → length (set_at i v xs) ≡ length xs
length-set_at i v [] = refl
length-set_at zero v (x ∷ xs) = refl
length-set_at (suc i) v (x ∷ xs) = ap suc (length-set_at i v xs)

All-set_at : (i v : ℕ) (xs : List ℕ) → IsByte v → All IsByte xs → All IsByte (set_at i v xs)
All-set_at i v [] hv h = h
All-set_at zero v (x ∷ xs) hv (hx, h) = (hv, h)
All-set_at (suc i) v (x ∷ xs) hv (hx, h) = (hx, All-set_at i v xs hv h)

take-set_at_before : (n i v : ℕ) (xs : List ℕ) → n ≤ i → take n (set_at i v xs) ≡ take n xs
take-set_at_before n i v [] h = refl
take-set_at_before zero i v (x ∷ xs) h = refl
take-set_at_before (suc n) zero v (x ∷ xs) h = absurd (omega arith)
take-set_at_before (suc n) (suc i) v (x ∷ xs) h =
    ap (λ ys. x ∷ ys) (take-set_at_before n i v xs (omega arith))

drop-set_at_after : (n i v : ℕ) (xs : List ℕ) → i < n → drop n (set_at i v xs) ≡ drop n xs
drop-set_at_after n i v [] h = refl
drop-set_at_after zero i v (x ∷ xs) h = absurd (omega arith)
drop-set_at_after (suc n) zero v (x ∷ xs) h = refl
drop-set_at_after (suc n) (suc i) v (x ∷ xs) h = drop-set_at_after n i v xs (omega arith)

-- The four bytes of the checksum are in the part that the sum leaves out.
sum-parts : (n : ℕ) (xs : List ℕ) → sum xs ≡ sum (take n xs) + sum (drop n xs)
sum-parts zero [] = refl
sum-parts (suc n) [] = refl
sum-parts zero (x ∷ xs) = omega arith
sum-parts (suc n) (x ∷ xs) = omega (arith, sum-parts n xs)

suc_sum : (n i : ℕ) → suc n + i ≡ suc (n + i)
suc_sum n i = omega arith

drop_nil_both : (n i v : ℕ) → drop n (set_at (n + i) v []) ≡ set_at i v (drop n [])
drop_nil_both zero i v = refl
drop_nil_both (suc n) i v = refl

get_or_nil : (n i : ℕ) → get_or {A = ℕ} (drop n []) i 0 ≡ get_or {A = ℕ} [] (n + i) 0
get_or_nil zero i = refl
get_or_nil (suc n) i = refl

drop-set_at_before :
    (n i v : ℕ) (xs : List ℕ) → drop n (set_at (n + i) v xs) ≡ set_at i v (drop n xs)
drop-set_at_before n i v [] = drop_nil_both n i v
drop-set_at_before zero i v (x ∷ xs) = ap (λ (k : ℕ). set_at k v (x ∷ xs)) (omega arith)
drop-set_at_before (suc n) i v (x ∷ xs) =
    ap (λ (k : ℕ). drop (suc n) (set_at k v (x ∷ xs))) (suc_sum n i) ∙ drop-set_at_before n i v xs

get_or-drop : (n i : ℕ) (xs : List ℕ) → get_or (drop n xs) i 0 ≡ get_or xs (n + i) 0
get_or-drop n i [] = get_or_nil n i
get_or-drop zero i (x ∷ xs) = ap (λ (k : ℕ). get_or (x ∷ xs) k 0) (omega arith)
get_or-drop (suc n) i (x ∷ xs) =
    get_or-drop n i xs ∙ ap (λ (k : ℕ). get_or (x ∷ xs) k 0) (sym (suc_sum n i))

be_word-set_at_inside :
    (k v : ℕ) (d : List ℕ)
    → 4 ≤ length d
    → k < 4
    → v ≢ get_or d k 0
    → be_word (set_at k v d) ≢ be_word d
be_word-set_at_inside k v [] h hk ne = absurd (omega arith)
be_word-set_at_inside k v (b0 ∷ []) h hk ne = absurd (omega arith)
be_word-set_at_inside k v (b0 ∷ b1 ∷ []) h hk ne = absurd (omega arith)
be_word-set_at_inside k v (b0 ∷ b1 ∷ b2 ∷ []) h hk ne = absurd (omega arith)
be_word-set_at_inside zero v (b0 ∷ b1 ∷ b2 ∷ b3 ∷ d) h hk ne = λ e. ne (omega arith)
be_word-set_at_inside (suc zero) v (b0 ∷ b1 ∷ b2 ∷ b3 ∷ d) h hk ne = λ e. ne (omega arith)
be_word-set_at_inside (suc (suc zero)) v (b0 ∷ b1 ∷ b2 ∷ b3 ∷ d) h hk ne = λ e. ne (omega arith)
be_word-set_at_inside (suc (suc (suc zero))) v (b0 ∷ b1 ∷ b2 ∷ b3 ∷ d) h hk ne =
    λ e. ne (omega arith)
be_word-set_at_inside (suc (suc (suc (suc k)))) v (b0 ∷ b1 ∷ b2 ∷ b3 ∷ d) h hk ne =
    absurd (omega arith)

be_word-set_at_past :
    (k v : ℕ) (d : List ℕ)
    → 4 ≤ length d
    → be_word (set_at (suc (suc (suc (suc k)))) v d) ≡ be_word d
be_word-set_at_past k v [] h = refl
be_word-set_at_past k v (b0 ∷ []) h = refl
be_word-set_at_past k v (b0 ∷ b1 ∷ []) h = refl
be_word-set_at_past k v (b0 ∷ b1 ∷ b2 ∷ []) h = refl
be_word-set_at_past k v (b0 ∷ b1 ∷ b2 ∷ b3 ∷ d) h = refl

-- Before, in and after the checksum's own bytes.
module _ (b : List ℕ) (v : ℕ) (len : length b ≡ 512) where
  abbrev total : List ℕ → ℕ
  total xs = be_word (drop 64 xs) + sum_without 64 xs

  changed_before : (i : ℕ) → i < 64 → v ≢ get_or b i 0 → total (set_at i v b) ≢ total b
  changed_before i h ne = λ e. ne (
      omega (
        arith,
        sum-set_at i v b (omega arith),
        sum-parts 64 (set_at i v b),
        sum-parts 64 b,
        ap be_word (drop-set_at_after 64 i v b h),
        ap sum (drop-set_at_after 64 i v b h),
        ap sum (drop-set_at_after 68 i v b (omega arith)),
      ))

  changed_inside : (k : ℕ) → k < 4 → v ≢ get_or b (64 + k) 0 → total (set_at (64 + k) v b) ≢ total b
  changed_inside k h ne = λ e.
      be_word-set_at_inside k v (drop 64 b) (omega (arith, length-drop 64 b)) h
        (λ d. ne (d ∙ get_or-drop 64 k b))
        (omega (
          arith,
          ap be_word (drop-set_at_before 64 k v b),
          ap sum (take-set_at_before 64 (64 + k) v b (omega arith)),
          ap sum (drop-set_at_after 68 (64 + k) v b (omega arith)),
        ))

  changed_after :
      (k : ℕ)
      → 64 + (4 + k) < 512
      → v ≢ get_or b (64 + (4 + k)) 0
      → total (set_at (64 + (4 + k)) v b) ≢ total b
  changed_after k h ne = λ e. ne (
      omega (
        arith,
        sum-set_at (64 + (4 + k)) v b (omega arith),
        sum-parts 68 (set_at (64 + (4 + k)) v b),
        sum-parts 68 b,
        ap be_word (drop-set_at_before 64 (4 + k) v b),
        past,
        ap sum (take-set_at_before 64 (64 + (4 + k)) v b (omega arith)),
        ap sum (take-set_at_before 68 (64 + (4 + k)) v b (omega arith)),
      ))
    where
      past : be_word (set_at (4 + k) v (drop 64 b)) ≡ be_word (drop 64 b)
      past =
          ap (λ (n : ℕ). be_word (set_at n v (drop 64 b))) (omega arith)
          ∙ be_word-set_at_past k v (drop 64 b) (omega (arith, length-drop 64 b))

  changed : (i : ℕ) → i < 512 → v ≢ get_or b i 0 → total (set_at i v b) ≢ total b
  changed i h ne = elim (Bool-cases (ltb i 64)) [
    | inl before ↦ changed_before i (ground arith) ne
    | inr later ↦ elim (Bool-cases (ltb i 68)) [
      | inl inside ↦
          let place : 64 + (i - 64) ≡ i = ground arith in
          subst (λ n. v ≢ get_or b n 0 → total (set_at n v b) ≢ total b) place
            (changed_inside (i - 64) (ground arith)) ne
      | inr after ↦
          let place : 64 + (4 + (i - 68)) ≡ i = ground arith in
          subst (λ n. n < 512 → v ≢ get_or b n 0 → total (set_at n v b) ≢ total b) place
            (changed_after (i - 68)) h ne
    ]
  ]

-- A footer sector that is accepted is rejected after any one of its bytes is replaced by another byte.
pub footer_checksum_valid-set_at :
    (b : List ℕ) (i v : ℕ)
    → IsBuffer 512 b
    → footer_checksum_valid (buffer_to_footer b) ≡ true
    → i < 512
    → IsByte v
    → v ≢ get_or b i 0
    → footer_checksum_valid (buffer_to_footer (set_at i v b)) ≡ false
footer_checksum_valid-set_at b i v (len, bs) ok h hv ne =
    let damaged : IsBuffer 512 (set_at i v b) =
      (length-set_at i v b ∙ len, All-set_at i v b hv bs) in
    elim (Bool-cases (footer_checksum_valid (buffer_to_footer (set_at i v b)))) [
      | inl accepted ↦ absurd (
          changed b v len i h ne (
            (footer_accepted_iff (set_at i v b) damaged).0 accepted
            ∙ sym ((footer_accepted_iff b (len, bs)).0 ok)))
      | inr rejected ↦ rejected
    ]
