-- ===== src/Vhdcvt/Names.antt =====
-- contrib/vhdcvt.c: the name that is made up for an output fits into temp.
use mini_vhd.Prelude.{
  ℕ, ◌+◌, ◌≤◌, ◌<◌, ◌≡◌, refl, ap, ◌⊎◌, none, some, List, [], ◌∷◌, ◌++◌, length, take, ltb, ◌||◌,
  Bool, true, false, inl, inr, arith, length-append, length-take, if◌then◌else◌,
}
use mini_vhd.World.{FilePath}
use mini_vhd.Vhdcvt.Arguments.{strchr}
use mini_vhd.Vhdcvt.{Options, before_dot, has_dot, extension, generate_name}
use mathlib.Core.Option.{some-injective}

length-before_dot : (name : List ℕ) → length (before_dot name) ≤ length name
unfolding before_dot
length-before_dot [] = omega arith
length-before_dot (c ∷ more) = ground (arith, length-before_dot more)

length-before_dot-has_dot :
    (name : List ℕ) → has_dot name ≡ true → length (before_dot name) < length name
unfolding before_dot strchr
length-before_dot-has_dot [] h = absurd (ground arith)
length-before_dot-has_dot (c ∷ more) h = ground (arith, length-before_dot-has_dot more)

length-extension : (o : Options) → length (extension o) ≡ 4
length-extension o = ground arith

or-cases : (a b : Bool) → (a || b) ≡ true → (a ≡ true) ⊎ (b ≡ true)
or-cases true b h = inl refl
or-cases false b h = inr h

if-some :
    {A : Type 0} (b : Bool) (x y : A) → (if b then some x else none) ≡ some y → (b ≡ true) × (x ≡ y)
if-some true x y h = (refl, some-injective x y h)
if-some false x y h = absurd (ground arith)

below : (a b : ℕ) → ltb a b ≡ true → a < b
below a b h = ground arith

stem_short :
    (name : FilePath)
    → (ltb (length name) 1019 || has_dot (take 1019 name)) ≡ true
    → length (before_dot (take 1019 name)) ≤ 1018
stem_short name h =
    let temp = take 1019 name in
    elim (or-cases (ltb (length name) 1019) (has_dot temp) h) [
      | inl short ↦
          omega
            (arith, below (length name) 1019 short, length-before_dot temp, length-take 1019 name)
      | inr found ↦ omega (arith, length-before_dot-has_dot temp found, length-take 1019 name)
    ]

-- The name that is made up for an output, where it is well defined, fits into the 1024 bytes of temp
-- with its final zero, and is at most four bytes longer than the input's name.
pub generate_name-fits :
    (o : Options) (name out : FilePath)
    → generate_name o name ≡ some out
    → (length out + 1 ≤ 1024) × (length out ≤ length name + 4)
unfolding generate_name
generate_name-fits o name out h =
    let temp = take 1019 name in
    let (ended, same) =
      if-some (ltb (length name) 1019 || has_dot temp) (before_dot temp ++ extension o) out h in
    let size = ap length same in
    let joined = length-append (before_dot temp) (extension o) in
    (
      omega (arith, size, joined, length-extension o, stem_short name ended),
      omega
          (arith, size, joined, length-extension o, length-before_dot temp, length-take 1019 name),
    )
