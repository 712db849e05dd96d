-- ===== src/Vhdcvt/Arguments.antt =====
-- contrib/win32/getopt.c: getopt, on strings without their final zero.
use mini_vhd.Prelude.{ℕ, zero, suc, ◌+◌, ◌==◌, if◌then◌else◌, Option, none, some, List, [], ◌∷◌}
use mini_vhd.World.{FilePath, same_bytes}

abbrev pub get_elem? {ℓ} : {A : Type ℓ} → List A → ℕ → Option A
get_elem? [] i = none
get_elem? (x ∷ xs) zero = some x
get_elem? (x ∷ xs) (suc i) = get_elem? xs i

-- The characters that the code names.
abbrev pub dash : ℕ
dash = 45

abbrev pub colon : ℕ
colon = 58

abbrev pub question : ℕ
question = 63

-- The file's variables but opterr, which only says whether a message is printed; `scan` is the rest
-- of the argument that is read.
pub record Getopt : Type 0 where
  pub optind : ℕ
  pub optarg : Option FilePath
  pub optopt : ℕ
  pub scan : Option FilePath

abbrev pub unread : Getopt
unread = record { optind = 0; optarg = none; optopt = 0; scan = none }

unfoldable pub strchr : List ℕ → ℕ → Option (List ℕ)
strchr [] c = none
strchr (x ∷ xs) c = if x == c then some (x ∷ xs) else strchr xs c

-- An option whose argument is the next one of the command line, or is missing.
abbrev pub take_next : ℕ → Getopt → Option FilePath → Option ℕ × Getopt
take_next c g (some arg) = (some c, record g { optarg = some arg; optind = g.optind + 1 })
take_next c g none = (some question, g)

-- An option with an argument, by what is left of its word.
abbrev pub take_argument : List FilePath → ℕ → FilePath → Getopt → Option ℕ × Getopt
take_argument argv c (x ∷ more) g = (some c, record g { optarg = some (x ∷ more); scan = none })
take_argument argv c [] g = take_next c g (get_elem? argv g.optind)

-- From the place of the option in `optstring`.
abbrev pub take_placed : List FilePath → ℕ → FilePath → Getopt → Option (List ℕ) → Option ℕ × Getopt
take_placed argv c more g none = (some question, g)
take_placed argv c more g (some []) = (some question, g)
take_placed argv c more g (some (x ∷ [])) = (some c, g)
take_placed argv c more g (some (x ∷ y ∷ place)) =
    if y == colon then take_argument argv c more g else (some c, g)

abbrev pub take_option : List FilePath → List ℕ → ℕ → FilePath → Getopt → Option ℕ × Getopt
take_option argv optstring c more g =
    let g = record g { optopt = c; scan = some more } in
    if c == colon then (some question, g) else take_placed argv c more g (strchr optstring c)

-- The next argument, if it is one with options.
abbrev pub open_word : List FilePath → List ℕ → Getopt → Option FilePath → Option ℕ × Getopt
open_word argv optstring g (some (d ∷ c ∷ more)) =
    if d == dash
    then if same_bytes (d ∷ c ∷ more) (dash ∷ dash ∷ [])
      then (none, record g { optind = g.optind + 1 })
      else take_option argv optstring c more (record g { optind = g.optind + 1 })
    else (none, g)
open_word argv optstring g other = (none, g)

abbrev pub next_word : List FilePath → List ℕ → Getopt → Option ℕ × Getopt
next_word argv optstring g =
    let g = record g { optind = if g.optind == 0 then 1 else g.optind } in
    open_word argv optstring g (get_elem? argv g.optind)

-- The option, or `none` for EOF.
unfoldable pub getopt : List FilePath → List ℕ → Getopt → Option ℕ × Getopt
getopt argv optstring g =
    let g = record g { optarg = none } in
    elim g.scan [
      | some (c ∷ more) ↦ take_option argv optstring c more g
      | some [] ↦ next_word argv optstring g
      | none ↦ next_word argv optstring g
    ]
