-- ===== src/Vhdcvt/Words.antt =====
-- contrib/vhdcvt.c: options as they can be written on a command line, and what the loop over the
-- options makes of them.
use mini_vhd.Prelude.{
  ℕ, zero, suc, ◌+◌, ◌<◌, ◌≡◌, refl, ap, ◌∙◌, subst, Option, none, some, List, [], ◌∷◌, ◌++◌,
  length, drop, ◌==◌, map, bit_xor, Bool, true, false, arith, if◌then◌else◌,
}
use mini_vhd.World.{FilePath, same_bytes}
use mini_vhd.Vhdcvt.Arguments.{
  Getopt, getopt, get_elem?, take_option, take_next, open_word, next_word, strchr, dash,
}
use mini_vhd.Vhdcvt.{Scanned, usage, scanned, scan_options, optstring, Options, set_option}

pub data Flag : Type 0 where
  quiet verbose raw sparse : Flag

abbrev pub letter : Flag → ℕ
letter quiet = 113
letter verbose = 118
letter raw = 114
letter sparse = 115

-- The quiet option asks for a sparse image.
abbrev pub set_flag : Flag → Options → Options
set_flag quiet o = record o { sparse = 1 }
set_flag verbose o = record o { verbose = o.verbose + 1 }
set_flag raw o = record o { raw = bit_xor o.raw 1 }
set_flag sparse o = record o { sparse = bit_xor o.sparse 1 }

abbrev pub set_flags : List Flag → Options → Options
set_flags [] o = o
set_flags (f ∷ fs) o = set_flags fs (set_flag f o)

-- Flags, as in -qv; and flags and the output's name, in the next argument, as in -so a.vhd, or in the
-- same, as in -soa.vhd.
pub data Word : Type 0 where
  flags : Flag → List Flag → Word
  output : List Flag → FilePath → Word
  attached : List Flag → ℕ → FilePath → Word

abbrev pub body : Word → List ℕ
body (flags f fs) = map letter (f ∷ fs) ++ []
body (output fs path) = map letter fs ++ (111 ∷ [])
body (attached fs c path) = map letter fs ++ (111 ∷ c ∷ path)

abbrev pub extra : Word → List FilePath
extra (flags f fs) = []
extra (output fs path) = path ∷ []
extra (attached fs c path) = []

abbrev pub set_word : Word → Options → Options
set_word (flags f fs) o = set_flags (f ∷ fs) o
set_word (output fs path) o = record (set_flags fs o) { outname = some path }
set_word (attached fs c path) o = record (set_flags fs o) { outname = some (c ∷ path) }

-- The options of a word.
abbrev pub used : Word → ℕ
used (flags f fs) = length (f ∷ fs)
used (output fs path) = length fs + 1
used (attached fs c path) = length fs + 1

unfoldable pub arguments : List Word → List FilePath
arguments [] = []
arguments (w ∷ ws) = (dash ∷ body w) ∷ (extra w ++ arguments ws)

unfoldable pub set_words : List Word → Options → Options
set_words [] o = o
set_words (w ∷ ws) o = set_words ws (set_word w o)

abbrev pub state : ℕ → Option FilePath → ℕ → Option FilePath → Getopt
state i arg c scan = record { optind = i; optarg = arg; optopt = c; scan = scan }

-- At the end of an argument.
abbrev pub blank : Bool → Option FilePath
blank true = none
blank false = some []

pub drop-next :
    (argv : List FilePath) (i : ℕ) (arg : FilePath) (rest : List FilePath)
    → drop i argv ≡ arg ∷ rest
    → (get_elem? argv i ≡ some arg) × (drop (suc i) argv ≡ rest)
drop-next [] zero arg rest h = absurd (ground arith)
drop-next [] (suc i) arg rest h = absurd (ground arith)
drop-next (x ∷ argv) zero arg rest h = (grind (arith, h), grind (arith, h))
drop-next (x ∷ argv) (suc i) arg rest h = drop-next argv i arg rest h

module _ (argv : List FilePath) where
  next_word_at :
      (i : ℕ) (arg : Option FilePath) (p : ℕ) (scan : Option FilePath) (c : ℕ) (more : List ℕ)
      → 0 < i
      → get_elem? argv i ≡ some (dash ∷ c ∷ more)
      → (c == dash) ≡ false
      → next_word argv optstring (state i arg p scan)
        ≡ take_option argv optstring c more (state (i + 1) arg p scan)
  unfolding same_bytes
  next_word_at i arg p scan c more low at other =
      let first : (if i == 0 then 1 else i) ≡ i = ground (arith, low) in
      ap (λ k. open_word argv optstring (state k arg p scan) (get_elem? argv k)) first
      ∙ ap (open_word argv optstring (state i arg p scan)) at
      ∙ rw (other, open_word) refl

  -- A call at the end of an argument reads the next one, if it has options.
  getopt-blank :
      (i : ℕ) (arg : Option FilePath) (p : ℕ) (b : Bool) (c : ℕ) (more : List ℕ)
      → 0 < i
      → get_elem? argv i ≡ some (dash ∷ c ∷ more)
      → (c == dash) ≡ false
      → getopt argv optstring (state i arg p (blank b))
        ≡ getopt argv optstring (state (i + 1) arg p (some (c ∷ more)))
  unfolding getopt same_bytes
  getopt-blank i arg p true c more low at other = next_word_at i none p none c more low at other
  getopt-blank i arg p false c more low at other =
      next_word_at i none p (some []) c more low at other

  -- The loop, from what getopt gives.
  abbrev pub go_on : ℕ → Options → Option ℕ × Getopt → Option Scanned
  go_on n o got = elim got.0 [
    | none ↦ some (scanned o got.1.optind)
    | some c ↦ elim (set_option c got.1.optarg o) [
      | none ↦ some usage
      | some o' ↦ scan_options n argv got.1 o'
    ]
  ]

  pub scan_options-blank :
      (n i : ℕ) (arg : Option FilePath) (p : ℕ) (b : Bool) (c : ℕ) (more : List ℕ) (o : Options)
      → 0 < i
      → get_elem? argv i ≡ some (dash ∷ c ∷ more)
      → (c == dash) ≡ false
      → scan_options n argv (state i arg p (blank b)) o
        ≡ scan_options n argv (state (i + 1) arg p (some (c ∷ more))) o
  unfolding scan_options
  scan_options-blank zero i arg p b c more o low at other = refl
  scan_options-blank (suc n) i arg p b c more o low at other =
      ap (go_on n o) (getopt-blank i arg p b c more low at other)

  scan_options_flag :
      (n i : ℕ) (arg : Option FilePath) (p : ℕ) (f : Flag) (more : List ℕ) (o : Options)
      → scan_options (suc n) argv (state i arg p (some (letter f ∷ more))) o
        ≡ scan_options n argv (state i none (letter f) (some more)) (set_flag f o)
  unfolding scan_options getopt set_option strchr
  scan_options_flag n i arg p quiet more o = refl
  scan_options_flag n i arg p verbose more o = refl
  scan_options_flag n i arg p raw more o = refl
  scan_options_flag n i arg p sparse more o = refl

  -- The flags of a word, and then what is left of it.
  pub scan_options_flags :
      (fs : List Flag) (n i : ℕ) (arg : Option FilePath) (p : ℕ) (more : List ℕ) (o : Options)
      (end : Option Scanned)
      → ((arg : Option FilePath) (p : ℕ)
          → scan_options n argv (state i arg p (some more)) (set_flags fs o) ≡ end)
      → scan_options (length fs + n) argv (state i arg p (some (map letter fs ++ more))) o ≡ end
  scan_options_flags [] n i arg p more o end rest =
      subst (λ k. scan_options k argv (state i arg p (some more)) o ≡ end) (omega arith)
        (rest arg p)
  scan_options_flags (f ∷ fs) n i arg p more o end rest =
      subst
        (λ k.
          scan_options k argv (state i arg p (some (letter f ∷ (map letter fs ++ more)))) o ≡ end)
        {x = suc (length fs + n)} (omega arith)
        (scan_options_flag (length fs + n) i arg p f (map letter fs ++ more) o
          ∙ scan_options_flags fs n i none (letter f) more (set_flag f o) end rest)

  -- The option with the output's name.
  pub scan_options_output :
      (n i : ℕ) (arg : Option FilePath) (p : ℕ) (path : FilePath) (o : Options)
      → get_elem? argv i ≡ some path
      → scan_options (suc n) argv (state i arg p (some (111 ∷ []))) o
        ≡ scan_options n argv
            (state (i + 1) (some path) 111 (some []))
            (record o { outname = some path })
  unfolding scan_options getopt set_option strchr
  scan_options_output n i arg p path o at =
      ap (λ arg. go_on n o (take_next 111 (state i none 111 (some [])) arg)) at

  pub scan_options_attached :
      (n i : ℕ) (arg : Option FilePath) (p c : ℕ) (path : FilePath) (o : Options)
      → scan_options (suc n) argv (state i arg p (some (111 ∷ c ∷ path))) o
        ≡ scan_options n argv
            (state i (some (c ∷ path)) 111 none)
            (record o { outname = some (c ∷ path) })
  unfolding scan_options getopt set_option strchr
  scan_options_attached n i arg p c path o = refl
