-- ===== src/Vhdcvt/Ends.antt =====
-- contrib/win32/getopt.c and contrib/vhdcvt.c: each option uses up characters of the command line, so
-- the loop over the options ends.
use mini_vhd.Prelude.{
  ℕ, zero, suc, ◌+◌, ◌≤◌, ◌<◌, ◌≡◌, refl, ap, Option, none, some, List, [], ◌∷◌, length, drop,
  if◌then◌else◌, ◌==◌, inl, inr, Bool, true, false, Bool-cases, arith, Option-cases,
}
use mini_vhd.World.{FilePath, same_bytes}
use mini_vhd.Vhdcvt.Arguments.{
  Getopt, getopt, get_elem?, take_option, take_next, take_argument, take_placed, open_word,
  next_word, strchr, colon, dash,
}
use mini_vhd.Vhdcvt.{
  Scanned, usage, scanned, scan_options, characters, optstring, Options, set_option,
}

abbrev pending : Option FilePath → ℕ
pending none = 0
pending (some more) = length more

-- The characters that getopt has not read.
abbrev left : List FilePath → Getopt → ℕ
left argv g = pending g.scan + characters (drop g.optind argv)

characters-drop :
    (argv : List FilePath) (i : ℕ) (arg : FilePath)
    → get_elem? argv i ≡ some arg
    → characters (drop i argv) ≡ length arg + characters (drop (suc i) argv)
unfolding characters
characters-drop [] i arg h = absurd (ground arith)
characters-drop (x ∷ argv) zero arg h = ground arith
characters-drop (x ∷ argv) (suc i) arg h = characters-drop argv i arg h

characters-next :
    (argv : List FilePath) (i : ℕ) → characters (drop (suc i) argv) ≤ characters (drop i argv)
unfolding characters
characters-next [] zero = omega arith
characters-next [] (suc i) = omega arith
characters-next (x ∷ argv) zero = omega arith
characters-next (x ∷ argv) (suc i) = characters-next argv i

take_next-left :
    (argv : List FilePath) (c : ℕ) (g : Getopt) (arg : Option FilePath)
    → left argv (take_next c (record g { scan = some [] }) arg).1 ≤ characters (drop g.optind argv)
take_next-left argv c g none = omega arith
take_next-left argv c g (some arg) =
    let onward : characters (drop (g.optind + 1) argv) ≡ characters (drop (suc g.optind) argv) =
      ap (λ i. characters (drop i argv)) {y = suc g.optind} (omega arith) in
    omega (arith, onward, characters-next argv g.optind)

take_argument-left :
    (argv : List FilePath) (c : ℕ) (more : FilePath) (g : Getopt)
    → left argv (take_argument argv c more (record g { scan = some more })).1
      ≤ length more + characters (drop g.optind argv)
take_argument-left argv c (x ∷ more) g = omega arith
take_argument-left argv c [] g = omega (arith, take_next-left argv c g (get_elem? argv g.optind))

take_placed-left :
    (argv : List FilePath) (c : ℕ) (more : FilePath) (g : Getopt) (place : Option (List ℕ))
    → left argv (take_placed argv c more (record g { scan = some more }) place).1
      ≤ length more + characters (drop g.optind argv)
take_placed-left argv c more g none = omega arith
take_placed-left argv c more g (some []) = omega arith
take_placed-left argv c more g (some (x ∷ [])) = omega arith
take_placed-left argv c more g (some (x ∷ y ∷ place)) = elim (Bool-cases (y == colon)) [
  | inl e ↦ rw e (take_argument-left argv c more g)
  | inr e ↦ rw e (omega arith)
]

take_option-left :
    (argv : List FilePath) (opts : List ℕ) (c : ℕ) (more : FilePath) (g : Getopt)
    → left argv (take_option argv opts c more g).1 ≤ length more + characters (drop g.optind argv)
take_option-left argv opts c more g = elim (Bool-cases (c == colon)) [
  | inl e ↦ rw e (omega arith)
  | inr e ↦ rw e (take_placed-left argv c more (record g { optopt = c }) (strchr opts c))
]

-- A call of getopt that gives an option leaves fewer characters than there were.
abbrev Uses : List FilePath → ℕ → Option ℕ × Getopt → Type 0
Uses argv before got = (c : ℕ) → got.0 ≡ some c → left argv got.1 < before

Uses-if :
    (argv : List FilePath) (before : ℕ) (b : Bool) (x y : Option ℕ × Getopt)
    → Uses argv before x
    → Uses argv before y
    → Uses argv before (if b then x else y)
Uses-if argv before true x y first second = first
Uses-if argv before false x y first second = second

Uses-none : (argv : List FilePath) (before : ℕ) (g : Getopt) → Uses argv before (none, g)
Uses-none argv before g c h = absurd (ground arith)

open_word-Uses :
    (argv : List FilePath) (opts : List ℕ) (g : Getopt) (word : Option FilePath)
    → get_elem? argv g.optind ≡ word
    → Uses argv (characters (drop g.optind argv)) (open_word argv opts g word)
open_word-Uses argv opts g none at = Uses-none argv _ g
open_word-Uses argv opts g (some []) at = Uses-none argv _ g
open_word-Uses argv opts g (some (d ∷ [])) at = Uses-none argv _ g
open_word-Uses argv opts g (some (d ∷ e ∷ more)) at =
    let next = record g { optind = g.optind + 1 } in
    let taken = take_option-left argv opts e more next in
    let here = characters-drop argv g.optind (d ∷ e ∷ more) at in
    let onward : characters (drop (g.optind + 1) argv) ≡ characters (drop (suc g.optind) argv) =
      ap (λ i. characters (drop i argv)) {y = suc g.optind} (omega arith) in
    Uses-if argv (characters (drop g.optind argv)) (d == dash)
      (if same_bytes (d ∷ e ∷ more) (dash ∷ dash ∷ [])
        then (none, next)
        else take_option argv opts e more next)
      (none, g)
      (Uses-if argv (characters (drop g.optind argv)) (same_bytes (d ∷ e ∷ more) (dash ∷ dash ∷ []))
        (none, next) (take_option argv opts e more next) (Uses-none argv _ next)
        (λ c h. omega (arith, taken, here, onward)))
      (Uses-none argv _ g)

getopt_first :
    (argv : List FilePath) (optind : ℕ)
    → characters (drop (if optind == 0 then 1 else optind) argv) ≤ characters (drop optind argv)
getopt_first argv zero = characters-next argv zero
getopt_first argv (suc optind) = grind arith

next_word-Uses :
    (argv : List FilePath) (opts : List ℕ) (g : Getopt)
    → Uses argv (characters (drop g.optind argv)) (next_word argv opts g)
next_word-Uses argv opts g c h =
    let first : ℕ = if g.optind == 0 then 1 else g.optind in
    let fewer =
      open_word-Uses argv opts (record g { optind = first }) (get_elem? argv first) refl c h in
    omega (arith, fewer, getopt_first argv g.optind)

getopt-Uses-scan :
    (argv : List FilePath) (opts : List ℕ) (g : Getopt) (scan : Option FilePath)
    → Uses argv
        (pending scan + characters (drop g.optind argv))
        (getopt argv opts (record g { scan = scan }))
unfolding getopt
getopt-Uses-scan argv opts g none =
    λ c h. omega (arith, next_word-Uses argv opts (record g { scan = none; optarg = none }) c h)
getopt-Uses-scan argv opts g (some []) =
    λ c h. omega (arith, next_word-Uses argv opts (record g { scan = some []; optarg = none }) c h)
getopt-Uses-scan argv opts g (some (x ∷ more)) = λ c h.
    omega (
      arith,
      take_option-left argv opts x more (record g { optarg = none; scan = some (x ∷ more) }),
    )

getopt-Uses :
    (argv : List FilePath) (opts : List ℕ) (g : Getopt)
    → Uses argv (left argv g) (getopt argv opts g)
getopt-Uses argv opts g = getopt-Uses-scan argv opts g g.scan

-- With more fuel than characters that are left, the loop over the options ends.
pub scan_options_end :
    (fuel : ℕ) (argv : List FilePath) (g : Getopt) (o : Options)
    → left argv g < fuel
    → (s : Scanned) × (scan_options fuel argv g o ≡ some s)
unfolding scan_options
scan_options_end zero argv g o h = absurd (omega arith)
scan_options_end (suc fuel) argv g o h = elim (Option-cases (getopt argv optstring g).0) [
  | inl ended ↦ (scanned o (getopt argv optstring g).1.optind, rw (ended, scan_options) refl)
  | inr (c, given) ↦
      let next = (getopt argv optstring g).1 in
      elim (Option-cases (set_option c next.optarg o)) [
        | inl wrong ↦ (usage, rw (given, scan_options, wrong) refl)
        | inr (o', set) ↦
            let (s, rest) =
              scan_options_end fuel argv next o'
                (omega (arith, getopt-Uses argv optstring g c given)) in
            (s, rw (given, scan_options, set) rest)
      ]
]
