-- ===== src/Vhdcvt/CommandLine.antt =====
-- contrib/vhdcvt.c: the options of a whole command line.
use mini_vhd.Prelude.{
  ℕ, zero, suc, ◌+◌, ◌-◌, ◌≤◌, ◌≡◌, refl, ap, ◌∙◌, subst, none, some, List, [], ◌∷◌, ◌++◌, length,
  drop, map, true, false, arith, length-append,
}
use mini_vhd.World.{FilePath}
use mini_vhd.Vhdcvt.Arguments.{unread, getopt}
use mini_vhd.Vhdcvt.{scanned, scan_options, characters, Options, defaults}
use mini_vhd.Vhdcvt.Words.{
  Flag, letter, Word, flags, output, attached, body, extra, used, arguments, set_words, state,
}
use mini_vhd.Vhdcvt.Scan.{all_used, begins_with_options, scan_options_words, drop-append}

-- The first call starts behind the program's name, as one at the end of that would.
scan_options_first :
    (n : ℕ) (argv : List FilePath) (o : Options)
    → scan_options n argv unread o ≡ scan_options n argv (state 1 none 0 none) o
unfolding scan_options getopt
scan_options_first zero argv o = refl
scan_options_first (suc n) argv o = refl

length-letters : (fs : List Flag) → length (map letter fs) ≡ length fs
length-letters [] = refl
length-letters (f ∷ fs) = ap suc (length-letters fs)

characters-append : (xs ys : List FilePath) → characters (xs ++ ys) ≡ characters xs + characters ys
unfolding characters
characters-append [] ys = omega arith
characters-append (x ∷ xs) ys = omega (arith, characters-append xs ys)

-- Each option of a word is a character of it.
used_below : (w : Word) → used w ≤ length (body w)
used_below (flags f fs) = omega (arith, length-letters fs, length-append (map letter fs) [])
used_below (output fs path) =
    omega (arith, length-letters fs, length-append (map letter fs) (111 ∷ []))
used_below (attached fs c path) =
    omega (arith, length-letters fs, length-append (map letter fs) (111 ∷ c ∷ path))

all_used_below : (ws : List Word) → all_used ws ≤ characters (arguments ws)
unfolding characters arguments
all_used_below [] = omega arith
all_used_below (w ∷ ws) =
    omega (arith, used_below w, all_used_below ws, characters-append (extra w) (arguments ws))

-- The options of a command line are those of its words, in their order, and what follows them are the
-- files, where the first of those is no option itself.
pub scan_options-arguments :
    (prog : FilePath) (ws : List Word) (files : List FilePath)
    → begins_with_options files ≡ false
    → let argv = prog ∷ (arguments ws ++ files) in
      (scan_options (suc (characters argv)) argv unread defaults
        ≡ some (scanned (set_words ws defaults) (1 + length (arguments ws))))
      × (drop (1 + length (arguments ws)) argv ≡ files)
unfolding characters
scan_options-arguments prog ws files h =
    let argv = prog ∷ (arguments ws ++ files) in
    let spare = characters argv - all_used ws in
    let enough : all_used ws + suc spare ≡ suc (characters argv) =
      omega (arith, all_used_below ws, characters-append (arguments ws) files) in
    (
      subst
          (λ k.
            scan_options k argv unread defaults
            ≡ some (scanned (set_words ws defaults) (1 + length (arguments ws))))
          enough
          (scan_options_first (all_used ws + suc spare) argv defaults
            ∙ scan_options_words argv ws spare 1 defaults files (omega arith) refl h none 0 true),
      drop-append argv 1 (arguments ws) files refl,
    )
