-- ===== src/Vhdcvt/Scan.antt =====
-- contrib/vhdcvt.c: the loop over the options, on a command line that begins with given options.
use mini_vhd.Prelude.{
  ℕ, zero, suc, ◌+◌, ◌<◌, ◌≡◌, refl, ap, sym, ◌∙◌, subst, Option, none, some, List, [], ◌∷◌, ◌++◌,
  length, drop, ◌==◌, map, Bool, true, false, arith, append_assoc, length-append, if◌then◌else◌,
}
use mini_vhd.World.{FilePath}
use mini_vhd.Vhdcvt.Arguments.{Getopt, getopt, get_elem?, open_word, next_word, dash}
use mini_vhd.Vhdcvt.{Scanned, scanned, scan_options, optstring, Options}
use mini_vhd.Vhdcvt.Words.{
  Flag, quiet, verbose, raw, sparse, letter, set_flags, Word, flags, output, attached, body, extra,
  set_word, used, arguments, set_words, state, blank, scan_options-blank, scan_options_flags,
  scan_options_output, scan_options_attached, drop-next, go_on,
}

letter-dash : (f : Flag) → (letter f == dash) ≡ false
letter-dash quiet = refl
letter-dash verbose = refl
letter-dash raw = refl
letter-dash sparse = refl

-- A word's text goes on after its dash, with no dash.
body_first : (w : Word) → (c : ℕ) × (more : List ℕ) × (body w ≡ c ∷ more) × ((c == dash) ≡ false)
body_first (flags f fs) = (letter f, map letter fs ++ [], refl, letter-dash f)
body_first (output [] path) = (111, [], refl, refl)
body_first (output (f ∷ fs) path) = (letter f, map letter fs ++ (111 ∷ []), refl, letter-dash f)
body_first (attached [] c path) = (111, c ∷ path, refl, refl)
body_first (attached (f ∷ fs) c path) =
    (letter f, map letter fs ++ (111 ∷ c ∷ path), refl, letter-dash f)

-- What getopt takes a word for that has no options.
abbrev has_options : FilePath → Bool
has_options (d ∷ c ∷ more) = d == dash
has_options other = false

abbrev pub begins_with_options : List FilePath → Bool
begins_with_options [] = false
begins_with_options (arg ∷ argv) = has_options arg

drop-end : (argv : List FilePath) (i : ℕ) → drop i argv ≡ [] → get_elem? argv i ≡ none
drop-end [] zero h = refl
drop-end [] (suc i) h = refl
drop-end (x ∷ argv) zero h = absurd (ground arith)
drop-end (x ∷ argv) (suc i) h = drop-end argv i h

pub drop-append :
    (argv : List FilePath) (i : ℕ) (xs ys : List FilePath)
    → drop i argv ≡ xs ++ ys
    → drop (i + length xs) argv ≡ ys
drop-append argv i [] ys h = ap (λ k. drop k argv) {y = i} (omega arith) ∙ h
drop-append argv i (x ∷ xs) ys h =
    ap (λ k. drop k argv) {y = suc i + length xs} (omega arith)
    ∙ drop-append argv (suc i) xs ys (drop-next argv i x (xs ++ ys) h).1

abbrev pub all_used : List Word → ℕ
all_used [] = 0
all_used (w ∷ ws) = used w + all_used ws

module _ (argv : List FilePath) where
  -- The loop from the end of a word on.
  abbrev Rest : ℕ → ℕ → Options → Option Scanned → Type 0
  Rest n i o end =
      (arg : Option FilePath) (p : ℕ) (b : Bool)
      → scan_options n argv (state i arg p (blank b)) o ≡ end

  open_body :
      (n i : ℕ) (arg : Option FilePath) (p : ℕ) (b : Bool) (w : Word) (o : Options)
      → 0 < i
      → get_elem? argv i ≡ some (dash ∷ body w)
      → scan_options n argv (state i arg p (blank b)) o
        ≡ scan_options n argv (state (i + 1) arg p (some (body w))) o
  open_body n i arg p b w o low at =
      let (c, more, text, other) = body_first w in
      scan_options-blank argv n i arg p b c more o low (at ∙ ap (λ t. some (dash ∷ t)) text) other
      ∙ ap (λ t. scan_options n argv (state (i + 1) arg p (some t)) o) (sym text)

  -- A word sets its options.
  scan_options_word :
      (w : Word) (n i : ℕ) (o : Options) (rest : List FilePath) (end : Option Scanned)
      → 0 < i
      → drop i argv ≡ (dash ∷ body w) ∷ (extra w ++ rest)
      → Rest n (i + length (extra w) + 1) (set_word w o) end
      → Rest (used w + n) i o end
  scan_options_word (flags f fs) n i o rest end low at next arg p b =
      let word = (drop-next argv i (dash ∷ body (flags f fs)) rest at).0 in
      open_body (used (flags f fs) + n) i arg p b (flags f fs) o low word
      ∙ scan_options_flags argv (f ∷ fs) n (i + 1) arg p [] o end (λ arg p.
        subst (λ k. scan_options n argv (state k arg p (some [])) (set_flags (f ∷ fs) o) ≡ end)
          {x = i + 0 + 1} (omega arith) (next arg p false))
  scan_options_word (output fs path) n i o rest end low at next arg p b =
      let w = output fs path in
      let (word, more) = drop-next argv i (dash ∷ body w) (path ∷ rest) at in
      let name : get_elem? argv (i + 1) ≡ some path =
        ap (get_elem? argv) {y = suc i} (omega arith) ∙ (drop-next argv (suc i) path rest more).0 in
      open_body (used w + n) i arg p b w o low word
      ∙ subst (λ k. scan_options k argv (state (i + 1) arg p (some (body w))) o ≡ end)
          {x = length fs + suc n} (omega arith)
          (scan_options_flags argv fs (suc n) (i + 1) arg p (111 ∷ []) o end (λ arg p.
            scan_options_output argv n (i + 1) arg p path (set_flags fs o) name
            ∙ next (some path) 111 false))
  scan_options_word (attached fs c path) n i o rest end low at next arg p b =
      let w = attached fs c path in
      let word = (drop-next argv i (dash ∷ body w) rest at).0 in
      open_body (used w + n) i arg p b w o low word
      ∙ subst (λ k. scan_options k argv (state (i + 1) arg p (some (body w))) o ≡ end)
          {x = length fs + suc n} (omega arith)
          (scan_options_flags argv fs (suc n) (i + 1) arg p (111 ∷ c ∷ path) o end (λ arg p.
            scan_options_attached argv n (i + 1) arg p c path (set_flags fs o)
            ∙ subst
                (λ k. scan_options n argv (state k (some (c ∷ path)) 111 none) (set_word w o) ≡ end)
                {x = i + 0 + 1} (omega arith) (next (some (c ∷ path)) 111 true)))

  -- Where no options follow, the loop ends.
  open_word_end :
      (g : Getopt) (files : List FilePath)
      → drop g.optind argv ≡ files
      → begins_with_options files ≡ false
      → open_word argv optstring g (get_elem? argv g.optind) ≡ (none, g)
  open_word_end g [] at h = ap (open_word argv optstring g) (drop-end argv g.optind at)
  open_word_end g ([] ∷ files) at h =
      ap (open_word argv optstring g) (drop-next argv g.optind [] files at).0
  open_word_end g ((d ∷ []) ∷ files) at h =
      ap (open_word argv optstring g) (drop-next argv g.optind (d ∷ []) files at).0
  open_word_end g ((d ∷ c ∷ more) ∷ files) at h =
      ap (open_word argv optstring g) (drop-next argv g.optind (d ∷ c ∷ more) files at).0
      ∙ rw (h, open_word) refl

  next_word_end :
      (i : ℕ) (p : ℕ) (scan : Option FilePath) (files : List FilePath)
      → 0 < i
      → drop i argv ≡ files
      → begins_with_options files ≡ false
      → next_word argv optstring (state i none p scan) ≡ (none, state i none p scan)
  next_word_end i p scan files low at h =
      let first : (if i == 0 then 1 else i) ≡ i = ground (arith, low) in
      ap (λ k. open_word argv optstring (state k none p scan) (get_elem? argv k)) first
      ∙ open_word_end (state i none p scan) files at h

  scan_options_files :
      (n i : ℕ) (o : Options) (files : List FilePath)
      → 0 < i
      → drop i argv ≡ files
      → begins_with_options files ≡ false
      → Rest (suc n) i o (some (scanned o i))
  unfolding scan_options getopt
  scan_options_files n i o files low at h arg p true =
      ap (go_on argv n o) (next_word_end i p none files low at h)
  scan_options_files n i o files low at h arg p false =
      ap (go_on argv n o) (next_word_end i p (some []) files low at h)

  pub scan_options_words :
      (ws : List Word) (n i : ℕ) (o : Options) (files : List FilePath)
      → 0 < i
      → drop i argv ≡ arguments ws ++ files
      → begins_with_options files ≡ false
      → Rest (all_used ws + suc n) i o (some (scanned (set_words ws o) (i + length (arguments ws))))
  unfolding arguments set_words
  scan_options_words [] n i o files low at h arg p b =
      subst (λ k. scan_options k argv (state i arg p (blank b)) o ≡ some (scanned o (i + 0)))
        {x = suc n} (omega arith)
        (subst (λ k. scan_options (suc n) argv (state i arg p (blank b)) o ≡ some (scanned o k))
          {x = i} (omega arith) (scan_options_files n i o files low at h arg p b))
  scan_options_words (w ∷ ws) n i o files low at h arg p b =
      let at' : drop i argv ≡ (dash ∷ body w) ∷ (extra w ++ (arguments ws ++ files)) =
        at ∙ ap (λ more. (dash ∷ body w) ∷ more) (append_assoc (extra w) (arguments ws) files) in
      let j = i + length (extra w) + 1 in
      let onward : drop j argv ≡ arguments ws ++ files =
        ap (λ k. drop k argv) {y = i + suc (length (extra w))} (omega arith)
        ∙ drop-append argv i ((dash ∷ body w) ∷ extra w) (arguments ws ++ files) at' in
      let place : j + length (arguments ws) ≡ i + suc (length (extra w ++ arguments ws)) =
        omega (arith, length-append (extra w) (arguments ws)) in
      subst
        (λ k.
          scan_options k argv (state i arg p (blank b)) o
          ≡ some
              (scanned (set_words ws (set_word w o)) (i + suc (length (extra w ++ arguments ws)))))
        {x = used w + (all_used ws + suc n)} (omega arith)
        (scan_options_word w (all_used ws + suc n) i o (arguments ws ++ files) _ low at'
          (λ arg p b.
            scan_options_words ws n j (set_word w o) files (omega arith) onward h arg p b
            ∙ ap (λ k. some (scanned (set_words ws (set_word w o)) k)) place)
          arg p b)
