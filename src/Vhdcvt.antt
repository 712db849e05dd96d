-- ===== src/Vhdcvt.antt =====
-- contrib/vhdcvt.c: the tool that converts the files of its command line. What it prints is left out.
pub mod Arguments
pub mod Ends
pub mod Words
pub mod Names
pub mod Scan
pub mod CommandLine
pub mod RoundTrip
use mini_vhd.Prelude.{
  ℕ, zero, suc, ◌+◌, ltb, leb, ◌==◌, ◌&&◌, ◌||◌, bit_xor, not, Bool, true, false, if◌then◌else◌,
  Option, none, some, List, [], ◌∷◌, ◌++◌, length, take, drop,
}
use mini_vhd.Stdio.{File}
use mini_vhd.Create.{Created, null, handle, half_made}
use mini_vhd.Manage.Open.{close}
use mini_vhd.Convert.{convert_to_raw, convert_to_vhd_fixed, convert_to_vhd_sparse}
use mini_vhd.World.{
  Host, FilePath, Error, M, ◌>>=◌, ◌>>◌, pure, lift, set_err, get_err, fclose_written,
}
use mini_vhd.Vhdcvt.Arguments.{Getopt, unread, getopt, strchr}

-- opt_q, opt_r, opt_s, opt_v and outname.
pub record Options : Type 0 where
  pub quiet : ℕ
  pub raw : ℕ
  pub sparse : ℕ
  pub verbose : ℕ
  pub outname : Option FilePath

abbrev pub defaults : Options
defaults = record { quiet = 0; raw = 0; sparse = 0; verbose = 0; outname = none }

-- "o:qrsv"
abbrev pub optstring : List ℕ
optstring = 111 ∷ 58 ∷ 113 ∷ 114 ∷ 115 ∷ 118 ∷ []

-- The switch on the option, 'q', 'v', 'r', 's' or 'o'; `none` is the default case.
unfoldable pub set_option : ℕ → Option FilePath → Options → Option Options
set_option c optarg o =
    if c == 113
    then some (record o { sparse = 1 })
    else if c == 118
    then some (record o { verbose = o.verbose + 1 })
    else if c == 114
    then some (record o { raw = bit_xor o.raw 1 })
    else if c == 115
    then some (record o { sparse = bit_xor o.sparse 1 })
    else if c == 111
    then some (record o { outname = optarg })
    else none

-- A call of usage, which exits, or the options and optind.
pub data Scanned : Type 0 where
  usage : Scanned
  scanned : Options → ℕ → Scanned

-- The loop over the options, on fuel.
unfoldable pub scan_options : ℕ → List FilePath → Getopt → Options → Option Scanned
scan_options zero argv g o = none
scan_options (suc fuel) argv g o =
    let got = getopt argv optstring g in
    elim got.0 [
      | none ↦ some (scanned o got.1.optind)
      | some c ↦ elim (set_option c got.1.optarg o) [
        | none ↦ some usage
        | some o' ↦ scan_options fuel argv got.1 o'
      ]
    ]

-- One unit an option, each of which is a character of an argument.
unfoldable pub characters : List FilePath → ℕ
characters [] = 0
characters (arg ∷ argv) = length arg + characters argv

-- The sanity checks and the test for an argument.
abbrev pub one_name_for_many : Options → ℕ → ℕ → Bool
one_name_for_many o optind argc = elim o.outname [
  | none ↦ false
  | some path ↦ ltb (optind + 1) argc
]

unfoldable pub check_files : ℕ → Scanned → Scanned
check_files argc usage = usage
check_files argc (scanned o optind) =
    if not (o.raw == 0) && not (o.sparse == 0)
    then usage
    else if one_name_for_many o optind argc
    then usage
    else if optind == argc
    then usage
    else scanned o optind

-- Up to the first dot of temp. A name with no dot in its first 1019 bytes that fills them is not
-- ended by strncpy, and is a fault here.
abbrev pub dot : ℕ
dot = 46

unfoldable pub before_dot : List ℕ → List ℕ
before_dot [] = []
before_dot (c ∷ more) = if c == dot then [] else c ∷ before_dot more

abbrev has_dot : List ℕ → Bool
has_dot name = elim (strchr name dot) [ none ↦ false | some place ↦ true ]

abbrev extension : Options → FilePath
extension o = if o.raw == 0 then 46 ∷ 118 ∷ 104 ∷ 100 ∷ [] else 46 ∷ 105 ∷ 109 ∷ 103 ∷ []

unfoldable pub generate_name : Options → FilePath → Option FilePath
generate_name o name =
    let temp = take 1019 name in
    if ltb (length name) 1019 || has_dot temp then some (before_dot temp ++ extension o) else none

abbrev pub output_name : Options → FilePath → Option FilePath
output_name o name = elim o.outname [ some path ↦ some path | none ↦ generate_name o name ]

abbrev close_raw : FilePath → Option File → M (Unit {0})
close_raw path none = pure tt
close_raw path (some raw) = fclose_written path raw

-- mvhd_close of a handle without a stream is a fault.
abbrev close_vhd : Created → M (Unit {0})
close_vhd null = pure tt
close_vhd (handle chain) = close chain
close_vhd (half_made footer) = lift none

-- The body of the loop over the files, from "no error" to the error that is left.
unfoldable pub convert_file : ℕ → Host → Options → FilePath → FilePath → M (Option Error)
convert_file fuel host o name sp = do
  set_err none
  if not (o.raw == 0)
      then convert_to_raw fuel host name sp >>= close_raw sp
      else (if o.sparse == 0
          then convert_to_vhd_fixed fuel host name sp
          else convert_to_vhd_sparse fuel host name sp)
        >>= close_vhd
  get_err

-- The loop over the files; an error ends it.
unfoldable pub convert_files : ℕ → Host → Options → List FilePath → M (Option Error)
convert_files fuel host o [] = pure none
convert_files fuel host o (name ∷ more) = do
  sp ← lift (output_name o name)
  c ← convert_file fuel host o name sp
  elim c [ none ↦ convert_files fuel host o more | some e ↦ pure (some e) ]

-- exit(1), or the value of main, with `none` for 0.
pub data Status : Type 0 where
  exited : Status
  returned : Option Error → Status

abbrev pub run_checked : ℕ → Host → List FilePath → Scanned → M Status
run_checked fuel host argv usage = pure exited
run_checked fuel host argv (scanned o optind) = do
  c ← convert_files fuel host o (drop optind argv)
  pure (returned c)

-- main, on a command line that starts with the program's name; the fuel is that of the conversions.
unfoldable pub vhdcvt : ℕ → Host → List FilePath → M Status
vhdcvt fuel host argv = do
  options ← lift (scan_options (suc (characters argv)) argv unread defaults)
  run_checked fuel host argv (check_files (length argv) options)
