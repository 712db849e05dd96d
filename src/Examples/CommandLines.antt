-- ===== src/Examples/CommandLines.antt =====
-- Command lines of the conversion tool.
use mini_vhd.Prelude.{
  ℕ, ◌+◌, ◌≤◌, ◌<◌, ◌%◌, ◌≡◌, refl, ◌++◌, none, some, List, [], ◌∷◌, length, drop, arith,
}
use mini_vhd.Stdio.{File}
use mini_vhd.Vhdcvt.Arguments.{unread, strchr}
use mini_vhd.Vhdcvt.{
  Scanned, scanned, scan_options, characters, set_option, defaults, generate_name, before_dot,
  vhdcvt, returned,
}
use mini_vhd.Vhdcvt.Ends.{scan_options_end}
use mini_vhd.Vhdcvt.Words.{Word, flags, output, verbose, raw, sparse, arguments, set_words}
use mini_vhd.Vhdcvt.CommandLine.{scan_options-arguments}
use mini_vhd.Vhdcvt.Names.{generate_name-fits}
use mini_vhd.Vhdcvt.RoundTrip.{ToSparse, ToRaw, vhdcvt-vhdcvt}
use mini_vhd.World.{World, FilePath}
use mini_vhd.Examples.Machine.{host}
use mini_vhd.Examples.Conversions.{raw_world, raw as raw_img, can_convert, apart}

-- -q sets what -s sets.
quiet_is_sparse : set_option 113 none defaults ≡ set_option 115 none defaults
unfolding set_option
quiet_is_sparse = refl

-- "./a" and "a" give ".vhd" and "a.vhd".
dot_in_folder : generate_name defaults (46 ∷ 47 ∷ 97 ∷ []) ≡ some (46 ∷ 118 ∷ 104 ∷ 100 ∷ [])
unfolding generate_name before_dot strchr
dot_in_folder = refl

no_dot : generate_name defaults (97 ∷ []) ≡ some (97 ∷ 46 ∷ 118 ∷ 104 ∷ 100 ∷ [])
unfolding generate_name before_dot strchr
no_dot = refl

-- vhdcvt -v a
abbrev verbose_line : List FilePath
verbose_line = (118 ∷ []) ∷ (45 ∷ 118 ∷ []) ∷ (97 ∷ []) ∷ []

characters_few : characters verbose_line < 5
unfolding characters
characters_few = omega arith

scan_options_end_example : (s : Scanned) × (scan_options 5 verbose_line unread defaults ≡ some s)
scan_options_end_example =
    scan_options_end 5 verbose_line unread defaults (omega (arith, characters_few))

generate_name_example : (5 + 1 ≤ 1024) × (5 ≤ 1 + 4)
generate_name_example =
    generate_name-fits defaults (97 ∷ []) (97 ∷ 46 ∷ 118 ∷ 104 ∷ 100 ∷ []) no_dot

-- vhdcvt -so a b, and vhdcvt -vr -o c a
abbrev there : List Word
there = output (sparse ∷ []) (97 ∷ []) ∷ []

abbrev back : List Word
back = flags verbose (raw ∷ []) ∷ output [] (99 ∷ []) ∷ []

arguments_example :
    (scan_options 9 ((118 ∷ []) ∷ (arguments back ++ ((97 ∷ []) ∷ []))) unread defaults
      ≡ some (scanned (set_words back defaults) (1 + length (arguments back))))
    × (drop (1 + length (arguments back)) ((118 ∷ []) ∷ (arguments back ++ ((97 ∷ []) ∷ [])))
        ≡ (97 ∷ []) ∷ [])
unfolding characters arguments
arguments_example = scan_options-arguments (118 ∷ []) back ((97 ∷ []) ∷ []) refl

there-ToSparse : ToSparse (set_words there defaults) (97 ∷ [])
unfolding set_words
there-ToSparse = record { raw = refl; sparse = refl; outname = refl }

back-ToRaw : ToRaw (set_words back defaults) (99 ∷ [])
unfolding set_words
back-ToRaw = record { raw = refl; sparse = refl; outname = refl }

vhdcvt_example :
    (v : World) × (end : World) × (copy : File) × (vhdcvt 1 host
        ((118 ∷ []) ∷ (arguments there ++ ((98 ∷ []) ∷ [])))
        raw_world
      ≡ some (returned none, v))
    × (vhdcvt 1 host ((118 ∷ []) ∷ (arguments back ++ ((97 ∷ []) ∷ []))) v
        ≡ some (returned none, end))
    × (end.files (99 ∷ []) ≡ some copy)
    × (copy.size ≡ 139264)
    × ((i : ℕ) → i < 139264 → copy.byte i ≡ (i + 7) % 256)
    × (end.handles ≡ 0)
    × (end.blocks ≡ 0)
vhdcvt_example =
    vhdcvt-vhdcvt 0 host (118 ∷ []) (98 ∷ []) (97 ∷ []) (99 ∷ []) there back raw_world raw_img
      can_convert apart refl refl refl refl there-ToSparse back-ToRaw
