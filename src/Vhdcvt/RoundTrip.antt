-- ===== src/Vhdcvt/RoundTrip.antt =====
-- contrib/vhdcvt.c: main with one file and the name of its output, on the way to a sparse VHD and back.
use mini_vhd.Prelude.{
  ℕ, suc, ◌+◌, ◌-◌, ◌<◌, ◌≡◌, refl, ap, sym, ◌∙◌, none, some, List, [], ◌∷◌, ◌++◌, length, drop,
  ◌==◌, Bool, true, false, ltb, not, ◌&&◌, arith, length-append,
}
use mini_vhd.Stdio.{File}
use mini_vhd.Image.{Meta}
use mini_vhd.Create.{handle}
use mini_vhd.Create.Fixed.Image.{same_bytes_refl}
use mini_vhd.Manage.Open.{close, mode_for}
use mini_vhd.Convert.{convert_to_raw, convert_to_vhd_sparse}
use mini_vhd.Convert.Sparse.{CanConvert, convert_to_vhd_sparse-Converted}
use mini_vhd.Convert.Raw.{convert_to_raw-Extract}
use mini_vhd.Convert.RoundTrip.{ClosedFile, close-ClosedFile, extractable, copied_bytes}
use mini_vhd.World.{World, Host, FilePath, pure, create_mode, put_file, same_bytes, bind-run, lift}
use mini_vhd.Vhdcvt.{
  Options, defaults, scanned, check_files, characters, convert_file, convert_files, run_checked,
  scan_options, vhdcvt, returned,
}
use mini_vhd.Vhdcvt.Arguments.{unread}
use mini_vhd.Vhdcvt.Words.{Word, arguments, set_words}
use mini_vhd.Vhdcvt.Scan.{begins_with_options}
use mini_vhd.Vhdcvt.CommandLine.{scan_options-arguments}

-- The options ask for a sparse VHD, or for a raw image, with a given name.
pub record ToSparse (o : Options) (out : FilePath) : Type 0 where
  pub raw : (o.raw == 0) ≡ true
  pub sparse : (o.sparse == 0) ≡ false
  pub outname : o.outname ≡ some out

pub record ToRaw (o : Options) (out : FilePath) : Type 0 where
  pub raw : (o.raw == 0) ≡ false
  pub sparse : (o.sparse == 0) ≡ true
  pub outname : o.outname ≡ some out

abbrev asks_for_both : Options → Bool
asks_for_both o = not (o.raw == 0) && not (o.sparse == 0)

-- The checks let one file and its output's name pass.
check_files_one :
    (o : Options) (out : FilePath) (k : ℕ)
    → asks_for_both o ≡ false
    → o.outname ≡ some out
    → check_files (k + 1) (scanned o k) ≡ scanned o k
unfolding check_files
check_files_one o out k one named =
    let few : ltb (k + 1) (k + 1) ≡ false = ground arith in
    let given : (k == k + 1) ≡ false = ground arith in rw (one, named, few, given) refl

convert_files_one :
    (fuel : ℕ) (host : Host) (o : Options) (name out : FilePath) (w v : World)
    → o.outname ≡ some out
    → convert_file fuel host o name out w ≡ some (none, v)
    → convert_files fuel host o (name ∷ []) w ≡ some (none, v)
unfolding convert_files convert_file
convert_files_one fuel host o name out w v named converts = rw (named, converts) refl

-- A run on one file that ends without an error.
vhdcvt_one :
    (fuel : ℕ) (host : Host) (prog : FilePath) (ws : List Word) (name out : FilePath) (w v : World)
    → begins_with_options (name ∷ []) ≡ false
    → asks_for_both (set_words ws defaults) ≡ false
    → (set_words ws defaults).outname ≡ some out
    → convert_file fuel host (set_words ws defaults) name out w ≡ some (none, v)
    → vhdcvt fuel host (prog ∷ (arguments ws ++ (name ∷ []))) w ≡ some (returned none, v)
unfolding vhdcvt
vhdcvt_one fuel host prog ws name out w v file one named converts =
    let o = set_words ws defaults in
    let argv = prog ∷ (arguments ws ++ (name ∷ [])) in
    let k = 1 + length (arguments ws) in
    let (scans, files) = scan_options-arguments prog ws (name ∷ []) file in
    let argc : length argv ≡ k + 1 = omega (arith, length-append (arguments ws) (name ∷ [])) in
    let checked : check_files (length argv) (scanned o k) ≡ scanned o k =
      ap (λ n. check_files n (scanned o k)) argc ∙ check_files_one o out k one named in
    let runs : convert_files fuel host o (drop k argv) w ≡ some (none, v) =
      ap (λ more. convert_files fuel host o more w) files
      ∙ convert_files_one fuel host o name out w v named converts in
    bind-run (lift (scan_options (suc (characters argv)) argv unread defaults))
      (λ s. run_checked fuel host argv (check_files (length argv) s)) w w (scanned o k)
      (ap (λ s. lift s w) scans)
    ∙ ap (λ s. run_checked fuel host argv s w) checked
    ∙ bind-run (convert_files fuel host o (drop k argv)) (λ c. pure (returned c)) w v none runs

convert_file_sparse :
    (fuel : ℕ) (host : Host) (o : Options) (name out : FilePath) (w : World) (m : Meta)
    (v u : World)
    → ToSparse o out
    → convert_to_vhd_sparse fuel host name out (record w { err = none }) ≡ some (handle (m ∷ []), v)
    → close (m ∷ []) v ≡ some (tt, u)
    → u.err ≡ none
    → convert_file fuel host o name out w ≡ some (none, u)
unfolding convert_file
convert_file_sparse fuel host o name out w m v u asks converts closes fine =
    rw (asks.raw, asks.sparse, converts, closes, fine) refl

convert_file_raw :
    (fuel : ℕ) (host : Host) (o : Options) (name out : FilePath) (w : World) (raw : File)
    (v : World)
    → ToRaw o out
    → convert_to_raw fuel host name out (record w { err = none }) ≡ some (some raw, v)
    → v.err ≡ none
    → convert_file fuel host o name out w
      ≡ some (none, record (put_file out raw v) { handles = v.handles - 1 })
unfolding convert_file
convert_file_raw fuel host o name out w raw v asks converts fine =
    rw (asks.raw, converts, fine) refl

quiet_ClosedFile :
    (m : Meta) (v u : World)
    → ClosedFile m v u
    → v.err ≡ none
    → ClosedFile m v (record u { err = none })
quiet_ClosedFile m v u closed fine = record {
  file = closed.file;
  handles = closed.handles;
  blocks = closed.blocks;
  err = sym fine;
  memory = closed.memory;
}

ToSparse-one : (o : Options) (out : FilePath) → ToSparse o out → asks_for_both o ≡ false
ToSparse-one o out asks = rw asks.raw refl

ToRaw-one : (o : Options) (out : FilePath) → ToRaw o out → asks_for_both o ≡ false
ToRaw-one o out asks = rw (asks.raw, asks.sparse) refl

module _ (fuel : ℕ) (host : Host) (prog raw_path vhd_path copy_path : FilePath) (ws ws' : List Word)
    (w : World) (raw : File) (can : CanConvert host raw_path vhd_path w raw)
    (apart : same_bytes vhd_path copy_path ≡ false)
    (opens : host.permits vhd_path (mode_for true) ≡ true)
    (creates : host.permits copy_path create_mode ≡ true)
    (raw_is_file : begins_with_options (raw_path ∷ []) ≡ false)
    (vhd_is_file : begins_with_options (vhd_path ∷ []) ≡ false)
    (there : ToSparse (set_words ws defaults) vhd_path)
    (back : ToRaw (set_words ws' defaults) copy_path) where
  abbrev fresh : World
  fresh = record w { err = none }

  can_fresh : CanConvert host raw_path vhd_path fresh raw
  can_fresh = record {
    memory = can.memory;
    apart = can.apart;
    short = can.short;
    reads = can.reads;
    creates = can.creates;
    opens = can.opens;
    clock_low = can.clock_low;
    clock_high = can.clock_high;
    found = can.found;
    image = can.image;
  }

  -- The first run makes the VHD of a raw image, the second one makes a raw image of that: both end
  -- without an error, the new raw image has the bytes of the first one, and the runs leave no stream
  -- open and no memory allocated.
  pub vhdcvt-vhdcvt :
      (v : World) × (end : World) × (copy : File) × (vhdcvt
          (suc fuel)
          host
          (prog ∷ (arguments ws ++ (raw_path ∷ [])))
          w
        ≡ some (returned none, v))
      × (vhdcvt (suc fuel) host (prog ∷ (arguments ws' ++ (vhd_path ∷ []))) v
          ≡ some (returned none, end))
      × (end.files copy_path ≡ some copy)
      × (copy.size ≡ raw.size)
      × ((i : ℕ) → i < raw.size → copy.byte i ≡ raw.byte i)
      × (end.handles ≡ w.handles)
      × (end.blocks ≡ w.blocks)
  vhdcvt-vhdcvt =
      let (m, v, converts, made) =
        convert_to_vhd_sparse-Converted fuel host raw_path vhd_path fresh raw can_fresh in
      let (u, closes, closed) = close-ClosedFile m v made.readonly made.owned in
      let fine : u.err ≡ none = closed.err ∙ made.err in
      let can_extract =
        extractable fuel host raw_path vhd_path copy_path fresh raw can_fresh apart opens creates m
          v (record u { err = none }) made (quiet_ClosedFile m v u closed made.err) in
      let (copy, end, extracts, whole) =
        convert_to_raw-Extract fuel host vhd_path copy_path (record u { err = none }) m
          can_extract in
      (
        u,
        record (put_file copy_path copy end) { handles = end.handles - 1 },
        copy,
        vhdcvt_one (suc fuel) host prog ws raw_path vhd_path w u raw_is_file
            (ToSparse-one (set_words ws defaults) vhd_path there) there.outname
            (convert_file_sparse (suc fuel) host (set_words ws defaults) raw_path vhd_path w m v u
              there converts closes fine),
        vhdcvt_one (suc fuel) host prog ws' vhd_path copy_path u
            (record (put_file copy_path copy end) { handles = end.handles - 1 }) vhd_is_file
            (ToRaw-one (set_words ws' defaults) copy_path back) back.outname
            (convert_file_raw (suc fuel) host (set_words ws' defaults) vhd_path copy_path u copy end
              back extracts whole.err),
        rw (same_bytes_refl copy_path) refl,
        whole.size ∙ made.geometry,
        copied_bytes raw vhd_path fresh m v (record u { err = none }) copy end made whole,
        omega (arith, whole.handles, closed.handles, made.handles),
        omega (arith, whole.blocks, closed.blocks, made.blocks),
      )
