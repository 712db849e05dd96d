-- ===== src/Convert/RoundTrip.antt =====
-- convert.c: a raw image that is converted to a dynamic one, closed and converted back.
use mini_vhd.Prelude.{
  ℕ, suc, ◌+◌, ◌-◌, ◌*◌, ◌/◌, ◌%◌, ◌<◌, ◌≡◌, refl, sym, ap, ◌∙◌, true, false, Option, some, [], ◌∷◌,
  arith,
}
use mini_vhd.Stdio.{File}
use mini_vhd.Image.{Meta}
use mini_vhd.Manage.Open.{close, close_one, mode_for}
use mini_vhd.Create.{handle}
use mini_vhd.Create.Fixed.Image.{same_bytes_refl}
use mini_vhd.Convert.{convert_to_vhd_sparse, convert_to_raw}
use mini_vhd.Convert.Measure.{RawImage-Measured}
use mini_vhd.Convert.Sparse.{CanConvert, Converted, convert_to_vhd_sparse-Converted}
use mini_vhd.Convert.Raw.{CanExtract, Extract, convert_to_raw-Extract}
use mini_vhd.World.{World, Host, FilePath, M, ◌>>=◌, create_mode, put_file, same_bytes, bind-run}

-- What closing a handle with three buffers leaves, when it could be written.
pub record ClosedFile (m : Meta) (v u : World) : Type 0 where
  pub file : u.files m.filename ≡ some m.f
  pub handles : u.handles ≡ v.handles - 1
  pub blocks : u.blocks ≡ v.blocks - 4
  pub err : u.err ≡ v.err
  pub memory : u.allocs ≡ v.allocs

pub close-ClosedFile :
    (m : Meta) (v : World)
    → m.readonly ≡ false
    → (m.owned.table ≡ true) × (m.owned.bitmap ≡ true) × (m.owned.zero_data ≡ true)
    → (u : World) × (close (m ∷ []) v ≡ some (tt, u)) × ClosedFile m v u
unfolding close close_one
close-ClosedFile m v writable (table, bitmap, zero_data) = (
  record (put_file m.filename m.f v) { handles = v.handles - 1; blocks = v.blocks - 1 - 1 - 1 - 1 },
  rw (writable, table, bitmap, zero_data) refl,
  record {
    file = rw (same_bytes_refl m.filename) refl;
    handles = refl;
    blocks = omega arith;
    err = refl;
    memory = refl;
  },
)

-- mvhd_close of the new image, then mvhd_convert_to_raw.
abbrev pub close_and_copy : ℕ → Host → FilePath → FilePath → Meta → M (Option File)
close_and_copy fuel host vhd_path copy_path m =
    close (m ∷ []) >>= λ closed. convert_to_raw fuel host vhd_path copy_path

-- By sectors, and so byte by byte.
pub copied_bytes :
    (raw : File) (vhd_path : FilePath) (w : World) (m : Meta) (v u : World) (copy : File)
    (end : World)
    → Converted raw vhd_path w m v
    → Extract m u copy end
    → (i : ℕ) → i < raw.size
    → copy.byte i ≡ raw.byte i
copied_bytes raw vhd_path w m v u copy end made back i h =
    let s = i / 512 in
    let j = i % 512 in
    let place : s * 512 + j ≡ i = omega arith in
    ap copy.byte (sym place)
    ∙ back.holds s j (omega (arith, made.geometry)) (omega arith)
    ∙ made.holds s j (omega (arith, made.geometry)) (omega arith)
    ∙ ap raw.byte place

module _ (fuel : ℕ) (host : Host) (raw_path vhd_path copy_path : FilePath) (w : World) (raw : File)
    (can : CanConvert host raw_path vhd_path w raw) (apart : same_bytes vhd_path copy_path ≡ false)
    (opens : host.permits vhd_path (mode_for true) ≡ true)
    (creates : host.permits copy_path create_mode ≡ true) where
  pub extractable :
      (m : Meta) (v u : World)
      → Converted raw vhd_path w m v
      → ClosedFile m v u
      → CanExtract host vhd_path copy_path u m
  extractable m v u made closed =
      let measured = RawImage-Measured raw can.image in
      record {
        memory = closed.memory ∙ made.memory;
        apart = apart;
        short = can.short;
        opens = opens;
        creates = creates;
        file = m.f;
        found = ap u.files (sym made.filename) ∙ closed.file;
        size = refl;
        byte = refl;
        reopenable = made.reopenable;
        writable = made.writable;
        covered = made.covered;
        sectors = omega (arith, made.geometry, made.sectors);
        small = omega (arith, made.geometry, measured.sectors, measured.high);
      }

  -- A raw image that is not empty and whose size is that of its geometry, converted to a dynamic
  -- image at a second path of fewer than 1040 bytes, which is closed and converted back to a third
  -- path that differs from the second, comes back with its size and every byte, if the calls have the
  -- memory, the permissions and a clock from 2000 to 2136; then no block of memory and no stream is
  -- held but that of the copy.
  pub convert_to_raw-convert_to_vhd_sparse :
      (m : Meta) × (v : World) × (copy : File) × (end : World) × (convert_to_vhd_sparse
          (suc fuel)
          host
          raw_path
          vhd_path
          w
        ≡ some (handle (m ∷ []), v))
      × (close_and_copy (suc fuel) host vhd_path copy_path m v ≡ some (some copy, end))
      × (copy.size ≡ raw.size)
      × ((i : ℕ) → i < raw.size → copy.byte i ≡ raw.byte i)
      × (end.handles ≡ w.handles + 1)
      × (end.blocks ≡ w.blocks)
      × (end.err ≡ w.err)
  convert_to_raw-convert_to_vhd_sparse =
      let (m, v, converts, made) =
        convert_to_vhd_sparse-Converted fuel host raw_path vhd_path w raw can in
      let (u, closes, closed) = close-ClosedFile m v made.readonly made.owned in
      let (copy, end, extracts, back) =
        convert_to_raw-Extract fuel host vhd_path copy_path u m (extractable m v u made closed) in
      (
        m,
        v,
        copy,
        end,
        converts,
        bind-run (close (m ∷ [])) (λ closed. convert_to_raw (suc fuel) host vhd_path copy_path) v u
              tt closes
            ∙ extracts,
        back.size ∙ made.geometry,
        copied_bytes raw vhd_path w m v u copy end made back,
        omega (arith, back.handles, closed.handles, made.handles),
        omega (arith, back.blocks, closed.blocks, made.blocks),
        back.err ∙ closed.err ∙ made.err,
      )
