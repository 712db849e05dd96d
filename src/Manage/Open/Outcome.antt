-- ===== src/Manage/Open/Outcome.antt =====
-- manage.c: mvhd_open up to the parent, as a whole.
use mini_vhd.Prelude.{
  ◌+◌, ◌-◌, ◌≡◌, refl, sym, ap, ◌∙◌, Bool, true, false, not, leb, length, if◌then◌else◌, Option,
  none, some, drop, inl, inr, arith,
}
use mathlib.Core.Option.{some-injective, none-ne-some}
use mini_vhd.Stdio.{File}
use mini_vhd.Layout.{max_path_bytes}
use mini_vhd.Image.{Meta}
use mini_vhd.Manage.{new_meta, assign_io_funcs}
use mini_vhd.Manage.Open.{
  open_stream, with_stream, mode_for, load_footer, load_by_type, add_format_buffer, open_in,
  open_alone, cleanup_vhdm, stop,
}
use mini_vhd.Manage.Open.Balance.{
  allocated, Kept, Holds, Kept-allocated, Failure, Settles, Settles-if, Settles-then,
}
use mini_vhd.Manage.Open.Stages.{
  Streamed, Bare, Footed, Loaded, load_footer-Settles, load_by_type-Settles,
}
use mini_vhd.World.{
  World, Host, FilePath, read_mode, update_mode, ◌>>?◌, give, streams, opened, fopen, answer,
  err_path_len, err_file, err_mem, continue, ◌>>=◌, Error,
}
use mini_vhd.Manage.Open.Ready.{Ready, add_format_buffer-Settles}

module _ (w : World) (path : FilePath) (readonly : Bool) where
  Fresh : Meta → Type 0
  Fresh m = Streamed w path readonly m × Bare m

  -- The stream of a file that is opened to be read has the file's bytes.
  opened-file :
      (permitted : Bool) (o : Option File) (f : File)
      → (if not permitted then none else opened o) ≡ some f
      → (file : File) × (o ≡ some file) × (f.size ≡ file.size) × (f.byte ≡ file.byte)
  opened-file true (some file) f e =
      let same = some-injective _ _ (sym e) in
      (file, refl, ap (λ (g : File). g.size) same, ap (λ (g : File). g.byte) same)
  opened-file true none f e = absurd (none-ne-some _ e)
  opened-file false o f e = absurd (none-ne-some _ e)

  fresh :
      (v : World) (f : File)
      → Kept w v
      → ((file : File) × (v.files path ≡ some file) × (f.size ≡ file.size) × (f.byte ≡ file.byte))
      → Fresh (new_meta path readonly f)
  unfolding Fresh
  fresh v f k (file, found, size, byte) = (
    record {
      file = file;
      found = sym (k.files path) ∙ found;
      size = size;
      byte = byte;
      filename = refl;
      readonly_is = refl;
    },
    record { table = refl; bitmap = refl; zero_data = refl },
  )

  begun : Kept w (allocated w true)
  begun = Kept-allocated w w true (record { files = λ p. refl; style = refl; allocs = λ e. e })

  no_stream : (e : Error) → Failure {A = Meta} w (stop e cleanup_vhdm (allocated w true))
  unfolding cleanup_vhdm
  no_stream e = (
    record (allocated w true) { err = some e; blocks = w.blocks + 1 - 1 },
    refl,
    record {
      kept = record { files = begun.files; style = begun.style; allocs = begun.allocs };
      handles = refl;
      blocks = omega arith;
      err = (e, refl);
    },
  )

  held :
      (f : File)
      → Holds w (new_meta path readonly f) (record (allocated w true) { handles = w.handles + 1 })
  held f = record {
    kept = record { files = begun.files; style = begun.style; allocs = begun.allocs };
    handles = refl;
    blocks = omega arith;
    err = refl;
  }

  -- The streams are those of the world in which the handle's block is allocated.
  given :
      (r : Bool) (o : Option File)
      → ((f : File) → o ≡ some f → Fresh (new_meta path readonly f))
      → Settles w Fresh
          (continue (with_stream path readonly) (give path (mode_for r) o (allocated w true)))
  given true none ok = inl (no_stream err_file)
  given false none ok = inl (no_stream err_file)
  given true (some f) ok = inr (
    new_meta path readonly f,
    record (allocated w true) { handles = w.handles + 1 },
    refl,
    held f,
    ok f refl,
  )
  given false (some f) ok = inr (
    new_meta path readonly f,
    record (allocated w true) { handles = w.handles + 1 },
    refl,
    held f,
    ok f refl,
  )

  streams-file :
      (host : Host) (r : Bool) (f : File)
      → streams host (allocated w true) path (mode_for r) ≡ some f
      → Fresh (new_meta path readonly f)
  streams-file host true f e =
      fresh (allocated w true) f begun
        (opened-file (host.permits path read_mode) (w.files path) f e)
  streams-file host false f e =
      fresh (allocated w true) f begun
        (opened-file (host.permits path update_mode) (w.files path) f e)

  open_stream-Settles :
      (host : Host) → Settles w Fresh (open_stream host path readonly (allocated w true))
  unfolding open_stream fopen
  open_stream-Settles host =
      Settles-if w Fresh (leb max_path_bytes (length path)) (stop err_path_len cleanup_vhdm)
        (fopen host path (mode_for readonly) >>= with_stream path readonly) (allocated w true)
        (λ long. inl (no_stream err_path_len))
        (λ short.
          given readonly (streams host (allocated w true) path (mode_for readonly))
            (streams-file host readonly))

  -- Opening a file fails with an error, and then holds and changes nothing, or it gives a handle on the
  -- file that is ready but for the parent.
  pub open_alone-Settles :
      (host : Host) → Settles w (Ready w path readonly) (open_alone host path readonly w)
  unfolding open_alone open_in Fresh
  open_alone-Settles host = go (answer w.allocs)
    where
      go :
          (got : Bool)
          → Settles w
              (Ready w path readonly)
              (continue (λ got. open_in got host path readonly) (some (got, allocated w got)))
      go false = inl (
        record (allocated w false) { err = some err_mem },
        refl,
        record {
          kept = record { files = λ p. refl; style = refl; allocs = ap (drop 1) };
          handles = refl;
          blocks = refl;
          err = (err_mem, refl);
        },
      )
      go true =
          Settles-then w (Loaded w path readonly) (Ready w path readonly)
            (open_stream host path readonly >>? load_footer host >>? load_by_type host)
            (λ m. add_format_buffer (assign_io_funcs m)) (allocated w true)
            (Settles-then w (Footed w path readonly) (Loaded w path readonly)
              (open_stream host path readonly >>? load_footer host) (load_by_type host)
              (allocated w true)
              (Settles-then w Fresh (Footed w path readonly) (open_stream host path readonly)
                (load_footer host) (allocated w true) (open_stream-Settles host)
                (λ m v h (s, b). load_footer-Settles w path readonly host m v h s b))
              (λ m v h p. load_by_type-Settles w path readonly host m v h p))
            (λ m v h p. add_format_buffer-Settles w path readonly m v h p)
