-- ===== src/World.antt =====
-- What the library sees of the machine: files, the heap and the error that a call reports; and, from
-- util.c, the opening of files and their times.
use mini_vhd.Prelude.{ℕ, ◌+◌, ◌-◌, ◌==◌, ◌&&◌, Bool, true, false, not}
use mini_vhd.Prelude.{◌≡◌, ap, if◌then◌else◌, Option, none, some, List, [], ◌∷◌, drop}
use mini_vhd.Memory.{Mem}
use mini_vhd.Stdio.{File}

-- The bytes of a path, without the final zero.
abbrev pub FilePath : Type 0
FilePath = List ℕ

-- minivhd.h: MVHDError, in its order.
pub data Error : Type 0 where
  err_mem err_file err_not_vhd err_type err_footer_checksum err_sparse_checksum : Error
  err_utf_transcoding_failed err_utf_size err_path_rel err_path_len err_par_not_found : Error
  err_invalid_par_uuid err_invalid_geom err_invalid_size err_invalid_block_size : Error
  err_invalid_params err_conv_size err_timestamp : Error

-- The modes "rb", "rb+" and "wb+" or "wb".
pub data Mode : Type 0 where
  read_mode update_mode create_mode : Mode

-- What a transcoder returns: -1, -2, or the bytes that it wrote.
pub data Transcoded : Type 0 where
  too_small failed : Transcoded
  written : List ℕ → Transcoded

-- The machine and the libraries that the code calls. `permits` says which files the system opens,
-- `mtime` is stat, `garbage` what the arrays without a value hold; a transcoder takes the room in its
-- output, the count of its input and the input, and a path function the path style in force.
pub record Host : Type 0 where
  pub permits : FilePath → Mode → Bool
  pub mtime : FilePath → Option ℕ
  pub now : ℕ
  pub rand : ℕ → ℕ → ℕ
  pub garbage : ℕ → Mem
  pub utf16be_to_utf8 : ℕ → ℕ → Mem → Transcoded
  pub utf16le_to_utf8 : ℕ → ℕ → Mem → Transcoded
  pub utf8_to_utf16be : ℕ → ℕ → Mem → Transcoded
  pub utf8_to_utf16le : ℕ → ℕ → Mem → Transcoded
  pub guess_style : FilePath → ℕ
  pub is_absolute : ℕ → FilePath → Bool
  pub dirname : ℕ → FilePath → ℕ
  pub basename : ℕ → FilePath → FilePath
  pub join : ℕ → FilePath → FilePath → FilePath
  pub relative : ℕ → FilePath → FilePath → FilePath

-- `err` is what `*err` holds, `none` for 0; `allocs` are the answers of the next calls of calloc, which
-- succeeds after them; `handles` and `blocks` count the open streams and the allocated blocks.
pub record World : Type 0 where
  pub files : FilePath → Option File
  pub err : Option Error
  pub allocs : List Bool
  pub handles : ℕ
  pub blocks : ℕ
  pub style : ℕ

-- `none` is a fault, or a run that does not end in the fuel given.
abbrev pub M : Type 0 → Type 0
M A = World → Option (A × World)

abbrev pub continue : {A B : Type 0} → (A → M B) → Option (A × World) → Option (B × World)
continue f none = none
continue f (some (a, w)) = f a w

infixl 5 ◌>>=◌ ◌>>◌
abbrev pub ◌>>=◌ : {A B : Type 0} → M A → (A → M B) → M B
◌>>=◌ m f w = continue f (m w)

abbrev pub ◌>>◌ : {A B : Type 0} → M A → M B → M B
m >> k = m >>= λ _. k

module _ {A : Type 0} where
  abbrev pub pure : A → M A
  pure a w = some (a, w)

  abbrev pub lift : Option A → M A
  lift none w = none
  lift (some a) w = some (a, w)

abbrev pub set_err : Option Error → M (Unit {0})
set_err e w = some (tt, record w { err = e })

-- *err = e, and the result is a null pointer.
abbrev pub fail : {A : Type 0} → Error → M (Option A)
fail e w = some (none, record w { err = some e })

-- calloc, and free of a pointer that is not null.
abbrev pub answer : List Bool → Bool
answer [] = true
answer (a ∷ more) = a

abbrev pub calloc : M Bool
calloc w = some (
  answer w.allocs,
  record w {
    allocs = drop 1 w.allocs;
    blocks = if answer w.allocs then w.blocks + 1 else w.blocks;
  },
)

abbrev pub free : M (Unit {0})
free w = some (tt, record w { blocks = w.blocks - 1 })

abbrev pub free_if : Bool → M (Unit {0})
free_if allocated w = some (tt, record w { blocks = if allocated then w.blocks - 1 else w.blocks })

-- memcmp(xs, ys) == 0. Two paths name one file if they are the same bytes.
unfoldable pub same_bytes : FilePath → FilePath → Bool
same_bytes [] [] = true
same_bytes [] (y ∷ ys) = false
same_bytes (x ∷ xs) [] = false
same_bytes (x ∷ xs) (y ∷ ys) = x == y && same_bytes xs ys

abbrev pub put_file : FilePath → File → World → World
put_file path f w = record w { files = λ p. if same_bytes p path then some f else w.files p }

abbrev pub empty_file : File
empty_file = record { size = 0; byte = λ i. 0; pos = 0 }

-- The stream that fopen gives, when the system permits it.
abbrev pub opened : Option File → Option File
opened none = none
opened (some f) = some (record f { pos = 0 })

abbrev pub streams : Host → World → FilePath → Mode → Option File
streams host w path mode =
    if not (host.permits path mode)
    then none
    else elim mode [ create_mode ↦ some empty_file | other ↦ opened (w.files path) ]

abbrev pub give : FilePath → Mode → Option File → M (Option File)
give path mode none w = some (none, record w { err = some err_file })
give path create_mode (some f) w =
    some (some f, record (put_file path f w) { handles = w.handles + 1 })
give path read_mode (some f) w = some (some f, record w { handles = w.handles + 1 })
give path update_mode (some f) w = some (some f, record w { handles = w.handles + 1 })

-- mvhd_fopen: *err is set if there is no stream.
unfoldable pub fopen : Host → FilePath → Mode → M (Option File)
fopen host path mode w = give path mode (streams host w path mode) w

-- fclose of a stream that was written to, and of one that was only read.
abbrev pub fclose_written : FilePath → File → M (Unit {0})
fclose_written path f w = some (tt, record (put_file path f w) { handles = w.handles - 1 })

abbrev pub fclose_read : M (Unit {0})
fclose_read w = some (tt, record w { handles = w.handles - 1 })

-- fclose of an image's stream.
abbrev pub fclose : Bool → FilePath → File → M (Unit {0})
fclose readonly path f = if readonly then fclose_read else fclose_written path f

-- A call that is given an error variable of its caller's own.
abbrev pub own_err : {A : Type 0} → M A → M A
own_err m w = elim (m w) [ none ↦ none | some (a, w') ↦ some (a, record w' { err = w.err }) ]

abbrev pub get_err : M (Option Error)
get_err w = some (w.err, w)

abbrev pub get_style : M ℕ
get_style w = some (w.style, w)

abbrev pub set_style : ℕ → M (Unit {0})
set_style style w = some (tt, record w { style = style })

-- Steps that may fail, with a null pointer: the next one runs on what the last one gave.
abbrev pub if_given : {A B : Type 0} → (A → M (Option B)) → Option A → M (Option B)
if_given k none = pure none
if_given k (some a) = k a

infixl 5 ◌>>?◌
abbrev pub ◌>>?◌ : {A B : Type 0} → M (Option A) → (A → M (Option B)) → M (Option B)
m >>? k = m >>= if_given k

-- A run that is known, at the start of a longer one.
pub bind-run :
    {A B : Type 0} (m : M A) (f : A → M B) (v u : World) (a : A)
    → m v ≡ some (a, u)
    → (m >>= f) v ≡ f a u
bind-run m f v u a e = ap (continue f) e
