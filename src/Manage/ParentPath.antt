-- ===== src/Manage/ParentPath.antt =====
-- manage.c: mvhd_parent_path_exists and get_diff_parent_path, which look for the file of the parent.
-- A path buffer is the list of the bytes written to it, zeros after them; `tmp_open_path` is the result.
use mini_vhd.Prelude.{ℕ, ◌+◌, ◌-◌, ◌*◌, ◌^◌, ltb, leb, ◌==◌, ◌&&◌, Bool, true, false, not}
use mini_vhd.Prelude.{if◌then◌else◌, Option, none, some, List, [], ◌∷◌, ◌++◌, take, drop, length}
use mini_vhd.Memory.{Mem, of_list}
use mini_vhd.Stdio.{File, seek_set64, available, read_mem, after_read}
use mini_vhd.Layout.{ParLoc, max_path_bytes, max_path_chars, dif_loc_w2ru, dif_loc_w2ku}
use mini_vhd.Image.{Meta}
use mini_vhd.Util.{set_encoding_err}
use mini_vhd.World.{
  FilePath, Error, err_mem, err_path_rel, err_path_len, err_par_not_found, read_mode, Transcoded,
  too_small, failed, written, Host, M, ◌>>=◌, ◌>>◌, pure, lift, set_err, calloc, free, fopen,
  fclose_read, own_err, get_style, set_style,
}

-- struct MVHDPaths, without joined_path, which every use fills first.
pub record ParentPaths : Type 0 where
  pub dir_path : List ℕ
  pub file_name : List ℕ
  pub w2ku_path : List ℕ
  pub w2ru_path : List ℕ
  pub tmp_src_path : Mem

-- The string in a buffer.
unfoldable pub c_string : List ℕ → List ℕ
c_string [] = []
c_string (b ∷ bs) = let rest = c_string bs in if b == 0 then [] else b ∷ rest

-- The bytes of a buffer after its start is written again.
abbrev pub over : List ℕ → List ℕ → List ℕ
over bytes old = bytes ++ drop (length bytes) old

pub record Joined : Type 0 where
  pub joined_path : FilePath
  pub cwk_ret : ℕ

abbrev pub joined : FilePath → Joined
joined path = record { joined_path = take (max_path_bytes - 1) path; cwk_ret = length path }

abbrev pub is_empty : FilePath → Bool
is_empty [] = true
is_empty (b ∷ bs) = false

unfoldable pub candidate : Host → ℕ → ParentPaths → ℕ → Joined
candidate host style paths plat_code =
    let dir_path = c_string paths.dir_path in
    let w2ru_path = c_string paths.w2ru_path in
    let w2ku_path = c_string paths.w2ku_path in
    if plat_code == dif_loc_w2ru && not (is_empty w2ru_path)
    then joined (host.join style dir_path w2ru_path)
    else if plat_code == dif_loc_w2ku && not (is_empty w2ku_path)
    then record { joined_path = take (max_path_bytes - 1) w2ku_path; cwk_ret = 0 }
    else if plat_code == 0
    then joined (host.join style dir_path (c_string paths.file_name))
    else record { joined_path = []; cwk_ret = 1 }

abbrev pub found_file : FilePath → Option File → M (Option FilePath)
found_file path none = pure none
found_file path (some f) = do fclose_read; pure (some path)

unfoldable pub try_path : Host → Joined → M (Option FilePath)
try_path host to_try =
    if ltb max_path_bytes to_try.cwk_ret
    then pure none
    else do f ← own_err (fopen host to_try.joined_path read_mode); found_file to_try.joined_path f

unfoldable pub parent_path_exists : Host → ParentPaths → ℕ → M (Option FilePath)
parent_path_exists host paths plat_code = do
  let style = host.guess_style (c_string paths.dir_path)
  set_style style
  try_path host (candidate host style paths plat_code)

-- The relative path, the child's directory, then the absolute path.
unfoldable pub find_file : Host → ParentPaths → List ℕ → M (Option FilePath)
find_file host paths [] = do set_err (some err_par_not_found); pure none
find_file host paths (plat_code ∷ more) = do
  par_fp ← parent_path_exists host paths plat_code
  elim par_fp [ some path ↦ pure (some path) | none ↦ find_file host paths more ]

-- A path read from the file: a length over 520 bytes that passes the test overruns tmp_src_path.
unfoldable pub read_loc_path : File → ParLoc → Mem → Option (File × Mem)
read_loc_path f loc tmp =
    let utf_inlen = loc.plat_data_len in
    let f = seek_set64 f loc.plat_data_offset in
    let n = if ltb utf_inlen (2 ^ 31) then utf_inlen else utf_inlen + 2 ^ 64 - 2 ^ 32 in
    if ltb (2 * max_path_chars) (available f n)
    then none
    else if ltb (2 * max_path_chars) utf_inlen && ltb utf_inlen (2 ^ 31)
    then none
    else some (after_read f n, read_mem f tmp 0 n)

-- plat_data_len as an int is over the limit.
abbrev pub too_long : ParLoc → Bool
too_long loc = ltb max_path_bytes loc.plat_data_len && ltb loc.plat_data_len (2 ^ 31)

abbrev pub put_path : ParLoc → List ℕ → Mem → ParentPaths → ParentPaths
put_path loc bytes tmp paths =
    if loc.plat_code == dif_loc_w2ru
    then record paths { w2ru_path = over bytes paths.w2ru_path; tmp_src_path = tmp }
    else record paths { w2ku_path = over bytes paths.w2ku_path; tmp_src_path = tmp }

abbrev pub keep_path :
    ParLoc → File × Mem → ParentPaths → Transcoded → M (File × Option ParentPaths)
keep_path loc got paths (written bytes) = pure (got.0, some (put_path loc bytes got.1 paths))
keep_path loc got paths too_small = do set_encoding_err too_small; pure (got.0, none)
keep_path loc got paths failed = do set_encoding_err failed; pure (got.0, none)

abbrev no_paths : Error → File → M (File × Option ParentPaths)
no_paths e f = do set_err (some e); pure (f, none)

unfoldable pub read_locator : Host → ParLoc → File → ParentPaths → M (File × Option ParentPaths)
read_locator host loc f paths =
    if not (loc.plat_code == dif_loc_w2ru) && not (loc.plat_code == dif_loc_w2ku)
    then pure (f, some paths)
    else if too_long loc
    then no_paths err_path_len f
    else do
      got ← lift (read_loc_path f loc paths.tmp_src_path)
      keep_path loc got paths (host.utf16le_to_utf8 (max_path_bytes - 1) loc.plat_data_len got.1)

-- for (i = 0; i < 8; i++)
unfoldable pub read_locators :
    Host → List ParLoc → File → ParentPaths → M (File × Option ParentPaths)
read_locators host [] f paths = pure (f, some paths)
read_locators host (loc ∷ locs) f paths = do
  got ← read_locator host loc f paths
  elim got.1 [ none ↦ pure (got.0, none) | some more ↦ read_locators host locs got.0 more ]

abbrev no_path : Error → Meta → M (Meta × Option FilePath)
no_path e m = do set_err (some e); pure (m, none)

abbrev find_parent : Host → Meta → ParentPaths → M (Meta × Option FilePath)
find_parent host m paths = do
  par_fp ← find_file host paths (dif_loc_w2ru ∷ 0 ∷ dif_loc_w2ku ∷ [])
  pure (m, par_fp)

unfoldable pub search_paths : Host → Meta → ParentPaths → M (Meta × Option FilePath)
search_paths host m paths = do
  got ← read_locators host m.sparse.par_loc_entry m.f paths
  let m = record m { f = got.0 }
  elim got.1 [ none ↦ pure (m, none) | some paths ↦ find_parent host m paths ]

abbrev with_file_name : Host → Meta → List ℕ → Transcoded → M (Meta × Option FilePath)
with_file_name host m dir_path (written bytes) = search_paths host m (record {
  dir_path = dir_path;
  file_name = bytes;
  w2ku_path = [];
  w2ru_path = [];
  tmp_src_path = λ i. 0;
})
with_file_name host m dir_path too_small = do set_encoding_err too_small; pure (m, none)
with_file_name host m dir_path failed = do set_encoding_err failed; pure (m, none)

-- What runs up to paths_cleanup.
unfoldable pub resolve : Host → ℕ → Meta → M (Meta × Option FilePath)
resolve host style m =
    let dirlen = host.dirname style m.filename in
    if leb max_path_bytes dirlen
    then no_path err_path_len m
    else with_file_name host m (take dirlen m.filename)
        (host.utf16be_to_utf8 max_path_bytes 512 (of_list m.sparse.par_utf16_name))

-- The block for the paths, which paths_cleanup frees.
unfoldable pub resolve_in : Bool → Host → ℕ → Meta → M (Meta × Option FilePath)
resolve_in got host style m =
    if not got then no_path err_mem m else do r ← resolve host style m; free; pure r

unfoldable pub resolve_absolute : Host → Meta → ℕ → M (Meta × Option FilePath)
resolve_absolute host m style =
    if not (host.is_absolute style m.filename)
    then no_path err_path_rel m
    else do got ← calloc; resolve_in got host style m

unfoldable pub get_diff_parent_path : Host → Meta → M (Meta × Option FilePath)
get_diff_parent_path host m = get_style >>= resolve_absolute host m
