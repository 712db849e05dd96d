-- ===== src/Create/Locators.antt =====
-- create.c: gen_par_loc, the paths to the parent that a differencing image stores.
use mini_vhd.Prelude.{ℕ, ◌+◌, ◌-◌, ◌*◌, ◌/◌, u32, u64, ltb, leb}
use mini_vhd.Prelude.{if◌then◌else◌, List, ◌∷◌, ◌++◌, take, drop, length}
use mini_vhd.Memory.{of_list}
use mini_vhd.Layout.{
  ParLoc, SparseHeader, sector_size, max_path_bytes, max_path_chars, dif_loc_w2ru, dif_loc_w2ku,
}
use mini_vhd.World.{
  FilePath, Host, Error, err_path_len, err_utf_size, err_utf_transcoding_failed, Transcoded,
  too_small, failed, written,
}

-- The error, or the header and the two paths in UTF-16.
pub data Located : Type 0 where
  refused : Error → Located
  located : SparseHeader → List ℕ → List ℕ → Located

abbrev encoded : Transcoded → (List ℕ → Located) → Located
encoded too_small k = refused err_utf_size
encoded failed k = refused err_utf_transcoding_failed
encoded (written bytes) k = k bytes

-- ((len / MVHD_SECTOR_SIZE) + 1) * MVHD_SECTOR_SIZE, on uint32_t
unfoldable pub data_space : ℕ → ℕ
data_space len = u32 ((len / sector_size + 1) * sector_size)

abbrev par_loc : ℕ → ℕ → ℕ → ParLoc
par_loc plat_code len offset = record {
  plat_code = plat_code;
  plat_data_space = data_space len;
  plat_data_len = len;
  reserved = 0;
  plat_data_offset = offset;
}

-- The first two entries: the absolute path, and the relative one after it.
unfoldable pub set_par_locs : SparseHeader → ℕ → ℕ → ℕ → SparseHeader
set_par_locs header start_offset w2ku_len w2ru_len = record header {
  par_loc_entry =
      par_loc dif_loc_w2ku w2ku_len start_offset
      ∷ par_loc dif_loc_w2ru w2ru_len (u64 (start_offset + data_space w2ku_len))
      ∷ drop 2 header.par_loc_entry;
}

unfoldable pub relative_path : Host → ℕ → FilePath → FilePath → FilePath
relative_path host style child_path par_path =
    host.relative style (take (host.dirname style child_path) child_path) par_path

-- The name in the header, then the absolute path, then the relative one.
unfoldable pub encode_paths : Host → ℕ → SparseHeader → FilePath → FilePath → ℕ → Located
encode_paths host style header par_path rel_path start_offset =
    let par_filename = host.basename style par_path in
    encoded (host.utf8_to_utf16be 512 (length par_filename) (of_list par_filename)) λ name.
      encoded (host.utf8_to_utf16le (2 * max_path_chars) (length par_path) (of_list par_path))
        λ w2ku.
          encoded
            (host.utf8_to_utf16le (2 * max_path_chars) (length rel_path)
              (of_list (take (max_path_bytes - 1) rel_path)))
            λ w2ru.
              let named = record header {
                par_utf16_name = name ++ drop (length name) header.par_utf16_name;
              } in
              located (set_par_locs named start_offset (length w2ku) (length w2ru)) w2ku w2ru

unfoldable pub gen_par_loc : Host → ℕ → SparseHeader → FilePath → FilePath → ℕ → Located
gen_par_loc host style header child_path par_path start_offset =
    let rel_path = relative_path host style child_path par_path in
    if leb max_path_bytes (length child_path)
    then refused err_path_len
    else if ltb max_path_bytes (length rel_path)
    then refused err_path_len
    else encode_paths host style header par_path rel_path start_offset
