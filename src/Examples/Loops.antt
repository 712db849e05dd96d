-- ===== src/Examples/Loops.antt =====
-- A differencing image that names itself as its parent.
use mini_vhd.Prelude.{
  ℕ, ◌+◌, ◌-◌, ◌≡◌, ◌==◌, ◌||◌, refl, sym, subst, ltb, Bool, true, if◌then◌else◌, Option, none,
  some, [], ◌∷◌,
}
use mini_vhd.Stdio.{File}
use mini_vhd.Layout.{type_diff, start_ts}
use mini_vhd.Image.{Meta}
use mini_vhd.Endian.{load_le, store_le, from_be16, from_be32, from_be64}
use mini_vhd.Util.Clock.{file_mod_timestamp, epoch_to_vhd_ts}
use mini_vhd.Manage.ParentPath.{
  get_diff_parent_path, resolve_absolute, resolve_in, resolve, search_paths, read_locators,
  read_locator, find_file, parent_path_exists, try_path, candidate, c_string,
}
use mini_vhd.Cookie.{is_conectix_str, begins_with}
use mini_vhd.StructRw.{
  buffer_to_footer, footer_fields, bytes, number, next_buffer_to_struct, swap_in, buffer_to_header,
  header_fields, read_par_locs, read_par_loc,
}
use mini_vhd.Checksum.{
  footer_checksum_valid, gen_footer_checksum, add_bytes, footer_bytes, sparse_checksum_valid,
  gen_sparse_checksum, sparse_bytes, par_loc_bytes,
}
use mini_vhd.Manage.Open.{
  open_in, open_stream, load_footer, load_by_type, load_header, add_format_buffer,
}
use mini_vhd.Manage.{
  new_meta, file_is_vhd, read_footer, read_sparse_header, read_bat, fill_bat, read_entries,
  init_sector_bitmap, calc_sparse_values, empty_bitmap, assign_io_funcs, assign_by_type,
}
use mini_vhd.Manage.Open.{open_alone, open_image}
use mini_vhd.Manage.Open.{close}
use mini_vhd.Manage.Open.Close.{close-open_alone}
use mini_vhd.Manage.Open.Recursion.{warned, Calls, Endless, open_image-Endless}
use mini_vhd.World.{World, Host, FilePath, written, fopen, same_bytes}

-- The bytes that are not zero: a header of zeros and its checksum, then a footer.
abbrev image_byte : ℕ → ℕ
image_byte i =
    if ltb i 1024
    then (if ltb i 36 then 0 else if ltb i 40 then 0xff else 0)
    else (if i == 1024
        then 99
        else if i == 1025
        then 111
        else if i == 1026
        then 110
        else if i == 1027
        then 101
        else if i == 1028
        then 99
        else if i == 1029
        then 116
        else if i == 1030
        then 105
        else if i == 1031
        then 120
        else if i == 1087
        then 4
        else if i == 1088
        then 0xff
        else if i == 1089
        then 0xff
        else if i == 1090
        then 0xfc
        else if i == 1091
        then 0x9e
        else 0)

abbrev pub self : FilePath
self = 98 ∷ []

abbrev pub other : FilePath
other = 97 ∷ []

abbrev files : FilePath → Option File
files path =
    if same_bytes path self
    then some (record { size = 1536; byte = image_byte; pos = 0 })
    else some (record { size = 8; byte = λ i. 0; pos = 0 })

-- A machine on which the image's name for its parent is `name`.
abbrev pub host_for : FilePath → Host
host_for name = record {
  permits = λ path mode. same_bytes path self || same_bytes path other;
  mtime = λ path. some start_ts;
  now = start_ts;
  rand = λ seed n. 0;
  garbage = λ which i. 0;
  utf16be_to_utf8 = λ room count text. written name;
  utf16le_to_utf8 = λ room count text. written [];
  utf8_to_utf16be = λ room count text. written [];
  utf8_to_utf16le = λ room count text. written [];
  guess_style = λ path. 1;
  is_absolute = λ style path. true;
  dirname = λ style path. 0;
  basename = λ style path. path;
  join = λ style dir path. path;
  relative = λ style dir path. path;
}

abbrev host : Host
host = host_for self

abbrev pub state : ℕ → ℕ → World
state handles blocks = record {
  files = files;
  err = none;
  allocs = [];
  handles = handles;
  blocks = blocks;
  style = 1;
}

-- The states of the calls of mvhd_open.
At : FilePath → Bool → World → Type 0
At path readonly w =
    (handles : ℕ) × (blocks : ℕ) × (path ≡ self) × (readonly ≡ true) × (w ≡ state handles blocks)

abbrev pub blank_meta : Meta
blank_meta = new_meta [] true (record { size = 0; byte = λ i. 0; pos = 0 })

abbrev pub child_of : Option (Option Meta × World) → Meta
child_of none = blank_meta
child_of (some (none, w)) = blank_meta
child_of (some (some m, w)) = m

abbrev searched_of : Option ((Meta × Option FilePath) × World) → Meta
searched_of none = blank_meta
searched_of (some ((m, path), w)) = m

abbrev pub child : Meta
child = child_of (open_alone host self true (state 0 0))

opens :
    (handles blocks : ℕ)
    → open_alone host self true (state handles blocks)
      ≡ some (some child, state (handles + 1) (blocks + 1 + 1 + 1 + 1))
unfolding open_alone open_in open_stream fopen load_footer file_is_vhd is_conectix_str begins_with
    read_footer buffer_to_footer footer_fields bytes number next_buffer_to_struct swap_in
    footer_checksum_valid gen_footer_checksum add_bytes footer_bytes load_by_type load_header
    read_sparse_header buffer_to_header header_fields read_par_locs read_par_loc
    sparse_checksum_valid gen_sparse_checksum sparse_bytes par_loc_bytes read_bat fill_bat
    read_entries init_sector_bitmap calc_sparse_values empty_bitmap assign_io_funcs assign_by_type
    add_format_buffer same_bytes load_le store_le from_be16 from_be32 from_be64
opens handles blocks = refl

pub is_diff : child.footer.disk_type ≡ type_diff
unfolding open_alone open_in open_stream fopen load_footer file_is_vhd is_conectix_str begins_with
    read_footer buffer_to_footer footer_fields bytes number next_buffer_to_struct swap_in
    footer_checksum_valid gen_footer_checksum add_bytes footer_bytes load_by_type load_header
    read_sparse_header buffer_to_header header_fields read_par_locs read_par_loc
    sparse_checksum_valid gen_sparse_checksum sparse_bytes par_loc_bytes read_bat fill_bat
    read_entries init_sector_bitmap calc_sparse_values empty_bitmap assign_io_funcs assign_by_type
    add_format_buffer same_bytes load_le store_le from_be16 from_be32 from_be64
is_diff = refl

abbrev pub searched : Meta
searched = searched_of (get_diff_parent_path host child (state 0 0))

finds :
    (handles blocks : ℕ)
    → get_diff_parent_path host child (state handles blocks)
      ≡ some ((searched, some self), state (handles + 1 - 1) (blocks + 1 - 1))
unfolding open_alone open_in open_stream fopen load_footer file_is_vhd is_conectix_str begins_with
    read_footer buffer_to_footer footer_fields bytes number next_buffer_to_struct swap_in
    footer_checksum_valid gen_footer_checksum add_bytes footer_bytes load_by_type load_header
    read_sparse_header buffer_to_header header_fields read_par_locs read_par_loc
    sparse_checksum_valid gen_sparse_checksum sparse_bytes par_loc_bytes read_bat fill_bat
    read_entries init_sector_bitmap calc_sparse_values empty_bitmap assign_io_funcs assign_by_type
    add_format_buffer same_bytes load_le store_le from_be16 from_be32 from_be64 get_diff_parent_path
    resolve_absolute resolve_in resolve search_paths read_locators read_locator find_file
    parent_path_exists try_path candidate c_string
finds handles blocks = refl

stats :
    (handles blocks : ℕ)
    → file_mod_timestamp host self (state handles blocks) ≡ some (0, state handles blocks)
unfolding file_mod_timestamp epoch_to_vhd_ts
stats handles blocks = refl

unstamped : searched.sparse.par_timestamp ≡ 0
unfolding open_alone open_in open_stream fopen load_footer file_is_vhd is_conectix_str begins_with
    read_footer buffer_to_footer footer_fields bytes number next_buffer_to_struct swap_in
    footer_checksum_valid gen_footer_checksum add_bytes footer_bytes load_by_type load_header
    read_sparse_header buffer_to_header header_fields read_par_locs read_par_loc
    sparse_checksum_valid gen_sparse_checksum sparse_bytes par_loc_bytes read_bat fill_bat
    read_entries init_sector_bitmap calc_sparse_values empty_bitmap assign_io_funcs assign_by_type
    add_format_buffer same_bytes load_le store_le from_be16 from_be32 from_be64 get_diff_parent_path
    resolve_absolute resolve_in resolve search_paths read_locators read_locator find_file
    parent_path_exists try_path candidate c_string
unstamped = refl

pub enters : (w : World) → w ≡ warned searched 0 w
unfolding open_alone open_in open_stream fopen load_footer file_is_vhd is_conectix_str begins_with
    read_footer buffer_to_footer footer_fields bytes number next_buffer_to_struct swap_in
    footer_checksum_valid gen_footer_checksum add_bytes footer_bytes load_by_type load_header
    read_sparse_header buffer_to_header header_fields read_par_locs read_par_loc
    sparse_checksum_valid gen_sparse_checksum sparse_bytes par_loc_bytes read_bat fill_bat
    read_entries init_sector_bitmap calc_sparse_values empty_bitmap assign_io_funcs assign_by_type
    add_format_buffer same_bytes load_le store_le from_be16 from_be32 from_be64 get_diff_parent_path
    resolve_absolute resolve_in resolve search_paths read_locators read_locator find_file
    parent_path_exists try_path candidate c_string
enters w = refl

round :
    (handles blocks : ℕ)
    → Calls host self true
        (state handles blocks)
        self
        (state (handles + 1 + 1 - 1) (blocks + 1 + 1 + 1 + 1 + 1 - 1))
round handles blocks = record {
  child = child;
  after_open = state (handles + 1) (blocks + 1 + 1 + 1 + 1);
  opens = opens handles blocks;
  diff = is_diff;
  searched = searched;
  after_search = state (handles + 1 + 1 - 1) (blocks + 1 + 1 + 1 + 1 + 1 - 1);
  finds = finds (handles + 1) (blocks + 1 + 1 + 1 + 1);
  par_mod_ts = 0;
  after_stat = state (handles + 1 + 1 - 1) (blocks + 1 + 1 + 1 + 1 + 1 - 1);
  stats = stats (handles + 1 + 1 - 1) (blocks + 1 + 1 + 1 + 1 + 1 - 1);
  no_error = refl;
  enters = enters (state (handles + 1 + 1 - 1) (blocks + 1 + 1 + 1 + 1 + 1 - 1));
}

At-Endless : Endless host At
unfolding At
At-Endless = record {
  calls = λ path readonly w (handles, blocks, named, ro, is). (
    self,
    state (handles + 1 + 1 - 1) (blocks + 1 + 1 + 1 + 1 + 1 - 1),
    subst
        (λ p.
          Calls host p readonly w self
            (state (handles + 1 + 1 - 1) (blocks + 1 + 1 + 1 + 1 + 1 - 1)))
        (sym named)
        (subst
          (λ r.
            Calls host self r w self (state (handles + 1 + 1 - 1) (blocks + 1 + 1 + 1 + 1 + 1 - 1)))
          (sym ro)
          (subst
            (λ v.
              Calls host self true v self
                (state (handles + 1 + 1 - 1) (blocks + 1 + 1 + 1 + 1 + 1 - 1)))
            (sym is) (round handles blocks))),
    (handles + 1 + 1 - 1, blocks + 1 + 1 + 1 + 1 + 1 - 1, refl, refl, refl),
  );
}

endless_example : open_image 1000 host self true (state 0 0) ≡ none
unfolding At
endless_example =
    open_image-Endless host At At-Endless 1000 self true (state 0 0) (0, 0, refl, refl, refl)

close_example :
    (u : World) × (close (child ∷ []) (state (0 + 1) (0 + 1 + 1 + 1 + 1)) ≡ some (tt, u))
    × (u.handles ≡ 0)
    × (u.blocks ≡ 0)
    × (u.err ≡ none)
close_example =
    close-open_alone host self true (state 0 0) child (state (0 + 1) (0 + 1 + 1 + 1 + 1))
      (opens 0 0)
