-- ===== src/Create.antt =====
-- create.c: the footer and the sparse header of a new image, and what a creation returns.
pub mod Locators
pub mod Fixed
pub mod Sparse
pub mod Options
pub mod Signed
use mini_vhd.Prelude.{
  ℕ, ◌*◌, u32, ◌==◌, ◌||◌, Bool, if◌then◌else◌, Option, none, some, List, [], ◌∷◌,
}
use mini_vhd.Layout.{Footer, Geom, SparseHeader, sector_size, type_dynamic, type_diff}
use mini_vhd.Checksum.{gen_footer_checksum, gen_sparse_checksum}
use mini_vhd.Cookie.{conectix_cookie}
use mini_vhd.Image.{Meta}
use mini_vhd.Manage.{zero_footer}
use mini_vhd.Util.Clock.{calc_timestamp}
use mini_vhd.Util.Uuid.{generate_uuid}
use mini_vhd.World.{Host, Error, M, ◌>>=◌, ◌>>◌, pure, set_err}

-- A null pointer, an open image, or a handle that has its footer and no file.
pub data Created : Type 0 where
  null : Created
  handle : List Meta → Created
  half_made : Footer → Created

-- The result of the call of mvhd_open that ends a creation.
abbrev pub from_open : Option (List Meta) → Created
from_open none = null
from_open (some chain) = handle chain

-- *err = e; return NULL;
abbrev pub return_null : Error → M Created
return_null e = do set_err (some e); pure null

-- "mVHD", "Wi2k" and "cxsparse"
abbrev pub creator : List ℕ
creator = 109 ∷ 86 ∷ 72 ∷ 68 ∷ []

abbrev pub creator_host_os : List ℕ
creator_host_os = 87 ∷ 105 ∷ 50 ∷ 107 ∷ []

abbrev pub cxsparse_cookie : List ℕ
cxsparse_cookie = 99 ∷ 120 ∷ 115 ∷ 112 ∷ 97 ∷ 114 ∷ 115 ∷ 101 ∷ []

-- The fields of gen_footer before the checksum, on a footer of zeros.
unfoldable pub unsigned_footer : Host → ℕ → ℕ → Geom → ℕ → ℕ → Footer
unsigned_footer host timestamp size_in_bytes geom type sparse_header_off = record zero_footer {
  cookie = conectix_cookie;
  features = 0x00000002;
  fi_fmt_vers = 0x00010000;
  data_offset =
      if (type == type_diff) || (type == type_dynamic)
      then sparse_header_off
      else 0xffffffffffffffff;
  timestamp = timestamp;
  cr_app = creator;
  cr_vers = 0x000e0000;
  cr_host_os = creator_host_os;
  orig_sz = size_in_bytes;
  curr_sz = size_in_bytes;
  geom = geom;
  disk_type = type;
  uuid = generate_uuid host;
}

abbrev pub sign_footer : Footer → Footer
sign_footer footer = record footer { checksum = gen_footer_checksum footer }

abbrev footer_at : Option ℕ → Host → ℕ → Geom → ℕ → ℕ → Option Footer
footer_at none host size_in_bytes geom type off = none
footer_at (some timestamp) host size_in_bytes geom type off =
    some (sign_footer (unsigned_footer host timestamp size_in_bytes geom type off))

unfoldable pub gen_footer : Host → ℕ → Geom → ℕ → ℕ → Option Footer
gen_footer host size_in_bytes geom type sparse_header_off =
    footer_at (calc_timestamp host) host size_in_bytes geom type sparse_header_off

abbrev pub sign_header : SparseHeader → SparseHeader
sign_header header = record header { checksum = gen_sparse_checksum header }

unfoldable pub gen_sparse_header : SparseHeader → ℕ → ℕ → ℕ → SparseHeader
gen_sparse_header header num_blks bat_offset block_size_in_sectors = sign_header (record header {
  cookie = cxsparse_cookie;
  data_offset = 0xffffffffffffffff;
  bat_offset = bat_offset;
  head_vers = 0x00010000;
  max_bat_ent = num_blks;
  block_sz = u32 (block_size_in_sectors * sector_size);
})
