-- ===== src/Create/Sparse/Header.antt =====
-- create.c: the sparse header that gen_sparse_header makes is one that mvhd_open accepts.
use mini_vhd.Prelude.{ℕ, ◌*◌, ◌^◌, ◌<◌, ◌≡◌, refl, u32, ==_iff, true, arith}
use mini_vhd.Layout.{SparseHeader, sector_size, HeaderFits}
use mini_vhd.Checksum.{sparse_checksum_valid, gen_sparse_checksum}
use mini_vhd.Manage.{zero_header}
use mini_vhd.Create.{gen_sparse_header, sign_header, cxsparse_cookie}

sign_header-valid : (h : SparseHeader) → sparse_checksum_valid (sign_header h) ≡ true
unfolding sparse_checksum_valid gen_sparse_checksum
sign_header-valid h = (==_iff (gen_sparse_checksum h) (gen_sparse_checksum h)).1 refl

-- What mvhd_open asks of a header, and the shape of the image.
pub record Shape (num_blks bat_offset block_size : ℕ) (h : SparseHeader) : Type 0 where
  pub fits : HeaderFits h
  pub valid : sparse_checksum_valid h ≡ true
  pub table_at : h.bat_offset ≡ bat_offset
  pub blocks : h.max_bat_ent ≡ num_blks
  pub block_sz : h.block_sz ≡ block_size * 512

pub gen_sparse_header-Shape :
    (num_blks bat_offset block_size : ℕ)
    → num_blks < 2 ^ 32
    → bat_offset < 2 ^ 64
    → block_size < 2 ^ 23
    → Shape num_blks bat_offset block_size
        (gen_sparse_header zero_header num_blks bat_offset block_size)
unfolding gen_sparse_header gen_sparse_checksum
gen_sparse_header-Shape num_blks bat_offset block_size blocks_fit offset_fits small = record {
  fits = record {
    cookie_fits = refl;
    data_offset_fits = omega arith;
    bat_offset_fits = offset_fits;
    head_vers_fits = omega arith;
    max_bat_ent_fits = blocks_fit;
    block_sz_fits = omega arith;
    checksum_fits = omega arith;
    par_uuid_fits = refl;
    par_timestamp_fits = omega arith;
    reserved_1_fits = omega arith;
    par_utf16_name_fits = refl;
    par_loc_count = refl;
    par_loc_fits = omega arith;
    reserved_2_fits = refl;
  };
  valid = sign_header-valid (record zero_header {
    cookie = cxsparse_cookie;
    data_offset = 0xffffffffffffffff;
    bat_offset = bat_offset;
    head_vers = 0x00010000;
    max_bat_ent = num_blks;
    block_sz = u32 (block_size * sector_size);
  });
  table_at = refl;
  blocks = refl;
  block_sz = omega arith;
}
