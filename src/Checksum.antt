-- ===== src/Checksum.antt =====
-- util.c and manage.c: the checksums of the footer and of the sparse header, which run over the
-- bytes of the structure in the host's memory. Neither structure has padding.
mod Sums
pub mod OnDisk
pub mod Detect
use mini_vhd.Prelude.{ℕ, ◌+◌, ◌-◌, ◌^◌, u32, Bool, ◌==◌, List, [], ◌∷◌, ◌++◌}
use mini_vhd.Endian.{store_le}
use mini_vhd.Layout.{Footer, ParLoc, SparseHeader}

-- (uint8_t*)footer
unfoldable pub footer_bytes : Footer → List ℕ
footer_bytes f =
    f.cookie
    ++ (store_le 4 f.features
        ++ (store_le 4 f.fi_fmt_vers
            ++ (store_le 8 f.data_offset
                ++ (store_le 4 f.timestamp
                    ++ (f.cr_app
                        ++ (store_le 4 f.cr_vers
                            ++ (f.cr_host_os
                                ++ (store_le 8 f.orig_sz
                                    ++ (store_le 8 f.curr_sz
                                        ++ (store_le 2 f.geom.cyl
                                            ++ (store_le 1 f.geom.heads
                                                ++ (store_le 1 f.geom.spt
                                                    ++ (store_le 4 f.disk_type
                                                        ++ (store_le 4 f.checksum
                                                            ++ (f.uuid
                                                            ++ (store_le 1 f.saved_st
                                                            ++ f.reserved))))))))))))))))

unfoldable pub par_loc_bytes : List ParLoc → List ℕ
par_loc_bytes [] = []
par_loc_bytes (p ∷ ps) =
    store_le 4 p.plat_code
    ++ (store_le 4 p.plat_data_space
        ++ (store_le 4 p.plat_data_len
            ++ (store_le 4 p.reserved ++ (store_le 8 p.plat_data_offset ++ par_loc_bytes ps))))

-- (uint8_t*)header
unfoldable pub sparse_bytes : SparseHeader → List ℕ
sparse_bytes h =
    h.cookie
    ++ (store_le 8 h.data_offset
        ++ (store_le 8 h.bat_offset
            ++ (store_le 4 h.head_vers
                ++ (store_le 4 h.max_bat_ent
                    ++ (store_le 4 h.block_sz
                        ++ (store_le 4 h.checksum
                            ++ (h.par_uuid
                                ++ (store_le 4 h.par_timestamp
                                    ++ (store_le 4 h.reserved_1
                                        ++ (h.par_utf16_name
                                            ++ (par_loc_bytes h.par_loc_entry
                                                ++ h.reserved_2)))))))))))

-- for (i = 0; i < sizeof *footer; i++) new_chk += footer_bytes[i];
unfoldable pub add_bytes : ℕ → List ℕ → ℕ
add_bytes new_chk [] = new_chk
add_bytes new_chk (b ∷ bs) = add_bytes (u32 (new_chk + b)) bs

-- ~x on uint32_t.
abbrev pub complement32 : ℕ → ℕ
complement32 x = 2 ^ 32 - 1 - x

-- The field is 0 during the sum, and gets its old value back.
unfoldable pub gen_footer_checksum : Footer → ℕ
gen_footer_checksum f = complement32 (add_bytes 0 (footer_bytes (record f { checksum = 0 })))

unfoldable pub gen_sparse_checksum : SparseHeader → ℕ
gen_sparse_checksum h = complement32 (add_bytes 0 (sparse_bytes (record h { checksum = 0 })))

unfoldable pub footer_checksum_valid : Footer → Bool
footer_checksum_valid f = f.checksum == gen_footer_checksum f

unfoldable pub sparse_checksum_valid : SparseHeader → Bool
sparse_checksum_valid h = h.checksum == gen_sparse_checksum h
