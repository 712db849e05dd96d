-- ===== src/StructRw.antt =====
-- struct_rw.c: the header and the footer as bytes of the file, and back. A buffer that is read is
-- the list of the bytes from the pointer on, and one that is written the list of the bytes written.
pub mod Fields
pub mod RoundTrip
pub mod Restore
pub mod InRange
pub mod Length
use mini_vhd.Prelude.{ℕ, zero, suc, Bool, true, false, if◌then◌else◌, ◌==◌, List, [], ◌∷◌, ◌++◌}
use mini_vhd.Prelude.{take, drop}
use mini_vhd.Endian.{store_le, load_le, from_be16, from_be32, from_be64, to_be16, to_be32, to_be64}
use mini_vhd.Layout.{Geom, Footer, ParLoc, SparseHeader}

-- The integer at the pointer, brought into the host's order, or left for any other size.
unfoldable pub swap_in : ℕ → List ℕ → List ℕ
swap_in memb_size memb =
    if memb_size == 2
    then store_le 2 (from_be16 (load_le memb))
    else if memb_size == 4
    then store_le 4 (from_be32 (load_le memb))
    else if memb_size == 8
    then store_le 8 (from_be64 (load_le memb))
    else memb

unfoldable pub swap_out : ℕ → List ℕ → List ℕ
swap_out memb_size memb =
    if memb_size == 2
    then store_le 2 (to_be16 (load_le memb))
    else if memb_size == 4
    then store_le 4 (to_be32 (load_le memb))
    else if memb_size == 8
    then store_le 8 (to_be64 (load_le memb))
    else memb

-- The member's bytes in memory, and the buffer advanced past them.
unfoldable pub next_buffer_to_struct : ℕ → Bool → List ℕ → List ℕ × List ℕ
unfolding swap_in
next_buffer_to_struct memb_size req_endian buffer =
    let memb = take memb_size buffer in
    (if req_endian then swap_in memb_size memb else memb, drop memb_size buffer)

unfoldable pub next_struct_to_buffer : ℕ → Bool → List ℕ → List ℕ
unfolding swap_out
next_struct_to_buffer memb_size req_endian memb =
    let stored = take memb_size memb in if req_endian then swap_out memb_size stored else stored

-- A read through the advancing pointer `buff_ptr`.
abbrev pub Reader {ℓ} : Type ℓ → Type ℓ
Reader A = List ℕ → A × List ℕ

infixl 5 ◌>>=◌
abbrev pub ◌>>=◌ {ℓ κ} : {A : Type ℓ} {B : Type κ} → Reader A → (A → Reader B) → Reader B
◌>>=◌ m f b = f (m b).0 (m b).1

abbrev pub pure {ℓ} : {A : Type ℓ} → A → Reader A
pure a b = (a, b)

-- A member that is an array of bytes, and one that is an integer.
unfoldable pub bytes : ℕ → Reader (List ℕ)
bytes n = next_buffer_to_struct n false

unfoldable pub number : ℕ → Bool → Reader ℕ
number n req_endian b =
    let (memb, rest) = next_buffer_to_struct n req_endian b in (load_le memb, rest)

unfoldable pub put_bytes : ℕ → List ℕ → List ℕ
put_bytes n memb = next_struct_to_buffer n false memb

unfoldable pub put_number : ℕ → Bool → ℕ → List ℕ
put_number n req_endian v = next_struct_to_buffer n req_endian (store_le n v)

unfoldable pub footer_fields : Reader Footer
footer_fields = do
  cookie ← bytes 8
  features ← number 4 true
  fi_fmt_vers ← number 4 true
  data_offset ← number 8 true
  timestamp ← number 4 true
  cr_app ← bytes 4
  cr_vers ← number 4 true
  cr_host_os ← bytes 4
  orig_sz ← number 8 true
  curr_sz ← number 8 true
  cyl ← number 2 true
  heads ← number 1 false
  spt ← number 1 false
  disk_type ← number 4 true
  checksum ← number 4 true
  uuid ← bytes 16
  saved_st ← number 1 false
  reserved ← bytes 427
  pure (record {
    cookie = cookie;
    features = features;
    fi_fmt_vers = fi_fmt_vers;
    data_offset = data_offset;
    timestamp = timestamp;
    cr_app = cr_app;
    cr_vers = cr_vers;
    cr_host_os = cr_host_os;
    orig_sz = orig_sz;
    curr_sz = curr_sz;
    geom = record { cyl = cyl; heads = heads; spt = spt };
    disk_type = disk_type;
    checksum = checksum;
    uuid = uuid;
    saved_st = saved_st;
    reserved = reserved;
  })

unfoldable pub buffer_to_footer : List ℕ → Footer
unfolding footer_fields
buffer_to_footer buffer = (footer_fields buffer).0

unfoldable pub footer_to_buffer : Footer → List ℕ
footer_to_buffer f =
    put_bytes 8 f.cookie
    ++ (put_number 4 true f.features
        ++ (put_number 4 true f.fi_fmt_vers
            ++ (put_number 8 true f.data_offset
                ++ (put_number 4 true f.timestamp
                    ++ (put_bytes 4 f.cr_app
                        ++ (put_number 4 true f.cr_vers
                            ++ (put_bytes 4 f.cr_host_os
                                ++ (put_number 8 true f.orig_sz
                                    ++ (put_number 8 true f.curr_sz
                                        ++ (put_number 2 true f.geom.cyl
                                            ++ (put_number 1 false f.geom.heads
                                                ++ (put_number 1 false f.geom.spt
                                                    ++ (put_number 4 true f.disk_type
                                                        ++ (put_number 4 true f.checksum
                                                            ++ (put_bytes 16 f.uuid
                                                            ++ (put_number 1 false f.saved_st
                                                            ++ put_bytes 427
                                                            f.reserved))))))))))))))))

unfoldable pub read_par_loc : Reader ParLoc
read_par_loc = do
  plat_code ← number 4 true
  plat_data_space ← number 4 true
  plat_data_len ← number 4 true
  reserved ← number 4 true
  plat_data_offset ← number 8 true
  pure (record {
    plat_code = plat_code;
    plat_data_space = plat_data_space;
    plat_data_len = plat_data_len;
    reserved = reserved;
    plat_data_offset = plat_data_offset;
  })

-- for (i = 0; i < 8; i++) over the parent locators.
unfoldable pub read_par_locs : ℕ → Reader (List ParLoc)
read_par_locs zero = pure []
read_par_locs (suc n) = do p ← read_par_loc; ps ← read_par_locs n; pure (p ∷ ps)

unfoldable pub put_par_loc : ParLoc → List ℕ
put_par_loc p =
    put_number 4 true p.plat_code
    ++ (put_number 4 true p.plat_data_space
        ++ (put_number 4 true p.plat_data_len
            ++ (put_number 4 true p.reserved ++ put_number 8 true p.plat_data_offset)))

unfoldable pub put_par_locs : List ParLoc → List ℕ
put_par_locs [] = []
put_par_locs (p ∷ ps) = put_par_loc p ++ put_par_locs ps

unfoldable pub header_fields : Reader SparseHeader
header_fields = do
  cookie ← bytes 8
  data_offset ← number 8 true
  bat_offset ← number 8 true
  head_vers ← number 4 true
  max_bat_ent ← number 4 true
  block_sz ← number 4 true
  checksum ← number 4 true
  par_uuid ← bytes 16
  par_timestamp ← number 4 true
  reserved_1 ← number 4 true
  par_utf16_name ← bytes 512
  par_loc_entry ← read_par_locs 8
  reserved_2 ← bytes 256
  pure (record {
    cookie = cookie;
    data_offset = data_offset;
    bat_offset = bat_offset;
    head_vers = head_vers;
    max_bat_ent = max_bat_ent;
    block_sz = block_sz;
    checksum = checksum;
    par_uuid = par_uuid;
    par_timestamp = par_timestamp;
    reserved_1 = reserved_1;
    par_utf16_name = par_utf16_name;
    par_loc_entry = par_loc_entry;
    reserved_2 = reserved_2;
  })

unfoldable pub buffer_to_header : List ℕ → SparseHeader
unfolding header_fields
buffer_to_header buffer = (header_fields buffer).0

unfoldable pub header_to_buffer : SparseHeader → List ℕ
header_to_buffer h =
    put_bytes 8 h.cookie
    ++ (put_number 8 true h.data_offset
        ++ (put_number 8 true h.bat_offset
            ++ (put_number 4 true h.head_vers
                ++ (put_number 4 true h.max_bat_ent
                    ++ (put_number 4 true h.block_sz
                        ++ (put_number 4 true h.checksum
                            ++ (put_bytes 16 h.par_uuid
                                ++ (put_number 4 true h.par_timestamp
                                    ++ (put_number 4 true h.reserved_1
                                        ++ (put_bytes 512 h.par_utf16_name
                                            ++ (put_par_locs h.par_loc_entry
                                                ++ put_bytes 256 h.reserved_2)))))))))))
