-- ===== src/Manage/Open/Stages.antt =====
-- manage.c: each part of mvhd_open fails with nothing held, or goes on with what it has established.
use mini_vhd.Prelude.{
  ◌%◌, ltb, if◌then◌else◌, ℕ, zero, suc, ◌+◌, ◌*◌, ◌/◌, ◌==◌, ==_iff, ◌||◌, ◌≡◌, refl, sym, ap, ◌∙◌,
  Bool, true, false, not, none, some, ◌⊎◌, inl, inr, arith,
}
use mini_vhd.Memory.{Mem, update}
use mini_vhd.Stdio.{
  File, after_read, seek_set64, seek_end-size, seek_end-byte, seek_set64-size, seek_set64-byte,
}
use mini_vhd.Layout.{type_fixed, type_dynamic, type_diff}
use mini_vhd.Checksum.{footer_checksum_valid, sparse_checksum_valid}
use mini_vhd.Image.{Meta}
use mini_vhd.Manage.{
  file_is_vhd, read_footer, read_sparse_header, read_bat, read_entries, read_entry, fill_bat,
  calc_sparse_values, init_sector_bitmap, empty_bitmap,
}
use mini_vhd.Manage.Open.{
  load_footer, load_header, load_by_type, or_goto, stop, cleanup_file, cleanup_bat, cleanup_bitmap,
}
use mini_vhd.Manage.Open.Balance.{
  count, Settles-if, Settles-then, Holds, Settles, cleanup_file-Undone, cleanup_bitmap-Undone,
  cleanup_bat-Undone, or_goto-Settles, Holds-refused, allocated,
}
use mini_vhd.World.{
  World, Host, FilePath, pure, ◌>>?◌, err_not_vhd, err_footer_checksum, err_sparse_checksum,
  err_type, err_mem,
}

-- The handle has the file that the world has at the path.
pub record Streamed (w : World) (path : FilePath) (readonly : Bool) (m : Meta) : Type 0 where
  pub file : File
  pub found : w.files path ≡ some file
  pub size : m.f.size ≡ file.size
  pub byte : m.f.byte ≡ file.byte
  pub filename : m.filename ≡ path
  pub readonly_is : m.readonly ≡ readonly

pub record Bare (m : Meta) : Type 0 where
  pub table : m.owned.table ≡ false
  pub bitmap : m.owned.bitmap ≡ false
  pub zero_data : m.owned.zero_data ≡ false

-- What a sparse header gives a handle.
pub record Tables (m : Meta) : Type 0 where
  pub header : sparse_checksum_valid m.sparse ≡ true
  pub table_size : m.block_offset.size ≡ m.sparse.max_bat_ent
  pub sect_per_block : m.sect_per_block ≡ m.sparse.block_sz / 512
  pub bitmap_sectors : m.bitmap.sector_count ≡ (m.sparse.block_sz / 512 / 8 + 511) / 512
  pub bitmap_size : m.bitmap.curr_bitmap.size ≡ m.bitmap.sector_count * 512
  pub no_block : m.bitmap.curr_block ≡ none
  pub table : m.owned.table ≡ true
  pub bitmap : m.owned.bitmap ≡ true

-- The sectors that `n` bytes need.
rounded_up : (n : ℕ) → (if ltb 0 (n % 512) then n / 512 + 1 else n / 512) ≡ (n + 511) / 512
rounded_up n = ground arith

from_not : (b : Bool) → not b ≡ false → b ≡ true
from_not true e = refl
from_not false e = sym e

read_entries-size :
    (n i : ℕ) (f : File) (at : Mem)
    → ((read_entries n i f at).0.size ≡ f.size) × ((read_entries n i f at).0.byte ≡ f.byte)
unfolding read_entries
read_entries-size zero i f at = (refl, refl)
read_entries-size (suc n) i f at =
    read_entries-size n (i + 1) (after_read f 4) (update at i (read_entry f))

pub record Plain (m : Meta) : Type 0 where
  pub table : m.owned.table ≡ false
  pub bitmap : m.owned.bitmap ≡ false

abbrev pub is_sparse : Meta → Bool
is_sparse m = (m.footer.disk_type == type_diff) || (m.footer.disk_type == type_dynamic)

-- A fixed image, or one with a sparse header.
abbrev pub Shaped : Meta → Type 0
Shaped m = ((m.footer.disk_type ≡ type_fixed) × Plain m) ⊎ ((is_sparse m ≡ true) × Tables m)

pub Shaped-Tables : (m : Meta) → m.footer.disk_type ≡ type_dynamic → Shaped m → Tables m
Shaped-Tables m type (inl (fixed, plain)) = absurd (omega arith)
Shaped-Tables m type (inr (sparse, tables)) = tables

module _ (w : World) (path : FilePath) (readonly : Bool) where
  abbrev pub Footed : Meta → Type 0
  Footed m = Streamed w path readonly m × Bare m × (footer_checksum_valid m.footer ≡ true)

  abbrev pub Loaded : Meta → Type 0
  Loaded m =
      Streamed w path readonly m
      × (m.owned.zero_data ≡ false)
      × (footer_checksum_valid m.footer ≡ true)
      × Shaped m

  -- A handle on the same file.
  pub Streamed-same :
      (m n : Meta)
      → n.f.size ≡ m.f.size
      → n.f.byte ≡ m.f.byte
      → n.filename ≡ m.filename
      → n.readonly ≡ m.readonly
      → Streamed w path readonly m
      → Streamed w path readonly n
  Streamed-same m n size byte filename readonly_is s = record {
    file = s.file;
    found = s.found;
    size = size ∙ s.size;
    byte = byte ∙ s.byte;
    filename = filename ∙ s.filename;
    readonly_is = readonly_is ∙ s.readonly_is;
  }

  pub load_footer-Settles :
      (host : Host) (m : Meta) (v : World)
      → Holds w m v
      → Streamed w path readonly m
      → Bare m
      → Settles w Footed (load_footer host m v)
  unfolding load_footer file_is_vhd read_footer
  load_footer-Settles host m v h s b =
      let f = (file_is_vhd host m.f).1 in
      let after = read_footer host (record m { f = f }) in
      Settles-if w Footed (not (file_is_vhd host m.f).0) (stop err_not_vhd cleanup_file) _ v
        (λ no. inl (cleanup_file-Undone w m v err_not_vhd h b.table b.bitmap b.zero_data))
        (λ yes.
          Settles-if w Footed (not (footer_checksum_valid after.footer))
            (stop err_footer_checksum cleanup_file) (pure (some after)) v
            (λ bad.
              inl (cleanup_file-Undone w m v err_footer_checksum h b.table b.bitmap b.zero_data))
            λ good. inr (
              after,
              v,
              refl,
              record { kept = h.kept; handles = h.handles; blocks = h.blocks; err = h.err },
              (
                Streamed-same m after (seek_end-size f 512 ∙ seek_end-size m.f 512)
                    (seek_end-byte f 512 ∙ seek_end-byte m.f 512) refl refl s,
                record { table = b.table; bitmap = b.bitmap; zero_data = b.zero_data },
                from_not _ good,
              ),
            ))

  abbrev Headed : Meta → Type 0
  Headed m =
      Streamed w path readonly m
      × (m.owned.zero_data ≡ false)
      × (footer_checksum_valid m.footer ≡ true)
      × (is_sparse m ≡ true)
      × (sparse_checksum_valid m.sparse ≡ true)
      × (m.block_offset.size ≡ m.sparse.max_bat_ent)
      × (m.owned.table ≡ true)
      × (m.owned.bitmap ≡ false)

  bat-Settles :
      (m : Meta) (v : World)
      → Holds w m v
      → Footed m
      → is_sparse m ≡ true
      → sparse_checksum_valid m.sparse ≡ true
      → Settles w Headed (or_goto (read_bat m) cleanup_file v)
  unfolding read_bat fill_bat
  bat-Settles m v h (s, b, valid) sparse header =
      let refused = Holds-refused w v m h in
      let read =
        read_entries-size m.sparse.max_bat_ent 0 (seek_set64 m.f m.sparse.bat_offset) (λ i. 0) in
      or_goto-Settles w v Headed m (fill_bat m) cleanup_file h (omega (arith, ap count b.table))
        (cleanup_file-Undone w m (allocated v false) err_mem refused b.table b.bitmap b.zero_data)
        (
          Streamed-same m (fill_bat m) (read.0 ∙ seek_set64-size m.f m.sparse.bat_offset)
              (read.1 ∙ seek_set64-byte m.f m.sparse.bat_offset) refl refl s,
          b.zero_data,
          valid,
          sparse,
          header,
          refl,
          refl,
          b.bitmap,
        )

  bitmap-Settles :
      (m : Meta) (v : World)
      → Holds w m v
      → Headed m
      → Settles w Loaded (or_goto (init_sector_bitmap (calc_sparse_values m)) (cleanup_bat m) v)
  unfolding init_sector_bitmap calc_sparse_values empty_bitmap
  bitmap-Settles m v h (s, zero_data, valid, sparse, header, size, table, bitmap) =
      let n = empty_bitmap (calc_sparse_values m) in
      or_goto-Settles w v Loaded m n (cleanup_bat m) h (omega (arith, ap count bitmap))
        (cleanup_bat-Undone w m (allocated v false) err_mem (Holds-refused w v m h) bitmap
          zero_data)
        (
          Streamed-same m n refl refl refl refl s,
          zero_data,
          valid,
          inr (
            sparse,
            record {
              header = header;
              table_size = size;
              sect_per_block = refl;
              bitmap_sectors = rounded_up (m.sparse.block_sz / 512 / 8);
              bitmap_size = refl;
              no_block = refl;
              table = table;
              bitmap = refl;
            },
          ),
        )

  load_header-Settles :
      (host : Host) (m : Meta) (v : World)
      → Holds w m v
      → Footed m
      → is_sparse m ≡ true
      → Settles w Loaded (load_header host m v)
  unfolding load_header read_sparse_header
  load_header-Settles host m v h (s, b, valid) sparse =
      let n = read_sparse_header host m in
      let off = m.footer.data_offset in
      let held : Holds w n v = record {
        kept = h.kept;
        handles = h.handles;
        blocks = h.blocks;
        err = h.err;
      } in
      Settles-if w Loaded (not (sparse_checksum_valid n.sparse))
        (stop err_sparse_checksum cleanup_file)
        (or_goto (read_bat n) cleanup_file >>? λ m.
          or_goto (init_sector_bitmap (calc_sparse_values m)) (cleanup_bat m))
        v
        (λ bad. inl (cleanup_file-Undone w m v err_sparse_checksum h b.table b.bitmap b.zero_data))
        (λ good.
          Settles-then w Headed Loaded (or_goto (read_bat n) cleanup_file)
            (λ m. or_goto (init_sector_bitmap (calc_sparse_values m)) (cleanup_bat m)) v
            (bat-Settles n v held
              (
                Streamed-same m n (seek_set64-size m.f off) (seek_set64-byte m.f off) refl refl s,
                record { table = b.table; bitmap = b.bitmap; zero_data = b.zero_data },
                valid,
              )
              sparse (from_not (sparse_checksum_valid n.sparse) good))
            (λ m u h p. bitmap-Settles m u h p))

  pub load_by_type-Settles :
      (host : Host) (m : Meta) (v : World)
      → Holds w m v
      → Footed m
      → Settles w Loaded (load_by_type host m v)
  unfolding load_by_type
  load_by_type-Settles host m v h (s, b, valid) =
      Settles-if w Loaded (is_sparse m) (load_header host m) _ v
        (λ sparse. load_header-Settles host m v h (s, b, valid) sparse)
        (λ other.
          Settles-if w Loaded (not (m.footer.disk_type == type_fixed))
            (stop err_type (cleanup_bitmap m)) (pure (some m)) v
            (λ unknown. inl (cleanup_bitmap-Undone w m v err_type h b.zero_data))
            (λ known. inr (
              m,
              v,
              refl,
              h,
              (
                s,
                b.zero_data,
                valid,
                inl (
                  (==_iff m.footer.disk_type type_fixed).0
                      (from_not (m.footer.disk_type == type_fixed) known),
                  record { table = b.table; bitmap = b.bitmap },
                ),
              ),
            )))
