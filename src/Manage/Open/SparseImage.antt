-- ===== src/Manage/Open/SparseImage.antt =====
-- manage.c: mvhd_open of a dynamic image, from the file to the handle.
use mini_vhd.Prelude.{
  ℕ, suc, ◌+◌, ◌*◌, ◌/◌, ◌%◌, ◌^◌, ◌≤◌, ◌<◌, ◌≡◌, refl, sym, ap, ◌∙◌, subst, Bool, true, false, ltb,
  ◌==◌, if◌then◌else◌, some, [], ◌∷◌, drop, get_or, arith,
}
use mini_vhd.Memory.{Mem}
use mini_vhd.Stdio.{File, seek_set64, seek_set64-size, seek_set64-byte, read_mem}
use mini_vhd.Layout.{Footer, SparseHeader, HeaderFits, type_dynamic, type_diff}
use mini_vhd.StructRw.{header_to_buffer, buffer_to_header}
use mini_vhd.StructRw.Length.{length-header_to_buffer}
use mini_vhd.StructRw.RoundTrip.{buffer_to_header-header_to_buffer}
use mini_vhd.Checksum.{sparse_checksum_valid}
use mini_vhd.Image.{Meta}
use mini_vhd.Manage.{
  read_sparse_header, read_bat, fill_bat, calc_sparse_values, init_sector_bitmap, empty_bitmap,
  assign_io_funcs,
}
use mini_vhd.Endian.At.{word_at}
use mini_vhd.Manage.Table.{fill_bat-word_at}
use mini_vhd.Manage.Open.{
  load_header, load_by_type, with_format_buffer, open_alone, open_parent, open_image, or_goto,
  or_label, cleanup_file, cleanup_bat,
}
use mini_vhd.Manage.Open.Run.{given_memory, step, Footed, settled, OnFile, Loads, open_alone_run}
use mini_vhd.Cookie.Last.{bytes_at-list}
use mini_vhd.Manage.Open.Ready.{Ready, assign_io_funcs-pointers}
use mini_vhd.Manage.Open.Balance.{allocated, Holds}
use mini_vhd.Manage.Open.Outcome.{open_alone-Settles}
use mini_vhd.World.{World, Host, FilePath, continue, answer, fail, err_mem}

-- The file has a sparse header at the place, with a block table inside the file.
pub record Headed (file : File) (offset : ℕ) (h : SparseHeader) : Type 0 where
  pub low : offset < 2 ^ 63
  pub inside : offset + 1024 ≤ file.size
  pub header : (i : ℕ) → i < 1024 → file.byte (offset + i) ≡ get_or (header_to_buffer h) i 0
  pub fits : HeaderFits h
  pub valid : sparse_checksum_valid h ≡ true
  pub table_low : h.bat_offset < 2 ^ 63
  pub table_inside : h.bat_offset + h.max_bat_ent * 4 ≤ file.size

-- The handle has that header, the block table of the file and the block's shape.
pub record HasTables (file : File) (f : Footer) (h : SparseHeader) (n : Meta) : Type 0 where
  pub footer : n.footer ≡ f
  pub sparse : n.sparse ≡ h
  pub blocks : n.block_offset.size ≡ h.max_bat_ent
  pub entries :
      (b : ℕ) → b < h.max_bat_ent → n.block_offset.at b ≡ word_at file.byte (h.bat_offset + b * 4)
  pub spb : n.sect_per_block ≡ h.block_sz / 512
  pub count : n.bitmap.sector_count ≡ (
      let sectors = h.block_sz / 512 / 8 / 512 in
      if ltb 0 (h.block_sz / 512 / 8 % 512) then sectors + 1 else sectors)

module _ (host : Host) (file : File) (f : Footer) (h : SparseHeader)
    (headed : Headed file f.data_offset h) where
  read_sparse_header-sparse :
      (n : Meta)
      → n.footer ≡ f
      → n.f.size ≡ file.size
      → n.f.byte ≡ file.byte
      → (read_sparse_header host n).sparse ≡ h
  unfolding read_sparse_header
  read_sparse_header-sparse n footer size byte =
      let offset : n.footer.data_offset ≡ f.data_offset =
        ap (λ (g : Footer). g.data_offset) footer in
      let low : ltb n.footer.data_offset (2 ^ 63) ≡ true = ground (arith, headed.low) in
      let moved : seek_set64 n.f n.footer.data_offset ≡ record n.f { pos = n.footer.data_offset } =
        rw low refl in
      ap buffer_to_header (
        bytes_at-list (read_mem (seek_set64 n.f n.footer.data_offset) (host.garbage 2) 0 1024) 0
          1024 (header_to_buffer h) (length-header_to_buffer h headed.fits)
          λ i small.
            ap (λ (g : File). read_mem g (host.garbage 2) 0 1024 (0 + i)) moved
            ∙ ground (arith, headed.inside)
            ∙ ap (λ (b : Mem). b (n.footer.data_offset + i)) byte
            ∙ ap (λ k. file.byte (k + i)) offset
            ∙ headed.header i small)
      ∙ buffer_to_header-header_to_buffer h headed.fits

  read_sparse_header-kept :
      (n : Meta)
      → ((read_sparse_header host n).footer ≡ n.footer)
        × ((read_sparse_header host n).f.size ≡ n.f.size)
        × ((read_sparse_header host n).f.byte ≡ n.f.byte)
  unfolding read_sparse_header
  read_sparse_header-kept n =
      (refl, seek_set64-size n.f n.footer.data_offset, seek_set64-byte n.f n.footer.data_offset)

  abbrev loaded : Meta → Meta
  loaded n = empty_bitmap (calc_sparse_values (fill_bat (read_sparse_header host n)))

  loaded-HasTables :
      (n : Meta)
      → n.footer ≡ f
      → n.f.size ≡ file.size
      → n.f.byte ≡ file.byte
      → HasTables file f h (loaded n)
  unfolding empty_bitmap calc_sparse_values fill_bat
  loaded-HasTables n footer size byte =
      let m = read_sparse_header host n in
      let sparse : m.sparse ≡ h = read_sparse_header-sparse n footer size byte in
      let kept = read_sparse_header-kept n in
      let place : m.sparse.bat_offset ≡ h.bat_offset =
        ap (λ (k : SparseHeader). k.bat_offset) sparse in
      let entries : m.sparse.max_bat_ent ≡ h.max_bat_ent =
        ap (λ (k : SparseHeader). k.max_bat_ent) sparse in
      record {
        footer = kept.0 ∙ footer;
        sparse = sparse;
        blocks = entries;
        entries = λ b small.
            (fill_bat-word_at m b (omega (arith, place, headed.table_low))
              (omega (arith, place, entries, kept.1, size, headed.table_inside))
              (omega (arith, entries))).0
            ∙ ap (λ (mem : Mem). word_at mem (m.sparse.bat_offset + b * 4)) (kept.2 ∙ byte)
            ∙ ap (λ k. word_at file.byte (k + b * 4)) place;
        spb = ap (λ (k : SparseHeader). k.block_sz / 512) sparse;
        count =
            ap
              (λ (k : SparseHeader).
                let sectors = k.block_sz / 512 / 8 / 512 in
                if ltb 0 (k.block_sz / 512 / 8 % 512) then sectors + 1 else sectors)
              sparse;
      }

  load_header_run :
      (n : Meta) (v : World)
      → OnFile file f n v
      → (v' : World) × (load_header host n v ≡ some (some (loaded n), v')) × (v'.allocs ≡ [])
  unfolding load_header read_bat init_sector_bitmap
  load_header_run n v on =
      let m = read_sparse_header host n in
      let sparse : m.sparse ≡ h = read_sparse_header-sparse n on.footer on.size on.byte in
      let valid : sparse_checksum_valid m.sparse ≡ true =
        ap sparse_checksum_valid sparse ∙ headed.valid in
      let u = allocated v true in
      let filled = fill_bat m in
      let table : or_goto (read_bat m) cleanup_file v ≡ some (some filled, u) =
        ap (continue (or_label cleanup_file))
          (given_memory (fail err_mem) filled v (ap answer on.memory)) in
      let empty = empty_bitmap (calc_sparse_values filled) in
      let bitmap : or_goto (init_sector_bitmap (calc_sparse_values filled)) (cleanup_bat filled) u
          ≡ some (some empty, allocated u true) =
        ap (continue (or_label (cleanup_bat filled)))
          (given_memory (fail err_mem) empty u (ap (λ l. answer (drop 1 l)) on.memory)) in
      (
        allocated u true,
        rw valid (
            step (or_goto (read_bat m) cleanup_file)
              (λ m. or_goto (init_sector_bitmap (calc_sparse_values m)) (cleanup_bat m)) v u filled
              (some (some empty, allocated u true)) table bitmap),
        ap (λ l. drop 1 (drop 1 l)) on.memory,
      )

  loads :
      f.disk_type ≡ type_dynamic
      → (n : Meta) (v : World) → OnFile file f n v
      → Loads host (HasTables file f h) n v
  unfolding load_by_type
  loads type n v on =
      let (v', runs, memory) = load_header_run n v on in
      let dynamic : n.footer.disk_type ≡ type_dynamic =
        ap (λ (g : Footer). g.disk_type) on.footer ∙ type in
      let not_diff : (n.footer.disk_type == type_diff) ≡ false = ground arith in
      let is_dynamic : (n.footer.disk_type == type_dynamic) ≡ true = ground arith in
      (
        loaded n,
        v',
        rw (not_diff, is_dynamic) runs,
        memory,
        loaded-HasTables n on.footer on.size on.byte,
      )

HasTables-opened :
    (file : File) (f : Footer) (h : SparseHeader) (n : Meta)
    → HasTables file f h n
    → HasTables file f h (with_format_buffer (assign_io_funcs n))
HasTables-opened file f h n t =
    let (reads, writes, e) = assign_io_funcs-pointers n in
    subst (λ m. HasTables file f h (with_format_buffer m)) (sym e)
      (record {
        footer = t.footer;
        sparse = t.sparse;
        blocks = t.blocks;
        entries = t.entries;
        spb = t.spb;
        count = t.count;
      })

module _ (host : Host) (w : World) (path : FilePath) (readonly : Bool) (f : Footer)
    (h : SparseHeader) (footed : Footed host w path readonly f)
    (headed : Headed footed.file f.data_offset h) where
  -- A file that ends in a valid footer of a dynamic image, and has a valid header and a whole block
  -- table, opens: the handle has the header and the table of the file.
  pub open_image-Sparse :
      f.disk_type ≡ type_dynamic
      → (fuel : ℕ)
      → (m : Meta) × (v : World) × (open_image (suc fuel) host path readonly w
          ≡ some (some (m ∷ []), v))
        × HasTables footed.file f h m
        × Ready w path readonly m
        × Holds w m v
  unfolding open_image open_parent
  open_image-Sparse type fuel =
      let (n, v, runs, tables) =
        open_alone_run host w path readonly f footed (HasTables footed.file f h)
          (loads host footed.file f h headed type) in
      let m = with_format_buffer (assign_io_funcs n) in
      let has : HasTables footed.file f h m = HasTables-opened footed.file f h n tables in
      let dynamic : m.footer.disk_type ≡ type_dynamic =
        ap (λ (g : Footer). g.disk_type) has.footer ∙ type in
      let not_diff : (m.footer.disk_type == type_diff) ≡ false = ground arith in
      let (held, ready) =
        settled w (Ready w path readonly) (open_alone host path readonly w) m v runs
          (open_alone-Settles w path readonly host) in
      (
        m,
        v,
        step (open_alone host path readonly) (open_parent (open_image fuel host) host) w v m
            (some (some (m ∷ []), v)) runs (rw not_diff refl),
        has,
        ready,
        held,
      )
