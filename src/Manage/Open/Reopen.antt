-- ===== src/Manage/Open/Reopen.antt =====
-- manage.c: a dynamic image that was written opens again as it was.
use mini_vhd.Prelude.{
  ℕ, suc, ◌+◌, ◌-◌, ◌*◌, ◌/◌, ◌%◌, ◌^◌, ◌≤◌, ◌<◌, ◌≡◌, refl, sym, ap, ◌∙◌, subst, Bool, ltb, length,
  if◌then◌else◌, some, [], ◌∷◌, get_or, true, arith,
}
use mathlib.Core.Option.{some-injective}
use mini_vhd.Endian.At.{word_at}
use mini_vhd.Memory.{Mem}
use mini_vhd.Stdio.{File}
use mini_vhd.Layout.{Footer, SparseHeader, HeaderFits, type_dynamic, max_path_bytes}
use mini_vhd.StructRw.{footer_to_buffer, header_to_buffer}
use mini_vhd.Checksum.{sparse_checksum_valid}
use mini_vhd.Cookie.Last.{EndsIn}
use mini_vhd.Image.{Meta, disk}
use mini_vhd.Io.Write.State.{Writable, Same}
use mini_vhd.Io.Write.Persist.{Persisted, Persists}
use mini_vhd.Io.Write.Again.{SameDisk}
use mini_vhd.Manage.Open.{open_image, mode_for}
use mini_vhd.Manage.Open.Accept.{Stands}
use mini_vhd.Manage.Open.Run.{Footed}
use mini_vhd.Manage.Open.SparseImage.{Headed, HasTables, open_image-Sparse}
use mini_vhd.Manage.Open.Ready.{Ready}
use mini_vhd.Manage.Open.Balance.{Holds}
use mini_vhd.World.{World, Host, FilePath}

-- The size of a sector bitmap, as calc_sparse_values finds it.
abbrev pub bitmap_sectors_for : ℕ → ℕ
bitmap_sectors_for block_sz =
    let sectors = block_sz / 512 / 8 / 512 in
    if ltb 0 (block_sz / 512 / 8 % 512) then sectors + 1 else sectors

-- The file of the handle has its footer, its header and its block table.
pub record Reopenable (m : Meta) : Type 0 where
  pub stands : Stands m.footer
  pub type : m.footer.disk_type ≡ type_dynamic
  pub fits : HeaderFits m.sparse
  pub valid : sparse_checksum_valid m.sparse ≡ true
  pub low : m.sparse.bat_offset < 2 ^ 63
  pub before : m.footer.data_offset + 1024 ≤ m.sparse.bat_offset
  pub header :
      (i : ℕ)
      → i < 1024
      → m.f.byte (m.footer.data_offset + i) ≡ get_or (header_to_buffer m.sparse) i 0
  pub persisted : Persisted m.f.byte (footer_to_buffer m.footer) m
  pub blocks : m.block_offset.size ≡ m.sparse.max_bat_ent
  pub spb : m.sect_per_block ≡ m.sparse.block_sz / 512
  pub count : m.bitmap.sector_count ≡ bitmap_sectors_for m.sparse.block_sz

-- A step that keeps the front of the file, the table and the footer keeps that.
pub Reopenable-Persists : (m m' : Meta) → Same m m' → Persists m m' → Reopenable m → Reopenable m'
Reopenable-Persists m m' same persists r =
    let kept : Persisted m.f.byte (footer_to_buffer m.footer) m' =
      persists m.f.byte (footer_to_buffer m.footer) r.stands.cookie r.persisted in
    let place : m'.footer.data_offset ≡ m.footer.data_offset =
      ap (λ (f : Footer). f.data_offset) same.footer in
    let table_at : m'.sparse.bat_offset ≡ m.sparse.bat_offset =
      ap (λ (h : SparseHeader). h.bat_offset) same.sparse in
    record {
      stands = subst Stands (sym same.footer) r.stands;
      type = ap (λ (f : Footer). f.disk_type) same.footer ∙ r.type;
      fits = subst HeaderFits (sym same.sparse) r.fits;
      valid = ap sparse_checksum_valid same.sparse ∙ r.valid;
      low = omega (arith, table_at, r.low);
      before = omega (arith, table_at, place, r.before);
      header = λ i h.
          kept.begins (m'.footer.data_offset + i) (omega (arith, table_at, place, r.before))
          ∙ ap (λ k. m.f.byte (k + i)) place
          ∙ r.header i h
          ∙ ap (λ (k : SparseHeader). get_or (header_to_buffer k) i 0) (sym same.sparse);
      persisted = record {
        begins = λ i h. refl;
        table = kept.table;
        last = λ i h.
            kept.last i h ∙ ap (λ (f : Footer). get_or (footer_to_buffer f) i 0) (sym same.footer);
      };
      blocks = same.blocks ∙ r.blocks ∙ ap (λ (h : SparseHeader). h.max_bat_ent) (sym same.sparse);
      spb = same.spb ∙ r.spb ∙ ap (λ (h : SparseHeader). h.block_sz / 512) (sym same.sparse);
      count =
          same.count
          ∙ r.count
          ∙ ap (λ (h : SparseHeader). bitmap_sectors_for h.block_sz) (sym same.sparse);
    }

-- A handle that was opened has it, if the header ends before the block table.
pub HasTables-Reopenable :
    (file : File) (f : Footer) (h : SparseHeader) (m : Meta)
    → HasTables file f h m
    → m.f.size ≡ file.size
    → m.f.byte ≡ file.byte
    → EndsIn file (footer_to_buffer f)
    → Stands f
    → f.disk_type ≡ type_dynamic
    → Headed file f.data_offset h
    → f.data_offset + 1024 ≤ h.bat_offset
    → Reopenable m
HasTables-Reopenable file f h m has size byte ends stands type headed before =
    let place : m.footer.data_offset ≡ f.data_offset =
      ap (λ (g : Footer). g.data_offset) has.footer in
    let table_at : m.sparse.bat_offset ≡ h.bat_offset =
      ap (λ (k : SparseHeader). k.bat_offset) has.sparse in
    let at = λ (i : ℕ). ap (λ (b : Mem). b i) byte in
    record {
      stands = subst Stands (sym has.footer) stands;
      type = ap (λ (g : Footer). g.disk_type) has.footer ∙ type;
      fits = subst HeaderFits (sym has.sparse) headed.fits;
      valid = ap sparse_checksum_valid has.sparse ∙ headed.valid;
      low = omega (arith, table_at, headed.table_low);
      before = omega (arith, table_at, place, before);
      header = λ i small.
          at (m.footer.data_offset + i)
          ∙ ap (λ k. file.byte (k + i)) place
          ∙ headed.header i small
          ∙ ap (λ (k : SparseHeader). get_or (header_to_buffer k) i 0) (sym has.sparse);
      persisted = record {
        begins = λ i small. refl;
        table = λ b small.
            ap (λ (mem : Mem). word_at mem (m.sparse.bat_offset + b * 4)) byte
            ∙ ap (λ k. word_at file.byte (k + b * 4)) table_at
            ∙ sym (has.entries b (omega (arith, has.blocks)));
        last = λ i small.
            at (m.f.size - 512 + i)
            ∙ ap (λ n. file.byte (n - 512 + i)) size
            ∙ ends.last i small
            ∙ ap (λ (g : Footer). get_or (footer_to_buffer g) i 0) (sym has.footer);
      };
      blocks = has.blocks ∙ ap (λ (k : SparseHeader). k.max_bat_ent) (sym has.sparse);
      spb = has.spb ∙ ap (λ (k : SparseHeader). k.block_sz / 512) (sym has.sparse);
      count = has.count ∙ ap (λ (k : SparseHeader). bitmap_sectors_for k.block_sz) (sym has.sparse);
    }

-- A path that has the bytes of the handle's file, and that the call may open.
pub record Left (host : Host) (w : World) (path : FilePath) (readonly : Bool) (m : Meta)
    : Type 0 where
  pub memory : w.allocs ≡ []
  pub short : length path < max_path_bytes
  pub permitted : host.permits path (mode_for readonly) ≡ true
  pub file : File
  pub found : w.files path ≡ some file
  pub size : file.size ≡ m.f.size
  pub byte : file.byte ≡ m.f.byte

module _ (host : Host) (w : World) (path : FilePath) (readonly : Bool) (m : Meta)
    (left : Left host w path readonly m) (r : Reopenable m)
    (writable : Writable (disk m) m.sparse.bat_offset) where
  footed : Footed host w path readonly m.footer
  footed = record {
    memory = left.memory;
    short = left.short;
    permitted = left.permitted;
    file = left.file;
    found = left.found;
    ends = record {
      large = omega (arith, left.size, writable.table);
      last = λ i h.
          ap (λ (b : Mem). b (left.file.size - 512 + i)) left.byte
          ∙ ap (λ n. m.f.byte (n - 512 + i)) left.size
          ∙ r.persisted.last i h;
    };
    stands = r.stands;
  }

  headed : Headed left.file m.footer.data_offset m.sparse
  headed = record {
    low = omega (arith, r.low, r.before);
    inside = omega (arith, left.size, writable.table, r.before);
    header = λ i h. ap (λ (b : Mem). b (m.footer.data_offset + i)) left.byte ∙ r.header i h;
    fits = r.fits;
    valid = r.valid;
    table_low = r.low;
    table_inside = omega (arith, left.size, writable.table, r.blocks);
  }

  opened-SameDisk :
      (m2 : Meta)
      → HasTables left.file m.footer m.sparse m2
      → Ready w path readonly m2
      → SameDisk (disk m) (disk m2)
  opened-SameDisk m2 has ready =
      let s = ready.streamed in
      let file : s.file ≡ left.file = some-injective _ _ (sym s.found ∙ left.found) in
      record {
        size = s.size ∙ ap (λ (f : File). f.size) file ∙ left.size;
        byte = s.byte ∙ ap (λ (f : File). f.byte) file ∙ left.byte;
        spb = has.spb ∙ sym r.spb;
        bitmap_sectors = has.count ∙ sym r.count;
        blocks = has.blocks ∙ sym r.blocks;
        entries = λ b h.
            has.entries b (omega (arith, r.blocks))
            ∙ ap (λ (byte : Mem). word_at byte (m.sparse.bat_offset + b * 4)) left.byte
            ∙ r.persisted.table b h;
      }

  -- A dynamic image, whose footer, header and block table are valid and in place in its file, the
  -- header before the table and the table before the blocks, whose blocks have sectors and a bitmap
  -- with a bit for each, do not overlap and lie before the last sector, is opened again from a file
  -- with the same bytes, if the path has fewer than 1040 bytes and the call has the memory and the
  -- permission: the new handle has the same footer and header, is on the same bytes, and has the same
  -- block shape and the same entry for every block.
  pub open_image_again :
      (fuel : ℕ)
      → (m2 : Meta) × (v : World) × (open_image (suc fuel) host path readonly w
          ≡ some (some (m2 ∷ []), v))
        × (m2.footer ≡ m.footer)
        × (m2.sparse ≡ m.sparse)
        × SameDisk (disk m) (disk m2)
        × Ready w path readonly m2
        × Holds w m2 v
  unfolding footed
  open_image_again fuel =
      let (m2, v, opens, has, ready, holds) =
        open_image-Sparse host w path readonly m.footer m.sparse footed headed r.type fuel in
      (m2, v, opens, has.footer, has.sparse, opened-SameDisk m2 has ready, ready, holds)
