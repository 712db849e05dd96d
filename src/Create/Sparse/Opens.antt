-- ===== src/Create/Sparse/Opens.antt =====
-- create.c: a dynamic image that create_sparse_diff makes is open, and holds no block.
use mini_vhd.Prelude.{
  ℕ, suc, ◌+◌, ◌*◌, ◌/◌, ◌≤◌, ◌<◌, ◌≡◌, sym, ap, ◌∙◌, subst, true, false, none, some, [], ◌∷◌,
  arith,
}
use mathlib.Core.Option.{some-injective}
use mini_vhd.Stdio.{File}
use mini_vhd.Layout.{Footer, SparseHeader, Geom, type_dynamic, sparse_blk}
use mini_vhd.Image.{
  Meta, disk, sparse_read as by_sparse_read, sparse_diff_write as by_sparse_diff_write,
}
use mini_vhd.Io.{total_sectors}
use mini_vhd.Io.View.{Cached}
use mini_vhd.Io.Write.State.{Writable}
use mini_vhd.Manage.Open.Run.{Footed}
use mini_vhd.Manage.Open.SparseImage.{HasTables, open_image-Sparse}
use mini_vhd.Manage.Open.Reopen.{Reopenable, HasTables-Reopenable}
use mini_vhd.Manage.Open.Balance.{count, Holds}
use mini_vhd.Manage.Open.Ready.{Ready}
use mini_vhd.Manage.Open.Stages.{Shaped-Tables}
use mini_vhd.Create.{handle, from_open}
use mini_vhd.Create.Signed.{Signed}
use mini_vhd.Create.Fixed.Opens.{CanCreate}
use mini_vhd.Create.Sparse.{create_sparse_diff, blocks_for, bat_sectors_for}
use mini_vhd.Create.Sparse.Image.{word_at-ones, blocks_for-covers, bat_sectors_for-room}
use mini_vhd.Create.Sparse.Run.{CanShape, EmptyImage, Idle, create_sparse_diff_run}
use mini_vhd.World.{World, Host, FilePath, continue, pure}

-- The dynamic image that is made, its handle and what the call holds.
pub record Fresh (host : Host) (path : FilePath) (size_in_bytes : ℕ) (geom : Geom) (block_size : ℕ)
    (w : World) (m : Meta) (v : World) : Type 0 where
  pub signed : Signed host size_in_bytes geom type_dynamic m.footer
  pub writable : Writable (disk m) m.sparse.bat_offset
  pub cached : Cached m
  pub spb : m.sect_per_block ≡ block_size
  pub block_sz : m.sparse.block_sz / 512 ≡ m.sect_per_block
  pub bitmap_sectors : m.bitmap.sector_count ≡ (block_size + 4095) / 4096
  pub sectors : total_sectors m ≡ size_in_bytes / 512
  pub blocks_are : m.block_offset.size ≡ blocks_for size_in_bytes block_size
  pub covered : total_sectors m ≤ m.block_offset.size * m.sect_per_block
  pub empty : (b : ℕ) → b < m.block_offset.size → m.block_offset.at b ≡ sparse_blk
  pub size : m.f.size ≡ 4608 + bat_sectors_for (blocks_for size_in_bytes block_size) * 512
  pub reads : m.read_sectors ≡ by_sparse_read
  pub writes : m.write_sectors ≡ by_sparse_diff_write
  pub buffer : m.format_sector_count ≡ 64
  pub reopenable : Reopenable m
  pub filename : m.filename ≡ path
  pub readonly : m.readonly ≡ false
  pub owned : (m.owned.table ≡ true) × (m.owned.bitmap ≡ true) × (m.owned.zero_data ≡ true)
  pub handles : v.handles ≡ w.handles + 1
  pub blocks : v.blocks ≡ w.blocks + 4
  pub err : v.err ≡ w.err
  pub memory : v.allocs ≡ []

module _ (host : Host) (path : FilePath) (size_in_bytes : ℕ) (geom : Geom) (block_size : ℕ)
    (w u : World) (f : Footer) (h : SparseHeader) (shape : CanShape size_in_bytes block_size)
    (signed : Signed host size_in_bytes geom type_dynamic f) (footed : Footed host u path false f)
    (image : EmptyImage size_in_bytes block_size f h footed.file) (idle : Idle w u) where
  abbrev num_bat_sect : ℕ
  num_bat_sect = bat_sectors_for (blocks_for size_in_bytes block_size)

  fresh :
      (m : Meta) (v : World)
      → HasTables footed.file f h m
      → Ready u path false m
      → Holds u m v
      → Fresh host path size_in_bytes geom block_size w m v
  fresh m v has ready holds =
      let s = ready.streamed in
      let found : s.file ≡ footed.file = some-injective _ _ (sym s.found ∙ footed.found) in
      let type : m.footer.disk_type ≡ type_dynamic =
        ap (λ (g : Footer). g.disk_type) has.footer ∙ signed.disk_type in
      let t = Shaped-Tables m type ready.shaped in
      let spb : m.sect_per_block ≡ block_size = omega (arith, has.spb, image.shape.block_sz) in
      let blocks : m.block_offset.size ≡ blocks_for size_in_bytes block_size =
        has.blocks ∙ image.shape.blocks in
      let place : m.sparse.bat_offset ≡ 1536 =
        ap (λ (k : SparseHeader). k.bat_offset) has.sparse ∙ image.shape.table_at in
      let size : m.f.size ≡ 4608 + num_bat_sect * 512 =
        s.size ∙ ap (λ (g : File). g.size) found ∙ image.size in
      let count_is : m.bitmap.sector_count ≡ (block_size + 4095) / 4096 =
        ground (arith, has.count, image.shape.block_sz, shape.whole_bytes) in
      let empty : (b : ℕ) → b < m.block_offset.size → m.block_offset.at b ≡ sparse_blk = λ b small.
        has.entries b (omega (arith, blocks, image.shape.blocks))
        ∙ word_at-ones footed.file.byte (h.bat_offset + b * 4) λ k four.
          image.ones (h.bat_offset + b * 4 + k) (omega (arith, image.shape.table_at)) (
            omega (
              arith,
              image.shape.table_at,
              blocks,
              bat_sectors_for-room (blocks_for size_in_bytes block_size),
            )) in
      let curr_sz : m.footer.curr_sz ≡ size_in_bytes =
        ap (λ (g : Footer). g.curr_sz) has.footer ∙ signed.curr_sz in
      let sectors : total_sectors m ≡ size_in_bytes / 512 = omega (arith, curr_sz, shape.limit) in
      record {
        signed = subst (Signed host size_in_bytes geom type_dynamic) (sym has.footer) signed;
        writable = record {
          spb_pos = omega (arith, spb, shape.some_sector);
          capacity = omega (arith, count_is, spb);
          table = omega (
            arith,
            place,
            blocks,
            size,
            bat_sectors_for-room (blocks_for size_in_bytes block_size),
          );
          behind = λ b small stored. absurd (stored (empty b small));
          room = λ b small stored. absurd (stored (empty b small));
          apart = λ a b ha hb other stored more. absurd (stored (empty a ha));
        };
        cached = record {
          bitmap_size = t.bitmap_size;
          current = λ b i same small. ground (arith, t.no_block);
        };
        spb = spb;
        block_sz = sym t.sect_per_block;
        bitmap_sectors = count_is;
        sectors = sectors;
        blocks_are = blocks;
        covered =
            subst (λ k. k ≤ m.block_offset.size * m.sect_per_block) (sym sectors)
              (rw (blocks, spb)
                (blocks_for-covers size_in_bytes block_size shape.limit shape.some_sector).0);
        empty = empty;
        size = size;
        reads = ready.wired.reads_dynamic type;
        writes = ready.wired.writes_dynamic s.readonly_is type;
        buffer = ready.buffer_sectors;
        filename = s.filename;
        readonly = s.readonly_is;
        owned = (t.table, t.bitmap, ready.buffered);
        reopenable =
            HasTables-Reopenable footed.file f h m has (s.size ∙ ap (λ (g : File). g.size) found)
              (s.byte ∙ ap (λ (g : File). g.byte) found) footed.ends footed.stands signed.disk_type
              image.headed (omega (arith, image.data_at, image.shape.table_at));
        handles = omega (arith, holds.handles, idle.handles);
        blocks =
            omega
              (arith, holds.blocks, ap count t.table, ap count t.bitmap, ap count ready.buffered);
        err = holds.err ∙ idle.err;
        memory = holds.kept.allocs idle.memory;
      }

-- With the memory, the permissions, a path of fewer than 1040 bytes, a clock from 2000 to 2136, a
-- geometry without a zero, a size that a VHD may have and a block of a positive number of sectors
-- below 2 ^ 23 and a multiple of 8, create_sparse_diff without a parent makes a dynamic image and
-- opens it: its footer is that of the request, its block table covers the disk and has no block, it
-- can be read and written, its file is as large as its tables, and the stream and four blocks of
-- memory are all that the call holds.
pub create_sparse_diff-Fresh :
    (fuel : ℕ) (host : Host) (path : FilePath) (size_in_bytes : ℕ) (geom : Geom) (block_size : ℕ)
    (w : World)
    → CanCreate host path size_in_bytes geom w
    → CanShape size_in_bytes block_size
    → (m : Meta) × (v : World) × (create_sparse_diff
          (suc fuel)
          host
          path
          none
          size_in_bytes
          geom
          block_size
          w
        ≡ some (handle (m ∷ []), v))
      × Fresh host path size_in_bytes geom block_size w m v
create_sparse_diff-Fresh fuel host path size_in_bytes geom block_size w can shape =
    let (f, signed, u, h, footed, runs, image, idle) =
      create_sparse_diff_run fuel host path size_in_bytes geom block_size w can shape in
    let (m, v, opens, has, ready, holds) =
      open_image-Sparse host u path false f h footed image.headed signed.disk_type fuel in
    (
      m,
      v,
      runs ∙ ap (continue (λ vhdm. pure (from_open vhdm))) opens,
      fresh host path size_in_bytes geom block_size w u f h shape signed footed image idle m v has
          ready holds,
    )
