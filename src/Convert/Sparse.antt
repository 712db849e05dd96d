-- ===== src/Convert/Sparse.antt =====
-- convert.c: mvhd_convert_to_vhd_sparse, from a raw image in a file to a dynamic image with its bytes.
use mini_vhd.Prelude.{
  ℕ, suc, ◌+◌, ◌-◌, ◌*◌, ◌/◌, ◌^◌, ◌≤◌, ◌<◌, ◌≡◌, refl, sym, ap, ◌∙◌, subst, true, false, Option,
  some, [], ◌∷◌, length, u32, arith,
}
use mini_vhd.Stdio.{File}
use mini_vhd.Layout.{Footer, Geom, type_dynamic, start_ts, max_path_bytes}
use mini_vhd.Geometry.{calculate_geometry, calc_size_bytes, calc_size_sectors}
use mini_vhd.Geometry.Bounds.{calculate_geometry-Covers}
use mini_vhd.Image.{Meta, Owned, disk, sparse_read as by_sparse_read}
use mini_vhd.Io.{total_sectors}
use mini_vhd.Io.View.{Cached, sector_byte}
use mini_vhd.Io.Write.State.{Writable}
use mini_vhd.Manage.Sectors.Format.{Formattable, capacity-Same}
use mini_vhd.Manage.Open.{mode_for}
use mini_vhd.Manage.Open.Reopen.{Reopenable, Reopenable-Persists}
use mini_vhd.Create.{Created, handle}
use mini_vhd.Create.Fixed.Opens.{CanCreate}
use mini_vhd.Create.Sparse.{create_sparse}
use mini_vhd.Create.Sparse.Run.{CanShape}
use mini_vhd.Convert.Measure.{RawImage, Measured, RawImage-Measured, open_existing_raw_img_run}
use mini_vhd.Convert.Empty.{Fresh-Formattable}
use mini_vhd.Create.Sparse.Opens.{Fresh, create_sparse_diff-Fresh}
use mini_vhd.Convert.{
  convert_to_vhd_sparse, open_existing_raw_img, sparse_from, fill_created, sparse_loop, rounds_for,
}
use mini_vhd.Convert.Copy.{Copied, Going, sparse_loop-Copied}
use mini_vhd.World.{World, Host, FilePath, create_mode, read_mode, same_bytes, bind-run}

-- What the system and the caller give. A file that is open is a copy in this model, so the two paths
-- must name two files.
pub record CanConvert (host : Host) (raw_path vhd_path : FilePath) (w : World) (raw : File)
    : Type 0 where
  pub memory : w.allocs ≡ []
  pub apart : same_bytes raw_path vhd_path ≡ false
  pub short : length vhd_path < max_path_bytes
  pub reads : host.permits raw_path read_mode ≡ true
  pub creates : host.permits vhd_path create_mode ≡ true
  pub opens : host.permits vhd_path (mode_for false) ≡ true
  pub clock_low : start_ts ≤ host.now
  pub clock_high : host.now < start_ts + 2 ^ 32
  pub found : w.files raw_path ≡ some raw
  pub image : RawImage raw

-- The image that is made holds the raw image's bytes, and is all that the call holds.
pub record Converted (raw : File) (path : FilePath) (w : World) (m : Meta) (v : World)
    : Type 0 where
  pub holds :
      (s j : ℕ) → s < raw.size / 512 → j < 512 → sector_byte (disk m) s j ≡ raw.byte (s * 512 + j)
  pub sectors : total_sectors m * 512 ≡ raw.size
  pub dynamic : m.footer.disk_type ≡ type_dynamic
  pub reads : m.read_sectors ≡ by_sparse_read
  pub writable : Writable (disk m) m.sparse.bat_offset
  pub cached : Cached m
  pub covered : total_sectors m ≤ m.block_offset.size * m.sect_per_block
  pub geometry : calc_size_sectors m.footer.geom * 512 ≡ raw.size
  pub reopenable : Reopenable m
  pub filename : m.filename ≡ path
  pub readonly : m.readonly ≡ false
  pub owned : (m.owned.table ≡ true) × (m.owned.bitmap ≡ true) × (m.owned.zero_data ≡ true)
  pub handles : v.handles ≡ w.handles + 1
  pub blocks : v.blocks ≡ w.blocks + 4
  pub err : v.err ≡ w.err
  pub memory : v.allocs ≡ []

module _ (fuel : ℕ) (host : Host) (raw_path vhd_path : FilePath) (w : World) (raw : File)
    (can : CanConvert host raw_path vhd_path w raw) where
  abbrev geom : Geom
  geom = calculate_geometry raw.size

  abbrev total : ℕ
  total = calc_size_sectors geom

  -- The world, and the raw image, when the new image is made.
  abbrev reading : World
  reading = record w { handles = w.handles + 1 }

  abbrev raw_img : File
  raw_img = record raw { pos = 0 }

  measured : Measured raw
  measured = RawImage-Measured raw can.image

  can_create : CanCreate host vhd_path (total * 512) geom reading
  can_create = record {
    memory = can.memory;
    short = can.short;
    creates = can.creates;
    opens = can.opens;
    geom_fits = (calculate_geometry-Covers raw.size).fits;
    some_geometry = measured.some_geometry;
    size_fits = omega (arith, measured.high);
    clock_low = can.clock_low;
    clock_high = can.clock_high;
  }

  can_shape : CanShape (total * 512) 4096
  can_shape = record {
    limit = omega (arith, measured.high);
    some_sector = omega arith;
    whole_bytes = refl;
    block_fits = omega arith;
  }

  creates :
      (m : Meta) × (v : World) × (create_sparse (suc fuel) host vhd_path geom reading
        ≡ some (handle (m ∷ []), v))
      × Fresh host vhd_path (total * 512) geom 4096 reading m v
  unfolding create_sparse
  creates =
      let (m, v, runs, fresh) =
        create_sparse_diff-Fresh fuel host vhd_path (total * 512) geom 4096 reading can_create
          can_shape in
      let size : calc_size_bytes geom ≡ total * 512 = can.image.whole ∙ measured.sectors in
      (m, v, rw size runs, fresh)

  converted :
      (m m' : Meta) (v : World)
      → Fresh host vhd_path (total * 512) geom 4096 reading m v
      → Copied raw.byte total total m'
      → Going m m'
      → Converted raw vhd_path w m' (record v { handles = v.handles - 1 })
  converted m m' v fresh copied going =
      let footer = going.same.footer in
      let sectors : total_sectors m' ≡ total =
        ap (λ (f : Footer). u32 (f.curr_sz / 512)) footer ∙ fresh.sectors ∙ omega arith in
      record {
        holds = λ s j hs hj.
            let inside : s < total = omega (arith, measured.sectors) in
            copied s j inside hj ∙ ground (arith, inside);
        sectors = omega (arith, sectors, measured.sectors);
        dynamic = ap (λ (f : Footer). f.disk_type) footer ∙ fresh.signed.disk_type;
        reads = going.same.calls.2 ∙ fresh.reads;
        writable = going.writable;
        cached = going.cached;
        covered =
            subst (λ k. total_sectors m' ≤ k) (sym (capacity-Same m m' going.same))
              (omega (arith, sectors, fresh.sectors, fresh.covered));
        handles = omega (arith, fresh.handles);
        blocks = omega (arith, fresh.blocks);
        err = fresh.err;
        memory = fresh.memory;
        geometry =
            ap (λ (f : Footer). calc_size_sectors f.geom * 512) footer
            ∙ ap (λ g. calc_size_sectors g * 512) fresh.signed.geom_is
            ∙ sym measured.sectors;
        reopenable = Reopenable-Persists m m' going.same going.persists fresh.reopenable;
        filename = going.same.calls.5 ∙ fresh.filename;
        readonly = going.same.calls.4 ∙ fresh.readonly;
        owned = (
          ap (λ (o : Owned). o.table) going.same.calls.3 ∙ fresh.owned.0,
          ap (λ (o : Owned). o.bitmap) going.same.calls.3 ∙ fresh.owned.1,
          ap (λ (o : Owned). o.zero_data) going.same.calls.3 ∙ fresh.owned.2,
        );
      }

  fills :
      (m m' : Meta) (v : World)
      → sparse_loop (rounds_for total) 0 total m raw_img (λ k. 0) ≡ some m'
      → fill_created raw_img total (handle (m ∷ [])) v
        ≡ some (handle (m' ∷ []), record v { handles = v.handles - 1 })
  unfolding fill_created
  fills m m' v loops = rw loops refl

  -- A raw image that is not empty and whose size is that of its geometry becomes a dynamic image at
  -- another path of fewer than 1040 bytes, if the call has the memory, the permissions and a clock
  -- from 2000 to 2136: each sector of the image reads as that of the file, the image can be read and
  -- written, its block table covers the disk, the stream of the raw image is closed, and that of the
  -- new one and four blocks of memory are all that the call holds.
  pub convert_to_vhd_sparse-Converted :
      (m : Meta) × (v : World) × (convert_to_vhd_sparse (suc fuel) host raw_path vhd_path w
        ≡ some (handle (m ∷ []), v))
      × Converted raw vhd_path w m v
  unfolding convert_to_vhd_sparse
  convert_to_vhd_sparse-Converted =
      let (m, v, made, fresh) = creates in
      let (ready, covers, empty) =
        Fresh-Formattable raw.byte host vhd_path total geom reading m v fresh measured.high in
      let (m', loops, copied, going) =
        sparse_loop-Copied (rounds_for total) 0 0 total m raw_img (λ k. 0) measured.sectors refl
          (omega arith) (omega arith) (omega arith) (subst (Formattable m 0) (omega arith) ready)
          covers empty in
      let end : Option (Created × World) =
        some (handle (m' ∷ []), record v { handles = v.handles - 1 }) in
      (
        m',
        record v { handles = v.handles - 1 },
        bind-run (open_existing_raw_img host raw_path) (sparse_from (suc fuel) host vhd_path) w
              reading (some (raw_img, geom))
              (open_existing_raw_img_run host raw_path w raw can.reads can.found can.image.whole)
            ∙ bind-run (create_sparse (suc fuel) host vhd_path geom) (fill_created raw_img total)
                reading v (handle (m ∷ [])) made
            ∙ fills m m' v loops,
        converted m m' v fresh copied going,
      )
