-- ===== src/Convert/Raw.antt =====
-- convert.c: mvhd_convert_to_raw, from a dynamic image in a file to a raw image with its sectors.
use mini_vhd.Prelude.{
  ℕ, suc, ◌+◌, ◌*◌, ◌/◌, ◌^◌, ◌≤◌, ◌<◌, ◌≡◌, refl, sym, ap, ◌∙◌, subst, u32, true, false, some, [],
  ◌∷◌, length, arith,
}
use mini_vhd.Stdio.{File, seek_set}
use mini_vhd.Layout.{Footer, max_path_bytes, type_dynamic}
use mini_vhd.Geometry.{calc_size_sectors}
use mini_vhd.Image.{Meta, Owned, disk}
use mini_vhd.Io.{total_sectors}
use mini_vhd.Io.View.{sector_byte}
use mini_vhd.Io.SparseRead.Loop.{div_below}
use mini_vhd.Io.SparseRead.Enter.{Keeps}
use mini_vhd.Io.Write.State.{Writable, Writable-Sound}
use mini_vhd.Io.Write.Again.{SameDisk, Writable-SameDisk, sector_byte-SameDisk}
use mini_vhd.Manage.Open.{open_image, close, mode_for}
use mini_vhd.Manage.Open.Balance.{Holds, count}
use mini_vhd.Manage.Open.Close.{close-Holds}
use mini_vhd.Manage.Open.Ready.{Ready}
use mini_vhd.Manage.Open.Stages.{Shaped-Tables}
use mini_vhd.Manage.Open.Reopen.{Reopenable, Left, open_image_again}
use mini_vhd.Convert.{convert_to_raw, copy_to, copy_out, raw_loop, rounds_for, as_int}
use mini_vhd.Convert.Extract.{CanRead, raw_loop-Extracted}
use mini_vhd.World.{
  World, Host, FilePath, create_mode, put_file, empty_file, fopen, same_bytes, bind-run,
}

-- A dynamic image in a file, and what the system and the caller give. A file that is open is a copy in
-- this model, so the two paths must name two files.
pub record CanExtract (host : Host) (vhd_path raw_path : FilePath) (w : World) (m : Meta)
    : Type 0 where
  pub memory : w.allocs ≡ []
  pub apart : same_bytes vhd_path raw_path ≡ false
  pub short : length vhd_path < max_path_bytes
  pub opens : host.permits vhd_path (mode_for true) ≡ true
  pub creates : host.permits raw_path create_mode ≡ true
  pub file : File
  pub found : w.files vhd_path ≡ some file
  pub size : file.size ≡ m.f.size
  pub byte : file.byte ≡ m.f.byte
  pub reopenable : Reopenable m
  pub writable : Writable (disk m) m.sparse.bat_offset
  pub covered : total_sectors m ≤ m.block_offset.size * m.sect_per_block
  pub sectors : calc_size_sectors m.footer.geom ≤ total_sectors m
  pub small : calc_size_sectors m.footer.geom < 2 ^ 31

-- A raw image of the sectors that the geometry has, at its start, whose stream is all that is held.
pub record Extract (m : Meta) (w : World) (raw : File) (v : World) : Type 0 where
  pub size : raw.size ≡ calc_size_sectors m.footer.geom * 512
  pub pos : raw.pos ≡ 0
  pub holds :
      (s j : ℕ)
      → s < calc_size_sectors m.footer.geom
      → j < 512
      → raw.byte (s * 512 + j) ≡ sector_byte (disk m) s j
  pub handles : v.handles ≡ w.handles + 1
  pub blocks : v.blocks ≡ w.blocks
  pub err : v.err ≡ w.err

Holds-Keeps : (w : World) (m m' : Meta) (v : World) → Keeps m m' → Holds w m v → Holds w m' v
Holds-Keeps w m m' v keeps h = record {
  kept = h.kept;
  handles = h.handles;
  blocks =
      h.blocks
      ∙ ap (λ (o : Owned). w.blocks + 1 + count o.table + count o.bitmap + count o.zero_data)
          (sym keeps.same_calls.3);
  err = h.err;
}

module _ (fuel : ℕ) (host : Host) (vhd_path raw_path : FilePath) (w : World) (m : Meta)
    (can : CanExtract host vhd_path raw_path w m) where
  abbrev total : ℕ
  total = calc_size_sectors m.footer.geom

  -- The world when the new file is there.
  abbrev creating : World
  creating = record (put_file raw_path empty_file w) { handles = w.handles + 1 }

  created : fopen host raw_path create_mode w ≡ some (some empty_file, creating)
  unfolding fopen
  created = rw can.creates refl

  left : Left host creating vhd_path true m
  left = record {
    memory = can.memory;
    short = can.short;
    permitted = can.opens;
    file = can.file;
    found = rw can.apart can.found;
    size = can.size;
    byte = can.byte;
  }

  can_read :
      (m2 : Meta)
      → m2.footer ≡ m.footer
      → SameDisk (disk m) (disk m2)
      → Ready creating vhd_path true m2
      → CanRead m2 total
  can_read m2 footer same ready =
      let type : m2.footer.disk_type ≡ type_dynamic =
        ap (λ (f : Footer). f.disk_type) footer ∙ can.reopenable.type in
      let t = Shaped-Tables m2 type ready.shaped in
      let sectors : total_sectors m2 ≡ total_sectors m =
        ap (λ (f : Footer). u32 (f.curr_sz / 512)) footer in
      record {
        sound =
            Writable-Sound (disk m2) m.sparse.bat_offset
              (Writable-SameDisk (disk m) (disk m2) m.sparse.bat_offset same can.writable);
        cached = record {
          bitmap_size = t.bitmap_size;
          current = λ b i current small. ground (arith, t.no_block);
        };
        covered =
            subst (λ k. k ≤ m2.block_offset.size * m2.sect_per_block) (sym sectors)
              (rw (same.blocks, same.spb) can.covered);
        within = omega (arith, sectors, can.sectors);
        reads = ready.wired.reads_dynamic type;
      }

  -- The rest of the call, from the open image on.
  copies :
      (m2 m' : Meta) (v u : World) (raw : File)
      → m2.footer ≡ m.footer
      → raw_loop (rounds_for total) 0 total (m2 ∷ []) (λ k. 0) empty_file ≡ some (m' ∷ [], raw)
      → close (m' ∷ []) v ≡ some (tt, u)
      → copy_out raw_path empty_file (some (m2 ∷ [])) v ≡ some (some (seek_set raw 0), u)
  unfolding copy_out
  copies m2 m' v u raw footer loops closes =
      let positive : as_int (calc_size_sectors m2.footer.geom) ≡ total =
        ap (λ (f : Footer). as_int (calc_size_sectors f.geom)) footer ∙ ground (arith, can.small) in
      rw (positive, loops, closes) refl

  -- A dynamic image, whose footer, header and block table are valid and in place in its file, the
  -- header before the table and the table before the blocks, whose blocks have sectors and a bitmap
  -- with a bit for each, do not overlap and lie before the last sector, whose table covers the disk,
  -- and whose geometry has no more sectors than the disk and fewer than 2 ^ 31, becomes a raw image
  -- at another path, if its path has fewer than 1040 bytes and the call has the memory and the
  -- permissions: the file has each sector of the geometry as the image reads, is at its start, the
  -- image is closed, and the stream of the raw image is all that the call holds.
  pub convert_to_raw-Extract :
      (raw : File) × (u : World) × (convert_to_raw (suc fuel) host vhd_path raw_path w
        ≡ some (some raw, u))
      × Extract m w raw u
  unfolding convert_to_raw
  convert_to_raw-Extract =
      let (m2, v, opens, footer, header, same, ready, holds) =
        open_image_again host creating vhd_path true m left can.reopenable can.writable fuel in
      let (m', raw, loops, keeps, all) =
        raw_loop-Extracted (rounds_for total) 0 0 total (disk m2) m2 (λ k. 0) empty_file refl
          (can_read m2 footer same ready) (omega arith) (omega arith) (omega arith)
          (record { at_end = refl; size = refl; holds = λ s j hs hj. absurd (omega arith) }) in
      let (u, closes, handles, blocks, err) =
        close-Holds creating m' v (Holds-Keeps creating m2 m' v keeps holds) in
      (
        seek_set raw 0,
        u,
        bind-run (fopen host raw_path create_mode) (copy_to (suc fuel) host vhd_path raw_path) w
              creating (some empty_file) created
            ∙ bind-run (open_image (suc fuel) host vhd_path true) (copy_out raw_path empty_file)
                creating v (some (m2 ∷ [])) opens
            ∙ copies m2 m' v u raw footer loops closes,
        record {
          size = all.size;
          pos = refl;
          holds = λ s j hs hj.
              all.holds s j hs hj
              ∙ sector_byte-SameDisk (disk m) (disk m2) s j same (
                  div_below s m.sect_per_block m.block_offset.size can.writable.spb_pos
                    (omega (arith, can.sectors, can.covered)));
          handles = omega (arith, handles);
          blocks = blocks;
          err = err;
        },
      )
