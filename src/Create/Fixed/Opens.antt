-- ===== src/Create/Fixed/Opens.antt =====
-- create.c: a fixed image that mvhd_create_fixed_raw makes of zeros is open, and holds zeros.
use mini_vhd.Prelude.{
  ℕ, suc, ◌+◌, ◌-◌, ◌*◌, ◌/◌, ◌^◌, ◌≤◌, ◌<◌, ◌≡◌, refl, sym, ap, ◌∙◌, subst, true, false, not,
  length, if◌then◌else◌, u32, none, some, [], ◌∷◌, drop, inl, inr, arith,
}
use mini_vhd.Memory.{Mem, of_list}
use mini_vhd.Stdio.{File, seek_set, write}
use mini_vhd.Stdio.Writes.{write-kept}
use mini_vhd.Layout.{Footer, Geom, GeomFits, start_ts, type_fixed, max_path_bytes}
use mini_vhd.StructRw.{footer_to_buffer}
use mini_vhd.Image.{Meta, fixed_read, fixed_write}
use mini_vhd.Manage.Open.{open_image, mode_for}
use mini_vhd.Manage.Open.FixedImage.{open_image-Fixed}
use mini_vhd.Manage.Open.Run.{Footed}
use mini_vhd.Manage.Open.Balance.{allocated, count, Holds}
use mini_vhd.Manage.Open.Ready.{Ready}
use mini_vhd.Manage.Open.Stages.{Plain, Shaped}
use mathlib.Core.Option.{some-injective}
use mini_vhd.Create.{handle, from_open, return_null, gen_footer}
use mini_vhd.Create.Signed.{Signed, gen_footer-Signed}
use mini_vhd.Create.Fixed.{
  create_fixed_raw, with_vhdm, fill_opened, fill_fixed, put_footer, no_geometry, zero_sectors,
  finish,
}
use mini_vhd.World.{
  World, Host, FilePath, create_mode, put_file, empty_file, fopen, answer, calloc, continue, pure,
  give, err_invalid_geom, ◌>>=◌,
}
use mini_vhd.Create.Fixed.Image.{
  same_bytes_refl, Zeros, zero_sectors-Zeros, Signed-Stands, with_footer,
}

-- The image that is made, its handle and what the call holds.
pub record Made (host : Host) (size_in_bytes : ℕ) (geom : Geom) (w : World) (m : Meta) (v : World)
    : Type 0 where
  pub signed : Signed host size_in_bytes geom type_fixed m.footer
  pub size : m.f.size ≡ size_in_bytes / 512 * 512 + 512
  pub zeros : (i : ℕ) → i < size_in_bytes / 512 * 512 → m.f.byte i ≡ 0
  pub reads : m.read_sectors ≡ fixed_read
  pub writes : m.write_sectors ≡ fixed_write
  pub handles : v.handles ≡ w.handles + 1
  pub blocks : v.blocks ≡ w.blocks + 2
  pub err : v.err ≡ w.err

-- What the system and the caller give.
pub record CanCreate (host : Host) (path : FilePath) (size_in_bytes : ℕ) (geom : Geom) (w : World)
    : Type 0 where
  pub memory : w.allocs ≡ []
  pub short : length path < max_path_bytes
  pub creates : host.permits path create_mode ≡ true
  pub opens : host.permits path (mode_for false) ≡ true
  pub geom_fits : GeomFits geom
  pub some_geometry : no_geometry geom ≡ false
  pub size_fits : size_in_bytes < 2 ^ 41
  pub clock_low : start_ts ≤ host.now
  pub clock_high : host.now < start_ts + 2 ^ 32

Shaped-Plain : (m : Meta) → m.footer.disk_type ≡ type_fixed → Shaped m → Plain m
Shaped-Plain m type (inl (fixed, plain)) = plain
Shaped-Plain m type (inr (sparse, tables)) = absurd (ground arith)

module _ (fuel : ℕ) (host : Host) (path : FilePath) (size_in_bytes : ℕ) (geom : Geom) (w : World)
    (can : CanCreate host path size_in_bytes geom w) where
  abbrev sectors : File
  sectors = zero_sectors (size_in_bytes / 512) (seek_set empty_file 0)

  all_zero : Zeros (size_in_bytes / 512 * 512) sectors
  all_zero =
      subst (λ s. Zeros s sectors) (omega arith)
        (zero_sectors-Zeros (size_in_bytes / 512) 0 (seek_set empty_file 0)
          (record { at_end = refl; size_is = refl; zeros = λ i h. refl }))

  -- The world after the call's fclose and free.
  abbrev after : Footer → World
  after f =
      record (put_file path (write sectors (of_list (footer_to_buffer f)) 0 512)
        (put_file path empty_file (allocated w true))) {
          handles = w.handles + 1 - 1;
          blocks = w.blocks + 1 - 1;
        }

  runs :
      (f : Footer)
      → gen_footer host size_in_bytes geom type_fixed 0 ≡ some f
      → create_fixed_raw (suc fuel) host path none size_in_bytes geom w
        ≡ continue (λ vhdm. pure (from_open vhdm)) (open_image (suc fuel) host path false (after f))
  unfolding create_fixed_raw fill_fixed finish fopen
  runs f signs =
      let u = allocated w true in
      let opened_file = record (put_file path empty_file u) { handles = u.handles + 1 } in
      let end =
        continue (λ vhdm. pure (from_open vhdm))
          (open_image (suc fuel) host path false (after f)) in
      let sectors_of = λ (n : ℕ). zero_sectors n (seek_set empty_file 0) in
      let whole : u32 (size_in_bytes / 512) ≡ size_in_bytes / 512 = omega (arith, can.size_fits) in
      let last : finish (suc fuel) host path f sectors opened_file ≡ end = refl in
      let signed : put_footer (suc fuel) host path (gen_footer host size_in_bytes geom type_fixed 0)
            sectors opened_file
          ≡ end =
        subst (λ o. put_footer (suc fuel) host path o sectors opened_file ≡ end) (sym signs) last in
      let filled : fill_fixed (suc fuel) host path none size_in_bytes geom (seek_set empty_file 0)
            opened_file
          ≡ end =
        subst
          (λ n.
            put_footer (suc fuel) host path (gen_footer host size_in_bytes geom type_fixed 0)
              (sectors_of n) opened_file
            ≡ end)
          (sym whole) signed in
      let made : (fopen host path create_mode
              >>= fill_opened (suc fuel) host path none size_in_bytes geom)
            u
          ≡ end =
        subst
          (λ b.
            continue (fill_opened (suc fuel) host path none size_in_bytes geom)
              (give path create_mode (if not b then none else some empty_file) u)
            ≡ end)
          (sym can.creates) filled in
      let got : (calloc >>= with_vhdm (suc fuel) host path none size_in_bytes geom) w ≡ end =
        subst
          (λ b.
            continue (with_vhdm (suc fuel) host path none size_in_bytes geom)
              (some (b, allocated w b))
            ≡ end)
          (sym (ap answer can.memory)) made in
      subst
        (λ b.
          (if b
              then return_null err_invalid_geom
              else calloc >>= with_vhdm (suc fuel) host path none size_in_bytes geom)
            w
          ≡ end)
        (sym can.some_geometry) got

  abbrev written_file : Footer → File
  written_file f = write sectors (of_list (footer_to_buffer f)) 0 512

  written_found : (f : Footer) → (after f).files path ≡ some (written_file f)
  written_found f = rw (same_bytes_refl path) refl

  after-Footed :
      (f : Footer)
      → Signed host size_in_bytes geom type_fixed f
      → Footed host (after f) path false f
  after-Footed f s = record {
    memory = ap (drop 1) can.memory;
    short = can.short;
    permitted = can.opens;
    file = write sectors (of_list (footer_to_buffer f)) 0 512;
    found = written_found f;
    ends = with_footer sectors (footer_to_buffer f) (all_zero.at_end ∙ sym all_zero.size_is);
    stands = Signed-Stands host size_in_bytes geom type_fixed f s;
  }

  made :
      (f : Footer)
      → Signed host size_in_bytes geom type_fixed f
      → (m : Meta) (v : World) → m.footer ≡ f
      → Ready (after f) path false m
      → Holds (after f) m v
      → Made host size_in_bytes geom w m v
  made f signed m v same ready holds =
      let s = ready.streamed in
      let file : s.file ≡ written_file f = some-injective _ _ (sym s.found ∙ written_found f) in
      let type : m.footer.disk_type ≡ type_fixed =
        ap (λ (g : Footer). g.disk_type) same ∙ signed.disk_type in
      let plain : Plain m = Shaped-Plain m type ready.shaped in
      record {
        signed = subst (Signed host size_in_bytes geom type_fixed) (sym same) signed;
        size =
            s.size
            ∙ ap (λ (g : File). g.size) file
            ∙ ground (arith, all_zero.at_end, all_zero.size_is);
        zeros = λ i h.
            ap (λ (b : Mem). b i) (s.byte ∙ ap (λ (g : File). g.byte) file)
            ∙ write-kept sectors (of_list (footer_to_buffer f)) 0 512 i
                (omega (arith, all_zero.size_is)) (inl (omega (arith, all_zero.at_end)))
            ∙ all_zero.zeros i h;
        reads = ready.wired.reads_fixed type;
        writes = ready.wired.writes_fixed s.readonly_is type;
        handles = omega (arith, holds.handles);
        blocks = omega (
          arith,
          holds.blocks,
          ap count plain.table,
          ap count plain.bitmap,
          ap count ready.buffered,
        );
        err = holds.err;
      }

  -- With the memory that it asks for, a path of fewer than 1040 bytes that the system lets it create
  -- and open, a geometry without a zero, a size below 2 ^ 41 bytes and a clock from 2000 to 2136,
  -- mvhd_create_fixed_raw without a raw image returns an open image: its footer has the request's
  -- size, geometry and type, a valid checksum and the time of the clock, its file is the size's whole
  -- sectors of zeros and the footer, its functions are those of a fixed image, the error is as it
  -- was, and one stream and two blocks are all that the call holds.
  pub create_fixed_raw-Made :
      (m : Meta) × (v : World) × (create_fixed_raw (suc fuel) host path none size_in_bytes geom w
        ≡ some (handle (m ∷ []), v))
      × Made host size_in_bytes geom w m v
  create_fixed_raw-Made =
      let (f, signs, signed) =
        gen_footer-Signed host size_in_bytes geom type_fixed 0 can.geom_fits
          (omega (arith, can.size_fits)) (omega arith) (omega arith) can.clock_low can.clock_high in
      let (m, v, opens, same, ready, holds) =
        open_image-Fixed host (after f) path false f (after-Footed f signed) signed.disk_type
          fuel in
      (
        m,
        v,
        runs f signs ∙ ap (continue (λ vhdm. pure (from_open vhdm))) opens,
        made f signed m v same ready holds,
      )
