-- ===== src/Create/Sparse/Run.antt =====
-- create.c: the run of create_sparse_diff without a parent, up to the call of mvhd_open.
use mini_vhd.Prelude.{
  ℕ, suc, ◌+◌, ◌-◌, ◌*◌, ◌%◌, ◌^◌, ◌≤◌, ◌<◌, ◌≡◌, refl, sym, ap, ◌∙◌, subst, true, false, not,
  Option, if◌then◌else◌, none, some, [], drop, inl, arith,
}
use mini_vhd.Memory.{of_list}
use mini_vhd.Stdio.{File, seek_set, write}
use mini_vhd.Stdio.Writes.{write-kept}
use mini_vhd.Layout.{Footer, SparseHeader, Geom, type_dynamic, max_size_in_bytes}
use mini_vhd.StructRw.{footer_to_buffer}
use mini_vhd.Manage.{zero_header}
use mini_vhd.Manage.Open.{open_image}
use mini_vhd.Manage.Open.Run.{Footed}
use mini_vhd.Manage.Open.SparseImage.{Headed}
use mini_vhd.Manage.Open.Balance.{allocated}
use mini_vhd.Create.{from_open, gen_footer, gen_sparse_header}
use mini_vhd.Create.Signed.{Signed, gen_footer-Signed, gen_footer-data_offset}
use mini_vhd.Create.Fixed.{finish}
use mini_vhd.Create.Fixed.Image.{same_bytes_refl, Signed-Stands, with_footer}
use mini_vhd.Create.Fixed.Opens.{CanCreate}
use mini_vhd.Create.Sparse.{
  create_sparse_diff, open_par, with_vhdm, fill_opened, fill_sparse, finish_sparse, no_parent, stop,
  cleanup_vhdm, blocks_for, bat_sectors_for, write_tables,
}
use mini_vhd.Create.Sparse.Image.{
  Tabled, write_tables-Tabled, blocks_for-covers, bat_sectors_for-room,
}
use mini_vhd.Create.Sparse.Header.{Shape, gen_sparse_header-Shape}
use mini_vhd.World.{
  World, Host, FilePath, M, create_mode, put_file, empty_file, fopen, answer, continue, pure, lift,
  give, err_invalid_geom, ◌>>=◌,
}

-- A disk that the 32 bits of a block table cover, in blocks whose bitmaps have no odd bits.
pub record CanShape (size_in_bytes block_size : ℕ) : Type 0 where
  pub limit : size_in_bytes ≤ max_size_in_bytes
  pub some_sector : 0 < block_size
  pub whole_bytes : block_size % 8 ≡ 0
  pub block_fits : block_size < 2 ^ 23

-- The file of an image without blocks: its header, and a block table of ones.
pub record EmptyImage (size_in_bytes block_size : ℕ) (f : Footer) (h : SparseHeader) (file : File)
    : Type 0 where
  pub shape : Shape (blocks_for size_in_bytes block_size) 1536 block_size h
  pub data_at : f.data_offset ≡ 512
  pub headed : Headed file f.data_offset h
  pub size : file.size ≡ 4608 + bat_sectors_for (blocks_for size_in_bytes block_size) * 512
  pub ones :
      (i : ℕ)
      → 1536 ≤ i
      → i < 1536 + bat_sectors_for (blocks_for size_in_bytes block_size) * 512
      → file.byte i ≡ 0xff

-- Nothing is held, and no error is set.
pub record Idle (w u : World) : Type 0 where
  pub handles : u.handles ≡ w.handles
  pub blocks : u.blocks ≡ w.blocks
  pub err : u.err ≡ w.err
  pub memory : u.allocs ≡ []

module _ (fuel : ℕ) (host : Host) (path : FilePath) (size_in_bytes : ℕ) (geom : Geom)
    (block_size : ℕ) (w : World) where
  abbrev num_blks : ℕ
  num_blks = blocks_for size_in_bytes block_size

  abbrev header : SparseHeader
  header = gen_sparse_header zero_header num_blks 1536 block_size

  abbrev tables : Footer → File
  tables f =
      write_tables header (bat_sectors_for num_blks)
        (write (seek_set empty_file 0) (of_list (footer_to_buffer f)) 0 512)

  -- The world after the call's fclose and free.
  abbrev after : Footer → World
  after f =
      record (put_file path (write (tables f) (of_list (footer_to_buffer f)) 0 512)
        (put_file path empty_file (allocated w true))) {
          handles = w.handles + 1 - 1;
          blocks = w.blocks + 1 - 1;
        }

  runs :
      (f : Footer)
      → CanCreate host path size_in_bytes geom w
      → gen_footer host size_in_bytes geom type_dynamic 512 ≡ some f
      → create_sparse_diff (suc fuel) host path none size_in_bytes geom block_size w
        ≡ continue (λ vhdm. pure (from_open vhdm)) (open_image (suc fuel) host path false (after f))
  unfolding create_sparse_diff open_par fill_opened fill_sparse finish_sparse finish fopen
  runs f can signs =
      let u = allocated w true in
      let opened_file = record (put_file path empty_file u) { handles = u.handles + 1 } in
      let end =
        continue (λ vhdm. pure (from_open vhdm))
          (open_image (suc fuel) host path false (after f)) in
      let fill : Footer → M _ = λ footer.
        fill_sparse (suc fuel) host path no_parent footer num_blks block_size
          (write (seek_set empty_file 0) (of_list (footer_to_buffer footer)) 0 512) in
      let last : fill f opened_file ≡ end = refl in
      let signed : (lift (gen_footer host size_in_bytes geom type_dynamic 512) >>= fill) opened_file
          ≡ end =
        subst (λ (o : Option Footer). (lift o >>= fill) opened_file ≡ end) (sym signs) last in
      let with_file = fill_opened (suc fuel) host path no_parent size_in_bytes geom block_size in
      let made : (fopen host path create_mode >>= with_file) u ≡ end =
        subst
          (λ b.
            continue with_file (give path create_mode (if not b then none else some empty_file) u)
            ≡ end)
          (sym can.creates) signed in
      let usable : with_vhdm (suc fuel) host path no_parent size_in_bytes geom block_size true u
          ≡ end =
        subst
          (λ b.
            (if b
                then stop err_invalid_geom (cleanup_vhdm no_parent)
                else fopen host path create_mode >>= with_file)
              u
            ≡ end)
          (sym can.some_geometry) made in
      subst
        (λ b.
          continue (with_vhdm (suc fuel) host path no_parent size_in_bytes geom block_size)
            (some (b, allocated w b))
          ≡ end)
        (sym (ap answer can.memory)) usable

module _ (fuel : ℕ) (host : Host) (path : FilePath) (size_in_bytes : ℕ) (geom : Geom)
    (block_size : ℕ) (w : World) (can : CanCreate host path size_in_bytes geom w)
    (shape : CanShape size_in_bytes block_size) (f : Footer)
    (signs : gen_footer host size_in_bytes geom type_dynamic 512 ≡ some f)
    (signed : Signed host size_in_bytes geom type_dynamic f) where
  abbrev n : ℕ
  n = blocks_for size_in_bytes block_size

  abbrev h : SparseHeader
  h = header fuel host path size_in_bytes geom block_size w

  abbrev middle : File
  middle = tables fuel host path size_in_bytes geom block_size w f

  abbrev file : File
  file = write middle (of_list (footer_to_buffer f)) 0 512

  tabled : Tabled h (bat_sectors_for n) middle
  tabled = write_tables-Tabled h (bat_sectors_for n) (of_list (footer_to_buffer f))

  h-Shape : Shape n 1536 block_size h
  h-Shape =
      gen_sparse_header-Shape n 1536 block_size
        (blocks_for-covers size_in_bytes block_size shape.limit shape.some_sector).1 (omega arith)
        shape.block_fits

  footed : Footed host (after fuel host path size_in_bytes geom block_size w f) path false f
  footed = record {
    memory = ap (drop 1) can.memory;
    short = can.short;
    permitted = can.opens;
    file = file;
    found = rw (same_bytes_refl path) refl;
    ends = with_footer middle (footer_to_buffer f) tabled.at_end;
    stands = Signed-Stands host size_in_bytes geom type_dynamic f signed;
  }

  file_size : file.size ≡ 4608 + bat_sectors_for n * 512
  file_size = ground (arith, tabled.at_end, tabled.size)

  kept : (i : ℕ) → i < middle.size → file.byte i ≡ middle.byte i
  kept i small =
      write-kept middle (of_list (footer_to_buffer f)) 0 512 i small
        (inl (omega (arith, tabled.at_end)))

  data_at : f.data_offset ≡ 512
  data_at = gen_footer-data_offset host size_in_bytes geom type_dynamic 512 f signs refl

  headed : Headed file f.data_offset h
  headed = record {
    low = omega (arith, data_at);
    inside = omega (arith, data_at, file_size);
    header = λ i small.
        ap (λ k. file.byte (k + i)) data_at
        ∙ kept (512 + i) (omega (arith, tabled.size))
        ∙ tabled.header i small;
    fits = h-Shape.fits;
    valid = h-Shape.valid;
    table_low = omega (arith, h-Shape.table_at);
    table_inside =
        omega (arith, h-Shape.table_at, h-Shape.blocks, file_size, bat_sectors_for-room n);
  }

  wrote :
      (u : World) × (h : SparseHeader) × (footed : Footed host u path false f) × (create_sparse_diff
          (suc fuel)
          host
          path
          none
          size_in_bytes
          geom
          block_size
          w
        ≡ continue (λ vhdm. pure (from_open vhdm)) (open_image (suc fuel) host path false u))
      × EmptyImage size_in_bytes block_size f h footed.file
      × Idle w u
  unfolding footed
  wrote = (
    after fuel host path size_in_bytes geom block_size w f,
    h,
    footed,
    runs fuel host path size_in_bytes geom block_size w f can signs,
    record {
      shape = h-Shape;
      data_at = data_at;
      headed = headed;
      size = file_size;
      ones = λ i low high. kept i (omega (arith, tabled.size)) ∙ tabled.table i low high;
    },
    record {
      handles = omega arith;
      blocks = omega arith;
      err = refl;
      memory = ap (drop 1) can.memory;
    },
  )

-- The call writes an image without blocks, gives back what it took, and opens the image.
pub create_sparse_diff_run :
    (fuel : ℕ) (host : Host) (path : FilePath) (size_in_bytes : ℕ) (geom : Geom) (block_size : ℕ)
    (w : World)
    → CanCreate host path size_in_bytes geom w
    → CanShape size_in_bytes block_size
    → (f : Footer) × Signed host size_in_bytes geom type_dynamic f
      × (u : World) × (h : SparseHeader) × (footed : Footed host u path false f)
      × (create_sparse_diff (suc fuel) host path none size_in_bytes geom block_size w
          ≡ continue (λ vhdm. pure (from_open vhdm)) (open_image (suc fuel) host path false u))
      × EmptyImage size_in_bytes block_size f h footed.file
      × Idle w u
create_sparse_diff_run fuel host path size_in_bytes geom block_size w can shape =
    let (f, signs, signed) =
      gen_footer-Signed host size_in_bytes geom type_dynamic 512 can.geom_fits
        (omega (arith, can.size_fits)) (omega arith) (omega arith) can.clock_low can.clock_high in
    let (u, h, footed, runs, image, idle) =
      wrote fuel host path size_in_bytes geom block_size w can shape f signs signed in
    (f, signed, u, h, footed, runs, image, idle)
