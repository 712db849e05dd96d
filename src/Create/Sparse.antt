-- ===== src/Create/Sparse.antt =====
-- create.c: create_sparse_diff, mvhd_create_sparse and mvhd_create_diff. A stream that is left open is
-- never written back to its file.
pub mod Image
pub mod Header
pub mod Run
pub mod Opens
use mini_vhd.Prelude.{ℕ, zero, suc, ◌+◌, ◌*◌, ◌/◌, ◌%◌, u32, ◌==◌, Bool, true, false, not}
use mini_vhd.Prelude.{if◌then◌else◌, Option, none, some, List, [], ◌∷◌}
use mini_vhd.Memory.{of_list}
use mini_vhd.Stdio.{File, seek_set, seek_set64, write}
use mini_vhd.Layout.{
  Footer, Geom, ParLoc, SparseHeader, sector_size, footer_size, sparse_size, bat_ent_per_sect,
  type_dynamic, type_diff, block_large,
}
use mini_vhd.StructRw.{footer_to_buffer, header_to_buffer}
use mini_vhd.Geometry.{calc_size_bytes}
use mini_vhd.Image.{Meta}
use mini_vhd.Io.Write.{write_empty_sectors}
use mini_vhd.Util.Clock.{file_mod_timestamp}
use mini_vhd.Manage.{zero_footer, zero_header}
use mini_vhd.Manage.Open.{open_image, close}
use mini_vhd.Create.{Created, null, half_made, gen_footer, gen_sparse_header}
use mini_vhd.Create.Locators.{Located, refused, located, gen_par_loc}
use mini_vhd.Create.Fixed.{no_geometry, finish}
use mini_vhd.World.{
  FilePath, Host, Error, err_invalid_geom, err_mem, create_mode, M, ◌>>=◌, ◌>>◌, pure, lift,
  set_err, get_err, get_style, calloc, free, fopen,
}

-- par_vhdm: null, or the parent's path, its time and its handle with those of its own parents.
pub data Parent : Type 0 where
  no_parent : Parent
  parent : FilePath → ℕ → Meta → List Meta → Parent

abbrev close_parent : Parent → M (Unit {0})
close_parent no_parent = pure tt
close_parent (parent path ts m more) = close (m ∷ more)

-- The labels of create_sparse_diff.
unfoldable pub cleanup_par_vhdm : Parent → M Created
cleanup_par_vhdm p = do close_parent p; pure null

unfoldable pub cleanup_vhdm : Parent → M Created
cleanup_vhdm p = do free; cleanup_par_vhdm p

abbrev pub stop : Error → M Created → M Created
stop e label = do set_err (some e); label

abbrev opened_parent : FilePath → ℕ → Option (List Meta) → Option Parent
opened_parent path ts none = none
opened_parent path ts (some []) = none
opened_parent path ts (some (m ∷ more)) = some (parent path ts m more)

abbrev open_stamped : ℕ → Host → FilePath → ℕ → Option Error → M (Option Parent)
open_stamped fuel host path ts (some e) = pure none
open_stamped fuel host path ts none = do
  o ← open_image fuel host path true
  pure (opened_parent path ts o)

unfoldable pub open_par : ℕ → Host → Option FilePath → M (Option Parent)
open_par fuel host none = pure (some no_parent)
open_par fuel host (some path) = do
  ts ← file_mod_timestamp host path
  e ← get_err
  open_stamped fuel host path ts e

-- num_blks and num_bat_sect
unfoldable pub blocks_for : ℕ → ℕ → ℕ
blocks_for size_in_bytes block_size_in_sectors =
    let size_in_sectors = u32 (size_in_bytes / sector_size) in
    let num_blks = size_in_sectors / block_size_in_sectors in
    if not (size_in_sectors % block_size_in_sectors == 0) then u32 (num_blks + 1) else num_blks

unfoldable pub bat_sectors_for : ℕ → ℕ
bat_sectors_for num_blks =
    if not (num_blks % bat_ent_per_sect == 0)
    then num_blks / bat_ent_per_sect + 1
    else num_blks / bat_ent_per_sect

abbrev pub bat_offset : ℕ
bat_offset = 1536

-- for (k = 0; k < num_bat_sect; k++)
unfoldable pub write_bat_sectors : ℕ → File → File
write_bat_sectors zero f = f
write_bat_sectors (suc k) f = write_bat_sectors k (write f (λ i. 0xff) 0 sector_size)

-- The header, the block table and five empty sectors.
unfoldable pub write_tables : SparseHeader → ℕ → File → File
write_tables sparse num_bat_sect f =
    write_empty_sectors
      (write_bat_sectors num_bat_sect (write f (of_list (header_to_buffer sparse)) 0 sparse_size)) 5

-- A path at the place that its locator has.
abbrev write_path : ParLoc → List ℕ → File → File
write_path loc path f = write (seek_set64 f loc.plat_data_offset) (of_list path) 0 loc.plat_data_len

abbrev past_path : ParLoc → File → File
past_path loc f = seek_set64 f (loc.plat_data_offset + loc.plat_data_space)

unfoldable pub write_locators : List ParLoc → List ℕ → List ℕ → File → File
write_locators (w2ku ∷ w2ru ∷ more) w2ku_path w2ru_path f =
    let f = write_empty_sectors f (w2ku.plat_data_space / sector_size) in
    let f = write_empty_sectors f (w2ru.plat_data_space / sector_size) in
    let f = write_path w2ru w2ru_path (write_path w2ku w2ku_path f) in
    write_empty_sectors (past_path w2ru f) 5
write_locators few w2ku_path w2ru_path f = f

-- What par_vhdm decides.
abbrev type_for : Parent → ℕ
type_for no_parent = type_dynamic
type_for (parent path ts m more) = type_diff

abbrev geometry_for : Parent → Geom → Geom
geometry_for no_parent geom = geom
geometry_for (parent path ts m more) geom = m.footer.geom

abbrev size_for : Parent → ℕ → ℕ
size_for no_parent size_in_bytes = size_in_bytes
size_for (parent path ts m more) size_in_bytes = m.footer.curr_sz

abbrev unusable : Parent → Geom → Bool
unusable no_parent geom = no_geometry geom
unusable (parent path ts m more) geom = false

module _ (fuel : ℕ) (host : Host) (path : FilePath) where
  unfoldable pub finish_sparse : Footer → ℕ → ℕ → File → M Created
  finish_sparse footer num_blks block_size_in_sectors f = finish fuel host path footer (
      write_tables (gen_sparse_header zero_header num_blks bat_offset block_size_in_sectors)
        (bat_sectors_for num_blks) f)

  unfoldable pub finish_diff :
      Footer → ℕ → ℕ → ℕ → SparseHeader → List ℕ → List ℕ → File → M Created
  finish_diff footer par_timestamp num_blks block_size_in_sectors header w2ku_path w2ru_path f =
      let stamped = record header { par_timestamp = par_timestamp } in
      let sparse = gen_sparse_header stamped num_blks bat_offset block_size_in_sectors in
      let f = write_tables sparse (bat_sectors_for num_blks) f in
      do
        vhdm ←
            finish fuel host path footer (write_locators sparse.par_loc_entry w2ku_path w2ru_path f)
        free
        free
        pure vhdm

  -- gen_par_loc has run; the Failure leaves the new file open.
  unfoldable pub with_locators : Parent → Footer → ℕ → ℕ → ℕ → Located → File → M Created
  with_locators p footer par_timestamp num_blks block_size (refused e) f = do
    set_err (some e)
    vhdm ← cleanup_vhdm p
    free
    free
    pure vhdm
  with_locators p footer par_timestamp num_blks block_size (located header w2ku w2ru) f =
      finish_diff footer par_timestamp num_blks block_size header w2ku w2ru f

  abbrev locate : FilePath → Footer → ℕ → ℕ → Located
  locate par_path par_footer num_blks style =
      gen_par_loc host style (record zero_header { par_uuid = par_footer.uuid }) path par_path
        (bat_offset + bat_sectors_for num_blks * sector_size + 5 * sector_size)

  -- The second path buffer, then the first.
  abbrev with_w2ru : FilePath → ℕ → Meta → List Meta → Footer → ℕ → ℕ → File → Bool → M Created
  with_w2ru par_path ts m more footer num_blks block_size f got =
      if not got
      then set_err (some err_mem) >> free >> pure (half_made footer)
      else get_style >>= λ style.
          with_locators (parent par_path ts m more) footer ts num_blks block_size
            (locate par_path m.footer num_blks style) f

  abbrev with_w2ku : FilePath → ℕ → Meta → List Meta → Footer → ℕ → ℕ → File → Bool → M Created
  with_w2ku par_path ts m more footer num_blks block_size f got =
      if not got
      then set_err (some err_mem) >> pure (half_made footer)
      else calloc >>= with_w2ru par_path ts m more footer num_blks block_size f

  unfoldable pub fill_sparse : Parent → Footer → ℕ → ℕ → File → M Created
  fill_sparse no_parent footer num_blks block_size f = finish_sparse footer num_blks block_size f
  fill_sparse (parent par_path ts m more) footer num_blks block_size f =
      calloc >>= with_w2ku par_path ts m more footer num_blks block_size f

  unfoldable pub fill_opened : Parent → ℕ → Geom → ℕ → Option File → M Created
  fill_opened p size_in_bytes geom block_size none = cleanup_vhdm p
  fill_opened p size_in_bytes geom block_size (some f) = do
    let size_in_bytes = size_for p size_in_bytes
    footer ← lift (gen_footer host size_in_bytes (geometry_for p geom) (type_for p) footer_size)
    fill_sparse p footer (blocks_for size_in_bytes block_size) block_size
        (write (seek_set f 0) (of_list (footer_to_buffer footer)) 0 footer_size)

  abbrev with_vhdm : Parent → ℕ → Geom → ℕ → Bool → M Created
  with_vhdm p size_in_bytes geom block_size got =
      if not got
      then stop err_mem (cleanup_par_vhdm p)
      else if unusable p geom
      then stop err_invalid_geom (cleanup_vhdm p)
      else fopen host path create_mode >>= fill_opened p size_in_bytes geom block_size

  abbrev with_parent : ℕ → Geom → ℕ → Option Parent → M Created
  with_parent size_in_bytes geom block_size none = pure null
  with_parent size_in_bytes geom block_size (some p) =
      calloc >>= with_vhdm p size_in_bytes geom block_size

  unfoldable pub create_sparse_diff : Option FilePath → ℕ → Geom → ℕ → M Created
  create_sparse_diff par_path size_in_bytes geom block_size =
      open_par fuel host par_path >>= with_parent size_in_bytes geom block_size

  unfoldable pub create_sparse : Geom → M Created
  create_sparse geom = create_sparse_diff none (calc_size_bytes geom) geom block_large

  -- A null geometry is one of zeros.
  unfoldable pub create_diff : FilePath → M Created
  create_diff par_path = create_sparse_diff (some par_path) 0 zero_footer.geom block_large
