-- ===== src/Convert.antt =====
-- convert.c: the conversions between a raw image and a VHD. A C int that counts sectors of a raw image
-- stays below 2 ^ 31; one that a file gives may be negative, and then nothing is copied.
pub mod Measure
pub mod Empty
pub mod Copy
pub mod Sparse
pub mod Extract
pub mod Raw
pub mod RoundTrip
use mini_vhd.Prelude.{ℕ, zero, suc, ◌+◌, ◌-◌, ◌*◌, ◌/◌, ◌^◌, ltb, leb, ◌==◌, ◌&&◌, Bool, true, not}
use mini_vhd.Prelude.{if◌then◌else◌, Option, none, some, List, [], ◌∷◌}
use mini_vhd.Memory.{Mem}
use mini_vhd.Stdio.{File, seek_set, read_mem, after_read, write}
use mini_vhd.Layout.{Geom, sector_size}
use mini_vhd.Geometry.{calculate_geometry, calc_size_bytes, calc_size_sectors}
use mini_vhd.Image.{Meta}
use mini_vhd.Io.{Transfer}
use mini_vhd.Manage.Open.{open_image, close}
use mini_vhd.Manage.Sectors.{read_sectors, write_sectors}
use mini_vhd.Create.{Created, null, handle, half_made}
use mini_vhd.Create.Fixed.{create_fixed_raw}
use mini_vhd.Create.Sparse.{create_sparse}
use mini_vhd.World.{
  FilePath, Host, err_file, err_conv_size, read_mode, create_mode, M, ◌>>=◌, ◌>>◌, pure, lift, fail,
  fopen, fclose_read, fclose_written,
}

-- A raw image that is open, and its geometry: a size that no geometry has is an error, which leaves
-- the stream open.
unfoldable pub measure_raw : Option File → M (Option (File × Geom))
measure_raw none = fail err_file
measure_raw (some raw_img) =
    let geom = calculate_geometry raw_img.size in
    if not (calc_size_bytes geom == raw_img.size)
    then fail err_conv_size
    else pure (some (seek_set raw_img 0, geom))

unfoldable pub open_existing_raw_img : Host → FilePath → M (Option (File × Geom))
open_existing_raw_img host path = fopen host path read_mode >>= measure_raw

abbrev fixed_from : ℕ → Host → FilePath → Option (File × Geom) → M Created
fixed_from fuel host vhd_path none = pure null
fixed_from fuel host vhd_path (some (raw_img, geom)) =
    create_fixed_raw fuel host vhd_path (some raw_img) (calc_size_bytes geom) geom

unfoldable pub convert_to_vhd_fixed : ℕ → Host → FilePath → FilePath → M Created
convert_to_vhd_fixed fuel host raw_path vhd_path =
    open_existing_raw_img host raw_path >>= fixed_from fuel host vhd_path

-- memcmp(buff, empty_buff, n) == 0
unfoldable pub all_zero : ℕ → Mem → Bool
all_zero zero buff = true
all_zero (suc n) buff = (buff n == 0) && all_zero n buff

-- The sectors of the chunk at `i`, and the buffer: that of the last chunk is cleared.
abbrev pub chunk : ℕ → ℕ → ℕ
chunk i total_sectors = if leb total_sectors (i + 8) then total_sectors - i else 8

abbrev cleared : ℕ → ℕ → Mem → Mem
cleared i total_sectors buff = if leb total_sectors (i + 8) then (λ k. 0) else buff

abbrev vhdm_of : Option Transfer → Option Meta
vhdm_of none = none
vhdm_of (some t) = some t.vhdm

unfoldable pub put_chunk : Meta → ℕ → ℕ → Mem → Option Meta
put_chunk vhdm i copy_sect buff =
    if all_zero 4096 buff then some vhdm else vhdm_of (write_sectors vhdm i copy_sect buff)

-- for (i = 0; i < total_sectors; i += 8), by the rounds that are left.
unfoldable pub sparse_loop : ℕ → ℕ → ℕ → Meta → File → Mem → Option Meta
sparse_loop zero i total_sectors vhdm raw_img buff = some vhdm
sparse_loop (suc n) i total_sectors vhdm raw_img buff =
    let copy_sect = chunk i total_sectors in
    let size = copy_sect * sector_size in
    let filled = read_mem raw_img (cleared i total_sectors buff) 0 size in
    elim (put_chunk vhdm i copy_sect filled) [
      | none ↦ none
      | some vhdm ↦ sparse_loop n (i + 8) total_sectors vhdm (after_read raw_img size) filled
    ]

abbrev pub rounds_for : ℕ → ℕ
rounds_for total_sectors = (total_sectors + 7) / 8

unfoldable pub fill_created : File → ℕ → Created → M Created
fill_created raw_img total_sectors null = do fclose_read; pure null
fill_created raw_img total_sectors (half_made footer) = lift none
fill_created raw_img total_sectors (handle []) = lift none
fill_created raw_img total_sectors (handle (vhdm ∷ parents)) = do
  filled ← lift (sparse_loop (rounds_for total_sectors) 0 total_sectors vhdm raw_img (λ k. 0))
  fclose_read
  pure (handle (filled ∷ parents))

abbrev sparse_from : ℕ → Host → FilePath → Option (File × Geom) → M Created
sparse_from fuel host vhd_path none = pure null
sparse_from fuel host vhd_path (some (raw_img, geom)) =
    create_sparse fuel host vhd_path geom >>= fill_created raw_img (calc_size_sectors geom)

unfoldable pub convert_to_vhd_sparse : ℕ → Host → FilePath → FilePath → M Created
convert_to_vhd_sparse fuel host raw_path vhd_path =
    open_existing_raw_img host raw_path >>= sparse_from fuel host vhd_path

-- The loop of mvhd_convert_to_raw.
unfoldable pub raw_loop : ℕ → ℕ → ℕ → List Meta → Mem → File → Option (List Meta × File)
raw_loop zero i total_sectors vhdm buff raw_img = some (vhdm, raw_img)
raw_loop (suc n) i total_sectors vhdm buff raw_img =
    let copy_sect = chunk i total_sectors in
    elim (read_sectors vhdm i copy_sect buff) [
      | none ↦ none
      | some t ↦
          raw_loop n (i + 8) total_sectors t.chain t.mem
            (write raw_img t.mem 0 (copy_sect * sector_size))
    ]

abbrev pub as_int : ℕ → ℕ
as_int sectors = if ltb sectors (2 ^ 31) then sectors else 0

unfoldable pub copy_out : FilePath → File → Option (List Meta) → M (Option File)
copy_out raw_path raw_img none = do fclose_written raw_path raw_img; pure none
copy_out raw_path raw_img (some []) = lift none
copy_out raw_path raw_img (some (vhdm ∷ parents)) = do
  let total_sectors = as_int (calc_size_sectors vhdm.footer.geom)
  r ← lift (raw_loop (rounds_for total_sectors) 0 total_sectors (vhdm ∷ parents) (λ k. 0) raw_img)
  close r.0
  pure (some (seek_set r.1 0))

abbrev copy_to : ℕ → Host → FilePath → FilePath → Option File → M (Option File)
copy_to fuel host vhd_path raw_path none = pure none
copy_to fuel host vhd_path raw_path (some raw_img) =
    open_image fuel host vhd_path true >>= copy_out raw_path raw_img

-- The stream that is returned is open.
unfoldable pub convert_to_raw : ℕ → Host → FilePath → FilePath → M (Option File)
convert_to_raw fuel host vhd_path raw_path =
    fopen host raw_path create_mode >>= copy_to fuel host vhd_path raw_path
