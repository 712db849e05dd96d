-- ===== src/Io/Fixed/Moves.antt =====
-- What a read and a write of a fixed image move.
use mini_vhd.Prelude.{ℕ, ◌+◌, ◌-◌, ◌*◌, ◌^◌, ◌≤◌, ◌<◌, ◌≡◌, refl, arith, min}
use mini_vhd.Prelude.{ltb, if◌then◌else◌, some}
use mini_vhd.Memory.{Mem, within}
use mini_vhd.Stdio.{seek_set, after_read, read_mem, write}
use mini_vhd.Layout.{sector_size}
use mini_vhd.Image.{Meta}
use mini_vhd.Io.{check_sectors, total_sectors, Transfer}
use mini_vhd.Io.SparseRead.Enter.{Keeps}
use mini_vhd.Io.Sectors.{check_sectors_cut}
use mini_vhd.Io.Fixed.{fixed_read, fixed_write, transfer_bytes}

-- A write leaves the footer in memory, the size of the file and the handle's mode.
pub record SameImage (m m' : Meta) : Type 0 where
  pub footer : m'.footer ≡ m.footer
  pub size : m'.f.size ≡ m.f.size
  pub readonly : m'.readonly ≡ m.readonly

module _ (m : Meta) (offset num_sectors : ℕ) (whole : total_sectors m * sector_size ≤ m.f.size)
    (start : offset ≤ total_sectors m) (small : num_sectors * sector_size < 2 ^ 31) where
  abbrev count : ℕ
  count = min num_sectors (total_sectors m - offset)

  abbrev rest : ℕ
  rest = num_sectors - (total_sectors m - offset)

  cut :
      check_sectors offset num_sectors (total_sectors m)
      ≡ record { transfer = count; truncated = rest }
  cut = check_sectors_cut offset num_sectors (total_sectors m) start (omega arith) (omega arith)

  bytes : transfer_bytes count ≡ some (count * sector_size)
  unfolding transfer_bytes
  bytes = ground arith

  -- A request of less than 2 GiB that starts on the disk, of an image whose file holds the whole disk,
  -- reads the disk's bytes up to its end, keeps the rest of the buffer and the file, and reports the
  -- sectors cut off.
  pub fixed_read_lem :
      (out_buff : Mem)
      → (t : Transfer) × (fixed_read m offset num_sectors out_buff ≡ some t)
        × (t.truncated ≡ rest)
        × Keeps m t.vhdm
        × ((i : ℕ)
            → t.mem i ≡ (
                if ltb i (count * sector_size)
                then m.f.byte (offset * sector_size + i)
                else out_buff i))
  unfolding fixed_read
  fixed_read_lem out_buff =
      let f = seek_set m.f (offset * sector_size) in
      (
        record {
          vhdm = record m { f = after_read f (count * sector_size) };
          mem = read_mem f out_buff 0 (count * sector_size);
          truncated = rest;
        },
        rw (cut, bytes) refl,
        refl,
        record {
          same_disk = refl;
          same_footer = refl;
          same_sparse = refl;
          same_calls = (refl, refl, refl, refl, refl, refl);
        },
        λ i. ground arith,
      )

  -- A request of less than 2 GiB that starts on the disk, of an image whose file holds the whole disk,
  -- writes the buffer's bytes to the disk up to its end and keeps every other byte of the file, so
  -- that the footer behind the disk stays; the sectors cut off are reported.
  pub fixed_write_lem :
      (in_buff : Mem)
      → (t : Transfer) × (fixed_write m offset num_sectors in_buff ≡ some t)
        × (t.truncated ≡ rest)
        × SameImage m t.vhdm
        × ((i : ℕ)
            → i < m.f.size
            → t.vhdm.f.byte i ≡ (
                if within (offset * sector_size) (count * sector_size) i
                then in_buff (i - offset * sector_size)
                else m.f.byte i))
  unfolding fixed_write
  fixed_write_lem in_buff =
      let f = seek_set m.f (offset * sector_size) in
      (
        record {
          vhdm = record m { f = write f in_buff 0 (count * sector_size) };
          mem = in_buff;
          truncated = rest;
        },
        rw (cut, bytes) refl,
        refl,
        record { footer = refl; size = ground arith; readonly = refl },
        λ i h. ground arith,
      )
