-- ===== src/Io/Sectors.antt =====
-- check_sectors: how a request is cut at the end of the disk.
use mini_vhd.Prelude.{ℕ, ◌+◌, ◌-◌, ◌^◌, ◌≤◌, ◌<◌, ◌≡◌, min, arith}
use mini_vhd.Io.{check_sectors}

-- A request that starts on the disk, or at its end, transfers the sectors that are left at most, and
-- reports the rest as truncated.
pub check_sectors_cut :
    (offset num_sectors total_sectors : ℕ)
    → offset ≤ total_sectors
    → total_sectors < 2 ^ 32
    → num_sectors < 2 ^ 32
    → check_sectors offset num_sectors total_sectors ≡ record {
      transfer = min num_sectors (total_sectors - offset);
      truncated = num_sectors - (total_sectors - offset);
    }
unfolding check_sectors
check_sectors_cut offset num_sectors total_sectors h ht hn = ground arith

-- A request that starts past the end is not cut at all, unless it is so long that its end wraps
-- round 32 bits: the difference of unsigned numbers wraps.
pub check_sectors_past_end :
    (offset num_sectors total_sectors : ℕ)
    → total_sectors < offset
    → offset + num_sectors ≤ 2 ^ 32 + total_sectors
    → offset < 2 ^ 32
    → check_sectors offset num_sectors total_sectors
      ≡ record { transfer = num_sectors; truncated = 0 }
unfolding check_sectors
check_sectors_past_end offset num_sectors total_sectors h hs ho = ground arith
