-- ===== src/Util/Clock.antt =====
-- util.c: VHD timestamps, the seconds since 2000. The conversion of a double outside 32 bits to
-- uint32_t is undefined.
use mini_vhd.Prelude.{ℕ, ◌+◌, ◌-◌, ◌^◌, ltb, if◌then◌else◌, Option, none, some}
use mini_vhd.Layout.{start_ts}
use mini_vhd.Image.{Meta}
use mini_vhd.World.{Host, FilePath, M, lift, pure, set_err, err_file, ◌>>◌}

-- (uint32_t)difftime(ts, start_time)
abbrev pub seconds_since : ℕ → Option ℕ
seconds_since ts =
    if ltb ts start_ts
    then none
    else if ltb (ts - start_ts) (2 ^ 32)
    then some (ts - start_ts)
    else none

unfoldable pub calc_timestamp : Host → Option ℕ
calc_timestamp host = seconds_since host.now

unfoldable pub epoch_to_vhd_ts : ℕ → Option ℕ
epoch_to_vhd_ts ts = if ltb ts start_ts then some start_ts else seconds_since ts

unfoldable pub get_created_time : Meta → ℕ
get_created_time m = start_ts + m.footer.timestamp

-- mvhd_file_mod_timestamp on a system with stat: it clears the error first.
abbrev stat_result : Option ℕ → M ℕ
stat_result none = do set_err (some err_file); pure 0
stat_result (some st_mtime) = lift (epoch_to_vhd_ts st_mtime)

unfoldable pub file_mod_timestamp : Host → FilePath → M ℕ
unfolding epoch_to_vhd_ts
file_mod_timestamp host path = do set_err none; stat_result (host.mtime path)
