-- ===== src/Util.antt =====
-- util.c: what is asked of an open image, and the error of a transcoder.
pub mod Clock
pub mod Uuid
pub mod Crc
pub mod Messages
use mini_vhd.Prelude.{ℕ, Option, none, some}
use mini_vhd.Layout.{Geom}
use mini_vhd.Image.{Meta}
use mini_vhd.World.{
  Error, err_utf_size, err_utf_transcoding_failed, Transcoded, too_small, failed, written, M,
  set_err, pure,
}

unfoldable pub get_geometry : Meta → Geom
get_geometry m = record {
  cyl = m.footer.geom.cyl;
  heads = m.footer.geom.heads;
  spt = m.footer.geom.spt;
}

abbrev pub get_current_size : Meta → ℕ
get_current_size m = m.footer.curr_sz

-- mvhd_set_encoding_err, for a result that is negative; another leaves the error as it is.
abbrev pub set_encoding_err : Transcoded → M (Unit {0})
set_encoding_err too_small = set_err (some err_utf_size)
set_encoding_err failed = set_err (some err_utf_transcoding_failed)
set_encoding_err (written bytes) = pure tt
