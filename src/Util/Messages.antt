-- ===== src/Util/Messages.antt =====
-- util.c: the message of an error.
pub mod Distinct
use mini_vhd.World.{
  Error, err_mem, err_file, err_not_vhd, err_type, err_footer_checksum, err_sparse_checksum,
  err_utf_transcoding_failed, err_utf_size, err_path_rel, err_path_len, err_par_not_found,
  err_invalid_par_uuid, err_invalid_geom, err_invalid_size, err_invalid_block_size,
  err_invalid_params, err_conv_size, err_timestamp,
}
use Prim.Native.String.{String}

unfoldable pub strerr : Error → String
strerr err_mem = "memory allocation error"
strerr err_file = "file error"
strerr err_not_vhd = "file is not a VHD image"
strerr err_type = "unsupported VHD image type"
strerr err_footer_checksum = "invalid VHD footer checksum"
strerr err_sparse_checksum = "invalid VHD sparse header checksum"
strerr err_utf_transcoding_failed = "error converting path encoding"
strerr err_utf_size = "buffer size mismatch when converting path encoding"
strerr err_path_rel = "relative path detected where absolute path expected"
strerr err_path_len = "path length exceeds MVHD_MAX_PATH"
strerr err_par_not_found = "parent VHD image not found"
strerr err_invalid_par_uuid = "UUID mismatch between child and parent VHD"
strerr err_invalid_geom = "invalid geometry detected"
strerr err_invalid_size = "invalid size"
strerr err_invalid_block_size = "invalid block size"
strerr err_invalid_params = "invalid parameters passed to function"
strerr err_conv_size = "error converting image. Size mismatch detected"
strerr err_timestamp = "unknown error"
