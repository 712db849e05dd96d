-- ===== src/Util/Messages/Distinct.antt =====
-- util.c: the messages tell the errors apart.
use mini_vhd.Prelude.{◌≡◌, refl, sym, ap, ◌∙◌, Bool, true, false, if◌then◌else◌, List, [], ◌∷◌}
use mini_vhd.Util.Messages.{strerr}
use mini_vhd.World.{
  Error, err_mem, err_file, err_not_vhd, err_type, err_footer_checksum, err_sparse_checksum,
  err_utf_transcoding_failed, err_utf_size, err_path_rel, err_path_len, err_par_not_found,
  err_invalid_par_uuid, err_invalid_geom, err_invalid_size, err_invalid_block_size,
  err_invalid_params, err_conv_size, err_timestamp,
}
use Prim.Native.String.{String}
use Prim.Native.String
use Prim.Native.Nat.{Ordering}

same_text : String → String → Bool
same_text s t = elim (String.compare s t) [ Ordering.eq ↦ true | _ ↦ false ]

-- The first error of a list whose message is the given one.
find_error : String → List Error → Error
find_error s [] = err_timestamp
find_error s (e ∷ es) = let rest = find_error s es in if same_text s (strerr e) then e else rest

errors : List Error
errors =
    err_mem ∷ err_file ∷ err_not_vhd ∷ err_type ∷ err_footer_checksum ∷ err_sparse_checksum
    ∷ err_utf_transcoding_failed ∷ err_utf_size ∷ err_path_rel ∷ err_path_len ∷ err_par_not_found
    ∷ err_invalid_par_uuid ∷ err_invalid_geom ∷ err_invalid_size ∷ err_invalid_block_size
    ∷ err_invalid_params ∷ err_conv_size ∷ []

found : (e : Error) → find_error (strerr e) errors ≡ e
unfolding find_error same_text errors strerr
found err_mem = refl
found err_file = refl
found err_not_vhd = refl
found err_type = refl
found err_footer_checksum = refl
found err_sparse_checksum = refl
found err_utf_transcoding_failed = refl
found err_utf_size = refl
found err_path_rel = refl
found err_path_len = refl
found err_par_not_found = refl
found err_invalid_par_uuid = refl
found err_invalid_geom = refl
found err_invalid_size = refl
found err_invalid_block_size = refl
found err_invalid_params = refl
found err_conv_size = refl
found err_timestamp = refl

-- Two errors that have the same message are the same error.
pub strerr-distinct : (e d : Error) → strerr e ≡ strerr d → e ≡ d
strerr-distinct e d same = sym (found e) ∙ ap (λ s. find_error s errors) same ∙ found d
