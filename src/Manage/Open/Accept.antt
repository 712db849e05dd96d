-- ===== src/Manage/Open/Accept.antt =====
-- manage.c: a file that ends in a footer of a fixed image opens, and the handle has that footer.
use mini_vhd.Prelude.{◌≡◌, refl, ap, ◌∙◌, true, some, arith}
use mini_vhd.Stdio.{File, seek_end, seek_end-size, seek_end-byte, read_mem}
use mini_vhd.Layout.{Footer, FooterFits}
use mini_vhd.StructRw.{footer_to_buffer, buffer_to_footer}
use mini_vhd.StructRw.RoundTrip.{buffer_to_footer-footer_to_buffer}
use mini_vhd.StructRw.Length.{length-footer_to_buffer}
use mini_vhd.Checksum.{footer_checksum_valid}
use mini_vhd.Cookie.Last.{
  EndsIn, EndsIn-moved, bytes_at-list, read_last, HasCookie, is_conectix_str-last,
}
use mini_vhd.Image.{Meta}
use mini_vhd.Manage.{file_is_vhd, read_footer}
use mini_vhd.Manage.Open.{load_footer}
use mini_vhd.World.{World, Host}

-- The sector of a footer that is valid and has the cookie.
pub record Stands (f : Footer) : Type 0 where
  pub fits : FooterFits f
  pub valid : footer_checksum_valid f ≡ true
  pub cookie : HasCookie (footer_to_buffer f)

file_is_vhd-true :
    (host : Host) (file : File) (f : Footer)
    → EndsIn file (footer_to_buffer f)
    → Stands f
    → (file_is_vhd host file).0 ≡ true
unfolding file_is_vhd
file_is_vhd-true host file f ends stands =
    is_conectix_str-last file (footer_to_buffer f) (host.garbage 0) 8 ends stands.cookie
      (omega arith) (omega arith)

read_footer-footer :
    (host : Host) (m : Meta) (f : Footer)
    → EndsIn m.f (footer_to_buffer f)
    → Stands f
    → (read_footer host m).footer ≡ f
unfolding read_footer
read_footer-footer host m f ends stands =
    ap buffer_to_footer (
      bytes_at-list (read_mem (seek_end m.f 512) (host.garbage 1) 0 512) 0 512 (footer_to_buffer f)
        (length-footer_to_buffer f stands.fits)
        (λ i small.
          read_last m.f (footer_to_buffer f) (host.garbage 1) 512 i ends (omega arith) small))
    ∙ buffer_to_footer-footer_to_buffer f stands.fits

-- The footer of such a file is accepted, and is the handle's.
pub load_footer_run :
    (host : Host) (m : Meta) (v : World) (f : Footer)
    → EndsIn m.f (footer_to_buffer f)
    → Stands f
    → (n : Meta) × (load_footer host m v ≡ some (some n, v))
      × (n.footer ≡ f)
      × (n.f.size ≡ m.f.size)
      × (n.f.byte ≡ m.f.byte)
unfolding load_footer file_is_vhd read_footer
load_footer_run host m v f ends stands =
    let looked = file_is_vhd host m.f in
    let n = read_footer host (record m { f = looked.1 }) in
    let same : n.footer ≡ f =
      read_footer-footer host (record m { f = looked.1 }) f
        (EndsIn-moved m.f (file_is_vhd host m.f).1 (footer_to_buffer f) (seek_end-size m.f 512)
          (seek_end-byte m.f 512) ends)
        stands in
    let cookie : (file_is_vhd host m.f).0 ≡ true = file_is_vhd-true host m.f f ends stands in
    let valid : footer_checksum_valid n.footer ≡ true =
      ap footer_checksum_valid same ∙ stands.valid in
    (
      n,
      rw (cookie, valid) refl,
      same,
      seek_end-size looked.1 512 ∙ seek_end-size m.f 512,
      seek_end-byte looked.1 512 ∙ seek_end-byte m.f 512,
    )
