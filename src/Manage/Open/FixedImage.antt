-- ===== src/Manage/Open/FixedImage.antt =====
-- manage.c: mvhd_open of a fixed image, from the file to the handle.
use mini_vhd.Prelude.{ℕ, suc, ◌≡◌, refl, ap, ◌∙◌, Bool, true, false, ◌==◌, some, [], ◌∷◌, arith}
use mini_vhd.Layout.{Footer, type_fixed, type_dynamic, type_diff}
use mini_vhd.Image.{Meta}
use mini_vhd.Manage.{assign_io_funcs}
use mini_vhd.Manage.Open.{load_by_type, with_format_buffer, open_alone, open_parent, open_image}
use mini_vhd.Manage.Open.Run.{step, Footed, settled, open_alone_run}
use mini_vhd.Manage.Open.Ready.{Ready, assign_io_funcs-footer}
use mini_vhd.Manage.Open.Balance.{Holds}
use mini_vhd.Manage.Open.Outcome.{open_alone-Settles}
use mini_vhd.World.{World, Host, FilePath}

load_by_type_run :
    (host : Host) (m : Meta) (v : World)
    → m.footer.disk_type ≡ type_fixed
    → load_by_type host m v ≡ some (some m, v)
unfolding load_by_type
load_by_type_run host m v fixed =
    let not_diff : (m.footer.disk_type == type_diff) ≡ false = ground arith in
    let not_dynamic : (m.footer.disk_type == type_dynamic) ≡ false = ground arith in
    let is_fixed : (m.footer.disk_type == type_fixed) ≡ true = ground arith in
    rw (not_diff, not_dynamic, is_fixed) refl

module _ (host : Host) (w : World) (path : FilePath) (readonly : Bool) (f : Footer)
    (footed : Footed host w path readonly f) (fixed : f.disk_type ≡ type_fixed) where
  open_alone_fixed :
      (m : Meta) × (v : World) × (open_alone host path readonly w ≡ some (some m, v))
      × (m.footer ≡ f)
  open_alone_fixed =
      let (n, v, runs, same) =
        open_alone_run host w path readonly f footed (λ n. n.footer ≡ f)
          λ n v on. (
            n,
            v,
            load_by_type_run host n v (ap (λ (g : Footer). g.disk_type) on.footer ∙ fixed),
            on.memory,
            on.footer,
          ) in
      (with_format_buffer (assign_io_funcs n), v, runs, assign_io_funcs-footer n ∙ same)

  -- A file that ends in a valid footer of a fixed image opens, if the call has the memory and the
  -- system permits it: the handle has that footer, is ready, and the stream and its two blocks are all
  -- that the call holds.
  pub open_image-Fixed :
      (fuel : ℕ)
      → (m : Meta) × (v : World) × (open_image (suc fuel) host path readonly w
          ≡ some (some (m ∷ []), v))
        × (m.footer ≡ f)
        × Ready w path readonly m
        × Holds w m v
  unfolding open_image open_parent
  open_image-Fixed fuel =
      let (m, v, runs, same) = open_alone_fixed in
      let type : m.footer.disk_type ≡ type_fixed = ap (λ (g : Footer). g.disk_type) same ∙ fixed in
      let not_diff : (m.footer.disk_type == type_diff) ≡ false = ground arith in
      let again = open_image fuel host in
      let (held, ready) =
        settled w (Ready w path readonly) (open_alone host path readonly w) m v runs
          (open_alone-Settles w path readonly host) in
      (
        m,
        v,
        step (open_alone host path readonly) (open_parent again host) w v m
            (some (some (m ∷ []), v)) runs (rw not_diff refl),
        same,
        ready,
        held,
      )
