-- ===== src/Manage/Open/Recursion.antt =====
-- manage.c: the recursion of mvhd_open over the parents, by the calls that it makes.
use mini_vhd.Prelude.{
  ℕ, zero, suc, ◌≡◌, refl, sym, ap, ◌∙◌, subst, Bool, true, false, not, ◌==◌, if◌then◌else◌, Option,
  none, some, List, [], ◌∷◌, arith,
}
use mini_vhd.Layout.{type_diff}
use mini_vhd.Image.{Meta}
use mini_vhd.Util.Clock.{file_mod_timestamp}
use mini_vhd.Manage.ParentPath.{get_diff_parent_path}
use mini_vhd.Manage.Open.{
  open_alone, open_parent, open_at, open_stamped, open_image, warn_if, with_parents, if_no_error,
  with_par_path,
}
use mini_vhd.World.{
  World, Host, FilePath, M, err_timestamp, ◌>>=◌, if_given, bind-run, continue, get_err, pure,
}

-- The world at the recursive call: *err tells of a time that is not the header's.
abbrev pub warned : Meta → ℕ → World → World
warned m par_mod_ts v =
    if m.sparse.par_timestamp == par_mod_ts then v else record v { err = some err_timestamp }

-- An open of `path` in the world `w` opens its image, which is a differencing one, finds its parent's
-- file `q` and that file's time, and calls mvhd_open on `q` in the world `u`.
pub record Calls (host : Host) (path : FilePath) (readonly : Bool) (w : World) (q : FilePath)
    (u : World) : Type 0 where
  pub child : Meta
  pub after_open : World
  pub opens : open_alone host path readonly w ≡ some (some child, after_open)
  pub diff : child.footer.disk_type ≡ type_diff
  pub searched : Meta
  pub after_search : World
  pub finds : get_diff_parent_path host child after_open ≡ some ((searched, some q), after_search)
  pub par_mod_ts : ℕ
  pub after_stat : World
  pub stats : file_mod_timestamp host q after_search ≡ some (par_mod_ts, after_stat)
  pub no_error : after_stat.err ≡ none
  pub enters : u ≡ warned searched par_mod_ts after_stat

-- The world at the recursive call.
pub enters-warned :
    (open_again : FilePath → Bool → M (Option (List Meta))) (m : Meta) (q : FilePath) (ts : ℕ)
    (v : World)
    → open_stamped open_again m q ts v
      ≡ continue (with_parents m) (open_again q true (warned m ts v))
unfolding open_stamped
enters-warned open_again m q ts v = go (m.sparse.par_timestamp == ts)
  where
    go :
        (same : Bool)
        → continue
            (λ (done : Unit {0}). open_again q true >>= with_parents m)
            (warn_if (not same) v)
          ≡ continue
              (with_parents m)
              (open_again q true (if same then v else record v { err = some err_timestamp }))
    go true = refl
    go false = refl

pub open_image-Calls :
    (fuel : ℕ) (host : Host) (path : FilePath) (readonly : Bool) (w : World) (q : FilePath)
    (u : World) (c : Calls host path readonly w q u)
    → open_image (suc fuel) host path readonly w
      ≡ continue (with_parents c.searched) (open_image fuel host q true u)
unfolding open_image open_parent open_at
open_image-Calls fuel host path readonly w q u c =
    let again = open_image fuel host in
    let end = continue (with_parents c.searched) (again q true u) in
    let stamped : open_stamped again c.searched q c.par_mod_ts c.after_stat ≡ end =
      enters-warned again c.searched q c.par_mod_ts c.after_stat
      ∙ ap (λ v. continue (with_parents c.searched) (again q true v)) (sym c.enters) in
    let checked : (get_err >>= if_no_error again c.searched q c.par_mod_ts) c.after_stat ≡ end =
      subst (λ e. if_no_error again c.searched q c.par_mod_ts e c.after_stat ≡ end) (sym c.no_error)
        stamped in
    let at : open_at again host c.searched q c.after_search ≡ end =
      bind-run (file_mod_timestamp host q) _ c.after_search c.after_stat c.par_mod_ts c.stats
      ∙ checked in
    let found : (get_diff_parent_path host c.child >>= with_par_path again host) c.after_open
        ≡ end =
      bind-run (get_diff_parent_path host c.child) (with_par_path again host) c.after_open
        c.after_search (c.searched, some q) c.finds
      ∙ at in
    let is_diff : (c.child.footer.disk_type == type_diff) ≡ true = ground (arith, c.diff) in
    let parent : open_parent again host c.child c.after_open ≡ end =
      subst
        (λ b.
          (if not b
              then pure (some (c.child ∷ []))
              else get_diff_parent_path host c.child >>= with_par_path again host)
            c.after_open
          ≡ end)
        (sym is_diff) found in
    bind-run (open_alone host path readonly) (if_given (open_parent again host)) w c.after_open
      (some c.child) c.opens
    ∙ parent

-- States from which every open calls mvhd_open in such a state again.
pub record Endless (host : Host) (At : FilePath → Bool → World → Type 0) : Type 0 where
  pub calls :
      (path : FilePath) (readonly : Bool) (w : World)
      → At path readonly w
      → (q : FilePath) × (u : World) × Calls host path readonly w q u × At q true u

-- From such a state no amount of fuel is enough: mvhd_open never returns.
pub open_image-Endless :
    (host : Host) (At : FilePath → Bool → World → Type 0)
    → Endless host At
    → (fuel : ℕ) (path : FilePath) (readonly : Bool) (w : World) → At path readonly w
    → open_image fuel host path readonly w ≡ none
unfolding open_image
open_image-Endless host At endless zero path readonly w at = refl
open_image-Endless host At endless (suc fuel) path readonly w at =
    let (q, u, c, next) = endless.calls path readonly w at in
    open_image-Calls fuel host path readonly w q u c
    ∙ ap (continue (with_parents c.searched))
        (open_image-Endless host At endless fuel q true u next)
