-- ===== src/Manage/Open/Lineage.antt =====
-- manage.c: the images that mvhd_open returns in a handle, from the first one to one without a parent.
use mini_vhd.Prelude.{
  ℕ, zero, suc, ◌<◌, ◌≡◌, ◌≢◌, ◌↔◌, equal_or_not, ◌==◌, refl, sym, ap, ◌∙◌, subst, Bool, true,
  false, inl, inr, Option, none, some, List, [], ◌∷◌, arith,
}
use mini_vhd.Layout.{type_diff}
use mini_vhd.Image.{Meta}
use mini_vhd.Manage.Open.{open_alone, open_parent, open_image, with_parents}
use mini_vhd.Manage.Open.Parented.{
  continue-some, same_result, accept_parent_same, Called, open_parent-Called,
}
use mini_vhd.Manage.Open.Recursion.{Calls, warned, open_image-Calls}
use mini_vhd.World.{World, Host, FilePath, M, if_given, bind-run}

-- The images of a handle, and the world after the open of `n` parents: an image that is no
-- differencing one stands alone, and one that is stands before the images of its parent, which has
-- the UUID that its header names.
pub data Lineage (host : Host) : FilePath → Bool → World → ℕ → List Meta → World → Type 0 where
  alone :
      (path : FilePath) (readonly : Bool) (w : World) (m : Meta) (v : World)
      → open_alone host path readonly w ≡ some (some m, v)
      → m.footer.disk_type ≢ type_diff
      → Lineage host path readonly w 0 (m ∷ []) v
  child :
      (path : FilePath) (readonly : Bool) (w : World) (q : FilePath) (u : World) (n : ℕ)
      (parent : Meta) (others : List Meta) (v : World) (c : Calls host path readonly w q u)
      → Lineage host q true u n (parent ∷ others) v
      → c.searched.sparse.par_uuid ≡ parent.footer.uuid
      → Lineage host path readonly w (suc n) (c.searched ∷ parent ∷ others) v

-- An image with no parent to open.
open_parent_alone :
    (again : FilePath → Bool → M (Option (List Meta))) (host : Host) (m : Meta) (v : World)
    → m.footer.disk_type ≢ type_diff
    → open_parent again host m v ≡ some (some (m ∷ []), v)
unfolding open_parent
open_parent_alone again host m v other =
    let no_diff : (m.footer.disk_type == type_diff) ≡ false = ground arith in rw no_diff refl

open_image-last :
    (fuel : ℕ) (host : Host) (path : FilePath) (readonly : Bool) (w : World) (m : Meta) (v : World)
    → open_alone host path readonly w ≡ some (some m, v)
    → m.footer.disk_type ≢ type_diff
    → open_image (suc fuel) host path readonly w ≡ some (some (m ∷ []), v)
unfolding open_image
open_image-last fuel host path readonly w m v opens other =
    bind-run (open_alone host path readonly) (if_given (open_parent (open_image fuel host) host)) w
      v (some m) opens
    ∙ open_parent_alone (open_image fuel host) host m v other

-- With fuel for each of its images, a lineage is opened.
Lineage-open_image :
    (host : Host) (path : FilePath) (readonly : Bool) (w : World) (n : ℕ) (images : List Meta)
    (v : World)
    → Lineage host path readonly w n images v
    → (fuel : ℕ) → n < fuel
    → open_image fuel host path readonly w ≡ some (some images, v)
Lineage-open_image host path readonly w n images v (alone _ _ _ m _ opens other) zero h =
    absurd (omega arith)
Lineage-open_image host path readonly w n images v (alone _ _ _ m _ opens other) (suc fuel) h =
    open_image-last fuel host path readonly w m v opens other
Lineage-open_image host path readonly w n images v (child _ _ _ q u k parent others _ c rest uuid)
      zero h =
    absurd (omega arith)
Lineage-open_image host path readonly w n images v (child _ _ _ q u k parent others _ c rest uuid)
      (suc fuel) h =
    open_image-Calls fuel host path readonly w q u c
    ∙ bind-run (open_image fuel host q true) (with_parents c.searched) u v (some (parent ∷ others))
        (Lineage-open_image host q true u k (parent ∷ others) v rest fuel (omega arith))
    ∙ accept_parent_same c.searched parent others v uuid

-- A lineage with fewer parents than the fuel.
abbrev pub Within : ℕ → Host → FilePath → Bool → World → List Meta → World → Type 0
Within fuel host path readonly w images v =
    (n : ℕ) × (n < fuel) × Lineage host path readonly w n images v

Called-Within :
    (fuel : ℕ) (host : Host) (path : FilePath) (readonly : Bool) (w : World) (m : Meta) (v1 : World)
    (images : List Meta) (v : World)
    → open_alone host path readonly w ≡ some (some m, v1)
    → m.footer.disk_type ≡ type_diff
    → (c : Called (open_image fuel host) host m v1 images v)
    → Within fuel host c.q true (warned c.searched c.ts c.v3) (c.parent ∷ c.others) v
    → Within (suc fuel) host path readonly w images v
Called-Within fuel host path readonly w m v1 images v opens diff c (n, few, rest) =
    let calls : Calls host path readonly w c.q (warned c.searched c.ts c.v3) = record {
      child = m;
      after_open = v1;
      opens = opens;
      diff = diff;
      searched = c.searched;
      after_search = c.v2;
      finds = c.finds;
      par_mod_ts = c.ts;
      after_stat = c.v3;
      stats = c.stats;
      no_error = c.no_error;
      enters = refl;
    } in
    (
      suc n,
      omega arith,
      subst (λ all. Lineage host path readonly w (suc n) all v) c.images_are
          (child path readonly w c.q (warned c.searched c.ts c.v3) n c.parent c.others v calls rest
            c.uuid),
    )

alone-Within :
    (fuel : ℕ) (host : Host) (path : FilePath) (readonly : Bool) (w : World) (m : Meta) (v1 : World)
    (images : List Meta) (v : World)
    → open_alone host path readonly w ≡ some (some m, v1)
    → m.footer.disk_type ≢ type_diff
    → open_parent (open_image fuel host) host m v1 ≡ some (some images, v)
    → Within (suc fuel) host path readonly w images v
alone-Within fuel host path readonly w m v1 images v opens other rest =
    let (same_images, same_world) =
      same_result (m ∷ []) images v1 v
        (sym (open_parent_alone (open_image fuel host) host m v1 other) ∙ rest) in
    (
      0,
      omega arith,
      subst (λ all. Lineage host path readonly w 0 all v) same_images
          (alone path readonly w m v (opens ∙ ap (λ (z : World). some (some m, z)) same_world)
            other),
    )

-- An open that has given a handle, by the handle of the image alone.
opened-Within :
    (fuel : ℕ) (host : Host) (path : FilePath) (readonly : Bool) (w : World) (opened : Option Meta)
    (v1 : World) (images : List Meta) (v : World)
    → open_alone host path readonly w ≡ some (opened, v1)
    → if_given (open_parent (open_image fuel host) host) opened v1 ≡ some (some images, v)
    → ((q : FilePath) (u : World) (parents : List Meta)
        → open_image fuel host q true u ≡ some (some parents, v)
        → Within fuel host q true u parents v)
    → Within (suc fuel) host path readonly w images v
opened-Within fuel host path readonly w none v1 images v opens rest below = absurd (ground arith)
opened-Within fuel host path readonly w (some m) v1 images v opens rest below =
    elim (equal_or_not m.footer.disk_type type_diff) [
      | inl diff ↦
          let c = open_parent-Called (open_image fuel host) host m images v v1 diff rest in
          Called-Within fuel host path readonly w m v1 images v opens diff c
            (below c.q (warned c.searched c.ts c.v3) (c.parent ∷ c.others) c.gives)
      | inr other ↦ alone-Within fuel host path readonly w m v1 images v opens other rest
    ]

open_image-Within :
    (fuel : ℕ) (host : Host) (path : FilePath) (readonly : Bool) (w : World) (images : List Meta)
    (v : World)
    → open_image fuel host path readonly w ≡ some (some images, v)
    → Within fuel host path readonly w images v
unfolding open_image
open_image-Within zero host path readonly w images v h = absurd (ground arith)
open_image-Within (suc fuel) host path readonly w images v h =
    let (opened, v1, opens, rest) =
      continue-some (if_given (open_parent (open_image fuel host) host))
        (open_alone host path readonly w) (some images, v) h in
    opened-Within fuel host path readonly w opened v1 images v opens rest
      (λ q u parents. open_image-Within fuel host q true u parents v)

-- mvhd_open returns a handle exactly if its images are a lineage: each differencing image opens, its
-- parent's file is found and has a time, without an error, and the handle of that file, opened for
-- reading, begins with the image of the UUID that the header names; the last image opens and is no
-- differencing one. The fuel that is needed is one unit for each image.
pub open_image-Lineage :
    (fuel : ℕ) (host : Host) (path : FilePath) (readonly : Bool) (w : World) (images : List Meta)
    (v : World)
    → (open_image fuel host path readonly w ≡ some (some images, v))
      ↔ ((n : ℕ) × (n < fuel) × Lineage host path readonly w n images v)
open_image-Lineage fuel host path readonly w images v = (
  open_image-Within fuel host path readonly w images v,
  λ within. Lineage-open_image host path readonly w within.0 images v within.2 fuel within.1,
)
