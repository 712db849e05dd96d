-- ===== src/Manage/Open/Parented.antt =====
-- manage.c: what mvhd_open has done when it returns a handle with a parent.
use mini_vhd.Prelude.{
  ℕ, ◌≡◌, ◌≢◌, ◌==◌, ◌&&◌, ==_iff, refl, sym, ap, ap₂, ◌∙◌, subst, Bool, true, false, not,
  if◌then◌else◌, Option, none, some, List, [], ◌∷◌, arith,
}
use mini_vhd.Layout.{type_diff}
use mini_vhd.Image.{Meta}
use mini_vhd.Util.Clock.{file_mod_timestamp}
use mini_vhd.Manage.ParentPath.{get_diff_parent_path}
use mini_vhd.Manage.Open.{
  open_parent, open_at, with_parents, if_no_error, with_par_path, stop, accept_parent,
  cleanup_format_buff, cleanup_bitmap, cleanup_bat, cleanup_file, cleanup_vhdm,
}
use mini_vhd.Manage.Open.Recursion.{warned, enters-warned}
use mini_vhd.World.{
  World, Host, FilePath, M, Error, err_invalid_par_uuid, ◌>>=◌, same_bytes, continue, get_err, pure,
}
use mini_vhd.Create.Fixed.Image.{same_bytes_refl}
use mathlib.Core.Option.{some-injective}

both : (a b : Bool) → (a && b) ≡ true → (a ≡ true) × (b ≡ true)
both true b h = (refl, h)
both false b h = absurd (ground arith)

same_bytes-eq : (xs ys : FilePath) → same_bytes xs ys ≡ true → xs ≡ ys
unfolding same_bytes
same_bytes-eq [] [] h = refl
same_bytes-eq [] (y ∷ ys) h = absurd (ground arith)
same_bytes-eq (x ∷ xs) [] h = absurd (ground arith)
same_bytes-eq (x ∷ xs) (y ∷ ys) h =
    let (first, rest) = both (x == y) (same_bytes xs ys) h in
    ap₂ ◌∷◌ ((==_iff x y).0 first) (same_bytes-eq xs ys rest)

-- A step that gave a result, and the rest that went on from it.
pub continue-some :
    {A B : Type 0} (f : A → M B) (r : Option (A × World)) (b : B × World)
    → continue f r ≡ some b
    → (a : A) × (v : World) × (r ≡ some (a, v)) × (f a v ≡ some b)
continue-some f none b h = absurd (ground arith)
continue-some f (some (a, v)) b h = (a, v, refl, h)

pub same_result :
    {A : Type 0} (a b : A) (u v : World)
    → ◌≡◌ {A = Option (Option A × World)} (some (some a, u)) (some (some b, v))
    → (a ≡ b) × (u ≡ v)
same_result {A} a b u v h =
    let pair : ◌≡◌ {A = Option A × World} (some a, u) (some b, v) =
      some-injective {A = Option A × World} (some a, u) (some b, v) h in
    (
      some-injective a b (ap (λ (r : Option A × World). r.0) pair),
      ap (λ (r : Option A × World). r.1) pair,
    )

-- An error gives no handle.
cleanup_format_buff-none :
    (m : Meta) (v u : World) (images : List Meta) → cleanup_format_buff m v ≢ some (some images, u)
unfolding cleanup_format_buff cleanup_bitmap cleanup_bat cleanup_file cleanup_vhdm
cleanup_format_buff-none m v u images h = absurd (ground arith)

-- The parent's handle is taken exactly if the UUIDs agree.
accept_parent-uuid :
    (m parent : Meta) (others images : List Meta) (v u : World)
    → accept_parent m (parent ∷ others) v ≡ some (some images, u)
    → (m.sparse.par_uuid ≡ parent.footer.uuid) × (m ∷ parent ∷ others ≡ images) × (v ≡ u)
unfolding accept_parent
accept_parent-uuid m parent others images v u h =
    by_test (same_bytes m.sparse.par_uuid parent.footer.uuid) refl h
  where
    by_test :
        (same : Bool)
        → same_bytes m.sparse.par_uuid parent.footer.uuid ≡ same
        → (if not same
              then stop err_invalid_par_uuid (cleanup_format_buff m)
              else pure (some (m ∷ parent ∷ others)))
            v
          ≡ some (some images, u)
        → (m.sparse.par_uuid ≡ parent.footer.uuid) × (m ∷ parent ∷ others ≡ images) × (v ≡ u)
    by_test true e h =
        let (same_images, same_world) = same_result (m ∷ parent ∷ others) images v u h in
        (same_bytes-eq m.sparse.par_uuid parent.footer.uuid e, same_images, same_world)
    by_test false e h =
        absurd
          (cleanup_format_buff-none m (record v { err = some err_invalid_par_uuid }) u images h)

pub accept_parent_same :
    (m parent : Meta) (others : List Meta) (v : World)
    → m.sparse.par_uuid ≡ parent.footer.uuid
    → accept_parent m (parent ∷ others) v ≡ some (some (m ∷ parent ∷ others), v)
unfolding accept_parent
accept_parent_same m parent others v e =
    let same : same_bytes m.sparse.par_uuid parent.footer.uuid ≡ true =
      ap (λ id. same_bytes id parent.footer.uuid) e ∙ same_bytes_refl parent.footer.uuid in
    rw same refl

with_parents-some :
    (m : Meta) (opened : Option (List Meta)) (images : List Meta) (v u : World)
    → with_parents m opened v ≡ some (some images, u)
    → (parent : Meta) × (others : List Meta) × (opened ≡ some (parent ∷ others))
      × (m.sparse.par_uuid ≡ parent.footer.uuid)
      × (m ∷ parent ∷ others ≡ images)
      × (v ≡ u)
unfolding accept_parent
with_parents-some m none images v u h = absurd (cleanup_format_buff-none m v u images h)
with_parents-some m (some []) images v u h = absurd (cleanup_format_buff-none m v u images h)
with_parents-some m (some (parent ∷ others)) images v u h =
    let (uuid, same_images, same_world) = accept_parent-uuid m parent others images v u h in
    (parent, others, refl, uuid, same_images, same_world)

-- The recursive call that an open makes which gives a handle with a parent.
pub record Called (again : FilePath → Bool → M (Option (List Meta))) (host : Host) (child : Meta)
    (v1 : World) (images : List Meta) (v : World) : Type 0 where
  pub q : FilePath
  pub searched : Meta
  pub v2 : World
  pub finds : get_diff_parent_path host child v1 ≡ some ((searched, some q), v2)
  pub ts : ℕ
  pub v3 : World
  pub stats : file_mod_timestamp host q v2 ≡ some (ts, v3)
  pub no_error : v3.err ≡ none
  pub parent : Meta
  pub others : List Meta
  pub gives : again q true (warned searched ts v3) ≡ some (some (parent ∷ others), v)
  pub uuid : searched.sparse.par_uuid ≡ parent.footer.uuid
  pub images_are : searched ∷ parent ∷ others ≡ images

module _ (again : FilePath → Bool → M (Option (List Meta))) (host : Host) (child : Meta)
    (images : List Meta) (v : World) where
  if_no_error-Called :
      (v1 : World) (q : FilePath) (searched : Meta) (v2 : World)
      → get_diff_parent_path host child v1 ≡ some ((searched, some q), v2)
      → (ts : ℕ) (v3 : World) → file_mod_timestamp host q v2 ≡ some (ts, v3)
      → (e : Option Error) → v3.err ≡ e
      → if_no_error again searched q ts e v3 ≡ some (some images, v)
      → Called again host child v1 images v
  if_no_error-Called v1 q searched v2 finds ts v3 stats (some e) err h =
      absurd (cleanup_format_buff-none searched v3 v images h)
  if_no_error-Called v1 q searched v2 finds ts v3 stats none err h =
      let (opened, v4, gives, rest) =
        continue-some (with_parents searched) (again q true (warned searched ts v3))
          (some images, v) (sym (enters-warned again searched q ts v3) ∙ h) in
      let (parent, others, found, uuid, images_are, end) =
        with_parents-some searched opened images v4 v rest in
      record {
        q = q;
        searched = searched;
        v2 = v2;
        finds = finds;
        ts = ts;
        v3 = v3;
        stats = stats;
        no_error = err;
        parent = parent;
        others = others;
        gives = gives ∙ ap₂ (λ o (z : World). some (o, z)) found end;
        uuid = uuid;
        images_are = images_are;
      }

  with_par_path-Called :
      (v1 : World) (searched : Meta) (path : Option FilePath) (v2 : World)
      → get_diff_parent_path host child v1 ≡ some ((searched, path), v2)
      → with_par_path again host (searched, path) v2 ≡ some (some images, v)
      → Called again host child v1 images v
  unfolding open_at
  with_par_path-Called v1 searched none v2 finds h =
      absurd (cleanup_format_buff-none searched v2 v images h)
  with_par_path-Called v1 searched (some q) v2 finds h =
      let (ts, v3, stats, rest) =
        continue-some (λ ts. get_err >>= if_no_error again searched q ts)
          (file_mod_timestamp host q v2) (some images, v) h in
      if_no_error-Called v1 q searched v2 finds ts v3 stats v3.err refl rest

  pub open_parent-Called :
      (v1 : World)
      → child.footer.disk_type ≡ type_diff
      → open_parent again host child v1 ≡ some (some images, v)
      → Called again host child v1 images v
  unfolding open_parent
  open_parent-Called v1 diff h =
      let is_diff : (child.footer.disk_type == type_diff) ≡ true =
        (==_iff child.footer.disk_type type_diff).1 diff in
      let (found, v2, finds, rest) =
        continue-some (with_par_path again host) (get_diff_parent_path host child v1)
          (some images, v)
          (subst
            (λ b.
              (if not b
                  then pure (some (child ∷ []))
                  else (get_diff_parent_path host child >>= with_par_path again host))
                v1
              ≡ some (some images, v))
            is_diff h) in
      with_par_path-Called v1 found.0 found.1 v2 finds rest
