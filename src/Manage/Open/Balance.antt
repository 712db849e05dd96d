-- ===== src/Manage/Open/Balance.antt =====
-- manage.c: what mvhd_open holds at each label, and that the labels give it back.
use mini_vhd.Prelude.{
  ℕ, ◌+◌, ◌-◌, ◌≡◌, refl, sym, ap, subst, Bool, true, false, not, if◌then◌else◌, Option, none, some,
  [], drop, ◌⊎◌, inl, inr, arith,
}
use mini_vhd.Image.{Meta}
use mini_vhd.World.{
  World, Error, FilePath, M, ◌>>?◌, if_given, bind-run, continue, answer, calloc, fail, pure,
  err_mem, ◌>>=◌,
}
use mini_vhd.Manage.Open.{
  cleanup_vhdm, cleanup_file, cleanup_bat, cleanup_bitmap, stop, or_goto, or_label,
}

abbrev pub count : Bool → ℕ
count true = 1
count false = 0

-- What stays the same but for the resources and the error.
pub record Kept (w v : World) : Type 0 where
  pub files : (p : FilePath) → v.files p ≡ w.files p
  pub style : v.style ≡ w.style
  pub allocs : w.allocs ≡ [] → v.allocs ≡ []

-- The call has failed with an error, and holds nothing.
pub record Undone (w v : World) : Type 0 where
  pub kept : Kept w v
  pub handles : v.handles ≡ w.handles
  pub blocks : v.blocks ≡ w.blocks
  pub err : (e : Error) × (v.err ≡ some e)

-- The call holds the stream and the blocks of the handle `m`, and has set no error.
pub record Holds (w : World) (m : Meta) (v : World) : Type 0 where
  pub kept : Kept w v
  pub handles : v.handles ≡ w.handles + 1
  pub blocks :
      v.blocks ≡ w.blocks + 1 + count m.owned.table + count m.owned.bitmap + count m.owned.zero_data
  pub err : v.err ≡ w.err

abbrev pub Failure : {A : Type 0} → World → Option (Option A × World) → Type 0
Failure w r = (v : World) × (r ≡ some (none, v)) × Undone w v

pub released : (b : Bool) (n k : ℕ) → n ≡ k + count b → (if b then n - 1 else n) ≡ k
released true n k e = omega (arith, e)
released false n k e = omega (arith, e)

Kept-resources :
    (w v : World)
    → Kept w v
    → (e : Option Error) (handles blocks : ℕ)
    → Kept w (record v { err = e; handles = handles; blocks = blocks })
Kept-resources w v k e handles blocks = record {
  files = k.files;
  style = k.style;
  allocs = k.allocs;
}

-- From the label cleanup_file, for a handle that owns nothing else.
pub cleanup_file-Undone :
    (w : World) (m : Meta) (v : World) (e : Error)
    → Holds w m v
    → m.owned.table ≡ false
    → m.owned.bitmap ≡ false
    → m.owned.zero_data ≡ false
    → Failure {A = Meta} w (stop e cleanup_file v)
unfolding cleanup_file cleanup_vhdm
cleanup_file-Undone w m v e h t b z = (
  record v { err = some e; handles = v.handles - 1; blocks = v.blocks - 1 },
  refl,
  record {
    kept = Kept-resources w v h.kept (some e) (v.handles - 1) (v.blocks - 1);
    handles = omega (arith, h.handles);
    blocks = omega (arith, h.blocks, ap count t, ap count b, ap count z);
    err = (e, refl);
  },
)

pub cleanup_bat-Undone :
    (w : World) (m : Meta) (v : World) (e : Error)
    → Holds w m v
    → m.owned.bitmap ≡ false
    → m.owned.zero_data ≡ false
    → Failure {A = Meta} w (stop e (cleanup_bat m) v)
unfolding cleanup_bat cleanup_file cleanup_vhdm
cleanup_bat-Undone w m v e h b z =
    let after_table = if m.owned.table then v.blocks - 1 else v.blocks in
    let et : after_table ≡ w.blocks + 1 =
      released m.owned.table v.blocks (w.blocks + 1)
        (omega (arith, h.blocks, ap count b, ap count z)) in
    (
      record v { err = some e; handles = v.handles - 1; blocks = after_table - 1 },
      refl,
      record {
        kept = Kept-resources w v h.kept (some e) (v.handles - 1) (after_table - 1);
        handles = omega (arith, h.handles);
        blocks = omega (arith, et);
        err = (e, refl);
      },
    )

pub cleanup_bitmap-Undone :
    (w : World) (m : Meta) (v : World) (e : Error)
    → Holds w m v
    → m.owned.zero_data ≡ false
    → Failure {A = Meta} w (stop e (cleanup_bitmap m) v)
unfolding cleanup_bitmap cleanup_bat cleanup_file cleanup_vhdm
cleanup_bitmap-Undone w m v e h z =
    let after_bitmap = if m.owned.bitmap then v.blocks - 1 else v.blocks in
    let after_table = if m.owned.table then after_bitmap - 1 else after_bitmap in
    let eb : after_bitmap ≡ w.blocks + 1 + count m.owned.table =
      released m.owned.bitmap v.blocks (w.blocks + 1 + count m.owned.table)
        (omega (arith, h.blocks, ap count z)) in
    let et : after_table ≡ w.blocks + 1 =
      released m.owned.table after_bitmap (w.blocks + 1) (omega (arith, eb)) in
    (
      record v { err = some e; handles = v.handles - 1; blocks = after_table - 1 },
      refl,
      record {
        kept = Kept-resources w v h.kept (some e) (v.handles - 1) (after_table - 1);
        handles = omega (arith, h.handles);
        blocks = omega (arith, et);
        err = (e, refl);
      },
    )

-- A step ends at a label, or goes on with a handle for which `P` holds.
abbrev pub Settles : World → (Meta → Type 0) → Option (Option Meta × World) → Type 0
Settles w P r =
    Failure w r ⊎ ((m : Meta) × (v : World) × (r ≡ some (some m, v)) × Holds w m v × P m)

pub Settles-if :
    (w : World) (P : Meta → Type 0) (b : Bool) (x y : M (Option Meta)) (v : World)
    → (b ≡ true → Settles w P (x v))
    → (b ≡ false → Settles w P (y v))
    → Settles w P ((if b then x else y) v)
Settles-if w P true x y v hx hy = hx refl
Settles-if w P false x y v hx hy = hy refl

-- The next step runs on what the last one gave.
pub Settles-then :
    (w : World) (P Q : Meta → Type 0) (a : M (Option Meta)) (k : Meta → M (Option Meta)) (v : World)
    → Settles w P (a v)
    → ((m : Meta) (u : World) → Holds w m u → P m → Settles w Q (k m u))
    → Settles w Q ((a >>? k) v)
Settles-then w P Q a k v (inl (u, e, undone)) next =
    inl (u, bind-run a (if_given k) v u none e, undone)
Settles-then w P Q a k v (inr (m, u, e, h, p)) next =
    subst (Settles w Q) (sym (bind-run a (if_given k) v u (some m) e)) (next m u h p)

-- One block more, if calloc gives it.
abbrev pub allocated : World → Bool → World
allocated v got = record v {
  allocs = drop 1 v.allocs;
  blocks = if got then v.blocks + 1 else v.blocks;
}

abbrev pub total : Meta → ℕ
total m = count m.owned.table + count m.owned.bitmap + count m.owned.zero_data

pub Kept-allocated : (w v : World) (got : Bool) → Kept w v → Kept w (allocated v got)
Kept-allocated w v got k = record {
  files = k.files;
  style = k.style;
  allocs = λ none_left. ap (drop 1) (k.allocs none_left);
}

pub Holds-allocated :
    (w v : World) (m n : Meta) → Holds w m v → total n ≡ total m + 1 → Holds w n (allocated v true)
Holds-allocated w v m n h one_more = record {
  kept = Kept-allocated w v true h.kept;
  handles = h.handles;
  blocks = omega (arith, h.blocks, one_more);
  err = h.err;
}

pub Holds-refused : (w v : World) (m : Meta) → Holds w m v → Holds w m (allocated v false)
Holds-refused w v m h = record {
  kept = Kept-allocated w v false h.kept;
  handles = h.handles;
  blocks = h.blocks;
  err = h.err;
}

-- A calloc whose Failure goes to a label.
pub or_goto-Settles :
    (w v : World) (P : Meta → Type 0) (m n : Meta) (label : M (Option Meta))
    → Holds w m v
    → total n ≡ total m + 1
    → Failure w (stop err_mem label (allocated v false))
    → P n
    → Settles w P
        (or_goto (calloc >>= λ got. if not got then fail err_mem else pure (some n)) label v)
or_goto-Settles w v P m n label h one_more undone p = go (answer v.allocs)
  where
    go :
        (got : Bool)
        → Settles w P (
            continue (or_label label) (
              continue
                (λ got. if not got then fail err_mem else pure (some n))
                (some (got, allocated v got))))
    go true = inr (n, allocated v true, refl, Holds-allocated w v m n h one_more, p)
    go false = inl undone

-- The last calloc of mvhd_open.
pub stop-Settles :
    (w v : World) (P : Meta → Type 0) (m n : Meta) (label : M (Option Meta))
    → Holds w m v
    → total n ≡ total m + 1
    → Failure w (stop err_mem label (allocated v false))
    → P n
    → Settles w P ((calloc >>= λ got. if not got then stop err_mem label else pure (some n)) v)
stop-Settles w v P m n label h one_more undone p = go (answer v.allocs)
  where
    go :
        (got : Bool)
        → Settles w P (
            continue
              (λ got. if not got then stop err_mem label else pure (some n))
              (some (got, allocated v got)))
    go true = inr (n, allocated v true, refl, Holds-allocated w v m n h one_more, p)
    go false = inl undone
