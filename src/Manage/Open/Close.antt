-- ===== src/Manage/Open/Close.antt =====
-- mvhd_close gives back what mvhd_open holds.
use mini_vhd.Prelude.{
  ℕ, ◌+◌, ◌-◌, ◌≡◌, refl, Bool, true, false, if◌then◌else◌, some, [], ◌∷◌, arith,
}
use mini_vhd.Image.{Meta}
use mini_vhd.Manage.Open.{close, close_one, open_alone}
use mini_vhd.Manage.Open.Balance.{count, released, Holds}
use mini_vhd.Manage.Open.Ready.{Ready}
use mini_vhd.Manage.Open.Outcome.{open_alone-Settles}
use mini_vhd.Manage.Open.Run.{settled}
use mini_vhd.World.{World, Host, M, FilePath, fclose, free, free_if, ◌>>◌}

-- The frees of a handle.
abbrev frees : Meta → M (Unit {0})
frees m = free_if m.owned.table >> (free_if m.owned.bitmap >> (free_if m.owned.zero_data >> free))

-- The count of blocks after those frees.
all_released :
    (table bitmap zero_data : Bool) (n k : ℕ)
    → n ≡ k + 1 + count table + count bitmap + count zero_data
    → let after_table = if table then n - 1 else n in
      let after_bitmap = if bitmap then after_table - 1 else after_table in
      (if zero_data then after_bitmap - 1 else after_bitmap) - 1 ≡ k
all_released table bitmap zero_data n k e =
    let after_table = if table then n - 1 else n in
    let after_bitmap = if bitmap then after_table - 1 else after_table in
    let one : after_table ≡ k + 1 + count bitmap + count zero_data =
      released table n (k + 1 + count bitmap + count zero_data) (omega (arith, e)) in
    let two : after_bitmap ≡ k + 1 + count zero_data =
      released bitmap after_table (k + 1 + count zero_data) (omega (arith, one)) in
    let three = released zero_data after_bitmap (k + 1) (omega (arith, two)) in omega (arith, three)

pub close-Holds :
    (w : World) (m : Meta) (v : World)
    → Holds w m v
    → (u : World) × (close (m ∷ []) v ≡ some (tt, u))
      × (u.handles ≡ w.handles)
      × (u.blocks ≡ w.blocks)
      × (u.err ≡ w.err)
unfolding close close_one
close-Holds w m v h = go m.readonly
  where
    go :
        (readonly : Bool)
        → (u : World) × ((fclose readonly m.filename m.f >> frees m) v ≡ some (tt, u))
          × (u.handles ≡ w.handles)
          × (u.blocks ≡ w.blocks)
          × (u.err ≡ w.err)
    go true = (
      _,
      refl,
      omega (arith, h.handles),
      all_released m.owned.table m.owned.bitmap m.owned.zero_data v.blocks w.blocks h.blocks,
      h.err,
    )
    go false = (
      _,
      refl,
      omega (arith, h.handles),
      all_released m.owned.table m.owned.bitmap m.owned.zero_data v.blocks w.blocks h.blocks,
      h.err,
    )

-- Closing a handle that an open has given, with no parent, leaves as many streams and blocks in use as
-- there were before the open, and the error as it was.
pub close-open_alone :
    (host : Host) (path : FilePath) (readonly : Bool) (w : World) (m : Meta) (v : World)
    → open_alone host path readonly w ≡ some (some m, v)
    → (u : World) × (close (m ∷ []) v ≡ some (tt, u))
      × (u.handles ≡ w.handles)
      × (u.blocks ≡ w.blocks)
      × (u.err ≡ w.err)
close-open_alone host path readonly w m v opens =
    let (held, ready) =
      settled w (Ready w path readonly) (open_alone host path readonly w) m v opens
        (open_alone-Settles w path readonly host) in
    close-Holds w m v held
