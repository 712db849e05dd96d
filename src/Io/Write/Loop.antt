-- ===== src/Io/Write/Loop.antt =====
-- The write loop over any number of sectors.
use mini_vhd.Prelude.{ℕ, zero, suc, ◌+◌, ◌-◌, ◌*◌, ◌≤◌, ◌<◌, ◌≡◌, refl, sym, ap, ◌∙◌, min, arith}
use mini_vhd.Prelude.{inl, inr}
use mini_vhd.Prelude.{some}
use mini_vhd.Layout.{sector_size}
use mini_vhd.Io.{Cursor}
use mini_vhd.Io.SparseRead.Loop.{div_below}
use mini_vhd.Io.Write.{write_loop}
use mini_vhd.Io.Write.State.{Same-refl, Same-trans}
use mini_vhd.Io.Write.Room.{absent, growth, Grows-refl, Grows-trans, room-rest}
use mini_vhd.Io.Write.Persist.{Persists-refl, Persists-trans}
use mini_vhd.Io.Write.Held.{growth-Same}
use mini_vhd.Io.Write.Round.{Ongoing, Wrote, write_sector_lem}
use mathlib.Core.Path.{subst}

Wrote-zero : (k blocks s : ℕ) (c : Cursor) → Wrote k blocks 0 s c c
Wrote-zero k blocks s c = record {
  same = Same-refl c.vhdm;
  added = 0;
  few = omega arith;
  grows = Grows-refl c.vhdm;
  persists = Persists-refl c.vhdm;
  buff = omega arith;
  mem = refl;
  last = inl (refl, refl);
  cells = λ t j ht hj. sym (ground arith);
}

Wrote-suc :
    (k blocks n s : ℕ) (c c' c'' : Cursor)
    → Wrote k blocks 1 s c c'
    → Wrote k blocks n (s + 1) c' c''
    → Wrote k blocks (suc n) s c c''
Wrote-suc k blocks n s c c' c'' one rest = record {
  same = Same-trans c.vhdm c'.vhdm c''.vhdm one.same rest.same;
  added = one.added + rest.added;
  few = omega (arith, one.few, rest.few);
  grows =
      Grows-trans c.vhdm c'.vhdm c''.vhdm one.added rest.added (growth-Same c.vhdm c'.vhdm one.same)
        one.grows rest.grows;
  persists = Persists-trans c.vhdm c'.vhdm c''.vhdm one.persists rest.persists;
  buff = omega (arith, one.buff, rest.buff);
  mem = rest.mem ∙ one.mem;
  last = elim rest.last [
    | inl (none_left, e) ↦ elim one.last [
      | inl (no_round, d) ↦ absurd (omega arith)
      | inr (p, d) ↦ inr (p, e ∙ d)
    ]
    | inr more ↦ inr more
  ];
  cells = λ t j ht hj. ground (
    arith,
    rest.cells t j ht hj,
    one.cells t j ht hj,
    ap (λ (mem : ℕ → ℕ). mem (c'.buff + (t - (s + 1)) * sector_size + j)) one.mem,
    one.buff,
  );
}

pub write_loop_lem :
    (n k blocks s : ℕ) (c : Cursor)
    → Ongoing k blocks s c
    → 0 < k
    → c.vhdm.f.size + min n (absent c.vhdm) * growth c.vhdm + 512 ≤ 0xffffffff * 512
    → s + n ≤ blocks * k
    → (c' : Cursor) × (write_loop n s c ≡ some c')
      × Ongoing k blocks (s + n) c'
      × Wrote k blocks n s c c'
unfolding write_loop
write_loop_lem zero k blocks s c on pos small room =
    (c, refl, subst (λ t. Ongoing k blocks t c) (omega arith) on, Wrote-zero k blocks s c)
write_loop_lem (suc n) k blocks s c on pos small room =
    let (c', runs, on', one) =
      write_sector_lem k blocks s c on pos (omega arith) (div_below s k blocks pos (omega arith)) in
    let one_more : 1 + n ≡ suc n = omega arith in
    let (c'', more, done, rest) =
      write_loop_lem n k blocks (s + 1) c' on' pos
        (omega (
          arith,
          room-rest c.vhdm c'.vhdm n 1 one.added (growth-Same c.vhdm c'.vhdm one.same) one.grows
              one.few,
          ap (λ t. min t (absent c.vhdm) * growth c.vhdm) one_more,
        ))
        (omega arith) in
    (
      c'',
      rw (runs, more) refl,
      subst (λ t. Ongoing k blocks t c'') (omega arith) done,
      Wrote-suc k blocks n s c c' c'' one rest,
    )
