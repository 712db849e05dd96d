-- ===== src/Manage/Open/Run.antt =====
-- manage.c: mvhd_open of a file that ends in a valid footer, up to the parent.
use mini_vhd.Prelude.{
  ◌+◌, ◌<◌, ◌≡◌, refl, sym, ap, ◌∙◌, subst, Bool, true, false, not, leb, length, if◌then◌else◌,
  Option, some, [], drop, inl, inr, arith,
}
use mathlib.Core.Option.{some-injective, none-ne-some}
use mini_vhd.Stdio.{File}
use mini_vhd.Layout.{Footer, max_path_bytes}
use mini_vhd.StructRw.{footer_to_buffer}
use mini_vhd.Image.{Meta}
use mini_vhd.Manage.{new_meta, assign_io_funcs}
use mini_vhd.Manage.Open.{
  open_stream, mode_for, load_footer, load_by_type, add_format_buffer, with_format_buffer, open_in,
  open_alone, stop, cleanup_bitmap,
}
use mini_vhd.Cookie.Last.{EndsIn, EndsIn-moved}
use mini_vhd.Manage.Open.Accept.{Stands, load_footer_run}
use mini_vhd.Manage.Open.Balance.{allocated, Holds, Settles}
use mini_vhd.World.{
  World, Host, FilePath, M, ◌>>?◌, if_given, bind-run, continue, answer, err_mem, fopen, pure,
  calloc, ◌>>=◌,
}

pub step :
    {A B : Type 0} (a : M (Option A)) (k : A → M (Option B)) (v u : World) (m : A)
    (r : Option (Option B × World))
    → a v ≡ some (some m, u)
    → k m u ≡ r
    → (a >>? k) v ≡ r
step a k v u m r e h = bind-run a (if_given k) v u (some m) e ∙ h

open_stream_run :
    (host : Host) (path : FilePath) (readonly : Bool) (file : File) (u : World)
    → length path < max_path_bytes
    → host.permits path (mode_for readonly) ≡ true
    → u.files path ≡ some file
    → open_stream host path readonly u
      ≡ some (
        some (new_meta path readonly (record file { pos = 0 })),
        record u { handles = u.handles + 1 },
      )
unfolding open_stream fopen
open_stream_run host path true file u small permitted found =
    let short : leb max_path_bytes (length path) ≡ false = ground arith in
    rw (short, permitted, found) refl
open_stream_run host path false file u small permitted found =
    let short : leb max_path_bytes (length path) ≡ false = ground arith in
    rw (short, permitted, found) refl

-- A step that allocates, when there is the memory.
pub given_memory :
    {A : Type 0} (refused : M (Option A)) (n : A) (v : World)
    → answer v.allocs ≡ true
    → (calloc >>= λ got. if not got then refused else pure (some n)) v
      ≡ some (some n, allocated v true)
given_memory refused n v got =
    subst
      (λ b.
        continue (λ (got : Bool). if not got then refused else pure (some n))
          (some (b, allocated v b))
        ≡ some (some n, allocated v true))
      (sym got) refl

add_format_buffer_run :
    (m : Meta) (v : World)
    → answer v.allocs ≡ true
    → add_format_buffer m v ≡ some (some (with_format_buffer m), allocated v true)
unfolding add_format_buffer
add_format_buffer_run m v got =
    given_memory (stop err_mem (cleanup_bitmap m)) (with_format_buffer m) v got

-- The file ends in a footer, and the call may open it.
pub record Footed (host : Host) (w : World) (path : FilePath) (readonly : Bool) (f : Footer)
    : Type 0 where
  pub memory : w.allocs ≡ []
  pub short : length path < max_path_bytes
  pub permitted : host.permits path (mode_for readonly) ≡ true
  pub file : File
  pub found : w.files path ≡ some file
  pub ends : EndsIn file (footer_to_buffer f)
  pub stands : Stands f

-- What is known of a run that succeeded.
pub settled :
    (w : World) (P : Meta → Type 0) (r : Option (Option Meta × World)) (m : Meta) (v : World)
    → r ≡ some (some m, v)
    → Settles w P r
    → Holds w m v × P m
settled w P r m v e (inl (u, stops, undone)) =
    absurd
      (none-ne-some m (ap (λ (x : Option Meta × World). x.0) (some-injective _ _ (sym stops ∙ e))))
settled w P r m v e (inr (n, u, runs, held, p)) =
    let same = some-injective _ _ (sym runs ∙ e) in
    let same_handle : n ≡ m = some-injective _ _ (ap (λ (x : Option Meta × World). x.0) same) in
    let same_world : u ≡ v = ap (λ (x : Option Meta × World). x.1) same in
    subst (λ x. Holds w x v × P x) same_handle (subst (λ y. Holds w n y × P n) same_world (held, p))

-- The handle as load_by_type finds it.
pub record OnFile (file : File) (f : Footer) (n : Meta) (v : World) : Type 0 where
  pub memory : v.allocs ≡ []
  pub footer : n.footer ≡ f
  pub size : n.f.size ≡ file.size
  pub byte : n.f.byte ≡ file.byte

-- What load_by_type makes of it.
abbrev pub Loads : Host → (Meta → Type 0) → Meta → World → Type 0
Loads host P n v =
    (n' : Meta) × (v' : World) × (load_by_type host n v ≡ some (some n', v'))
    × (v'.allocs ≡ [])
    × P n'

module _ (host : Host) (w : World) (path : FilePath) (readonly : Bool) (f : Footer)
    (footed : Footed host w path readonly f) where
  pub open_alone_run :
      (P : Meta → Type 0)
      → ((n : Meta) (v : World) → OnFile footed.file f n v → Loads host P n v)
      → (n : Meta) × (v : World) × (open_alone host path readonly w
          ≡ some (some (with_format_buffer (assign_io_funcs n)), v))
        × P n
  unfolding open_alone open_in
  open_alone_run P loads =
      let u = allocated w true in
      let v = record u { handles = u.handles + 1 } in
      let m = new_meta path readonly (record footed.file { pos = 0 }) in
      let (n, first, same, size, byte) =
        load_footer_run host m v f
          (EndsIn-moved footed.file m.f (footer_to_buffer f) refl refl footed.ends) footed.stands in
      let on : OnFile footed.file f n v = record {
        memory = ap (drop 1) footed.memory;
        footer = same;
        size = size;
        byte = byte;
      } in
      let (n', v', second, memory, p) = loads n v on in
      let last = add_format_buffer_run (assign_io_funcs n') v' (ap answer memory) in
      let tail = λ (m : Meta). add_format_buffer (assign_io_funcs m) in
      let stream = open_stream host path readonly in
      let end : Option (Option Meta × World) =
        some (some (with_format_buffer (assign_io_funcs n')), allocated v' true) in
      let runs : (stream >>? load_footer host >>? load_by_type host >>? tail) u ≡ end =
        step (stream >>? load_footer host >>? load_by_type host) tail u v' n' end
          (step (stream >>? load_footer host) (load_by_type host) u v n (some (some n', v'))
            (step stream (load_footer host) u v m (some (some n, v))
              (open_stream_run host path readonly footed.file u footed.short footed.permitted
                footed.found)
              first)
            second)
          last in
      (
        n',
        allocated v' true,
        subst
            (λ b.
              continue (λ (got : Bool). open_in got host path readonly) (some (b, allocated w b))
              ≡ end)
            (sym (ap answer footed.memory)) runs,
        p,
      )
