-- ===== src/Manage/Open/Ready.antt =====
-- manage.c: the pointers and the formatting buffer that mvhd_open adds to a handle.
use mini_vhd.Prelude.{
  ◌+◌, ◌==◌, ◌≡◌, refl, sym, ap, ◌∙◌, subst, Bool, true, false, if◌then◌else◌, Bool-cases, inl, inr,
  arith,
}
use mini_vhd.Layout.{type_fixed, type_dynamic, type_diff}
use mini_vhd.Checksum.{footer_checksum_valid}
use mini_vhd.Image.{
  Meta, Owned, ReadSectors, WriteSectors, fixed_read, sparse_read, diff_read, fixed_write,
  sparse_diff_write, noop_write,
}
use mini_vhd.Manage.{assign_io_funcs, assign_by_type}
use mini_vhd.Manage.Open.{add_format_buffer, with_format_buffer, cleanup_bitmap}
use mini_vhd.Manage.Open.Balance.{
  count, allocated, Holds, Holds-refused, Settles, cleanup_bitmap-Undone, stop-Settles,
}
use mini_vhd.Manage.Open.Stages.{Streamed, Shaped, Loaded, Streamed-same}
use mini_vhd.World.{World, FilePath, err_mem}

-- The functions that a handle calls.
pub record Wired (m : Meta) : Type 0 where
  pub reads_fixed : m.footer.disk_type ≡ type_fixed → m.read_sectors ≡ fixed_read
  pub reads_dynamic : m.footer.disk_type ≡ type_dynamic → m.read_sectors ≡ sparse_read
  pub reads_diff : m.footer.disk_type ≡ type_diff → m.read_sectors ≡ diff_read
  pub writes_nothing : m.readonly ≡ true → m.write_sectors ≡ noop_write
  pub writes_fixed :
      m.readonly ≡ false → m.footer.disk_type ≡ type_fixed → m.write_sectors ≡ fixed_write
  pub writes_dynamic :
      m.readonly ≡ false → m.footer.disk_type ≡ type_dynamic → m.write_sectors ≡ sparse_diff_write
  pub writes_diff :
      m.readonly ≡ false → m.footer.disk_type ≡ type_diff → m.write_sectors ≡ sparse_diff_write

assign_io_funcs-Wired : (m : Meta) → Wired (assign_io_funcs m)
unfolding assign_io_funcs assign_by_type
assign_io_funcs-Wired m = record {
  reads_fixed = λ e. ground arith;
  reads_dynamic = λ e. ground arith;
  reads_diff = λ e. ground arith;
  writes_nothing = λ r. ground arith;
  writes_fixed = λ r e. ground arith;
  writes_dynamic = λ r e. ground arith;
  writes_diff = λ r e. ground arith;
}

abbrev pub with_pointers : Meta → ReadSectors → WriteSectors → Meta
with_pointers m reads writes = record m { read_sectors = reads; write_sectors = writes }

assign_by_type-pointers :
    (m : Meta)
    → (reads : ReadSectors) × (writes : WriteSectors) × (assign_by_type m
        ≡ with_pointers m reads writes)
unfolding assign_by_type
assign_by_type-pointers m = elim (Bool-cases (m.footer.disk_type == type_fixed)) [
  | inl e ↦ (fixed_read, fixed_write, rw e refl)
  | inr e ↦ elim (Bool-cases (m.footer.disk_type == type_dynamic)) [
    | inl d ↦ (sparse_read, sparse_diff_write, rw (e, d) refl)
    | inr d ↦ elim (Bool-cases (m.footer.disk_type == type_diff)) [
      | inl f ↦ (diff_read, sparse_diff_write, rw (e, d, f) refl)
      | inr f ↦ (m.read_sectors, m.write_sectors, rw (e, d, f) refl)
    ]
  ]
]

pub assign_io_funcs-pointers :
    (m : Meta)
    → (reads : ReadSectors) × (writes : WriteSectors) × (assign_io_funcs m
        ≡ with_pointers m reads writes)
unfolding assign_io_funcs
assign_io_funcs-pointers m =
    let (reads, writes, e) = assign_by_type-pointers m in cut m.readonly reads writes e
  where
    cut :
        (b : Bool) (reads : ReadSectors) (writes : WriteSectors)
        → assign_by_type m ≡ with_pointers m reads writes
        → (reads : ReadSectors) × (writes : WriteSectors) × ((if b
              then record (assign_by_type m) { write_sectors = noop_write }
              else assign_by_type m)
            ≡ with_pointers m reads writes)
    cut true reads writes e =
        (reads, noop_write, ap (λ (n : Meta). record n { write_sectors = noop_write }) e)
    cut false reads writes e = (reads, writes, e)

pub assign_io_funcs-footer : (m : Meta) → (assign_io_funcs m).footer ≡ m.footer
assign_io_funcs-footer m =
    let (reads, writes, e) = assign_io_funcs-pointers m in ap (λ (n : Meta). n.footer) e

-- What mvhd_open has made of the file at the path when it turns to the parent.
pub record Ready (w : World) (path : FilePath) (readonly : Bool) (m : Meta) : Type 0 where
  pub streamed : Streamed w path readonly m
  pub valid : footer_checksum_valid m.footer ≡ true
  pub shaped : Shaped m
  pub wired : Wired m
  pub buffered : m.owned.zero_data ≡ true
  pub buffer_sectors : m.format_sector_count ≡ 64

module _ (w : World) (path : FilePath) (readonly : Bool) where
  -- A handle but for its pointers, its formatting buffer and that it is there.
  Assigned : Meta → Type 0
  Assigned m = Loaded w path readonly m × Wired m

  assigned : (m : Meta) → Loaded w path readonly m → Assigned (assign_io_funcs m)
  unfolding Assigned
  assigned m p =
      let (reads, writes, e) = assign_io_funcs-pointers m in
      (subst (Loaded w path readonly) (sym e) (same reads writes p), assign_io_funcs-Wired m)
    where
      same :
          (reads : ReadSectors) (writes : WriteSectors)
          → Loaded w path readonly m
          → Loaded w path readonly (with_pointers m reads writes)
      same reads writes (s, z, valid, inl (fixed, plain)) = (
        Streamed-same w path readonly m (with_pointers m reads writes) refl refl refl refl s,
        z,
        valid,
        inl (fixed, record { table = plain.table; bitmap = plain.bitmap }),
      )
      same reads writes (s, z, valid, inr (sparse, t)) = (
        Streamed-same w path readonly m (with_pointers m reads writes) refl refl refl refl s,
        z,
        valid,
        inr (
          sparse,
          record {
            header = t.header;
            table_size = t.table_size;
            sect_per_block = t.sect_per_block;
            bitmap_size = t.bitmap_size;
            bitmap_sectors = t.bitmap_sectors;
            no_block = t.no_block;
            table = t.table;
            bitmap = t.bitmap;
          },
        ),
      )

  assign-owned : (m : Meta) → (assign_io_funcs m).owned ≡ m.owned
  assign-owned m =
      let (reads, writes, e) = assign_io_funcs-pointers m in ap (λ (n : Meta). n.owned) e

  buffered : (m : Meta) → Assigned m → Ready w path readonly (with_format_buffer m)
  unfolding Assigned
  buffered m ((s, z, valid, shaped), wired) = record {
    streamed = Streamed-same w path readonly m (with_format_buffer m) refl refl refl refl s;
    valid = valid;
    shaped = reshape shaped;
    wired = record {
      reads_fixed = wired.reads_fixed;
      reads_dynamic = wired.reads_dynamic;
      reads_diff = wired.reads_diff;
      writes_nothing = wired.writes_nothing;
      writes_fixed = wired.writes_fixed;
      writes_dynamic = wired.writes_dynamic;
      writes_diff = wired.writes_diff;
    };
    buffered = refl;
    buffer_sectors = refl;
  }
    where
      reshape : Shaped m → Shaped (with_format_buffer m)
      reshape (inl (fixed, plain)) =
          inl (fixed, record { table = plain.table; bitmap = plain.bitmap })
      reshape (inr (sparse, t)) = inr (
        sparse,
        record {
          header = t.header;
          table_size = t.table_size;
          sect_per_block = t.sect_per_block;
          bitmap_size = t.bitmap_size;
          bitmap_sectors = t.bitmap_sectors;
          no_block = t.no_block;
          table = t.table;
          bitmap = t.bitmap;
        },
      )

  pub add_format_buffer-Settles :
      (m : Meta) (v : World)
      → Holds w m v
      → Loaded w path readonly m
      → Settles w (Ready w path readonly) (add_format_buffer (assign_io_funcs m) v)
  unfolding add_format_buffer
  add_format_buffer-Settles m v h p =
      let n = assign_io_funcs m in
      let own = assign-owned m in
      let held : Holds w n v = record {
        kept = h.kept;
        handles = h.handles;
        blocks =
            h.blocks
            ∙ ap (λ (o : Owned). w.blocks + 1 + count o.table + count o.bitmap + count o.zero_data)
                (sym own);
        err = h.err;
      } in
      let zero_data : n.owned.zero_data ≡ false = ap (λ (o : Owned). o.zero_data) own ∙ p.1 in
      stop-Settles w v (Ready w path readonly) n (with_format_buffer n) (cleanup_bitmap n) held
        (omega (arith, ap count zero_data))
        (cleanup_bitmap-Undone w n (allocated v false) err_mem (Holds-refused w v n held) zero_data)
        (buffered n (assigned m p))
