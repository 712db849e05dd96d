-- ===== src/Create/Signed.antt =====
-- create.c: the footer that gen_footer makes is one that mvhd_open accepts.
use mini_vhd.Prelude.{
  ℕ, ◌+◌, ◌-◌, ◌^◌, ◌≤◌, ◌<◌, ◌≡◌, refl, ltb, ◌==◌, ==_iff, true, false, Option, none, some, sym,
  ap, ◌∙◌, arith,
}
use mini_vhd.Layout.{Footer, FooterFits, Geom, GeomFits, start_ts, type_dynamic, type_diff}
use mini_vhd.Checksum.{footer_checksum_valid, gen_footer_checksum}
use mini_vhd.Cookie.{conectix_cookie}
use mini_vhd.Util.Clock.{calc_timestamp}
use mini_vhd.Util.Uuid.Version.{generate_uuid-version}
use mathlib.Core.Option.{some-injective}
use mini_vhd.Create.{gen_footer, footer_at, unsigned_footer, sign_footer}
use mini_vhd.World.{Host}

-- What mvhd_open and mvhd_get_created_time ask of a footer.
pub record Signed (host : Host) (size_in_bytes : ℕ) (geom : Geom) (type : ℕ) (f : Footer)
    : Type 0 where
  pub fits : FooterFits f
  pub valid : footer_checksum_valid f ≡ true
  pub cookie : f.cookie ≡ conectix_cookie
  pub disk_type : f.disk_type ≡ type
  pub curr_sz : f.curr_sz ≡ size_in_bytes
  pub geom_is : f.geom ≡ geom
  pub created : start_ts + f.timestamp ≡ host.now

sign_footer-valid : (f : Footer) → footer_checksum_valid (sign_footer f) ≡ true
unfolding footer_checksum_valid gen_footer_checksum
sign_footer-valid f = (==_iff (gen_footer_checksum f) (gen_footer_checksum f)).1 refl

calc_timestamp_lem :
    (host : Host)
    → start_ts ≤ host.now
    → host.now < start_ts + 2 ^ 32
    → calc_timestamp host ≡ some (host.now - start_ts)
unfolding calc_timestamp
calc_timestamp_lem host low high =
    let late : ltb host.now start_ts ≡ false = ground arith in
    let small : ltb (host.now - start_ts) (2 ^ 32) ≡ true = ground arith in rw (late, small) refl

module _ (host : Host) (size_in_bytes : ℕ) (geom : Geom) (type sparse_header_off : ℕ) where
  sign :
      (ts : ℕ)
      → start_ts + ts ≡ host.now
      → ts < 2 ^ 32
      → GeomFits geom
      → size_in_bytes < 2 ^ 64
      → type < 2 ^ 32
      → sparse_header_off < 2 ^ 64
      → Signed host size_in_bytes geom type
          (sign_footer (unsigned_footer host ts size_in_bytes geom type sparse_header_off))
  unfolding unsigned_footer gen_footer_checksum
  sign ts now small geom_fits size_fits type_fits off_fits = record {
    fits = record {
      cookie_fits = refl;
      features_fits = omega arith;
      fi_fmt_vers_fits = omega arith;
      data_offset_fits = ground arith;
      timestamp_fits = small;
      cr_app_fits = refl;
      cr_vers_fits = omega arith;
      cr_host_os_fits = refl;
      orig_sz_fits = size_fits;
      curr_sz_fits = size_fits;
      geom_fits = geom_fits;
      disk_type_fits = type_fits;
      checksum_fits = omega arith;
      uuid_fits = (generate_uuid-version host).0;
      saved_st_fits = omega arith;
      reserved_fits = refl;
    };
    valid = sign_footer-valid (unsigned_footer host ts size_in_bytes geom type sparse_header_off);
    cookie = refl;
    disk_type = refl;
    curr_sz = refl;
    geom_is = refl;
    created = now;
  }

  -- A clock from 2000 on, for 2 ^ 32 seconds, makes a footer: it fits the C types, its checksum is that
  -- of its bytes, it has the cookie, and its timestamp is the clock's.
  pub gen_footer-Signed :
      GeomFits geom
      → size_in_bytes < 2 ^ 64
      → type < 2 ^ 32
      → sparse_header_off < 2 ^ 64
      → start_ts ≤ host.now
      → host.now < start_ts + 2 ^ 32
      → (f : Footer) × (gen_footer host size_in_bytes geom type sparse_header_off ≡ some f)
        × Signed host size_in_bytes geom type f
  unfolding gen_footer
  gen_footer-Signed geom_fits size_fits type_fits off_fits low high =
      let ts = host.now - start_ts in
      (
        sign_footer (unsigned_footer host ts size_in_bytes geom type sparse_header_off),
        rw (calc_timestamp_lem host low high) refl,
        sign ts (omega arith) (omega arith) geom_fits size_fits type_fits off_fits,
      )

  -- The place of the sparse header, in the footer of an image that has one.
  pub gen_footer-data_offset :
      (f : Footer)
      → gen_footer host size_in_bytes geom type sparse_header_off ≡ some f
      → type ≡ type_dynamic
      → f.data_offset ≡ sparse_header_off
  unfolding gen_footer unsigned_footer
  gen_footer-data_offset f made dynamic = by_time (calc_timestamp host) made
    where
      by_time :
          (ts : Option ℕ)
          → footer_at ts host size_in_bytes geom type sparse_header_off ≡ some f
          → f.data_offset ≡ sparse_header_off
      by_time none e = cc
      by_time (some ts) e =
          let is_dynamic : (type == type_dynamic) ≡ true = ground arith in
          let not_diff : (type == type_diff) ≡ false = ground arith in
          ap (λ (g : Footer). g.data_offset) (sym (some-injective _ _ e))
          ∙ rw (not_diff, is_dynamic) refl
