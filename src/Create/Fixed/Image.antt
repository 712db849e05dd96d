-- ===== src/Create/Fixed/Image.antt =====
-- create.c: the file of a fixed image, sectors of zeros and a footer.
use mini_vhd.Prelude.{
  ℕ, zero, suc, ◌+◌, ◌-◌, ◌*◌, ◌<◌, ◌≡◌, refl, ap, ◌∙◌, subst, true, length, List, [], ◌∷◌, ◌++◌,
  get_or, arith,
}
use mini_vhd.Memory.{of_list}
use mini_vhd.Stdio.{File, write}
use mini_vhd.Stdio.Writes.{write-new}
use mini_vhd.Layout.{Footer, Geom}
use mini_vhd.StructRw.{footer_to_buffer, put_bytes}
use mini_vhd.StructRw.Fields.{put_bytes_lem}
use mini_vhd.Cookie.Last.{EndsIn}
use mini_vhd.Manage.Open.Accept.{Stands}
use mini_vhd.Create.Signed.{Signed}
use mini_vhd.Create.Fixed.{zero_sectors}
use mini_vhd.World.{Host, same_bytes}

pub same_bytes_refl : (xs : List ℕ) → same_bytes xs xs ≡ true
unfolding same_bytes
same_bytes_refl [] = refl
same_bytes_refl (x ∷ xs) = ground (arith, same_bytes_refl xs)

get_or-append : (xs ys : List ℕ) (i : ℕ) → i < length xs → get_or (xs ++ ys) i 0 ≡ get_or xs i 0
get_or-append [] ys i h = absurd (omega arith)
get_or-append (x ∷ xs) ys zero h = refl
get_or-append (x ∷ xs) ys (suc i) h = get_or-append xs ys i (omega arith)

-- The file so far: sectors of zeros, at whose end the stream stands.
pub record Zeros (size : ℕ) (f : File) : Type 0 where
  pub at_end : f.pos ≡ size
  pub size_is : f.size ≡ size
  pub zeros : (i : ℕ) → i < size → f.byte i ≡ 0

pub zero_sectors-Zeros :
    (n size : ℕ) (f : File) → Zeros size f → Zeros (size + n * 512) (zero_sectors n f)
unfolding zero_sectors
zero_sectors-Zeros zero size f z = subst (λ s. Zeros s f) (omega arith) z
zero_sectors-Zeros (suc n) size f z =
    subst (λ s. Zeros s (zero_sectors n (write f (λ i. 0) 0 512))) (omega arith)
      (zero_sectors-Zeros n (size + 512) (write f (λ i. 0) 0 512) (record {
        at_end = omega (arith, z.at_end);
        size_is = ground (arith, z.at_end, z.size_is);
        zeros = λ i h. ground (arith, z.at_end, z.size_is, z.zeros i);
      }))

pub Signed-Stands :
    (host : Host) (size : ℕ) (geom : Geom) (type : ℕ) (f : Footer)
    → Signed host size geom type f
    → Stands f
unfolding footer_to_buffer
Signed-Stands host size geom type f s = record {
  fits = s.fits;
  valid = s.valid;
  cookie = λ i h.
      let same = put_bytes_lem 8 f.cookie s.fits.cookie_fits in
      get_or-append (put_bytes 8 f.cookie) _ i (omega (arith, ap length same, s.fits.cookie_fits))
      ∙ ap (λ xs. get_or xs i 0) (same ∙ s.cookie);
}

pub with_footer :
    (f : File) (sector : List ℕ) → f.pos ≡ f.size → EndsIn (write f (of_list sector) 0 512) sector
with_footer f sector at_end = record {
  large = ground arith;
  last = λ i h.
      let g = write f (of_list sector) 0 512 in
      let grown : g.size ≡ f.pos + 512 = ground arith in
      let place : g.size - 512 + i ≡ f.pos + i = omega (arith, grown) in
      ap g.byte place
      ∙ write-new f (of_list sector) 0 512 i h
      ∙ ap (λ k. get_or sector k 0) (omega arith);
}
