-- ===== src/Backend/Dict.antt =====
-- libs/cov-api/src/cov/db.cc: the files of a store, by their ids.
use git2_cxx.Base.{
  true, false, [], ◌∷◌, some, Bytes, if◌then◌else◌, ◌≡◌, refl, ap, sym, ◌∙◌, arith, Bool-cases, inl,
  inr,
}
use git2_cxx.Text.{eqb}
use git2_cxx.Text.Order.{eqb→eq}
use git2_cxx.Objects.{GitOid}
use git2_cxx.Backend.{Store, put_file, get_file}

eqb_sym : (s t : Bytes) → eqb s t ≡ eqb t s
unfolding eqb
eqb_sym [] [] = refl
eqb_sym [] (y ∷ t) = refl
eqb_sym (x ∷ s) [] = refl
eqb_sym (x ∷ s) (y ∷ t) = ground (arith, eqb_sym s t)

eqb-false : (s t u : Bytes) → eqb s t ≡ false → eqb s u ≡ true → eqb t u ≡ false
eqb-false s t u differs same = ap (λ x. eqb t x) (sym (eqb→eq s u same)) ∙ eqb_sym t s ∙ differs

pub get_file-put_file :
    (store' : Store) (id other : GitOid) (contents : Bytes)
    → get_file (put_file store' id contents) other
      ≡ (if eqb id other then some contents else get_file store' other)
unfolding get_file put_file
get_file-put_file [] id other contents = refl
get_file-put_file ((there, old) ∷ store') id other contents = elim (Bool-cases (eqb there id)) [
  | inl same ↦ ground (arith, same, sym (eqb→eq there id same))
  | inr differs ↦ elim (Bool-cases (eqb there other)) [
    | inl found_there ↦
        ground (arith, differs, found_there, eqb-false there id other differs found_there)
    | inr elsewhere ↦ ground (arith, differs, elsewhere, get_file-put_file store' id other contents)
  ]
]
