-- ===== src/Backend/Prefix.antt =====
-- libs/cov-api/src/cov/db.cc: the look-up of a file by the first digits of its id.
use git2_cxx.Base.{
  Bool, ◌+◌, ◌&&◌, sym, ℕ, zero, suc, ◌==◌, ◌<◌, ◌≤◌, true, ◌||◌, List, [], ◌∷◌, some, Bytes, leb,
  if◌then◌else◌, length, ◌≡◌, refl, ap, ◌∙◌, arith, Bool-cases, inl, inr, ◌⊎◌, take,
}
use git2_cxx.Text.{eqb, starts_with}
use git2_cxx.Text.Order.{eqb→eq}
use git2_cxx.Objects.{GitOid}
use git2_cxx.Objects.Props.{Json}
use git2_cxx.Backend.{Codec, Store, get_file, missing, lookup_object, matches, lookup_prefix}

starts_with-take : (s : Bytes) (n : ℕ) → starts_with s (take n s) ≡ true
unfolding starts_with
starts_with-take s zero = ground arith
starts_with-take [] (suc n) = ground arith
starts_with-take (x ∷ s) (suc n) = ground (arith, starts_with-take s n)

List-cases : {A : Type 0} (xs : List A) → (xs ≡ []) ⊎ (0 < length xs)
List-cases [] = inl refl
List-cases (x ∷ xs) = inr (omega arith)

List-two :
    {A : Type 0} (xs : List A)
    → 1 < length xs
    → (a : A) × (b : A) × (c : List A) × (xs ≡ a ∷ (b ∷ c))
List-two [] h = absurd (omega arith)
List-two (x ∷ []) h = absurd (omega arith)
List-two (x ∷ (y ∷ xs)) h = (x, y, xs, refl)

nonempty :
    {A : Type 0} {xs : List A} {x : A} → (xs ≡ x ∷ []) ⊎ (1 < length xs) → 1 < suc (length xs)
nonempty (inl e) = rw e (omega arith)
nonempty (inr h) = omega arith

-- A file with these first digits is the only match, or there are several.
matches-get_file :
    (codec : Codec) (json : Json) (store' : Store) (id : GitOid) (prefix contents : Bytes)
    → starts_with (codec.format id) prefix ≡ true
    → get_file store' id ≡ some contents
    → (matches codec json store' prefix ≡ contents ∷ [])
      ⊎ (1 < length (matches codec json store' prefix))
unfolding matches get_file
matches-get_file codec json [] id prefix contents starts there = absurd (ground (arith, there))
matches-get_file codec json ((other, old) ∷ store') id prefix contents starts there =
    elim (Bool-cases (eqb other id)) [
      | inl same ↦
          let here : starts_with (codec.format other) prefix ≡ true =
            ap (λ x. starts_with (codec.format x) prefix) (eqb→eq other id same) ∙ starts in
          let both : old ≡ contents = ground (arith, same, there) in
          elim (List-cases (matches codec json store' prefix)) [
            | inl none_else ↦ inl (rw (here, none_else, both) refl)
            | inr more ↦ inr (rw here (omega arith))
          ]
      | inr differs ↦
          let rest =
            matches-get_file codec json store' id prefix contents starts
              (ground (arith, differs, there)) in
          elim (Bool-cases (starts_with (codec.format other) prefix)) [
            | inl also ↦ inr (rw also (nonempty rest))
            | inr no_match ↦ rw no_match rest
          ]
    ]

-- The digits of an id begin with others.
abbrev begins : Bytes → Bytes → Bool
begins digits prefix = eqb (take (length prefix) digits) prefix

-- How many files of a store have ids whose digits begin with these.
unfoldable pub files_like : Codec → Store → Bytes → ℕ
files_like codec [] prefix = 0
files_like codec ((id, contents) ∷ store') prefix =
    (if begins (codec.format id) prefix then 1 else 0) + files_like codec store' prefix

begins_lem : (s prefix : Bytes) → starts_with s prefix ≡ begins s prefix
unfolding starts_with eqb
begins_lem s [] = ground arith
begins_lem [] (y ∷ prefix) = refl
begins_lem (x ∷ s) (y ∷ prefix) = ap (λ b. x == y && b) (begins_lem s prefix)

length-matches :
    (codec : Codec) (json : Json) (store' : Store) (prefix : Bytes)
    → length (matches codec json store' prefix) ≡ files_like codec store' prefix
unfolding matches files_like
length-matches codec json [] prefix = refl
length-matches codec json ((id, contents) ∷ store') prefix =
    ground (arith, begins_lem (codec.format id) prefix, length-matches codec json store' prefix)

-- With at least 4 digits of the id of a file of the store, a look-up finds what the whole id finds, if
-- 40 digits are given or no other file has an id with the same first digits, and nothing otherwise.
pub lookup_prefix_lem :
    (codec : Codec) (json : Json) (store' : Store) (id : GitOid) (contents : Bytes) (n : ℕ)
    → get_file store' id ≡ some contents
    → 4 ≤ n
    → lookup_prefix codec json store' id n ≡ (
        if leb 40 n || files_like codec store' (take n (codec.format id)) == 1
        then lookup_object codec json store' id
        else missing)
unfolding lookup_prefix lookup_object
lookup_prefix_lem codec json store' id contents n there enough =
    rw (sym (length-matches codec json store' (take n (codec.format id))))
      (elim (matches-get_file codec json store' id (take n (codec.format id)) contents
        (starts_with-take (codec.format id) n) there) [
          | inl only ↦ ground (arith, only, there)
          | inr several ↦ let (a, b, c, e) = List-two _ several in ground (arith, e, there)
        ])
