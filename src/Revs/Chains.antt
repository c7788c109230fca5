-- ===== src/Revs/Chains.antt =====
-- `locate_range` of libs/cov-api/src/cov/revparse.cc, on the histories of two reports.
use git2_cxx.Base.{
  ℕ, ◌==◌, ◌<◌, ◌≤◌, true, false, List, [], ◌∷◌, ◌++◌, Option, some, if◌then◌else◌, ◌≡◌, ◌≢◌, refl,
  ap, sym, ◌∙◌, length, length-append, append_assoc, arith, Bool-cases, inl, inr, ◌⊎◌,
}
use git2_cxx.Revs.{Oid, Repo, Revs, next, contains, locate, locate_range}
use git2_cxx.Revs.Range.{first, IsChain, Lacks, meet, apart, Lacks-nil, Lacks-head, Lacks-tail}

-- The newest id of the first history that the second has too; zero if there is none.
unfoldable pub first_common : List Oid → List Oid → Oid
first_common [] fs = 0
first_common (t ∷ ts) fs = if contains fs t then t else first_common ts fs

Lacks-sym : (xs ys : List Oid) → Lacks ys xs → Lacks xs ys
Lacks-sym xs [] h = tt
Lacks-sym xs (y ∷ ys) h = (Lacks-head y ys xs h, Lacks-sym xs ys (Lacks-tail y ys xs h))

contains-front :
    (x : Oid) (ys zs : List Oid) → contains (ys ++ zs) x ≡ false → contains ys x ≡ false
unfolding contains
contains-front x [] zs h = refl
contains-front x (y ∷ ys) zs h = ground (arith, contains-front x ys zs)

Lacks-of_append : (xs ys zs : List Oid) → Lacks (ys ++ zs) xs → Lacks ys xs
Lacks-of_append [] ys zs h = tt
Lacks-of_append (x ∷ xs) ys zs h = (contains-front x ys zs h.0, Lacks-of_append xs ys zs h.1)

Lacks-append : (ys xs zs : List Oid) → Lacks ys xs → Lacks ys zs → Lacks ys (xs ++ zs)
Lacks-append ys [] zs h k = k
Lacks-append ys (x ∷ xs) zs h k = (h.0, Lacks-append ys xs zs h.1 k)

-- What stands in a list stands behind a part that lacks it.
split_at :
    (c : Oid) (xs : List Oid)
    → contains xs c ≡ true
    → (front : List Oid) × (back : List Oid) × (xs ≡ front ++ c ∷ back) × (contains front c ≡ false)
unfolding contains
split_at c [] h = cc
split_at c (x ∷ xs) h = elim (Bool-cases (x == c)) [
  | inl e ↦ let same : x ≡ c = ground arith in ([], xs, rw same, refl)
  | inr e ↦
      let (front, back, q, out) = split_at c xs (ground arith) in
      (x ∷ front, back, rw q, ground arith)
]

module _ (parent : Oid → Option Oid) where
  IsChain-back : (xs ys : List Oid) → IsChain parent (xs ++ ys) → IsChain parent ys
  IsChain-back [] ys h = h
  IsChain-back (x ∷ xs) ys h = IsChain-back xs ys h.1

  -- A history is determined by its first id.
  IsChain-eq :
      (xs ys : List Oid) → IsChain parent xs → IsChain parent ys → first xs ≡ first ys → xs ≡ ys
  IsChain-eq [] [] h k e = refl
  IsChain-eq [] (y ∷ ys) h k e = cc
  IsChain-eq (x ∷ xs) [] h k e = cc
  IsChain-eq (x ∷ xs) (y ∷ ys) h k e =
      let same : x ≡ y = cc in
      let rest = IsChain-eq xs ys h.1 k.1 (sym h.0 ∙ ap parent same ∙ k.0) in cc

  -- Nothing in front of `c` in a history comes up again behind it.
  Lacks-behind :
      (bs : List Oid) (c : Oid) (rest xs : List Oid)
      → IsChain parent (bs ++ c ∷ rest)
      → IsChain parent xs
      → length xs ≤ length rest
      → Lacks bs xs
  Lacks-behind bs c rest [] h k le = tt
  Lacks-behind bs c rest (x ∷ xs) h k le = (out, Lacks-behind bs c rest xs h k.1 (omega arith))
    where
      cyclic : contains bs x ≡ true → ⊥
      cyclic q =
          let (front, back, e, _) = split_at x bs q in
          let whole : bs ++ c ∷ rest ≡ front ++ (x ∷ back ++ c ∷ rest) = rw e (simp append_assoc) in
          let again = IsChain-back front (x ∷ (back ++ c ∷ rest)) (rw whole at h) in
          let same = IsChain-eq (x ∷ xs) (x ∷ (back ++ c ∷ rest)) k again refl in
          omega (arith, ap length same, length-append back (c ∷ rest))

      out : contains bs x ≡ false
      out = elim (Bool-cases (contains bs x)) [ inl q ↦ absurd (cyclic q) | inr q ↦ q ]

  -- Two histories share nothing, or one tail, from the first common id on.
  share :
      (ts fs : List Oid)
      → (Lacks fs ts × (first_common ts fs ≡ 0))
        ⊎ ((front : List Oid) × (c : Oid) × (rest : List Oid) × (ts ≡ front ++ c ∷ rest)
            × Lacks fs front
            × (contains fs c ≡ true)
            × (first_common ts fs ≡ c))
  unfolding first_common
  share [] fs = inl (tt, refl)
  share (t ∷ ts) fs = elim (Bool-cases (contains fs t)) [
    | inl e ↦ inr ([], t, ts, refl, tt, e, rw e)
    | inr e ↦ elim (share ts fs) [
      | inl (out, z) ↦ inl ((e, out), rw e z)
      | inr (front, c, rest, q, out, hit, z) ↦ inr (t ∷ front, c, rest, rw q, (e, out), hit, rw e z)
    ]
  ]

  -- The loop ends within as many rounds as the longer history has ids, at the newest id of the
  -- history of `to` that the history of `from` has too, and at the zero id if they share nothing.
  pub locate-first_common :
      (fuel : ℕ) (ts fs : List Oid)
      → length ts < fuel
      → length fs < fuel
      → IsChain parent ts
      → IsChain parent fs
      → locate fuel parent [] [] (first ts) (first fs) ≡ some (first_common ts fs)
  locate-first_common fuel ts fs f g ct cf = elim (share ts fs) [
    | inl (out, z) ↦ rw z (
        apart parent fuel [] [] ts fs f g ct cf (Lacks-nil ts) (Lacks-nil fs) (Lacks-sym ts fs out))
    | inr (front, c, rest, e, out, hit, z) ↦
        let (front', rest', e', out') = split_at c fs hit in
        let ct' : IsChain parent (front ++ c ∷ rest) = rw e at ct in
        let cf' : IsChain parent (front' ++ c ∷ rest') = rw e' at cf in
        let ends : c ∷ rest ≡ c ∷ rest' =
          IsChain-eq (c ∷ rest) (c ∷ rest') (IsChain-back front (c ∷ rest) ct')
            (IsChain-back front' (c ∷ rest') cf') refl in
        let e'' : fs ≡ front' ++ c ∷ rest = e' ∙ ap (λ r. front' ++ r) (sym ends) in
        let cf'' : IsChain parent (front' ++ c ∷ rest) = rw e'' at cf in
        let apart' : Lacks (front' ++ c ∷ rest) front = rw e'' at out in
        let behind : Lacks front' rest =
          Lacks-behind front' c rest rest cf'' (IsChain-back front (c ∷ rest) ct').1
            (omega arith) in
        rw z (
          rw (e, e'')
            (meet parent front front' fuel [] [] rest c
              (omega (arith, ap length e, length-append front (c ∷ rest)))
              (omega (arith, ap length e'', length-append front' (c ∷ rest))) ct' cf'' (Lacks-nil _)
              (Lacks-nil _) (Lacks-sym front _ apart')
              (Lacks-append front' front (c ∷ rest) (Lacks-of_append front front' (c ∷ rest) apart')
                (out', behind))))
  ]

-- `locate_range` replaces `from` by the newest report that both histories have, and by the zero id
-- if they have none: the range then holds exactly what `to` has and `from` has not.
pub locate_range-first_common :
    (fuel : ℕ) (repo : Repo) (revs : Revs) (ts fs : List Oid)
    → revs.from ≢ 0
    → revs.to ≢ 0
    → first ts ≡ some revs.to
    → first fs ≡ some revs.from
    → IsChain (next repo) ts
    → IsChain (next repo) fs
    → length ts < fuel
    → length fs < fuel
    → locate_range fuel repo revs ≡ some (record revs { from = first_common ts fs })
unfolding locate_range
locate_range-first_common fuel repo revs ts fs hf ht et ef ct cf lt lf =
    let found = rw (et, ef) at (locate-first_common (next repo) fuel ts fs lt lf ct cf) in
    ground (arith, found)
