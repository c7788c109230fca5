-- ===== src/Strings/Sorted.antt =====
-- The set of strings of a builder, libs/cov-api/src/cov/io/strings.cc.
use git2_cxx.Base.{true, List, [], ◌∷◌, Bytes, ◌≡◌, ◌⊎◌, inl, inr, ◌↔◌, arith, ap, Bool-cases, All}
use git2_cxx.Text.{eqb, less}
use git2_cxx.Text.Order.{eqb_refl, eqb→eq, less_trans, less-total}
use git2_cxx.Strings.{insert}

abbrev pub In : Bytes → List Bytes → Type 0
In x [] = ⊥
In x (s ∷ ss) = (x ≡ s) ⊎ In x ss

-- Each string is less than all that stand behind it.
abbrev pub IsAscending : List Bytes → Type 0
IsAscending [] = Unit
IsAscending (s ∷ ss) = All (λ t. less s t ≡ true) ss × IsAscending ss

All-less_trans :
    (s t : Bytes) (ss : List Bytes)
    → less s t ≡ true
    → All (λ u. less t u ≡ true) ss
    → All (λ u. less s u ≡ true) ss
All-less_trans s t [] h a = tt
All-less_trans s t (u ∷ ss) h a = (less_trans s t u h a.0, All-less_trans s t ss h a.1)

insert-All :
    (P : Bytes → Type 0) (x : Bytes) (ss : List Bytes) → P x → All P ss → All P (insert x ss)
unfolding insert
insert-All P x [] h a = (h, tt)
insert-All P x (s ∷ ss) h a = elim (Bool-cases (less s x)) [
  | inl e ↦ rw e (a.0, insert-All P x ss h a.1)
  | inr e ↦ elim (Bool-cases (eqb s x)) [ inl q ↦ rw (e, q) a | inr q ↦ rw (e, q) (h, a) ]
]

-- Inserting keeps the strict order.
pub insert-IsAscending : (x : Bytes) (ss : List Bytes) → IsAscending ss → IsAscending (insert x ss)
unfolding insert
insert-IsAscending x [] a = (tt, tt)
insert-IsAscending x (s ∷ ss) a = elim (Bool-cases (less s x)) [
  | inl e ↦ rw e (insert-All _ x ss e a.0, insert-IsAscending x ss a.1)
  | inr e ↦ elim (Bool-cases (eqb s x)) [
    | inl q ↦ rw (e, q) a
    | inr q ↦
        let first : less x s ≡ true =
          less-total s x e (λ p. cc (eqb_refl x, q, ap (λ t. eqb t x) p)) in
        rw (e, q) ((first, All-less_trans x s ss first a.0), a)
  ]
]

-- A string is in the set after an insertion if it was inserted or was there.
pub In-insert : (y x : Bytes) (ss : List Bytes) → In y (insert x ss) ↔ ((y ≡ x) ⊎ In y ss)
unfolding insert
In-insert y x [] = ((λ h. h), (λ h. h))
In-insert y x (s ∷ ss) = let rest = In-insert y x ss in ground (arith, rest, eqb→eq s x)
