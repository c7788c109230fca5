-- ===== src/Text/Order.antt =====
-- Equality of texts, and the order of their bytes.
use git2_cxx.Base.{◌==◌, true, false, [], ◌∷◌, Bytes, ◌≡◌, ◌≢◌, inl, inr, arith, refl, Bool-cases}
use git2_cxx.Text.{eqb, less}

pub eqb_refl : (s : Bytes) → eqb s s ≡ true
unfolding eqb
eqb_refl [] = refl
eqb_refl (x ∷ s) = ground (arith, eqb_refl s)

pub eqb→eq : (s t : Bytes) → eqb s t ≡ true → s ≡ t
unfolding eqb
eqb→eq [] [] h = refl
eqb→eq [] (y ∷ t) h = cc
eqb→eq (x ∷ s) [] h = cc
eqb→eq (x ∷ s) (y ∷ t) h = ground (arith, eqb→eq s t)

pub ne→eqb : (s t : Bytes) → s ≢ t → eqb s t ≡ false
ne→eqb s t h = elim (Bool-cases (eqb s t)) [ inl e ↦ absurd (h (eqb→eq s t e)) | inr e ↦ e ]

pub less_irrefl : (s : Bytes) → less s s ≡ false
unfolding less
less_irrefl [] = refl
less_irrefl (x ∷ s) = ground (arith, less_irrefl s)

pub less_trans : (s t u : Bytes) → less s t ≡ true → less t u ≡ true → less s u ≡ true
unfolding less
less_trans [] [] u h k = cc
less_trans [] (y ∷ t) [] h k = cc
less_trans [] (y ∷ t) (z ∷ u) h k = refl
less_trans (x ∷ s) [] u h k = cc
less_trans (x ∷ s) (y ∷ t) [] h k = cc
less_trans (x ∷ s) (y ∷ t) (z ∷ u) h k = ground (arith, less_trans s t u)

-- What is neither less nor equal is greater.
pub less-total : (s t : Bytes) → less s t ≡ false → s ≢ t → less t s ≡ true
unfolding less
less-total [] [] h n = absurd (n refl)
less-total [] (y ∷ t) h n = cc
less-total (x ∷ s) [] h n = refl
less-total (x ∷ s) (y ∷ t) h n = elim (Bool-cases (x == y)) [
  | inl e ↦
      let same : x ≡ y = ground arith in
      ground (arith, less-total s t (ground arith) (λ p. n (rw (same, p))))
  | inr e ↦ ground arith
]

pub eqb_comm : (s t : Bytes) → eqb s t ≡ eqb t s
unfolding eqb
eqb_comm [] [] = refl
eqb_comm [] (y ∷ t) = refl
eqb_comm (x ∷ s) [] = refl
eqb_comm (x ∷ s) (y ∷ t) = ground (arith, eqb_comm s t)

pub eqb_same : (s t u : Bytes) → eqb s t ≡ true → eqb s u ≡ eqb t u
eqb_same s t u h = rw (eqb→eq s t h) refl

pub eqb_join : (s t u : Bytes) → eqb s u ≡ true → eqb t u ≡ true → eqb s t ≡ true
eqb_join s t u h k = rw (eqb→eq s u h, eqb→eq t u k, eqb_refl u) refl
