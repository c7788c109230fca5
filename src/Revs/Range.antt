-- ===== src/Revs/Range.antt =====
-- `locate_range` on two histories that share their end, and on two that share nothing.
use git2_cxx.Base.{
  ℕ, zero, suc, ◌<◌, true, false, List, [], ◌∷◌, ◌++◌, Option, none, some, ◌≡◌, ◌≢◌, refl, sym, ◌∙◌,
  All, length, arith,
}
use git2_cxx.Revs.{Oid, contains, locate}

abbrev pub first : List Oid → Option Oid
first [] = none
first (x ∷ xs) = some x

-- The ids from one on, each the parent of the one before it; the last has no parent.
abbrev pub IsChain : (Oid → Option Oid) → List Oid → Type 0
IsChain parent [] = Unit
IsChain parent (x ∷ xs) = (parent x ≡ first xs) × IsChain parent xs

abbrev pub Lacks : List Oid → List Oid → Type 0
Lacks ys = All (λ x. contains ys x ≡ false)

pub Lacks-cons :
    (y : Oid) (ys xs : List Oid) → Lacks ys xs → contains xs y ≡ false → Lacks (y ∷ ys) xs
unfolding contains
Lacks-cons y ys [] h k = tt
Lacks-cons y ys (x ∷ xs) h k = (ground (arith, h.0), Lacks-cons y ys xs h.1 (ground arith))

pub contains-cons :
    (x y : Oid) (ys : List Oid) → contains (y ∷ ys) x ≡ false → (y ≢ x) × (contains ys x ≡ false)
unfolding contains
contains-cons x y ys h = ground arith

pub contains_ne :
    (x y : Oid) (ys : List Oid) → y ≢ x → contains ys x ≡ false → contains (y ∷ ys) x ≡ false
unfolding contains
contains_ne x y ys h k = ground arith

contains_self : (x : Oid) (ys : List Oid) → contains (x ∷ ys) x ≡ true
unfolding contains
contains_self x ys = ground arith

contains_weaken : (x y : Oid) (ys : List Oid) → contains ys x ≡ true → contains (y ∷ ys) x ≡ true
unfolding contains
contains_weaken x y ys h = ground arith

pub Lacks-tail : (y : Oid) (ys xs : List Oid) → Lacks (y ∷ ys) xs → Lacks ys xs
Lacks-tail y ys [] h = tt
Lacks-tail y ys (x ∷ xs) h = ((contains-cons x y ys h.0).1, Lacks-tail y ys xs h.1)

pub Lacks-head : (y : Oid) (ys xs : List Oid) → Lacks (y ∷ ys) xs → contains xs y ≡ false
unfolding contains
Lacks-head y ys [] h = refl
Lacks-head y ys (x ∷ xs) h = ground (arith, h.0, Lacks-head y ys xs h.1)

pub Lacks-nil : (xs : List Oid) → Lacks [] xs
unfolding contains
Lacks-nil [] = tt
Lacks-nil (x ∷ xs) = (refl, Lacks-nil xs)

Lacks-front : (ys xs zs : List Oid) → Lacks ys (xs ++ zs) → Lacks ys xs
Lacks-front ys [] zs h = tt
Lacks-front ys (x ∷ xs) zs h = (h.0, Lacks-front ys xs zs h.1)

-- One round of the loop, by what the two sides find.
module _ (parent : Oid → Option Oid) (fuel : ℕ) (allowed unallowed : List Oid) where
  both_go :
      (t b : Oid)
      → contains unallowed t ≡ false
      → contains (t ∷ allowed) b ≡ false
      → locate (suc fuel) parent allowed unallowed (some t) (some b)
        ≡ locate fuel parent (t ∷ allowed) (b ∷ unallowed) (parent t) (parent b)
  unfolding locate
  both_go t b h k = ground arith

  top_goes :
      (t : Oid)
      → contains unallowed t ≡ false
      → locate (suc fuel) parent allowed unallowed (some t) none
        ≡ locate fuel parent (t ∷ allowed) unallowed (parent t) none
  unfolding locate
  top_goes t h = ground arith

  bottom_goes :
      (b : Oid)
      → contains allowed b ≡ false
      → locate (suc fuel) parent allowed unallowed none (some b)
        ≡ locate fuel parent allowed (b ∷ unallowed) none (parent b)
  unfolding locate
  bottom_goes b k = ground arith

  top_stops :
      (t : Oid) (bottom : Option Oid)
      → contains unallowed t ≡ true
      → locate (suc fuel) parent allowed unallowed (some t) bottom ≡ some t
  unfolding locate
  top_stops t none h = ground arith
  top_stops t (some b) h = ground arith

  bottom_stops :
      (t b : Oid)
      → contains unallowed t ≡ false
      → contains (t ∷ allowed) b ≡ true
      → locate (suc fuel) parent allowed unallowed (some t) (some b) ≡ some b
  unfolding locate
  bottom_stops t b h k = ground arith

  bottom_stops_alone :
      (b : Oid)
      → contains allowed b ≡ true
      → locate (suc fuel) parent allowed unallowed none (some b) ≡ some b
  unfolding locate
  bottom_stops_alone b k = ground arith

module _ (parent : Oid → Option Oid) where
  -- `top` has passed the id `c`, and `bottom` walks down to it.
  ahead_top :
      (bs : List Oid) (fuel : ℕ) (allowed unallowed ts rest : List Oid) (c : Oid)
      → length bs < fuel
      → contains allowed c ≡ true
      → IsChain parent ts
      → IsChain parent (bs ++ c ∷ rest)
      → Lacks unallowed ts
      → Lacks allowed bs
      → Lacks bs ts
      → locate fuel parent allowed unallowed (first ts) (first (bs ++ c ∷ rest)) ≡ some c
  ahead_top bs zero al un ts rest c f seen ct cb lt lb d = absurd (omega arith)
  ahead_top [] (suc fuel) al un [] rest c f seen ct cb lt lb d =
      bottom_stops_alone parent fuel al un c seen
  ahead_top [] (suc fuel) al un (t ∷ ts) rest c f seen ct cb lt lb d =
      bottom_stops parent fuel al un t c lt.0 (contains_weaken c t al seen)
  ahead_top (b ∷ bs) (suc fuel) al un [] rest c f seen ct cb lt lb d =
      bottom_goes parent fuel al un b lb.0
      ∙ rw cb.0 (ahead_top bs fuel al (b ∷ un) [] rest c (omega arith) seen tt cb.1 tt lb.1 tt)
  ahead_top (b ∷ bs) (suc fuel) al un (t ∷ ts) rest c f seen ct cb lt lb d =
      let (ne, out) = contains-cons t b bs d.0 in
      both_go parent fuel al un t b lt.0 (contains_ne b t al (λ e. ne (sym e)) lb.0)
      ∙ rw (ct.0, cb.0)
          (ahead_top bs fuel (t ∷ al) (b ∷ un) ts rest c (omega arith) (contains_weaken c t al seen)
            ct.1 cb.1 (Lacks-cons b un ts lt.1 (Lacks-head b bs ts d.1))
            (Lacks-cons t al bs lb.1 out) (Lacks-tail b bs ts d.1))

  -- `bottom` has passed it, and `top` walks down.
  ahead_bottom :
      (ps : List Oid) (fuel : ℕ) (allowed unallowed fs rest : List Oid) (c : Oid)
      → length ps < fuel
      → contains unallowed c ≡ true
      → IsChain parent fs
      → IsChain parent (ps ++ c ∷ rest)
      → Lacks allowed fs
      → Lacks unallowed ps
      → Lacks ps fs
      → locate fuel parent allowed unallowed (first (ps ++ c ∷ rest)) (first fs) ≡ some c
  ahead_bottom ps zero al un fs rest c f seen cf ca lf la d = absurd (omega arith)
  ahead_bottom [] (suc fuel) al un fs rest c f seen cf ca lf la d =
      top_stops parent fuel al un c (first fs) seen
  ahead_bottom (a ∷ ps) (suc fuel) al un [] rest c f seen cf ca lf la d =
      top_goes parent fuel al un a la.0
      ∙ rw ca.0 (ahead_bottom ps fuel (a ∷ al) un [] rest c (omega arith) seen tt ca.1 tt la.1 tt)
  ahead_bottom (a ∷ ps) (suc fuel) al un (b ∷ fs) rest c f seen cf ca lf la d =
      let (ne, out) = contains-cons b a ps d.0 in
      both_go parent fuel al un a b la.0 (contains_ne b a al ne lf.0)
      ∙ rw (ca.0, cf.0)
          (ahead_bottom ps fuel (a ∷ al) (b ∷ un) fs rest c (omega arith)
            (contains_weaken c b un seen) cf.1 ca.1
            (Lacks-cons a al fs lf.1 (Lacks-head a ps fs d.1)) (Lacks-cons b un ps la.1 out)
            (Lacks-tail a ps fs d.1))

  -- Two histories that share nothing: the loop ends with both, at the zero id.
  pub apart :
      (fuel : ℕ) (allowed unallowed ts fs : List Oid)
      → length ts < fuel
      → length fs < fuel
      → IsChain parent ts
      → IsChain parent fs
      → Lacks unallowed ts
      → Lacks allowed fs
      → Lacks ts fs
      → locate fuel parent allowed unallowed (first ts) (first fs) ≡ some 0
  apart zero al un ts fs f g ct cf lt lf d = absurd (omega arith)
  apart (suc fuel) al un [] [] f g ct cf lt lf d = unfold locate in refl
  apart (suc fuel) al un (t ∷ ts) [] f g ct cf lt lf d =
      top_goes parent fuel al un t lt.0
      ∙ rw ct.0 (apart fuel (t ∷ al) un ts [] (omega arith) (omega arith) ct.1 tt lt.1 tt tt)
  apart (suc fuel) al un [] (b ∷ fs) f g ct cf lt lf d =
      bottom_goes parent fuel al un b lf.0
      ∙ rw cf.0
          (apart fuel al (b ∷ un) [] fs (omega arith) (omega arith) tt cf.1 tt lf.1 (Lacks-nil fs))
  apart (suc fuel) al un (t ∷ ts) (b ∷ fs) f g ct cf lt lf d =
      let (ne, out) = contains-cons b t ts d.0 in
      both_go parent fuel al un t b lt.0 (contains_ne b t al ne lf.0)
      ∙ rw (ct.0, cf.0)
          (apart fuel (t ∷ al) (b ∷ un) ts fs (omega arith) (omega arith) ct.1 cf.1
            (Lacks-cons b un ts lt.1 out) (Lacks-cons t al fs lf.1 (Lacks-head t ts fs d.1))
            (Lacks-tail t ts fs d.1))

  -- Two histories that meet at `c`: the loop stops there.
  pub meet :
      (ps bs : List Oid) (fuel : ℕ) (allowed unallowed rest : List Oid) (c : Oid)
      → length ps < fuel
      → length bs < fuel
      → IsChain parent (ps ++ c ∷ rest)
      → IsChain parent (bs ++ c ∷ rest)
      → Lacks unallowed (ps ++ c ∷ rest)
      → Lacks allowed (bs ++ c ∷ rest)
      → Lacks ps (bs ++ c ∷ rest)
      → Lacks bs (ps ++ c ∷ rest)
      → locate fuel parent allowed unallowed (first (ps ++ c ∷ rest)) (first (bs ++ c ∷ rest))
        ≡ some c
  meet ps bs zero al un rest c f g ca cb la lb d e = absurd (omega arith)
  meet [] [] (suc fuel) al un rest c f g ca cb la lb d e =
      bottom_stops parent fuel al un c c la.0 (contains_self c al)
  meet [] (b ∷ bs) (suc fuel) al un rest c f g ca cb la lb d e =
      let (ne, out) = contains-cons c b bs e.0 in
      both_go parent fuel al un c b la.0 (contains_ne b c al (λ p. ne (sym p)) lb.0)
      ∙ rw (ca.0, cb.0)
          (ahead_top bs fuel (c ∷ al) (b ∷ un) rest rest c (omega arith) (contains_self c al) ca.1
            cb.1 (Lacks-cons b un rest la.1 (Lacks-head b bs rest e.1))
            (Lacks-cons c al bs (Lacks-front al bs _ lb.1) out) (Lacks-tail b bs rest e.1))
  meet (a ∷ ps) [] (suc fuel) al un rest c f g ca cb la lb d e =
      let (ne, out) = contains-cons c a ps d.0 in
      both_go parent fuel al un a c la.0 (contains_ne c a al ne lb.0)
      ∙ rw (ca.0, cb.0)
          (ahead_bottom ps fuel (a ∷ al) (c ∷ un) rest rest c (omega arith) (contains_self c un)
            cb.1 ca.1 (Lacks-cons a al rest lb.1 (Lacks-head a ps rest d.1))
            (Lacks-cons c un ps (Lacks-front un ps _ la.1) out) (Lacks-tail a ps rest d.1))
  meet (a ∷ ps) (b ∷ bs) (suc fuel) al un rest c f g ca cb la lb d e =
      let (ne, out) = contains-cons b a ps d.0 in
      let (ne', out') = contains-cons a b bs e.0 in
      both_go parent fuel al un a b la.0 (contains_ne b a al ne lb.0)
      ∙ rw (ca.0, cb.0)
          (meet ps bs fuel (a ∷ al) (b ∷ un) rest c (omega arith) (omega arith) ca.1 cb.1
            (Lacks-cons b un _ la.1 (Lacks-head b bs _ e.1))
            (Lacks-cons a al _ lb.1 (Lacks-head a ps _ d.1)) (Lacks-tail a ps _ d.1)
            (Lacks-tail b bs _ e.1))
