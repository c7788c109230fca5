-- ===== src/Revs/Suffixes.antt =====
-- What the '^' and '~' behind a name mean.
use mathlib.Core.Path.{subst}
use git2_cxx.Base.{
  ℕ, zero, suc, ◌+◌, ◌*◌, ◌%◌, ◌^◌, ◌<◌, ◌≤◌, Bool, true, false, List, [], ◌∷◌, ◌++◌, none, some,
  Bytes, ltb, length, ◌≡◌, ◌≢◌, refl, ap, sym, ◌∙◌, arith, All, Bool-cases, Option-cases, ◌==◌, inl,
  inr, ◌⊎◌, length-append,
}
use git2_cxx.Revs.{Oid, Repo, direct, symbolic, next, wrong_object_type}
use git2_cxx.Revs.Parse.{
  is_digit, digits, get_number, split_rev, counted, parents, is_report, ancestor, named, resolve,
  climb, after_split, Single, parse_single,
}

-- One mark: '~' if `tilde`, else '^', and the digits of its number, which may be missing.
pub record Mark : Type 0 where
  pub tilde : Bool
  pub number : List ℕ

abbrev mark_char : Bool → ℕ
mark_char true = b'~'
mark_char false = b'^'

digit_chars : List ℕ → Bytes
digit_chars [] = []
digit_chars (d ∷ ds) = (b'0' + d) ∷ digit_chars ds

unfoldable pub print : List Mark → Bytes
unfolding digit_chars
print [] = []
print (m ∷ ms) = mark_char m.tilde ∷ (digit_chars m.number ++ print ms)

-- The number that digits spell behind `n`, in 64 bits.
unfoldable pub value : ℕ → List ℕ → ℕ
value n [] = n
value n (d ∷ ds) = value ((n * 10 + d) % 2 ^ 64) ds

-- A missing number is 1.
unfoldable pub number_of : List ℕ → ℕ
number_of [] = 1
number_of (d ∷ ds) = value 0 (d ∷ ds)

abbrev pub weight : Mark → ℕ
weight m = number_of m.number

unfoldable pub total : List Mark → ℕ
total [] = 0
total (m ∷ ms) = weight m + total ms

-- Digits are digits, and '^' names no parent but the first.
pub record IsMark (m : Mark) : Type 0 where
  pub digits : All (λ d. d < 10) m.number
  pub first_parent : (m.tilde ≡ true) ⊎ (weight m ≤ 1)

-- What follows a number is not a digit.
abbrev Ends : Bytes → Type 0
Ends [] = Unit {0}
Ends (c ∷ s) = is_digit c ≡ false

print-Ends : (ms : List Mark) → Ends (print ms)
unfolding print is_digit
print-Ends [] = tt
print-Ends (m ∷ ms) = elim (Bool-cases m.tilde) [ inl e ↦ rw e refl | inr e ↦ rw e refl ]

digits_lem :
    (ds : List ℕ) (rest : Bytes) (n : ℕ)
    → All (λ d. d < 10) ds
    → Ends rest
    → digits (digit_chars ds ++ rest) n ≡ (value n ds, rest)
unfolding digits digit_chars value is_digit
digits_lem [] [] n h e = refl
digits_lem [] (c ∷ s) n h e = rw (e, digits)
digits_lem (d ∷ ds) rest n h e = ground (arith, digits_lem ds rest ((n * 10 + d) % 2 ^ 64) h.1 e)

get_number_lem :
    (ds : List ℕ) (rest : Bytes)
    → All (λ d. d < 10) ds
    → Ends rest
    → get_number (digit_chars ds ++ rest) ≡ (number_of ds, rest)
unfolding get_number number_of digit_chars
get_number_lem [] [] h e = refl
get_number_lem [] (c ∷ s) h e = rw (e, get_number)
get_number_lem (d ∷ ds) rest h e = ground (arith, digits_lem (d ∷ ds) rest 0 h e)

-- One mark and its number take one round of the loop.
parents_step :
    (m : Mark) (rest : Bytes) (fuel count : ℕ)
    → IsMark m
    → Ends rest
    → parents (suc fuel) (mark_char m.tilde ∷ (digit_chars m.number ++ rest)) count
      ≡ parents fuel rest ((count + weight m) % 2 ^ 64)
unfolding parents
parents_step m rest fuel count v e =
    let read = get_number_lem m.number rest v.digits e in
    elim (Bool-cases m.tilde) [
      | inl t ↦ rw (t, read, parents)
      | inr t ↦
          let one : ltb 1 (weight m) ≡ false = ground (arith, v.first_parent) in
          rw (t, read, one, parents)
    ]

parents_nil : (fuel count : ℕ) → parents fuel [] count ≡ counted count
unfolding parents
parents_nil zero count = refl
parents_nil (suc fuel) count = refl

-- The marks behind a name count the parents to go up, in 64 bits.
parents-print :
    (ms : List Mark) (fuel count : ℕ)
    → length (print ms) ≤ fuel
    → All IsMark ms
    → count < 2 ^ 64
    → parents fuel (print ms) count ≡ counted ((count + total ms) % 2 ^ 64)
unfolding print total
parents-print [] zero count f v h = parents_nil zero count ∙ ap counted (omega arith)
parents-print [] (suc fuel) count f v h = parents_nil (suc fuel) count ∙ ap counted (omega arith)
parents-print (m ∷ ms) zero count f v h = absurd (omega arith)
parents-print (m ∷ ms) (suc fuel) count f v h =
    parents_step m (print ms) fuel count v.0 (print-Ends ms)
    ∙ parents-print ms fuel ((count + weight m) % 2 ^ 64)
        (omega (arith, length-append (digit_chars m.number) (print ms))) v.1 (omega arith)
    ∙ ap counted (omega arith)

-- A name holds neither '^' nor '~'.
abbrev pub IsName : Bytes → Type 0
IsName = All (λ c. (c ≢ b'^') × (c ≢ b'~'))

split_rev-print :
    (base : Bytes) (ms : List Mark) → IsName base → split_rev (base ++ print ms) ≡ (base, print ms)
unfolding split_rev print
split_rev-print [] [] h = unfold print in refl
split_rev-print [] (m ∷ ms) h = elim (Bool-cases m.tilde) [ inl e ↦ rw e refl | inr e ↦ rw e refl ]
split_rev-print (c ∷ base) ms h = ground (arith, split_rev-print base ms h.1)

-- What a name stands for: what a direct reference of that name gives, the end of a symbolic one, or
-- where there is no reference, the one object whose id starts with it.
unfoldable pub StandsFor : Repo → Bytes → Oid → Type 0
StandsFor repo base id =
    (repo.dwim base ≡ some (direct id))
    ⊎ ((target : Bytes) × (repo.dwim base ≡ some (symbolic target))
        × (repo.peel_target target ≡ some id))
    ⊎ ((repo.dwim base ≡ none) × (repo.find_partial base ≡ some id))

-- The n-th ancestor by the parents of the reports, and the zero id where an ancestor before has no
-- parent or is no report.
unfoldable pub IsAncestor : Repo → ℕ → Oid → Oid → Type 0
IsAncestor repo zero id out = out ≡ id
IsAncestor repo (suc n) id out =
    ((parent : Oid) × (repo.lookup_report id ≡ some parent)
      × (parent ≢ 0)
      × IsAncestor repo n parent out)
    ⊎ (((repo.lookup_report id ≡ none) ⊎ (repo.lookup_report id ≡ some 0)) × (out ≡ 0))

-- Only a report has ancestors; for none to go up, the id need not be a report's.
unfoldable pub Climbed : Repo → ℕ → Oid → Single → Type 0
Climbed repo n id single =
    (((n ≡ 0) ⊎ (repo.lookup_report id ≢ none))
      × (single.ec ≡ none)
      × IsAncestor repo n id single.out)
    ⊎ ((0 < n)
        × (repo.lookup_report id ≡ none)
        × (single.ec ≡ some wrong_object_type)
        × (single.out ≡ id))

resolve-StandsFor :
    (repo : Repo) (base : Bytes) (id : Oid) → StandsFor repo base id → resolve repo base ≡ named id
unfolding resolve StandsFor
resolve-StandsFor repo base id (inl e) = rw (e, resolve) refl
resolve-StandsFor repo base id (inr (inl (target, e, k))) = rw (e, resolve, k, resolve) refl
resolve-StandsFor repo base id (inr (inr (e, k))) = rw (e, resolve, k, resolve) refl

no_ancestor : (n : ℕ) (repo : Repo) → ancestor n (next repo) none ≡ 0
unfolding ancestor
no_ancestor zero repo = refl
no_ancestor (suc n) repo = refl

ancestor-IsAncestor :
    (n : ℕ) (repo : Repo) (id : Oid) → IsAncestor repo n id (ancestor n (next repo) (some id))
unfolding ancestor IsAncestor next
ancestor-IsAncestor zero repo id = refl
ancestor-IsAncestor (suc n) repo id = elim (Option-cases (repo.lookup_report id)) [
  | inl missing ↦
      let over : next repo id ≡ none = ground (arith, missing) in
      inr (inl missing, ap (ancestor n (next repo)) over ∙ no_ancestor n repo)
  | inr (parent, there) ↦ elim (Bool-cases (parent == 0)) [
    | inl root ↦
        let over : next repo id ≡ none = ground (arith, there, root) in
        inr
          (inr (ground (arith, there, root)), ap (ancestor n (next repo)) over ∙ no_ancestor n repo)
    | inr other ↦
        let on : next repo id ≡ some parent = ground (arith, there, other) in
        let rest = ancestor-IsAncestor n repo parent in
        inl (
          parent,
          there,
          ground (arith, other),
          subst (λ o. IsAncestor repo n parent (ancestor n (next repo) o)) (sym on) rest,
        )
  ]
]

climb-Climbed : (repo : Repo) (n : ℕ) (id : Oid) → Climbed repo n id (climb repo n id)
unfolding climb Climbed is_report
climb-Climbed repo zero id = inl (inl refl, refl, unfold IsAncestor in refl)
climb-Climbed repo (suc n) id = elim (Option-cases (repo.lookup_report id)) [
  | inl missing ↦
      let refused : climb repo (suc n) id ≡ record { ec = some wrong_object_type; out = id } =
        ground (arith, missing) in
      subst (Climbed repo (suc n) id) (sym refused) (inr (omega arith, missing, refl, refl))
  | inr (parent, there) ↦
      let out = ancestor (suc n) (next repo) (some id) in
      let found : climb repo (suc n) id ≡ record { ec = none; out = out } = ground (arith, there) in
      subst (Climbed repo (suc n) id) (sym found) (
        inl
          (inr (λ e. absurd (ground (arith, e, there))), refl, ancestor-IsAncestor (suc n) repo id))
]

-- A name that stands for an id, with marks behind it, is parsed to the ancestor that is as many
-- parents up as the numbers of the marks add up to, if the id is a report's or nothing is to go up,
-- and to the zero id where the history ends before; otherwise to the id beside an error.
pub parse_single-print :
    (repo : Repo) (base : Bytes) (ms : List Mark) (out id : Oid)
    → IsName base
    → All IsMark ms
    → total ms < 2 ^ 64
    → StandsFor repo base id
    → Climbed repo (total ms) id (parse_single repo (base ++ print ms) out)
unfolding parse_single
parse_single-print repo base ms out id n v t r =
    let read : parents (length (print ms)) (print ms) 0 ≡ counted (total ms) =
      parents-print ms (length (print ms)) 0 (omega arith) v (omega arith)
      ∙ ap counted (omega arith) in
    let climbs : parse_single repo (base ++ print ms) out ≡ climb repo (total ms) id =
      ap (after_split repo out) (split_rev-print base ms n)
      ∙ rw (read, after_split, resolve-StandsFor repo base id r) in
    rw climbs (climb-Climbed repo (total ms) id)
