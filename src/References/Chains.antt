-- ===== src/References/Chains.antt =====
-- libs/cov-api/src/cov/ref/reference.cc: chains of symbolic references.
use git2_cxx.Base.{
  ℕ, zero, suc, ◌+◌, ◌-◌, ◌<◌, ◌≤◌, Bool, true, false, Option, none, some, Bytes, leb, ◌≡◌, refl,
  ap, sym, ◌∙◌, arith, Bool-cases, Option-cases, inl, inr,
}
use git2_cxx.References.{Disk, ReferenceName, Reference, direct, symbolic, null, lookup}
use git2_cxx.References.Follow.{peeled, unfinished, next_bead, peel_target}

unfoldable pub is_symbolic : Reference → Bool
is_symbolic (direct name target) = false
is_symbolic (symbolic name target) = true
is_symbolic (null name) = false

-- So many symbolic references further.
unfoldable pub follow : (disk : Disk) → disk.State → ℕ → Reference → Option Reference
follow disk state zero ref = some ref
follow disk state (suc n) (direct name target) = none
follow disk state (suc n) (null name) = none
follow disk state (suc n) (symbolic name target) = elim (lookup disk state target) [
  | none ↦ none
  | some found ↦ follow disk state n (next_bead disk target found)
]

follow-next :
    (disk : Disk) (state : disk.State) (n : ℕ) (name : ReferenceName) (target : Bytes)
    (found : Option Reference)
    → lookup disk state target ≡ some found
    → follow disk state (suc n) (symbolic name target)
      ≡ follow disk state n (next_bead disk target found)
unfolding follow
follow-next disk state n name target found there = rw (there, follow) refl

peel_target-next :
    (disk : Disk) (state : disk.State) (n : ℕ) (name : ReferenceName) (target : Bytes)
    (found : Option Reference)
    → lookup disk state target ≡ some found
    → peel_target disk (suc n) state (symbolic name target)
      ≡ peel_target disk n state (next_bead disk target found)
unfolding peel_target
peel_target-next disk state n name target found there = rw (there, peel_target) refl

-- A reference that leads on is symbolic, and its target is looked up.
follow-leads :
    (disk : Disk) (state : disk.State) (n : ℕ) (ref end : Reference)
    → follow disk state (suc n) ref ≡ some end
    → (name : ReferenceName) × (target : Bytes) × (found : Option Reference) × (ref
        ≡ symbolic name target)
      × (lookup disk state target ≡ some found)
      × (follow disk state n (next_bead disk target found) ≡ some end)
unfolding follow
follow-leads disk state n (direct name target) end h = absurd (ground (arith, h))
follow-leads disk state n (null name) end h = absurd (ground (arith, h))
follow-leads disk state n (symbolic name target) end h =
    elim (Option-cases (lookup disk state target)) [
      | inl empty ↦ absurd (ground (arith, h, empty))
      | inr (found, there) ↦ (
        name,
        target,
        found,
        refl,
        there,
        sym (follow-next disk state n name target found there) ∙ h,
      )
    ]

-- Fuel for the references on the way is used up by them.
peel_target-follow :
    (disk : Disk) (state : disk.State) (n fuel : ℕ) (ref end : Reference)
    → follow disk state n ref ≡ some end
    → peel_target disk (n + fuel) state ref ≡ peel_target disk fuel state end
unfolding follow
peel_target-follow disk state zero fuel ref end h =
    let none_on_the_way : 0 + fuel ≡ fuel = omega arith in
    let same : ref ≡ end = ground (arith, h) in rw (none_on_the_way, same) refl
peel_target-follow disk state (suc n) fuel ref end h =
    let (name, target, found, is, there, rest) = follow-leads disk state n ref end h in
    let one_more : suc n + fuel ≡ suc (n + fuel) = omega arith in
    rw (one_more, is)
      (peel_target-next disk state (n + fuel) name target found there
        ∙ peel_target-follow disk state n fuel (next_bead disk target found) end rest)

peel_target-end :
    (disk : Disk) (state : disk.State) (fuel : ℕ) (end : Reference)
    → is_symbolic end ≡ false
    → peel_target disk (suc fuel) state end ≡ peeled end
unfolding peel_target is_symbolic
peel_target-end disk state fuel (direct name target) h = refl
peel_target-end disk state fuel (symbolic name target) h = absurd (ground (arith, h))
peel_target-end disk state fuel (null name) h = refl

-- If n symbolic references lead to one that is not symbolic, the loop of `peel_target` ends with it
-- after more than n rounds, however many it may take.
pub peel_target-ends :
    (disk : Disk) (state : disk.State) (n fuel : ℕ) (ref end : Reference)
    → follow disk state n ref ≡ some end
    → is_symbolic end ≡ false
    → n < fuel
    → peel_target disk fuel state ref ≡ peeled end
peel_target-ends disk state n fuel ref end leads last enough =
    let same : fuel ≡ n + suc (fuel - n - 1) = omega arith in
    ap (λ f. peel_target disk f state ref) same
    ∙ peel_target-follow disk state n (suc (fuel - n - 1)) ref end leads
    ∙ peel_target-end disk state (fuel - n - 1) end last

follow-shorter :
    (disk : Disk) (state : disk.State) (m n : ℕ) (ref end : Reference)
    → m ≤ n
    → follow disk state n ref ≡ some end
    → (between : Reference) × (follow disk state m ref ≡ some between)
unfolding follow
follow-shorter disk state zero n ref end le h = (ref, refl)
follow-shorter disk state (suc m) zero ref end le h = absurd (omega arith)
follow-shorter disk state (suc m) (suc n) ref end le h =
    let (name, target, found, is, there, rest) = follow-leads disk state n ref end h in
    let (between, leads) =
      follow-shorter disk state m n (next_bead disk target found) end (omega arith) rest in
    (between, rw is (follow-next disk state m name target found there ∙ leads))

circle-below :
    (disk : Disk) (state : disk.State) (n bound fuel : ℕ) (ref : Reference)
    → fuel < bound
    → follow disk state (suc n) ref ≡ some ref
    → peel_target disk fuel state ref ≡ unfinished
unfolding peel_target
circle-below disk state n zero fuel ref below leads = absurd (omega arith)
circle-below disk state n (suc bound) fuel ref below leads = elim (Bool-cases (leb (suc n) fuel)) [
  | inl around ↦
      let same : fuel ≡ suc n + (fuel - suc n) = ground arith in
      ap (λ f. peel_target disk f state ref) same
      ∙ peel_target-follow disk state (suc n) (fuel - suc n) ref ref leads
      ∙ circle-below disk state n bound (fuel - suc n) ref (ground arith) leads
  | inr within ↦
      let (between, there) = follow-shorter disk state fuel (suc n) ref ref (ground arith) leads in
      let same : fuel ≡ fuel + 0 = omega arith in
      ap (λ f. peel_target disk f state ref) same
      ∙ peel_target-follow disk state fuel 0 ref between there
]

-- If one or more symbolic references lead from a reference back to it, the loop of `peel_target` never
-- ends: no number of rounds is enough.
pub peel_target-circle :
    (disk : Disk) (state : disk.State) (n fuel : ℕ) (ref : Reference)
    → follow disk state (suc n) ref ≡ some ref
    → peel_target disk fuel state ref ≡ unfinished
peel_target-circle disk state n fuel ref leads =
    circle-below disk state n (suc fuel) fuel ref (omega arith) leads
