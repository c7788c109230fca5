-- ===== src/References/Follow.antt =====
-- libs/cov-api/src/cov/ref/references.cc and reference.cc: what follows, finds, copies and removes
-- references.
use git2_cxx.Base.{
  ℕ, zero, suc, Bool, true, false, List, [], ◌∷◌, ◌++◌, Option, none, some, Bytes, if◌then◌else◌,
  codes,
}
use git2_cxx.Text.{eqb}
use git2_cxx.References.Names.{is_valid_name}
use git2_cxx.References.{
  Disk, Reference, direct, symbolic, null, name_of, prefix_info, use_common_for, name_for, lookup,
  create,
}

-- What following a reference gives: its end, no end within the fuel, or a name whose check reads an
-- empty component.
pub data Peeled : Type 0 where
  peeled : Reference → Peeled
  unfinished undefined : Peeled

-- The codes that `remove_ref` and `copy_ref` set.
pub data RefErrc : Type 0 where
  ok error invalid_spec not_found modified exists unborn_branch failed : RefErrc

module _ (disk : Disk) where
  -- The body of the loop of `peel_target`: a name without a reference ends it.
  unfoldable pub next_bead : Bytes → Option Reference → Reference
  next_bead name none = null (prefix_info name)
  next_bead name (some ref) = ref

  unfoldable pub peel_target : ℕ → disk.State → Reference → Peeled
  peel_target zero state ref = unfinished
  peel_target (suc fuel) state (direct name target) = peeled (direct name target)
  peel_target (suc fuel) state (null name) = peeled (null name)
  peel_target (suc fuel) state (symbolic name target) = elim (lookup disk state target) [
    | none ↦ undefined
    | some found ↦ peel_target fuel state (next_bead target found)
  ]

  -- `reference_type() != undetermined`.
  unfoldable pub is_determined : Reference → Bool
  is_determined (direct name target) = true
  is_determined (symbolic name target) = true
  is_determined (null name) = false

  unfoldable pub dwim_in : List Bytes → disk.State → Bytes → Option (Option Reference)
  dwim_in [] state shorthand = some none
  dwim_in (prefix ∷ prefixes) state shorthand =
      let rest = dwim_in prefixes state shorthand in
      elim (lookup disk state (prefix ++ shorthand)) [
        | none ↦ none
        | some none ↦ rest
        | some (some ref) ↦ if is_determined ref then some (some ref) else rest
      ]

  unfoldable pub dwim : disk.State → Bytes → Option (Option Reference)
  unfolding dwim_in
  dwim state shorthand =
      dwim_in ([] ∷ (codes "refs/" ∷ (codes "refs/tags/" ∷ (codes "refs/heads/" ∷ [])))) state
        shorthand

  -- The two references have one type and one target.
  unfoldable pub same_target : Reference → Reference → Bool
  same_target (direct name target) (direct other wanted) = eqb target wanted
  same_target (symbolic name target) (symbolic other wanted) = eqb target wanted
  same_target (null name) (null other) = true
  same_target (direct name target) (symbolic other wanted) = false
  same_target (direct name target) (null other) = false
  same_target (symbolic name target) (direct other wanted) = false
  same_target (symbolic name target) (null other) = false
  same_target (null name) (direct other wanted) = false
  same_target (null name) (symbolic other wanted) = false

  unfoldable pub removed : disk.State × Bool → RefErrc → disk.State × RefErrc
  removed (state, true) code = (state, code)
  removed (state, false) code = (state, failed)

  unfoldable pub remove_ref : disk.State → Reference → Option (disk.State × RefErrc)
  unfolding removed
  remove_ref state ref =
      let name = (name_of ref).name in
      let gone = disk.remove state (use_common_for name) name in
      if eqb name (codes "HEAD") then some (state, error) else elim (is_valid_name name) [
        | none ↦ none
        | some false ↦ some (removed gone invalid_spec)
        | some true ↦ elim (lookup disk state name) [
          | none ↦ none
          | some none ↦ some (state, not_found)
          | some (some current) ↦
              if same_target current ref then some (removed gone ok) else some (state, modified)
        ]
      ]

  -- What `copy_ref` makes of the end of a reference.
  unfoldable pub copy_peeled :
      disk.State → Bytes → Peeled → Option (disk.State × Option Reference × RefErrc)
  copy_peeled state name (peeled (direct source target)) = elim (create disk state name target) [
    | none ↦ none
    | some (after, none) ↦ some (after, none, invalid_spec)
    | some (after, some ref) ↦ some (after, some ref, ok)
  ]
  copy_peeled state name (peeled (symbolic source target)) = some (state, none, unborn_branch)
  copy_peeled state name (peeled (null source)) = some (state, none, unborn_branch)
  copy_peeled state name unfinished = none
  copy_peeled state name undefined = none

  unfoldable pub copy_ref :
      ℕ
      → disk.State
      → Reference
      → Bytes
      → Bool
      → Bool
      → Option (disk.State × Option Reference × RefErrc)
  unfolding copy_peeled
  copy_ref fuel state ref new_name as_branch force =
      let name = name_for new_name as_branch in
      let copied = copy_peeled state name (peel_target fuel state ref) in
      if force then copied else elim (lookup disk state name) [
        | none ↦ none
        | some none ↦ copied
        | some (some there) ↦ some (state, none, exists)
      ]
