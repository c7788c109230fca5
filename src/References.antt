-- ===== src/References.antt =====
-- libs/cov-api/src/cov/ref/references.cc and reference.cc: references, which are files with an id or
-- with the name of another reference. The file system and git's ids are parameters.
pub mod Names
pub mod Follow
pub mod Created
pub mod Chains
pub mod Examples
use git2_cxx.Base.{
  ℕ, zero, suc, ◌+◌, ◌-◌, ◌*◌, ◌/◌, ◌%◌, ◌^◌, ◌==◌, ◌<◌, ◌≤◌, min, max, Bool, true, false, not,
  ◌&&◌, ◌||◌, List, [], ◌∷◌, ◌++◌, Option, none, some, Bytes, ltb, leb, if◌then◌else◌, codes,
  length, ◌≡◌, ◌≢◌, refl, ap, sym, ◌∙◌, arith, All, Bool-cases, Option-cases, inl, inr, ◌⊎◌, ◌↔◌,
  length-append, length-replicate, append_assoc, append-nil, drop, take, replicate, get_or,
  get_elem?, map, tests, drop-append, take-append, All-append,
}
use git2_cxx.Text.{eqb, starts_with}
use git2_cxx.Text.Parts.{trim}
use git2_cxx.Objects.{GitOid}
use git2_cxx.References.Names.{is_valid_name}

-- What the source does with files: the contents of the file with a name, below the common directory or
-- the other one, if it can be opened; a file that takes the place of the one with its name; a file that
-- is removed. The last two tell whether they succeeded.
pub record Disk : Type 1 where
  pub State : Type 0
  pub contents : State → Bool → Bytes → Option Bytes
  pub print : State → Bool → Bytes → Bytes → State × Bool
  pub remove : State → Bool → Bytes → State × Bool
  pub format : GitOid → Bytes
  pub parse : Bytes → GitOid

pub data RefTgt : Type 0 where
  other branch tag : RefTgt

pub record ReferenceName : Type 0 where
  pub tgt_kind : RefTgt
  pub name : Bytes
  pub shorthand_prefix : ℕ

-- `direct_reference`, `symbolic_reference` and `null_reference`.
pub data Reference : Type 0 where
  direct : ReferenceName → GitOid → Reference
  symbolic : ReferenceName → Bytes → Reference
  null : ReferenceName → Reference

unfoldable pub name_of : Reference → ReferenceName
name_of (direct name target) = name
name_of (symbolic name target) = name
name_of (null name) = name

unfoldable pub shorthand : Reference → Bytes
unfolding name_of
shorthand ref = drop (name_of ref).shorthand_prefix (name_of ref).name

unfoldable pub direct_target : Reference → Option GitOid
direct_target (direct name target) = some target
direct_target (symbolic name target) = none
direct_target (null name) = none

unfoldable pub prefix_info : Bytes → ReferenceName
prefix_info name =
    if starts_with name (codes "refs/heads/")
    then record { tgt_kind = branch; name = name; shorthand_prefix = 11 }
    else if starts_with name (codes "refs/tags/")
    then record { tgt_kind = tag; name = name; shorthand_prefix = 10 }
    else if starts_with name (codes "refs/")
    then record { tgt_kind = other; name = name; shorthand_prefix = 5 }
    else record { tgt_kind = other; name = name; shorthand_prefix = 0 }

unfoldable pub use_common_for : Bytes → Bool
use_common_for [] = false
use_common_for (c ∷ name) = c == 47 || use_common_for name

unfoldable pub name_for : Bytes → Bool → Bytes
name_for name as_branch = (if as_branch then codes "refs/heads" else codes "refs/tags") ++ 47 ∷ name

-- `file::read_line`.
unfoldable pub read_line : Bytes → Bytes
read_line [] = []
read_line (c ∷ s) = if c == 10 then [] else c ∷ read_line s

unfoldable pub only_hex : Bytes → Bool
only_hex [] = true
only_hex (c ∷ s) =
    ((leb 48 c && leb c 57) || (leb 65 c && leb c 70) || (leb 97 c && leb c 102)) && only_hex s

module _ (disk : Disk) where
  -- The second half of `lookup`.
  unfoldable pub read_reference : Bytes → Bytes → Option Reference
  read_reference name line =
      if starts_with line (codes "ref: ")
      then some (symbolic (prefix_info name) (trim (drop 5 line)))
      else if length (trim line) == 40 && only_hex (trim line)
      then some (direct (prefix_info name) (disk.parse (trim line)))
      else none

  -- The outer `none` is a name whose check reads an empty component.
  unfoldable pub lookup : disk.State → Bytes → Option (Option Reference)
  lookup state name = elim (is_valid_name name) [
    | none ↦ none
    | some false ↦ some none
    | some true ↦ elim (disk.contents state (use_common_for name) name) [
      | none ↦ some none
      | some contents ↦ some (read_reference name (read_line contents))
    ]
  ]

  -- Both `create`s: a line is printed for a valid name.
  unfoldable pub create_line :
      disk.State → Bytes → Bytes → Reference → Option (disk.State × Option Reference)
  create_line state name line ref = elim (is_valid_name name) [
    | none ↦ none
    | some false ↦ some (state, none)
    | some true ↦
        let printed = disk.print state (use_common_for name) name (line ++ 10 ∷ []) in
        if printed.1 then some (printed.0, some ref) else some (printed.0, none)
  ]

  unfoldable pub create : disk.State → Bytes → GitOid → Option (disk.State × Option Reference)
  unfolding create_line
  create state name target =
      create_line state name (disk.format target) (direct (prefix_info name) target)

  unfoldable pub create_symbolic :
      disk.State → Bytes → Bytes → Option (disk.State × Option Reference)
  unfolding create_line
  create_symbolic state name target =
      create_line state name (codes "ref: " ++ target) (symbolic (prefix_info name) target)

  unfoldable pub is_direct_to : GitOid → Option Reference → Bool
  is_direct_to expected none = true
  is_direct_to expected (some (direct name target)) = eqb target expected
  is_direct_to expected (some (symbolic name target)) = false
  is_direct_to expected (some (null name)) = false

  unfoldable pub is_symbolic_to : Bytes → Option Reference → Bool
  is_symbolic_to expected none = true
  is_symbolic_to expected (some (direct name target)) = false
  is_symbolic_to expected (some (symbolic name target)) = eqb target expected
  is_symbolic_to expected (some (null name)) = false

  -- What is created if the reference that is there is the expected one, or none is; the last part is
  -- `modified`.
  unfoldable pub matching :
      Bool
      → disk.State
      → Option (disk.State × Option Reference)
      → Option (disk.State × Option Reference × Bool)
  matching false state created = some (state, none, true)
  matching true state created = elim created [
    | none ↦ none
    | some (after, ref) ↦ some (after, ref, false)
  ]

  unfoldable pub create_matching :
      disk.State → Bytes → GitOid → GitOid → Option (disk.State × Option Reference × Bool)
  unfolding matching is_direct_to
  create_matching state name target expected = elim (lookup state name) [
    | none ↦ none
    | some prev ↦ matching (is_direct_to expected prev) state (create state name target)
  ]

  unfoldable pub create_matching_symbolic :
      disk.State → Bytes → Bytes → Bytes → Option (disk.State × Option Reference × Bool)
  unfolding matching is_symbolic_to
  create_matching_symbolic state name target expected = elim (lookup state name) [
    | none ↦ none
    | some prev ↦ matching (is_symbolic_to expected prev) state (create_symbolic state name target)
  ]
