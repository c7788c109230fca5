-- ===== src/Revs.antt =====
-- libs/cov-api/src/cov/revparse.cc and include/cov/revparse.hh: revisions and ranges of reports.
-- An object id is the number that its 20 bytes spell; `is_zero` holds of 0.
pub mod Range
pub mod Chains
pub mod Parse
pub mod Suffixes
pub mod Examples
use git2_cxx.Base.{
  ℕ, zero, suc, ◌+◌, ◌-◌, ◌*◌, ◌/◌, ◌%◌, ◌^◌, ◌==◌, ◌<◌, ◌≤◌, Bool, true, false, not, ◌&&◌, ◌||◌,
  List, [], ◌∷◌, ◌++◌, Option, none, some, Bytes, ltb, leb, if◌then◌else◌, codes,
}
use git2_cxx.Text.{eqb, starts_with}

abbrev pub Oid : Type 0
Oid = ℕ

pub data Reference : Type 0 where
  direct : Oid → Reference
  symbolic : Bytes → Reference
  undetermined : Reference

-- The branch of the current head, and the commit at its tip.
pub record Head : Type 0 where
  pub branch : Bytes
  pub tip : Option Oid

-- What `revs` asks of the repository. `lookup_report` is the parent of a report, if the id can be
-- looked up as one; `find_partial` is the id of the object that an abbreviation stands for.
-- `peel_target` follows a symbolic target to its end: an id, or nothing where it is undetermined.
pub record Repo : Type 0 where
  pub lookup_report : Oid → Option Oid
  pub dwim : Bytes → Option Reference
  pub peel_target : Bytes → Option Oid
  pub current_head : Head
  pub find_partial : Bytes → Option Oid

pub data Errc : Type 0 where
  invalidspec notfound unbornbranch wrong_object_type : Errc

-- `ref`: an id behind a flag. `ref{}`, whose flag is off, is `none`.
unfoldable pub next : Repo → Oid → Option Oid
next repo sha = elim (repo.lookup_report sha) [
  | none ↦ none
  | some parent ↦ if parent == 0 then none else some parent
]

-- `ref_set::contains`.
unfoldable pub contains : List Oid → Oid → Bool
contains [] sha = false
contains (x ∷ xs) sha = x == sha || contains xs sha

-- One side of a round of `locate_range`: it stops at an id that the other side has seen, or goes on
-- to the parent.
pub data Half : Type 0 where
  stop : Oid → Half
  go : List Oid → Option Oid → Half

unfoldable pub half : (Oid → Option Oid) → List Oid → List Oid → Option Oid → Half
half parent other seen none = go seen none
half parent other seen (some sha) =
    if contains other sha then stop sha else go (sha ∷ seen) (parent sha)

-- The loop of `locate_range`, on fuel: the new `from`. `top` walks from `to` and `bottom` from `from`.
unfoldable pub locate :
    ℕ → (Oid → Option Oid) → List Oid → List Oid → Option Oid → Option Oid → Option Oid
unfolding half
locate zero parent allowed unallowed top bottom = none
locate (suc fuel) parent allowed unallowed none none = some 0
locate (suc fuel) parent allowed unallowed top bottom = elim (half parent unallowed allowed top) [
  | stop sha ↦ some sha
  | go allowed' top' ↦ elim (half parent allowed' unallowed bottom) [
    | stop sha ↦ some sha
    | go unallowed' bottom' ↦ locate fuel parent allowed' unallowed' top' bottom'
  ]
]

pub record Revs : Type 0 where
  pub from : Oid
  pub to : Oid
  pub single : Bool

abbrev pub no_revs : Revs
no_revs = record { from = 0; to = 0; single = false }

unfoldable pub locate_range : ℕ → Repo → Revs → Option Revs
unfolding locate next
locate_range fuel repo revs =
    if revs.from == 0 || revs.to == 0
    then some revs
    else elim (locate fuel (next repo) [] [] (some revs.to) (some revs.from)) [
      | none ↦ none
      | some from ↦ some (record revs { from = from })
    ]
