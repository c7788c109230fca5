-- ===== src/Revs/Examples.antt =====
-- Tests of revisions and ranges, and the theorems about them on the history that
-- revparse.cc draws.
use git2_cxx.Base.{
  ◌==◌, true, false, List, [], ◌∷◌, Option, none, some, if◌then◌else◌, codes, length, ◌≡◌, refl,
  arith, All, inl, inr,
}
use git2_cxx.Revs.{Oid, Repo, Revs, direct, no_revs, next, locate_range, contains}
use git2_cxx.Revs.Chains.{first_common, locate_range-first_common}
use git2_cxx.Revs.Parse.{parse, parse_single, resolve, range_end, parents, climb, split_rev}
use git2_cxx.Revs.Suffixes.{
  Mark, print, total, IsMark, StandsFor, Climbed, parse_single-print, number_of, value,
}

-- H, G and F are 1, 2 and 3; E and D are 4 and 5; O and N are 6 and 7.
abbrev parent_of : Oid → Option Oid
parent_of id =
    if id == 1
    then some 0
    else if id == 2
    then some 1
    else if id == 3
    then some 2
    else if id == 4
    then some 3
    else if id == 5
    then some 4
    else if id == 6
    then some 3
    else if id == 7
    then some 6
    else none

abbrev drawn : Repo
drawn = record {
  lookup_report = parent_of;
  dwim = λ name. if length name == 1 then some (direct 5) else some (direct 7);
  peel_target = λ target. none;
  current_head = record { branch = codes "main"; tip = some 5 };
  find_partial = λ name. none;
}

abbrev d_to_n : Revs
d_to_n = record no_revs { from = 5; to = 7 }

locate_range-first_common_example :
    locate_range 7 drawn d_to_n
    ≡ some (record d_to_n { from = first_common (7 ∷ 6 ∷ 3 ∷ 2 ∷ 1 ∷ []) (5 ∷ 4 ∷ 3 ∷ 2 ∷ 1 ∷ []) })
unfolding next
locate_range-first_common_example =
    locate_range-first_common 7 drawn d_to_n (7 ∷ 6 ∷ 3 ∷ 2 ∷ 1 ∷ []) (5 ∷ 4 ∷ 3 ∷ 2 ∷ 1 ∷ [])
      (omega arith) (omega arith) refl refl (refl, (refl, (refl, (refl, (refl, tt)))))
      (refl, (refl, (refl, (refl, (refl, tt))))) (omega arith) (omega arith)

parse_range :
    parse 9 drawn (codes "D..main")
    ≡ some (record { ec = none; revs = record { from = 3; to = 7; single = false } })
unfolding parse parse_single range_end split_rev parents resolve climb locate_range contains
parse_range = refl

abbrev two_up : List Mark
two_up = record { tilde = true; number = 2 ∷ [] } ∷ record { tilde = false; number = [] } ∷ []

two_up-IsMark : All IsMark two_up
unfolding number_of value
two_up-IsMark = (
  record { digits = omega arith; first_parent = inl refl },
  (record { digits = tt; first_parent = inr (omega arith) }, tt),
)

-- Three up from D is G, whose id is 2.
parse_single-print_example : Climbed drawn 3 5 (parse_single drawn (codes "D~2^") 0)
unfolding total number_of value print
parse_single-print_example =
    parse_single-print drawn (codes "D") two_up 0 5 (omega arith) two_up-IsMark (omega arith)
      (unfold StandsFor in inl refl)

parse_up : parse_single drawn (codes "D~2^") 0 ≡ record { ec = none; out = 2 }
unfolding parse_single split_rev parents resolve climb
parse_up = refl
