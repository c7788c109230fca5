-- ===== src/Revs/Parse.antt =====
-- libs/cov-api/src/cov/revparse.cc: `parse_single` and `parse`. An error leaves the output as the
-- source does, so a result is the error, if there is one, beside the output.
use git2_cxx.Base.{
  ℕ, zero, suc, ◌+◌, ◌-◌, ◌*◌, ◌%◌, ◌^◌, ◌==◌, Bool, true, false, not, ◌&&◌, ◌||◌, [], ◌∷◌, Option,
  none, some, Bytes, ltb, leb, if◌then◌else◌, codes, length,
}
use git2_cxx.Text.{eqb}
use git2_cxx.Revs.{
  Oid, direct, symbolic, undetermined, Repo, Errc, invalidspec, notfound, unbornbranch,
  wrong_object_type, Revs, no_revs, next, locate_range,
}

unfoldable pub is_digit : ℕ → Bool
is_digit c = leb b'0' c && leb c b'9'

-- The loop of `get_number`: the number, in 64 bits, and what is left of the text.
unfoldable pub digits : Bytes → ℕ → ℕ × Bytes
digits [] result = (result, [])
digits (c ∷ s) result =
    let rest = digits s ((result * 10 + (c - b'0')) % 2 ^ 64) in
    if is_digit c then rest else (result, c ∷ s)

unfoldable pub get_number : Bytes → ℕ × Bytes
unfolding digits is_digit
get_number [] = (1, [])
get_number (c ∷ s) = if is_digit c then digits (c ∷ s) 0 else (1, c ∷ s)

-- The name in front of the first '^' or '~', and the rest.
unfoldable pub split_rev : Bytes → Bytes × Bytes
split_rev [] = ([], [])
split_rev (c ∷ s) =
    let (base, rest) = split_rev s in
    if c == b'^' || c == b'~' then ([], c ∷ s) else (c ∷ base, rest)

-- The loop over '^' and '~': the number of parents to go up, or the error. The fuel bounds the
-- rounds, each of which takes at least one character.
pub data Counted : Type 0 where
  counted : ℕ → Counted
  -- `out = {}`, and the error.
  cleared : Errc → Counted
  -- The error alone.
  failed : Errc → Counted

unfoldable pub parents : ℕ → Bytes → ℕ → Counted
unfolding get_number
parents fuel [] count = counted count
parents zero (c ∷ s) count = failed invalidspec
parents (suc fuel) (c ∷ s) count =
    let (number, rest) = get_number s in
    let more = parents fuel rest ((count + number) % 2 ^ 64) in
    if c == b'^'
    then (if ltb 1 number then cleared notfound else more)
    else if c == b'~'
    then more
    else failed invalidspec

pub record Single : Type 0 where
  pub ec : Option Errc
  pub out : Oid

unfoldable pub is_report : Repo → Oid → Bool
is_report repo id = elim (repo.lookup_report id) [ none ↦ false | some parent ↦ true ]

-- `while (node && parent_count) node = node.next(repo)`, and the id of what is left.
unfoldable pub ancestor : ℕ → (Oid → Option Oid) → Option Oid → Oid
ancestor count parent none = 0
ancestor zero parent (some sha) = sha
ancestor (suc count) parent (some sha) = ancestor count parent (parent sha)

unfoldable pub no_target : Repo → Bytes → Errc
no_target repo base =
    let head = repo.current_head in
    let unborn : Bool = elim head.tip [ none ↦ true | some tip ↦ false ] in
    if (eqb base (codes "HEAD") || eqb base head.branch) && unborn then unbornbranch else notfound

-- The id that a name stands for.
pub data Named : Type 0 where
  named : Oid → Named
  unnamed : Errc → Named

unfoldable pub resolve : Repo → Bytes → Named
unfolding no_target
resolve repo base = elim (repo.dwim base) [
  | some (direct id) ↦ named id
  | some (symbolic target) ↦ elim (repo.peel_target target) [
    | some id ↦ named id
    | none ↦ unnamed (no_target repo base)
  ]
  | some undetermined ↦ unnamed (no_target repo base)
  | none ↦ elim (repo.find_partial base) [ some id ↦ named id | none ↦ unnamed notfound ]
]

unfoldable pub climb : Repo → ℕ → Oid → Single
unfolding ancestor next is_report
climb repo count id =
    if count == 0
    then record { ec = none; out = id }
    else if is_report repo id
    then record { ec = none; out = ancestor count (next repo) (some id) }
    else record { ec = some wrong_object_type; out = id }

-- What follows the split of a revision. `out` is what the output held before the call.
unfoldable pub after_split : Repo → Oid → Bytes × Bytes → Single
after_split repo out (base, rest) = elim (parents (length rest) rest 0) [
  | failed e ↦ record { ec = some e; out = out }
  | cleared e ↦ record { ec = some e; out = 0 }
  | counted count ↦ elim (resolve repo base) [
    | unnamed e ↦ record { ec = some e; out = 0 }
    | named id ↦ climb repo count id
  ]
]

unfoldable pub parse_single : Repo → Bytes → Oid → Single
unfolding after_split
parse_single repo rev out = after_split repo out (split_rev rev)

-- `range.find("..")`: what stands before and behind the first two dots.
unfoldable pub find_dots : Bytes → Option (Bytes × Bytes)
find_dots [] = none
find_dots (c ∷ []) = none
find_dots (c ∷ (d ∷ s)) =
    if c == b'.' && d == b'.' then some ([], s) else elim (find_dots (d ∷ s)) [
      | none ↦ none
      | some (before, behind) ↦ some (c ∷ before, behind)
    ]

pub record Parsed : Type 0 where
  pub ec : Option Errc
  pub revs : Revs

is_empty : Bytes → Bool
is_empty [] = true
is_empty (c ∷ s) = false

starts_with_dot : Bytes → Bool
starts_with_dot [] = false
starts_with_dot (c ∷ s) = c == b'.'

-- One end of a range: HEAD for an empty name, else the report that the name stands for. An id that
-- is not zero must be a report's.
unfoldable pub range_end : Repo → Oid → Bytes → Single
unfolding is_empty is_report parse_single
range_end repo head rev =
    let parsed = parse_single repo rev 0 in
    if is_empty rev then record { ec = none; out = head } else elim parsed.ec [
      | some e ↦ parsed
      | none ↦
          if not (parsed.out == 0) && not (is_report repo parsed.out)
          then record { ec = some wrong_object_type; out = parsed.out }
          else parsed
    ]

both_ends : ℕ → Repo → Oid → Bytes → Bytes → Option Parsed
both_ends fuel repo head from_rev to_rev =
    let from = range_end repo head from_rev in
    let to = range_end repo head to_rev in
    elim from.ec [
      | some e ↦ some (record { ec = some e; revs = record no_revs { from = from.out } })
      | none ↦ elim to.ec [
        | some e ↦ some (record { ec = some e; revs = record no_revs { to = to.out } })
        | none ↦ elim (locate_range fuel repo (record no_revs { from = from.out; to = to.out })) [
          | none ↦ none
          | some revs ↦ some (record { ec = none; revs = revs })
        ]
      ]
    ]

-- `none` is the end of the fuel of `locate_range`.
unfoldable pub parse : ℕ → Repo → Bytes → Option Parsed
unfolding find_dots is_empty starts_with_dot both_ends
parse fuel repo range = elim (find_dots range) [
  | none ↦
      let single = parse_single repo range 0 in
      some (record { ec = single.ec; revs = record { from = 0; to = single.out; single = true } })
  | some (from_rev, to_rev) ↦
      if is_empty from_rev && is_empty to_rev
      then some (record { ec = some invalidspec; revs = no_revs })
      else if starts_with_dot to_rev
      then some (record { ec = some invalidspec; revs = no_revs })
      else let head = parse_single repo (codes "HEAD") 0 in
        if is_empty from_rev || is_empty to_rev
        then elim head.ec [
          | some e ↦ some (record { ec = some e; revs = no_revs })
          | none ↦ both_ends fuel repo head.out from_rev to_rev
        ]
        else both_ends fuel repo 0 from_rev to_rev
]
