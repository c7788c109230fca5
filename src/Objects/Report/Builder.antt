-- ===== src/Objects/Report/Builder.antt =====
-- libs/cov-api/src/cov/io/report.cc: the builder of the builds of a report, which keeps one build for
-- each set of properties.
use git2_cxx.Base.{
  Bool, true, false, List, [], ◌∷◌, Option, none, some, Bytes, if◌then◌else◌, ◌≡◌, refl, arith, map,
}
use git2_cxx.Text.{eqb, less}
use git2_cxx.Text.Order.{eqb→eq, eqb_same, eqb_join, less_irrefl}
use git2_cxx.Stats.{CoverageStats}
use git2_cxx.Objects.{GitOid}
use git2_cxx.Objects.Props.{Json, normalize}
use git2_cxx.Objects.Report.{ReportBuild}

-- `entries_`: a map from properties in normal form to builds, in the order of its keys.
abbrev pub Entries : Type 0
Entries = List (Bytes × ReportBuild)

-- The constructor of `build_impl`.
unfoldable pub make_build : Json → GitOid → Bytes → CoverageStats → ReportBuild
make_build json id props stats = record {
  build_id = id;
  props_json = normalize json props;
  stats = stats;
}

-- `entries_[props] = entry`.
unfoldable pub set_entry : Entries → Bytes → ReportBuild → Entries
set_entry [] props entry = (props, entry) ∷ []
set_entry ((key, b) ∷ entries) props entry =
    let rest = set_entry entries props entry in
    if less key props
    then (key, b) ∷ rest
    else if eqb key props
    then (key, entry) ∷ entries
    else (props, entry) ∷ ((key, b) ∷ entries)

unfoldable pub put_entry : Json → Entries → ReportBuild → Entries
unfolding set_entry
put_entry json entries entry = set_entry entries (normalize json entry.props_json) entry

unfoldable pub add_build : Json → Entries → GitOid → Bytes → CoverageStats → Entries
unfolding put_entry make_build
add_build json entries id props stats = put_entry json entries (make_build json id props stats)

unfoldable pub erase_entry : Entries → Bytes → Entries × Bool
erase_entry [] props = ([], false)
erase_entry ((key, b) ∷ entries) props =
    let rest = erase_entry entries props in
    if eqb key props then (entries, true) else ((key, b) ∷ rest.0, rest.1)

unfoldable pub remove_build : Json → Entries → Bytes → Entries × Bool
unfolding erase_entry
remove_build json entries props = erase_entry entries (normalize json props)

unfoldable pub release : Entries → List ReportBuild
release entries = map (λ (e : Bytes × ReportBuild). e.1) entries

-- The build that a key has.
unfoldable pub find_entry : Entries → Bytes → Option ReportBuild
find_entry [] props = none
find_entry ((key, b) ∷ entries) props = if eqb key props then some b else find_entry entries props

less-eqb : (s t : Bytes) → eqb s t ≡ true → less s t ≡ false
less-eqb s t h = rw (eqb→eq s t h) (less_irrefl t)

find_entry-set_entry :
    (entries : Entries) (props : Bytes) (entry : ReportBuild) (other : Bytes)
    → find_entry (set_entry entries props entry) other
      ≡ (if eqb props other then some entry else find_entry entries other)
unfolding find_entry set_entry
find_entry-set_entry [] props entry other = refl
find_entry-set_entry ((key, b) ∷ entries) props entry other = ground (
  arith,
  find_entry-set_entry entries props entry other,
  eqb_same key props other,
  eqb_join key props other,
  less-eqb key props,
)

-- After a build is added, its properties, in the form that they have after they were brought into
-- normal form twice, have it, and all others have what they had.
pub find_entry-add_build :
    (json : Json) (entries : Entries) (id : GitOid) (props : Bytes) (stats : CoverageStats)
    (other : Bytes)
    → find_entry (add_build json entries id props stats) other ≡ (
        if eqb (normalize json (normalize json props)) other
        then some (make_build json id props stats)
        else find_entry entries other)
unfolding add_build put_entry make_build
find_entry-add_build json entries id props stats other =
    find_entry-set_entry entries (normalize json (normalize json props))
      (make_build json id props stats) other

-- A key that has no build is not removed, and one that has is.
pub erase_entry-found :
    (entries : Entries) (props : Bytes)
    → (erase_entry entries props).1
      ≡ elim (find_entry entries props) [ none ↦ false | some b ↦ true ]
unfolding erase_entry find_entry
erase_entry-found [] props = refl
erase_entry-found ((key, b) ∷ entries) props = ground (arith, erase_entry-found entries props)
