-- ===== src/Modules/Examples.antt =====
-- Tests of modules, and the theorems about them at concrete values.
use git2_cxx.Base.{inl, inr, ap, length, List, [], ◌∷◌, Bytes, codes, ◌≡◌, refl, arith}
use git2_cxx.Text.{eqb, starts_with}
use git2_cxx.Text.Parts.{ends_with}
use git2_cxx.Modules.{
  Modules, needs_update, duplicate, back_is_slash, contains_path, contains_any, push_to, place,
  place_all, start_views, named_view, used_views, filter, lists, add, remove, remove_all,
  set_separator,
}
use git2_cxx.Modules.Edit.{
  prefixes_of, has_name, is_empty, IsValidEntries, IsValid, edits-IsValid, remove-add,
}
use git2_cxx.Modules.Outcomes.{Occurrence, behind, add-outcome, remove-outcome}
use git2_cxx.Modules.Filter.{all_views, with_files, filter-files_of}
use git2_cxx.Modules.Config.{
  ConfigEntry, mod_name, position, push_prefix, add_value, on_entry, read_entries, from_config,
  values,
}
use git2_cxx.Modules.Groups.{from_config-values}

abbrev two_modules : Modules
two_modules = record {
  separator = codes "/";
  entries =
      record { name = codes "api"; prefixes = codes "libs/api" ∷ [] }
      ∷ record { name = codes "tests"; prefixes = codes "libs/api/tests/" ∷ codes "tests" ∷ [] }
      ∷ [];
}

abbrev files : List Bytes
files =
    codes "libs/api/a.cc" ∷ codes "libs/api/tests/b.cc" ∷ codes "libs/apis.cc" ∷ codes "tests" ∷ []

two_modules-IsValid : IsValid two_modules
unfolding IsValid IsValidEntries has_name is_empty eqb
two_modules-IsValid = ground arith

abbrev settings : List ConfigEntry
settings =
    record { name = codes "module.sep"; value = codes "/" }
    ∷ record { name = codes "module.api.path"; value = codes "libs/api" }
    ∷ record { name = codes "module.tests.path"; value = codes "libs/api/tests/" }
    ∷ record { name = codes "module.tests.color"; value = codes "red" }
    ∷ record { name = codes "module.tests.path"; value = codes "tests" }
    ∷ []

from_config-settings : from_config settings ≡ two_modules
unfolding from_config read_entries on_entry add_value position push_prefix mod_name ends_with
    starts_with eqb
from_config-settings = refl

filter-two_modules :
    filter (λ f. f) two_modules files
    ≡ record {
      name = codes "api";
      items = codes "libs/api/a.cc" ∷ codes "libs/api/tests/b.cc" ∷ [];
    }
      ∷ record { name = codes "tests"; items = codes "libs/api/tests/b.cc" ∷ codes "tests" ∷ [] }
      ∷ record { name = []; items = codes "libs/apis.cc" ∷ [] }
      ∷ []
unfolding filter place_all place push_to start_views used_views named_view contains_any
    contains_path back_is_slash starts_with eqb
filter-two_modules = refl

edits-IsValid_example :
    IsValid (add two_modules (codes "api") (codes "tests")).0
    × IsValid (remove two_modules (codes "api") (codes "tests")).0
    × IsValid (remove_all two_modules (codes "api")).0
    × IsValid (set_separator two_modules (codes "tests")).0
edits-IsValid_example = edits-IsValid two_modules (codes "api") (codes "tests") two_modules-IsValid

remove-add_example :
    remove (add two_modules (codes "api") (codes "tests")).0 (codes "api") (codes "tests")
    ≡ (two_modules, needs_update)
unfolding lists prefixes_of eqb
remove-add_example = remove-add two_modules (codes "api") (codes "tests") two_modules-IsValid refl

add-outcome_test :
    ((add two_modules (codes "tests") (codes "tests")).1 ≡ duplicate)
    × (prefixes_of (add two_modules (codes "tests") (codes "tests")).0.entries (codes "api")
        ≡ codes "libs/api" ∷ [])
unfolding prefixes_of eqb lists
add-outcome_test = add-outcome two_modules (codes "tests") (codes "tests") (codes "api")

-- "tests" stands behind one other path.
abbrev tests_second : Occurrence (codes "tests") (prefixes_of two_modules.entries (codes "tests"))
unfolding prefixes_of eqb
tests_second =
    behind (codes "libs/api/tests/" ∷ []) []
      (λ i. elim i [ inl e ↦ absurd (omega (arith, ap length e)) | inr n ↦ n ]) refl

remove-outcome_example :
    ((remove two_modules (codes "tests") (codes "tests")).1 ≡ needs_update)
    × (prefixes_of (remove two_modules (codes "tests") (codes "tests")).0.entries (codes "tests")
        ≡ codes "libs/api/tests/" ∷ [])
unfolding prefixes_of eqb has_name tests_second
remove-outcome_example =
    remove-outcome two_modules (codes "tests") (codes "tests") (codes "tests") tests_second
      two_modules-IsValid

filter-files_of_example :
    filter (λ f. f) two_modules files
    ≡ with_files (λ f. f) (all_views (λ f. f) two_modules.entries files)
filter-files_of_example = filter-files_of (λ f. f) two_modules files

from_config-values_example :
    IsValid (from_config settings)
    × (prefixes_of (from_config settings).entries (codes "tests")
        ≡ codes "libs/api/tests/" ∷ codes "tests" ∷ [])
unfolding values mod_name ends_with starts_with eqb
from_config-values_example = from_config-values settings (codes "tests")
