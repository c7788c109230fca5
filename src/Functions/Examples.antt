-- ===== src/Functions/Examples.antt =====
-- Tests of merged functions, and the theorems about them at concrete entries.
use git2_cxx.Base.{◌%◌, ◌^◌, List, [], ◌∷◌, codes, ◌≡◌, refl}
use git2_cxx.Text.{eqb, less}
use git2_cxx.Functions.{
  FunctionPos, FunctionEntry, pos_eqb, pos_less, name_eqb, name_less, add_name, add_alias,
  add_aliases, call_names, call_count, functions_of, merge_aliases,
}
use git2_cxx.Functions.Calls.{entries_at, calls_at, merge_aliases-calls}
use git2_cxx.Functions.Places.{IsAscending, merge_aliases-IsAscending}

abbrev ten : FunctionPos
ten = record { start = record { line = 10; column = 3 }; end = record { line = 14; column = 3 } }

abbrev two : FunctionPos
two = record { start = record { line = 2; column = 1 }; end = record { line = 4; column = 2 } }

-- A constructor with two symbols, and a function in front of it.
abbrev entries : List FunctionEntry
entries =
    record { name = codes "_ZC2"; demangled_name = codes "C()"; count = 4; pos = ten }
    ∷ record { name = codes "_ZC1"; demangled_name = codes "C()"; count = 1; pos = ten }
    ∷ record { name = codes "f"; demangled_name = codes "f"; count = 9; pos = two }
    ∷ record { name = codes "_ZC2"; demangled_name = codes "C()"; count = 2; pos = ten }
    ∷ []

merge_aliases-entries :
    merge_aliases entries
    ≡ record {
      pos = two;
      names = record { link = codes "f"; demangled = codes "f"; count = 9 } ∷ [];
      count = 9;
    }
      ∷ record {
        pos = ten;
        names =
            record { link = codes "_ZC1"; demangled = codes "C()"; count = 1 }
            ∷ record { link = codes "_ZC2"; demangled = codes "C()"; count = 6 }
            ∷ [];
        count = 7;
      }
      ∷ []
unfolding merge_aliases add_aliases add_alias functions_of add_name call_names call_count pos_eqb
    pos_less name_eqb name_less eqb less
merge_aliases-entries = refl

merge_aliases-calls_example : calls_at ten (merge_aliases entries) % 2 ^ 32 ≡ 7
unfolding entries_at pos_eqb
merge_aliases-calls_example = merge_aliases-calls entries ten

merge_aliases-IsAscending_test : IsAscending (merge_aliases entries)
merge_aliases-IsAscending_test = merge_aliases-IsAscending entries
