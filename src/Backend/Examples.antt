-- ===== src/Backend/Examples.antt =====
-- Objects in a store.
use git2_cxx.Base.{◌++◌, [], ◌∷◌, some, if◌then◌else◌, codes, ◌≡◌, refl, arith, replicate}
use git2_cxx.Text.{eqb}
use git2_cxx.Objects.{GitOid}
use git2_cxx.Backend.{
  report_object, build_object, files_object, lines_object, functions_object, Codec, Store, get_file,
  found, missing, lookup_object, lookup_prefix, write,
}
use git2_cxx.Backend.Stored.{IsObject, kept, write-lookup_object}
use git2_cxx.Backend.Prefix.{files_like, lookup_prefix_lem}
use git2_cxx.Objects.Examples.{
  an_id, a_json, a_report, a_build, the_files, the_lines, the_functions, a_report-IsReport,
  a_report_small, a_build-IsBuild, a_build_small, the_files-IsFile, the_files-IsAscending,
  the_files_small, the_functions-IsFunction, the_functions_small,
}

-- Nothing is compressed.
abbrev a_codec : Codec
a_codec = record {
  deflate = λ bytes. bytes;
  inflate = λ bytes. some bytes;
  format = λ id. id ++ id;
}

the_files-IsObject : IsObject a_json (files_object the_files)
unfolding IsObject
the_files-IsObject = record {
  valid = the_files-IsFile;
  ascending = the_files-IsAscending;
  few = omega arith;
  small = the_files_small;
}

write-lookup_object_example :
    (after : Store) × (id : GitOid) × (write a_codec a_json [] (files_object the_files)
      ≡ some (after, id))
    × (lookup_object a_codec a_json after (an_id 9) ≡ (
        if eqb id (an_id 9)
        then found (kept (files_object the_files))
        else lookup_object a_codec a_json [] (an_id 9)))
write-lookup_object_example =
    write-lookup_object a_codec a_json (λ bytes. refl) [] (files_object the_files)
      the_files-IsObject (an_id 9)

a_report-IsObject : IsObject a_json (report_object a_report)
unfolding IsObject
a_report-IsObject = record { valid = a_report-IsReport; few = omega arith; small = a_report_small }

a_build-IsObject : IsObject a_json (build_object a_build)
unfolding IsObject
a_build-IsObject = record { valid = a_build-IsBuild; small = a_build_small }

the_lines-IsObject : IsObject a_json (lines_object the_lines)
unfolding IsObject
the_lines-IsObject = record { valid = omega arith; few = omega arith }

the_functions-IsObject : IsObject a_json (functions_object the_functions)
unfolding IsObject
the_functions-IsObject = record {
  valid = the_functions-IsFunction;
  few = omega arith;
  small = the_functions_small;
}

-- Two files whose ids differ from their fifth byte on.
abbrev two_files : Store
two_files =
    (1 ∷ (2 ∷ replicate 18 3), codes "x") ∷ ((1 ∷ (2 ∷ (3 ∷ (3 ∷ replicate 16 4))), codes "y") ∷ [])

two_files_lem : get_file two_files (1 ∷ (2 ∷ replicate 18 3)) ≡ some (codes "x")
unfolding get_file eqb
two_files_lem = refl

lookup_prefix_lem_example :
    (lookup_prefix a_codec a_json two_files (1 ∷ (2 ∷ replicate 18 3)) 4 ≡ missing)
unfolding files_like eqb
lookup_prefix_lem_example =
    lookup_prefix_lem a_codec a_json two_files (1 ∷ (2 ∷ replicate 18 3)) (codes "x") 4
      two_files_lem (omega arith)
