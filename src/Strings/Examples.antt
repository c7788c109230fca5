-- ===== src/Strings/Examples.antt =====
-- Tests of the string block, and the theorems about it at concrete values.
use git2_cxx.Base.{ℕ, true, List, [], ◌∷◌, ◌++◌, some, Bytes, codes, ◌≡◌, refl, arith, inl}
use git2_cxx.Text.{less, eqb}
use git2_cxx.Strings.{at, is_valid, insert, build, locate_or}
use git2_cxx.Strings.Sorted.{In}
use git2_cxx.Strings.Locate.{insert_all, locate_or-build, locate_or_missing}

absent : ¬ In (codes "mai") (codes "main" ∷ codes "Johnny" ∷ codes "main" ∷ [])
absent h = ground arith

abbrev names : List Bytes
names = codes "main" ∷ codes "Johnny" ∷ codes "main" ∷ []

build-names :
    build (insert_all names [])
    ≡ record { offsets = 0 ∷ 7 ∷ []; bytes = codes "Johnny" ++ (0 ∷ codes "main") ++ 0 ∷ [] }
unfolding build insert_all insert less eqb
build-names = refl

locate_or-build_example :
    let b = build (insert_all names []) in
    (offset : ℕ) × (locate_or b (codes "main") 99 ≡ some offset)
    × (is_valid b.bytes offset ≡ true)
    × (at b.bytes offset ≡ some (codes "main"))
locate_or-build_example = locate_or-build names (omega arith) (codes "main") 99 (inl refl)

locate_or_missing_example : locate_or (build (insert_all names [])) (codes "mai") 99 ≡ some 99
locate_or_missing_example = locate_or_missing names (omega arith) (codes "mai") 99 absent
