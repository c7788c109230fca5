-- ===== src/Objects/Dispatch/Examples.antt =====
-- Two handlers of numbers.
use git2_cxx.Base.{
  ℕ, ◌+◌, true, [], ◌∷◌, none, some, Bytes, ltb, ◌≡◌, refl, ap, sym, arith, All, take,
}
use git2_cxx.Streams.{refused, store_word}
use git2_cxx.Objects.Dispatch.{
  bad_syntax, unsupported_version, loaded, failed, Handlers, add_handler, find_handler, load, store,
}
use git2_cxx.Objects.Dispatch.Outcomes.{Expected, load_lem}
use git2_cxx.Objects.Dispatch.Stored.{
  IsHandlers, Lacks, Restores, find_handler-add_handler, load-store,
}
use git2_cxx.Streams.{word}

-- Numbers below 10 under one tag, and all others under another.
abbrev numbers : Handlers ℕ
numbers =
    (
      1,
      0x10000,
      record { load = word; recognized = λ n. ltb n 10; store = λ n. some (store_word n []) },
    )
    ∷ (
      2,
      0x10002,
      record { load = word; recognized = λ n. true; store = λ n. some (store_word (n + 1) []) },
    )
    ∷ []

numbers-IsHandlers : IsHandlers numbers
unfolding IsHandlers Lacks
numbers-IsHandlers =
    (omega arith, omega arith, (omega arith, tt), (omega arith, omega arith, tt, tt))

abbrev stored_12 : Bytes
stored_12 = store_word 2 (store_word 0x10002 (store_word 13 []))

stored_12_lem : store numbers 12 ≡ some stored_12
unfolding store
stored_12_lem = refl

numbers-Restores : All (Restores 12 13) numbers
unfolding word store_word
numbers-Restores = (
  λ payload chosen stored. absurd (ground (arith, chosen)),
  (
    λ payload chosen stored.
        ([], ap (λ o. elim o [ none ↦ refused | some bytes ↦ word bytes ]) (sym stored)),
    tt,
  ),
)

load-store_test : load numbers stored_12 ≡ loaded 13
load-store_test =
    load-store numbers 12 13 stored_12 numbers-IsHandlers numbers-Restores stored_12_lem

load_lem_example :
    (load numbers (take 7 (store_word 2 (store_word 0x10002 (store_word 13 []))))
      ≡ failed bad_syntax)
    × Expected numbers 2 0x10002
        (store_word 13 [])
        (load numbers (store_word 2 (store_word 0x10002 (store_word 13 []))))
load_lem_example =
    load_lem numbers 2 0x10002 (store_word 13 []) 7 (omega arith) (omega arith) (omega arith)

-- A tag that no handler has, with another major version.
unknown_tag_test : load numbers (store_word 3 (store_word 0x20000 [])) ≡ failed unsupported_version
unfolding load find_handler word store_word
unknown_tag_test = refl

numbers_removed : find_handler (add_handler numbers 2 none 0) 2 ≡ none
numbers_removed = find_handler-add_handler numbers 2 none 0 2 numbers-IsHandlers
