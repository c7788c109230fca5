-- ===== src/Objects/Dispatch/Outcomes.antt =====
-- libs/cov-api/src/cov/io/db_object.cc: what `load` makes of every file, by its tag, its version and
-- what the handler reads.
use git2_cxx.Base.{
  ℕ, zero, suc, ◌==◌, ◌<◌, ◌/◌, ◌^◌, ◌⊎◌, true, List, [], ◌∷◌, none, some, Bytes, length, ◌≡◌, ◌≢◌,
  refl, ap, arith, Bool-cases, inl, inr, take,
}
use git2_cxx.Words.{IsU32}
use git2_cxx.Streams.{Outcome, done, refused, fault, word, store_word}
use git2_cxx.Objects.Dispatch.{
  bad_syntax, unknown_magic, unsupported_version, Loaded, loaded, failed, crashed, Handler,
  Handlers, major, find_handler, ended, load_with, load,
}
use git2_cxx.Objects.Dispatch.Stored.{Lacks, load-found}

word-short : (s : Bytes) → length s < 4 → word s ≡ refused
unfolding word
word-short [] h = refl
word-short (a ∷ []) h = refl
word-short (a ∷ (b ∷ [])) h = refl
word-short (a ∷ (b ∷ (c ∷ []))) h = refl
word-short (a ∷ (b ∷ (c ∷ (d ∷ s)))) h = absurd (omega arith)

length-take-lt : {A : Type 0} (n : ℕ) (s : List A) (k : ℕ) → n < k → length (take n s) < k
length-take-lt zero s k h = ground arith
length-take-lt (suc n) [] k h = ground arith
length-take-lt (suc n) (x ∷ s) zero h = omega arith
length-take-lt (suc n) (x ∷ s) (suc k) h = ground (arith, length-take-lt n s k)

Outcome-cases :
    {A : Type 0} (o : Outcome A)
    → ((a : A) × (left : Bytes) × (o ≡ done a left)) ⊎ (o ≡ refused) ⊎ (o ≡ fault)
Outcome-cases (done a left) = inl (a, left, refl)
Outcome-cases refused = inr (inl refl)
Outcome-cases fault = inr (inr refl)

module _ {A : Type 0} where
  load-short :
      (handlers : Handlers A) (s : Bytes) → length s < 8 → load handlers s ≡ failed bad_syntax
  unfolding load word
  load-short handlers [] h = refl
  load-short handlers (a ∷ []) h = refl
  load-short handlers (a ∷ (b ∷ [])) h = refl
  load-short handlers (a ∷ (b ∷ (c ∷ []))) h = refl
  load-short handlers (a ∷ (b ∷ (c ∷ (d ∷ s)))) h = rw (word-short s (omega arith), load) refl

  -- The pair is one of the map.
  pub data Holds (e : ℕ × ℕ × Handler A) : Handlers A → Type 0 where
    first :
        {other : ℕ × ℕ × Handler A} {handlers : Handlers A} → e ≡ other → Holds e (other ∷ handlers)
    behind :
        {other : ℕ × ℕ × Handler A} {handlers : Handlers A}
        → Holds e handlers
        → Holds e (other ∷ handlers)

  -- What is loaded from a file with this tag and version and the rest of it.
  pub data Expected (handlers : Handlers A) (magic version : ℕ) (rest : Bytes)
      : Loaded A → Type 0 where
    unknown :
        Lacks magic handlers
        → version / 2 ^ 16 ≡ 1
        → Expected handlers magic version rest (failed unknown_magic)
    unknown_version :
        Lacks magic handlers
        → version / 2 ^ 16 ≢ 1
        → Expected handlers magic version rest (failed unsupported_version)
    other_version :
        (known : ℕ) (h : Handler A)
        → Holds (magic, known, h) handlers
        → version / 2 ^ 16 ≢ known / 2 ^ 16
        → Expected handlers magic version rest (failed unsupported_version)
    read :
        (known : ℕ) (h : Handler A) (a : A) (left : Bytes)
        → Holds (magic, known, h) handlers
        → version / 2 ^ 16 ≡ known / 2 ^ 16
        → h.load rest ≡ done a left
        → Expected handlers magic version rest (loaded a)
    bad :
        (known : ℕ) (h : Handler A)
        → Holds (magic, known, h) handlers
        → version / 2 ^ 16 ≡ known / 2 ^ 16
        → h.load rest ≡ refused
        → Expected handlers magic version rest (failed bad_syntax)
    past_end :
        (known : ℕ) (h : Handler A)
        → Holds (magic, known, h) handlers
        → version / 2 ^ 16 ≡ known / 2 ^ 16
        → h.load rest ≡ fault
        → Expected handlers magic version rest crashed

  find_handler-cases :
      (handlers : Handlers A) (magic : ℕ)
      → (Lacks magic handlers × (find_handler handlers magic ≡ none))
        ⊎ ((known : ℕ) × (h : Handler A) × Holds (magic, known, h) handlers
            × (find_handler handlers magic ≡ some (known, h)))
  unfolding find_handler Lacks
  find_handler-cases [] magic = inl (tt, refl)
  find_handler-cases ((other, version, h) ∷ handlers) magic = elim (Bool-cases (other == magic)) [
    | inl same ↦
        let tag : magic ≡ other = ground (arith, same) in
        inr (version, h, first (ap (λ m. (m, version, h)) tag), rw same refl)
    | inr differs ↦ elim (find_handler-cases handlers magic) [
      | inl (lacks, nothing) ↦ inl ((ground (arith, differs), lacks), rw differs nothing)
      | inr (known, k, there, found) ↦ inr (known, k, behind there, rw differs found)
    ]
  ]

  -- A handler of the same major version: what its own `load` gives.
  load_with-same :
      (handlers : Handlers A) (magic version known : ℕ) (h : Handler A) (rest : Bytes)
      → Holds (magic, known, h) handlers
      → version / 2 ^ 16 ≡ known / 2 ^ 16
      → Expected handlers magic version rest (load_with (some (known, h)) version rest)
  unfolding load_with ended
  load_with-same handlers magic version known h rest there same =
      let same_test : (major version == major known) ≡ true = ground (arith, same) in
      elim (Outcome-cases (h.load rest)) [
        | inl (a, left, e) ↦ rw (same_test, e) (read known h a left there same e)
        | inr (inl e) ↦ rw (same_test, e) (bad known h there same e)
        | inr (inr e) ↦ rw (same_test, e) (past_end known h there same e)
      ]

  load_with-Expected :
      (handlers : Handlers A) (magic version : ℕ) (rest : Bytes)
      → Expected handlers magic version rest (load_with (find_handler handlers magic) version rest)
  unfolding load_with
  load_with-Expected handlers magic version rest = elim (find_handler-cases handlers magic) [
    | inl (lacks, nothing) ↦ elim (Bool-cases (major version == 1)) [
      | inl e ↦ rw (nothing, load_with, e) (unknown lacks (ground (arith, e)))
      | inr e ↦ rw (nothing, load_with, e) (unknown_version lacks (ground (arith, e)))
    ]
    | inr (known, h, there, found) ↦ elim (Bool-cases (major version == major known)) [
      | inl e ↦
          rw found (load_with-same handlers magic version known h rest there (ground (arith, e)))
      | inr e ↦ rw (found, load_with, e) (other_version known h there (ground (arith, e)))
    ]
  ]

  -- A file that is cut before its eighth byte is bad syntax. A whole one without a handler for its tag
  -- has an unknown tag if its major version is 1, and otherwise a version that is not supported; so
  -- has one whose tag has a handler of another major version. Where the handler's major version is
  -- that of the file, the object is the handler's; what the handler refuses is bad syntax, and what it
  -- reads past the end of stays a read past the end.
  pub load_lem :
      (handlers : Handlers A) (magic version : ℕ) (rest : Bytes) (n : ℕ)
      → IsU32 magic
      → IsU32 version
      → n < 8
      → (load handlers (take n (store_word magic (store_word version rest))) ≡ failed bad_syntax)
        × Expected handlers magic version rest
            (load handlers (store_word magic (store_word version rest)))
  load_lem handlers magic version rest n m v short =
      let s = store_word magic (store_word version rest) in
      (
        load-short handlers (take n s) (length-take-lt n s 8 short),
        rw (load-found handlers magic version rest m v)
            (load_with-Expected handlers magic version rest),
      )
