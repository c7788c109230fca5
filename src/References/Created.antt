-- ===== src/References/Created.antt =====
-- libs/cov-api/src/cov/ref/references.cc: references that are created and looked up.
use git2_cxx.Base.{
  ℕ, ◌<◌, Bool, true, false, [], ◌∷◌, ◌++◌, Option, none, some, Bytes, if◌then◌else◌, codes, length,
  ◌≡◌, refl, ap, sym, ◌∙◌, arith, All, Bool-cases, Option-cases, inl, inr,
}
use git2_cxx.Text.{eqb, starts_with}
use git2_cxx.Text.Order.{eqb→eq}
use git2_cxx.Text.Parts.{is_space, trim_front, trim_back, trim}
use git2_cxx.Objects.{GitOid}
use git2_cxx.Objects.Codecs.{IsId}
use git2_cxx.References.Names.{is_valid_name}
use git2_cxx.References.{
  Disk, Reference, direct, symbolic, null, direct_target, prefix_info, use_common_for, read_line,
  only_hex, read_reference, lookup, create_line, create, is_direct_to, matching, create_matching,
}

-- Twenty bytes.
abbrev pub IsOid : GitOid → Type 0
IsOid id = IsId id × All (λ b. b < 256) id

-- A file system keeps what is printed under a name, and leaves the other names alone; git writes an id
-- with 40 hexadecimal digits and reads it back.
pub record IsDisk (disk : Disk) : Type 0 where
  pub printed :
      (state : disk.State) (common : Bool) (name contents : Bytes)
      → (disk.print state common name contents).1 ≡ true
      → disk.contents (disk.print state common name contents).0 common name ≡ some contents
  pub others :
      (state : disk.State) (common : Bool) (name contents : Bytes) (common_other : Bool)
      (other : Bytes)
      → eqb name other ≡ false
      → disk.contents (disk.print state common name contents).0 common_other other
        ≡ disk.contents state common_other other
  pub digits :
      (id : GitOid) → IsOid id → (length (disk.format id) ≡ 40) × (only_hex (disk.format id) ≡ true)
  pub parsed : (id : GitOid) → IsOid id → disk.parse (disk.format id) ≡ id

read_line-only_hex : (s : Bytes) → only_hex s ≡ true → read_line (s ++ 10 ∷ []) ≡ s
unfolding read_line only_hex
read_line-only_hex [] h = refl
read_line-only_hex (c ∷ s) h = ground (arith, h, read_line-only_hex s)

trim_front-only_hex : (s : Bytes) → only_hex s ≡ true → trim_front s ≡ s
unfolding trim_front only_hex is_space
trim_front-only_hex [] h = refl
trim_front-only_hex (c ∷ s) h = ground (arith, h)

trim_back-keep :
    (c : ℕ) (s : Bytes) (d : ℕ) (rest : Bytes)
    → trim_back s ≡ d ∷ rest
    → trim_back (c ∷ s) ≡ c ∷ (d ∷ rest)
unfolding trim_back
trim_back-keep c s d rest e = rw (e, trim_back) refl

trim_back-only_hex : (s : Bytes) → only_hex s ≡ true → trim_back s ≡ s
unfolding trim_back only_hex is_space
trim_back-only_hex [] h = refl
trim_back-only_hex (c ∷ []) h = ground (arith, h)
trim_back-only_hex (c ∷ (d ∷ s)) h =
    trim_back-keep c (d ∷ s) d s (trim_back-only_hex (d ∷ s) (ground (arith, h)))

trim-only_hex : (s : Bytes) → only_hex s ≡ true → trim s ≡ s
unfolding trim
trim-only_hex s h = ap trim_back (trim_front-only_hex s h) ∙ trim_back-only_hex s h

not_ref : (s : Bytes) → only_hex s ≡ true → 0 < length s → starts_with s (codes "ref: ") ≡ false
unfolding starts_with only_hex
not_ref [] h n = absurd (omega arith)
not_ref (c ∷ s) h n = ground (arith, h)

read_reference-format :
    (disk : Disk)
    → IsDisk disk
    → (name : Bytes) (id : GitOid) → IsOid id
    → read_reference disk name (read_line (disk.format id ++ 10 ∷ []))
      ≡ some (direct (prefix_info name) id)
unfolding read_reference
read_reference-format disk laws name id h =
    let (long, hex) = laws.digits id h in
    let line = disk.format id in
    ap (read_reference disk name) (read_line-only_hex line hex)
    ∙ ground
        (arith, trim-only_hex line hex, not_ref line hex (omega arith), long, hex, laws.parsed id h)

lookup-valid :
    (disk : Disk) (state : disk.State) (name contents : Bytes)
    → is_valid_name name ≡ some true
    → disk.contents state (use_common_for name) name ≡ some contents
    → lookup disk state name ≡ some (read_reference disk name (read_line contents))
unfolding lookup
lookup-valid disk state name contents valid there = rw (valid, lookup) (rw (there, lookup) refl)

lookup-same :
    (disk : Disk) (before after : disk.State) (name : Bytes)
    → disk.contents after (use_common_for name) name
      ≡ disk.contents before (use_common_for name) name
    → lookup disk after name ≡ lookup disk before name
unfolding lookup
lookup-same disk before after name same = elim (Option-cases (is_valid_name name)) [
  | inl empty ↦ rw (empty, lookup) refl
  | inr (true, valid) ↦ rw (valid, lookup) (rw (same, lookup) refl)
  | inr (false, invalid) ↦ rw (invalid, lookup) refl
]

create-print :
    (disk : Disk) (state : disk.State) (name : Bytes) (target : GitOid)
    → is_valid_name name ≡ some true
    → (disk.print state (use_common_for name) name (disk.format target ++ 10 ∷ [])).1 ≡ true
    → create disk state name target
      ≡ some (
        (disk.print state (use_common_for name) name (disk.format target ++ 10 ∷ [])).0,
        some (direct (prefix_info name) target),
      )
unfolding create create_line
create-print disk state name target valid taken =
    rw (valid, create_line) (rw (taken, create_line) refl)

is_direct_to_lem :
    (disk : Disk) (expected : GitOid) (prev : Option Reference)
    → is_direct_to disk expected prev ≡ elim prev [
      | none ↦ true
      | some ref ↦ elim (direct_target ref) [ none ↦ false | some there ↦ eqb there expected ]
    ]
unfolding is_direct_to direct_target
is_direct_to_lem disk expected none = refl
is_direct_to_lem disk expected (some (direct name target)) = refl
is_direct_to_lem disk expected (some (symbolic name target)) = refl
is_direct_to_lem disk expected (some (null name)) = refl

-- If a name is valid, the reference that is there is looked up, and the disk takes a file, then
-- `create_matching` makes a direct reference if there was none or the expected one, and leaves the
-- state otherwise. In the state that has the file, the name is the new reference, and every other name
-- is what it was.
pub create_matching-lookup :
    (disk : Disk)
    → IsDisk disk
    → (state : disk.State) (name other : Bytes) (target expected : GitOid) (prev : Option Reference)
    → is_valid_name name ≡ some true
    → lookup disk state name ≡ some prev
    → (disk.print state (use_common_for name) name (disk.format target ++ 10 ∷ [])).1 ≡ true
    → IsOid target
    → let after = (disk.print state (use_common_for name) name (disk.format target ++ 10 ∷ [])).0 in
      let made = direct (prefix_info name) target in
      (create_matching disk state name target expected ≡ (
        if elim prev [
          | none ↦ true
          | some ref ↦ elim (direct_target ref) [ none ↦ false | some there ↦ eqb there expected ]
        ]
        then some (after, some made, false)
        else some (state, none, true)))
      × (lookup disk after other
          ≡ (if eqb name other then some (some made) else lookup disk state other))
unfolding create_matching matching
create_matching-lookup disk laws state name other target expected prev valid there taken h =
    let after = (disk.print state (use_common_for name) name (disk.format target ++ 10 ∷ [])).0 in
    let kept =
      laws.printed state (use_common_for name) name (disk.format target ++ 10 ∷ []) taken in
    let others =
      laws.others state (use_common_for name) name (disk.format target ++ 10 ∷ [])
        (use_common_for other) other in
    let found : lookup disk after name ≡ some (some (direct (prefix_info name) target)) =
      lookup-valid disk after name _ valid kept
      ∙ ap some (read_reference-format disk laws name target h) in
    (
      rw (there, create_matching)
            (rw (create-print disk state name target valid taken)
              (elim (Bool-cases (is_direct_to disk expected prev)) [
                | inl expects ↦ rw (expects, matching) refl
                | inr differs ↦ rw (differs, matching) refl
              ]))
          ∙ ap
              (λ b.
                if b
                then some (after, some (direct (prefix_info name) target), false)
                else some (state, none, true))
              (is_direct_to_lem disk expected prev),
      elim (Bool-cases (eqb name other)) [
        | inl same ↦ rw same (ap (lookup disk after) (sym (eqb→eq name other same)) ∙ found)
        | inr differs ↦ rw differs (lookup-same disk state after other (others differs))
      ],
    )
