-- ===== src/References/Examples.antt =====
-- References in a store of files.
use git2_cxx.Base.{
  ℕ, ◌+◌, ◌-◌, ◌*◌, ◌/◌, ◌%◌, ◌<◌, true, false, [], ◌∷◌, ◌++◌, none, some, Bytes, ltb, leb,
  if◌then◌else◌, codes, length, ◌≡◌, refl, ap, ◌∙◌, arith, All, replicate,
}
use git2_cxx.Text.{eqb, starts_with}
use git2_cxx.Text.Order.{eqb_refl}
use git2_cxx.Objects.{GitOid}
use git2_cxx.Backend.{Store, put_file, get_file}
use git2_cxx.Backend.Dict.{get_file-put_file}
use git2_cxx.References.Names.{
  check_chunk, is_refused, is_upper_case, and_then_check, scan, is_valid_name,
}
use git2_cxx.References.{
  Disk, Reference, direct, symbolic, prefix_info, use_common_for, read_line, only_hex,
  read_reference, lookup, create_matching,
}
use git2_cxx.References.Created.{IsDisk, create_matching-lookup}
use git2_cxx.References.Follow.{peeled, unfinished, next_bead, peel_target}
use git2_cxx.References.Chains.{is_symbolic, follow, peel_target-ends, peel_target-circle}
use git2_cxx.Text.Parts.{ends_with, trim, trim_front, trim_back, is_space}

hex_digit : ℕ → ℕ
hex_digit n = if ltb n 10 then 48 + n else 87 + n

digit_of : ℕ → ℕ
digit_of c = if leb c 57 then c - 48 else c - 87

hex : GitOid → Bytes
unfolding hex_digit
hex [] = []
hex (b ∷ id) = hex_digit (b / 16) ∷ (hex_digit (b % 16) ∷ hex id)

unhex : Bytes → GitOid
unfolding digit_of
unhex [] = []
unhex (c ∷ []) = []
unhex (c ∷ (d ∷ s)) = (digit_of c * 16 + digit_of d) ∷ unhex s

unhex-hex : (id : GitOid) → All (λ b. b < 256) id → unhex (hex id) ≡ id
unfolding unhex hex digit_of hex_digit
unhex-hex [] h = refl
unhex-hex (b ∷ id) h =
    let first : digit_of (hex_digit (b / 16)) * 16 + digit_of (hex_digit (b % 16)) ≡ b =
      ground (arith, h.0) in
    rw (first, unhex-hex id h.1) refl

only_hex-hex : (id : GitOid) → All (λ b. b < 256) id → only_hex (hex id) ≡ true
unfolding only_hex hex hex_digit
only_hex-hex [] h = refl
only_hex-hex (b ∷ id) h = ground (arith, h.0, only_hex-hex id h.1)

length-hex : (id : GitOid) → length (hex id) ≡ 2 * length id
unfolding hex
length-hex [] = refl
length-hex (b ∷ id) = omega (arith, length-hex id)

-- The files are a list by their names.
abbrev a_disk : Disk
a_disk = record {
  State = Store;
  contents = λ state common name. get_file state name;
  print = λ state common name contents. (put_file state name contents, true);
  remove = λ state common name. (state, true);
  format = hex;
  parse = unhex;
}

a_disk-IsDisk : IsDisk a_disk
a_disk-IsDisk = record {
  printed = λ state common name contents taken.
      get_file-put_file state name name contents ∙ rw (eqb_refl name) refl;
  others = λ state common name contents common_other other differs.
      get_file-put_file state name other contents ∙ rw differs refl;
  digits = λ id h. (length-hex id ∙ ap (2 *◌) h.0, only_hex-hex id h.1);
  parsed = λ id h. unhex-hex id h.1;
}

abbrev an_oid : GitOid
an_oid = replicate 20 171

main_IsValid : is_valid_name (codes "refs/heads/main") ≡ some true
unfolding is_valid_name scan check_chunk and_then_check is_refused is_upper_case ends_with eqb
main_IsValid = refl

names :
    (is_valid_name (codes "HEAD") ≡ some true)
    × (is_valid_name (codes "head") ≡ some false)
    × (is_valid_name (codes "a/b.lock") ≡ some false)
    × (is_valid_name (codes "/a") ≡ none)
unfolding is_valid_name scan check_chunk and_then_check is_refused is_upper_case ends_with eqb
names = (refl, refl, refl, refl)

nothing_there : lookup a_disk [] (codes "refs/heads/main") ≡ some none
unfolding lookup get_file is_valid_name scan check_chunk and_then_check is_refused is_upper_case
    ends_with eqb
nothing_there = refl

create_matching-lookup_example :
    let made = direct (prefix_info (codes "refs/heads/main")) an_oid in
    let after = put_file [] (codes "refs/heads/main") (hex an_oid ++ 10 ∷ []) in
    (create_matching a_disk [] (codes "refs/heads/main") an_oid (replicate 20 0)
      ≡ some (after, some made, false))
    × (lookup a_disk after (codes "refs/heads/main") ≡ some (some made))
unfolding eqb
create_matching-lookup_example =
    create_matching-lookup a_disk a_disk-IsDisk [] (codes "refs/heads/main")
      (codes "refs/heads/main") an_oid (replicate 20 0) none main_IsValid nothing_there refl
      (refl, omega arith)

-- A reference to a branch, and two that lead to each other.
abbrev linked : Store
linked =
    (codes "HEAD", codes "ref: refs/heads/main\n")
    ∷ (codes "refs/heads/main", hex an_oid ++ 10 ∷ [])
    ∷ (codes "A", codes "ref: B\n")
    ∷ (codes "B", codes "ref: A\n")
    ∷ []

abbrev head : Reference
head = symbolic (prefix_info (codes "HEAD")) (codes "refs/heads/main")

head_leads :
    follow a_disk linked 1 head ≡ some (direct (prefix_info (codes "refs/heads/main")) an_oid)
unfolding follow next_bead lookup get_file use_common_for read_line read_reference starts_with trim
    trim_front trim_back is_space only_hex hex hex_digit unhex digit_of is_valid_name scan
    check_chunk and_then_check is_refused is_upper_case ends_with eqb
head_leads = refl

peel_target-ends_example :
    peel_target a_disk 2 linked head
    ≡ peeled (direct (prefix_info (codes "refs/heads/main")) an_oid)
unfolding is_symbolic
peel_target-ends_example =
    peel_target-ends a_disk linked 1 2 head (direct (prefix_info (codes "refs/heads/main")) an_oid)
      head_leads refl (omega arith)

abbrev circle : Reference
circle = symbolic (prefix_info (codes "A")) (codes "B")

circle_leads : follow a_disk linked 2 circle ≡ some circle
unfolding follow next_bead lookup get_file use_common_for read_line read_reference starts_with trim
    trim_front trim_back is_space is_valid_name scan check_chunk and_then_check is_refused
    is_upper_case ends_with eqb
circle_leads = refl

peel_target-circle_example : peel_target a_disk 1000 linked circle ≡ unfinished
peel_target-circle_example = peel_target-circle a_disk linked 1 1000 circle circle_leads
