-- ===== src/Strings/Layout.antt =====
-- Where `build` puts each string, and what `at` and `is_valid` say there.
use mathlib.Core.List.{foldl}
use git2_cxx.Base.{
  ℕ, ◌+◌, ◌-◌, ◌%◌, ◌==◌, true, false, List, [], ◌∷◌, ◌++◌, some, Bytes, leb, if◌then◌else◌, length,
  get_or, replicate, ◌≡◌, ◌≢◌, refl, ap, sym, ◌∙◌, All, length-append, length-replicate,
  drop-append, append_assoc, append-nil, arith, inl, inr, ◌⊎◌,
}
use git2_cxx.Strings.{c_string, at, is_valid, StringsBlock, empty, append, fill32, build}

abbrev pub LacksNul : Bytes → Type 0
LacksNul = All (λ c. c ≢ 0)

-- The strings one behind the other, each with its NUL, and where each of them starts.
unfoldable pub flat : List Bytes → Bytes
flat [] = []
flat (s ∷ ss) = (s ++ 0 ∷ []) ++ flat ss

unfoldable pub starts : ℕ → List Bytes → List ℕ
starts base [] = []
starts base (s ∷ ss) = base ∷ starts (base + length s + 1) ss

c_string_lem : (s rest : Bytes) → LacksNul s → c_string (s ++ 0 ∷ rest) ≡ some s
unfolding c_string
c_string_lem [] rest h = refl
c_string_lem (c ∷ s) rest h = ground (arith, c_string_lem s rest h.1)

-- A string that stands in the block is read back from where it starts.
pub at_start :
    (before s rest : Bytes) → LacksNul s → at (before ++ (s ++ 0 ∷ rest)) (length before) ≡ some s
unfolding at
at_start before s rest h =
    let longer : leb (length (before ++ (s ++ 0 ∷ rest))) (length before) ≡ false =
      ground (arith, length-append before (s ++ 0 ∷ rest), length-append s (0 ∷ rest)) in
    rw (longer, drop-append (length before) before (s ++ 0 ∷ rest) refl) (c_string_lem s rest h)

-- What stands before a string is nothing, or ends in a NUL.
abbrev pub EndsInNul : Bytes → Type 0
EndsInNul before = (before ≡ []) ⊎ ((front : Bytes) × (before ≡ front ++ 0 ∷ []))

get_or-last :
    (front : Bytes) (c d : ℕ) (rest : Bytes) → get_or (front ++ c ∷ rest) (length front) d ≡ c
get_or-last [] c d rest = refl
get_or-last (x ∷ front) c d rest = get_or-last front c d rest

pub is_valid_start :
    (before s rest : Bytes)
    → EndsInNul before
    → is_valid (before ++ (s ++ 0 ∷ rest)) (length before) ≡ true
unfolding is_valid
is_valid_start before s rest (inl e) = rw e (ground (arith, length-append s (0 ∷ rest)))
is_valid_start before s rest (inr (front, e)) =
    let block : Bytes = (front ++ 0 ∷ []) ++ (s ++ 0 ∷ rest) in
    let place : length (front ++ 0 ∷ []) ≡ length front + 1 =
      omega (arith, length-append front (0 ∷ [])) in
    let last : get_or block (length front) 0 ≡ 0 =
      rw append_assoc (get_or-last front 0 0 (s ++ 0 ∷ rest)) in
    rw e (
      rw place (
        ground (
          arith,
          last,
          length-append (front ++ 0 ∷ []) (s ++ 0 ∷ rest),
          length-append s (0 ∷ rest),
          place,
        )))

-- The loop of `build` lays the strings out behind what the block holds.
foldl-append :
    (ss : List Bytes) (b : StringsBlock)
    → foldl append b ss
      ≡ record { offsets = b.offsets ++ starts (length b.bytes) ss; bytes = b.bytes ++ flat ss }
unfolding append flat starts
foldl-append [] b =
    λ i. record { offsets = sym (append-nil b.offsets) i; bytes = sym (append-nil b.bytes) i }
foldl-append (s ∷ ss) b = foldl-append ss (append b s) ∙ λ i. record {
  offsets =
      (append_assoc b.offsets (length b.bytes ∷ []) (starts (length ((b.bytes ++ s) ++ 0 ∷ [])) ss)
          ∙ ap (λ n. b.offsets ++ length b.bytes ∷ starts n ss) next)
        i;
  bytes = joined i;
}
  where
    next : length ((b.bytes ++ s) ++ 0 ∷ []) ≡ length b.bytes + length s + 1
    next = omega (arith, length-append (b.bytes ++ s) (0 ∷ []), length-append b.bytes s)

    joined : ((b.bytes ++ s) ++ 0 ∷ []) ++ flat ss ≡ b.bytes ++ ((s ++ 0 ∷ []) ++ flat ss)
    joined = simp append_assoc

-- The zeros that fill the last word of a block.
abbrev pub padding : ℕ → Bytes
padding n = if n % 4 == 0 then [] else replicate (4 - n % 4) 0

-- A built block is its strings and the padding, with the offset of each string.
pub build_lem :
    (ss : List Bytes)
    → build ss ≡ record { offsets = starts 0 ss; bytes = flat ss ++ padding (length (flat ss)) }
unfolding build fill32
build_lem ss =
    rw (foldl-append ss empty) (filled (record { offsets = starts 0 ss; bytes = flat ss }))
  where
    filled :
        (b : StringsBlock) → fill32 b ≡ record b { bytes = b.bytes ++ padding (length b.bytes) }
    filled b = ground (arith, append-nil b.bytes)

-- The block of a built set fills whole words.
pub length-build : (ss : List Bytes) → length (build ss).bytes % 4 ≡ 0
length-build ss = rw build_lem (
    ground (
      arith,
      length-append (flat ss) (padding (length (flat ss))),
      length-replicate {A = ℕ} (4 - length (flat ss) % 4) 0,
    ))
