-- ===== src/Strings/Locate.antt =====
-- The search in a built block of strings, libs/cov-api/src/cov/io/strings.cc.
use git2_cxx.Base.{
  ℕ, ◌+◌, true, false, List, [], ◌∷◌, ◌++◌, none, some, Bytes, length, ◌≡◌, refl, sym, ◌∙◌, All,
  length-append, append_assoc, arith, Bool-cases, inl, inr, ◌⊎◌,
}
use git2_cxx.Text.{eqb, less}
use git2_cxx.Text.Order.{eqb_refl, ne→eqb, less_irrefl}
use git2_cxx.Strings.{at, is_valid, lower_bound, found_or, StringsBlock, build, insert, locate_or}
use git2_cxx.Strings.Sorted.{In, IsAscending, insert-IsAscending, In-insert}
use git2_cxx.Strings.Layout.{
  LacksNul, EndsInNul, flat, starts, padding, at_start, is_valid_start, build_lem,
}

less_of_In :
    (s x : Bytes) (ss : List Bytes) → All (λ t. less s t ≡ true) ss → In x ss → less s x ≡ true
less_of_In s x [] a h = elim h [ ]
less_of_In s x (t ∷ ss) a (inl e) = rw e a.0
less_of_In s x (t ∷ ss) a (inr h) = less_of_In s x ss a.1 h

-- The part of a block from one of its strings on: the strings still to search, and what follows.
abbrev Behind : Bytes → Bytes → List Bytes → Bytes → Type 0
Behind block before ss post = block ≡ before ++ (flat ss ++ post)

step_Behind :
    (block before s : Bytes) (ss : List Bytes) (post : Bytes)
    → Behind block before (s ∷ ss) post
    → (block ≡ before ++ (s ++ 0 ∷ (flat ss ++ post)))
      × Behind block (before ++ (s ++ 0 ∷ [])) ss post
      × (length (before ++ (s ++ 0 ∷ [])) ≡ length before + length s + 1)
unfolding flat
step_Behind block before s ss post e = (
  e ∙ simp append_assoc,
  e ∙ simp append_assoc,
  omega (arith, length-append before (s ++ 0 ∷ []), length-append s (0 ∷ [])),
)

-- The search ends at the string that it looks for, if the set holds it.
lower_bound_found :
    (x : Bytes) (ss : List Bytes) (block before post : Bytes)
    → All LacksNul ss
    → IsAscending ss
    → EndsInNul before
    → Behind block before ss post
    → In x ss
    → (offset : ℕ) × (lower_bound block (starts (length before) ss) x ≡ some (some offset))
      × (at block offset ≡ some x)
      × (is_valid block offset ≡ true)
unfolding lower_bound starts
lower_bound_found x [] block before post l a n e h = elim h [ ]
lower_bound_found x (s ∷ ss) block before post l a n e (inl h) =
    let next = step_Behind block before s ss post e in
    let here : at block (length before) ≡ some s = rw next.0 (at_start before s _ l.0) in
    (
      length before,
      rw (here, h, less_irrefl s, lower_bound),
      rw h here,
      rw next.0 (is_valid_start before s _ n),
    )
lower_bound_found x (s ∷ ss) block before post l a n e (inr h) =
    let next = step_Behind block before s ss post e in
    let here : at block (length before) ≡ some s = rw next.0 (at_start before s _ l.0) in
    let (offset, found, there, valid) =
      lower_bound_found x ss block (before ++ (s ++ 0 ∷ [])) post l.1 a.1
        (inr (before ++ s, sym (append_assoc before s (0 ∷ [])))) next.1 h in
    (offset, rw (here, less_of_In s x ss a.0 h, lower_bound) (rw next.2 at found), there, valid)

-- Whatever the search ends at is a string of the set.
lower_bound_sound :
    (x : Bytes) (ss : List Bytes) (block before post : Bytes)
    → All LacksNul ss
    → Behind block before ss post
    → (lower_bound block (starts (length before) ss) x ≡ some none)
      ⊎ ((offset : ℕ) × (s : Bytes) × (lower_bound block (starts (length before) ss) x
            ≡ some (some offset))
          × (at block offset ≡ some s)
          × In s ss)
unfolding lower_bound starts
lower_bound_sound x [] block before post l e = inl refl
lower_bound_sound x (s ∷ ss) block before post l e =
    let next = step_Behind block before s ss post e in
    let here : at block (length before) ≡ some s = rw next.0 (at_start before s _ l.0) in
    let rest = lower_bound_sound x ss block (before ++ (s ++ 0 ∷ [])) post l.1 next.1 in
    elim (Bool-cases (less s x)) [
      | inl q ↦ elim rest [
        | inl stop ↦ inl (rw (here, q, lower_bound) (rw next.2 at stop))
        | inr (offset, t, found, there, h) ↦
            inr (offset, t, rw (here, q, lower_bound) (rw next.2 at found), there, inr h)
      ]
      | inr q ↦ inr (length before, s, rw (here, q, lower_bound), here, inl refl)
    ]

-- The set after a run of insertions.
unfoldable pub insert_all : List Bytes → List Bytes → List Bytes
insert_all [] ss = ss
insert_all (x ∷ xs) ss = insert_all xs (insert x ss)

insert_all_lem :
    (xs ss : List Bytes)
    → IsAscending ss
    → IsAscending (insert_all xs ss)
      × ((y : Bytes) → In y (insert_all xs ss) → In y xs ⊎ In y ss)
      × ((y : Bytes) → In y xs ⊎ In y ss → In y (insert_all xs ss))
unfolding insert_all
insert_all_lem [] ss a = (a, (λ y h. inr h), (λ y h. elim h [ inl n ↦ absurd n | inr i ↦ i ]))
insert_all_lem (x ∷ xs) ss a =
    let (asc, out, into) = insert_all_lem xs (insert x ss) (insert-IsAscending x ss a) in
    (
      asc,
      (λ y h. elim (out y h) [
        | inl i ↦ inl (inr i)
        | inr i ↦ elim ((In-insert y x ss).0 i) [ inl e ↦ inl (inl e) | inr j ↦ inr j ]
      ]),
      (λ y h. elim h [
        | inl (inl e) ↦ into y (inr ((In-insert y x ss).1 (inl e)))
        | inl (inr i) ↦ into y (inl i)
        | inr j ↦ into y (inr ((In-insert y x ss).1 (inr j)))
      ]),
    )

All_of_In : (P : Bytes → Type 0) (ss : List Bytes) → ((y : Bytes) → In y ss → P y) → All P ss
All_of_In P [] h = tt
All_of_In P (s ∷ ss) h = (h s (inl refl), All_of_In P ss (λ y i. h y (inr i)))

In_All : (P : Bytes → Type 0) (x : Bytes) (ss : List Bytes) → All P ss → In x ss → P x
In_All P x [] a h = elim h [ ]
In_All P x (s ∷ ss) a (inl e) = rw e a.0
In_All P x (s ∷ ss) a (inr h) = In_All P x ss a.1 h

-- What a run of insertions into the empty set gives: NUL-free strings in order, and only those.
module _ (xs : List Bytes) (l : All LacksNul xs) where
  built_asc : IsAscending (insert_all xs [])
  built_asc = (insert_all_lem xs [] tt).0

  built_In : (y : Bytes) → In y (insert_all xs []) → In y xs
  built_In y i = elim ((insert_all_lem xs [] tt).1 y i) [ inl h ↦ h | inr n ↦ absurd n ]

  built_LacksNul : All LacksNul (insert_all xs [])
  built_LacksNul = All_of_In LacksNul _ (λ y i. In_All LacksNul y xs l (built_In y i))

  laid : StringsBlock
  laid =
      let ss : List Bytes = insert_all xs [] in
      record { offsets = starts 0 ss; bytes = flat ss ++ padding (length (flat ss)) }

  -- If no string that was inserted holds a NUL, every one of them is found in the block, at a valid
  -- offset, where it is read back.
  pub locate_or-build :
      (x : Bytes) (value_if_invalid : ℕ)
      → In x xs
      → let b = build (insert_all xs []) in
        (offset : ℕ) × (locate_or b x value_if_invalid ≡ some offset)
        × (is_valid b.bytes offset ≡ true)
        × (at b.bytes offset ≡ some x)
  unfolding locate_or laid
  locate_or-build x d h =
      let ss : List Bytes = insert_all xs [] in
      let (offset, found, there, valid) =
        lower_bound_found x ss (flat ss ++ padding (length (flat ss))) []
          (padding (length (flat ss))) built_LacksNul built_asc (inl refl) refl
          ((insert_all_lem xs [] tt).2 x (inl h)) in
      let located : locate_or laid x d ≡ some offset =
        rw (found, there, eqb_refl x, locate_or, found_or) in
      (offset, rw (build_lem ss) located, rw (build_lem ss) valid, rw (build_lem ss) there)

  -- A string that was not inserted is not found, whatever bytes it holds.
  pub locate_or_missing :
      (x : Bytes) (value_if_invalid : ℕ)
      → ¬ In x xs
      → locate_or (build (insert_all xs [])) x value_if_invalid ≡ some value_if_invalid
  unfolding locate_or laid
  locate_or_missing x d h =
      let ss : List Bytes = insert_all xs [] in
      elim (lower_bound_sound x ss (flat ss ++ padding (length (flat ss))) []
        (padding (length (flat ss))) built_LacksNul refl) [
          | inl stop ↦
              let located : locate_or laid x d ≡ some d = rw (stop, locate_or) in
              rw (build_lem ss) located
          | inr (offset, s, found, there, i) ↦
              let other : eqb s x ≡ false = ne→eqb s x (λ e. h (rw e at (built_In s i))) in
              let located : locate_or laid x d ≡ some d =
                rw (found, there, other, locate_or, found_or) in
              rw (build_lem ss) located
        ]
