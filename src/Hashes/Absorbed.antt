-- ===== src/Hashes/Absorbed.antt =====
-- libs/cov-api/include/cov/hash/hash.hh: the blocks of a message that was given in pieces.
use git2_cxx.Base.{
  ℕ, zero, suc, ◌+◌, ◌-◌, ◌*◌, ◌%◌, ◌^◌, ◌<◌, ◌≤◌, List, [], ◌∷◌, ◌++◌, Bytes, ltb, leb, length,
  ◌≡◌, refl, ap, sym, ◌∙◌, arith, All, Bool-cases, inl, inr, length-append, append_assoc,
  append-nil, drop, take, All-append,
}
use git2_cxx.Hashes.{
  Algorithm, Hash, more_lo, more_hi, start, transform_all, fill, absorb, update, update_all,
}

unfoldable pub flat : List Bytes → Bytes
flat [] = []
flat (b ∷ bs) = b ++ flat bs

pub flat-append : (bs cs : List Bytes) → flat (bs ++ cs) ≡ flat bs ++ flat cs
unfolding flat
flat-append [] cs = refl
flat-append (b ∷ bs) cs = ap (b ++◌) (flat-append bs cs) ∙ sym (append_assoc b (flat bs) (flat cs))

abbrev pub IsBlock : Bytes → Type 0
IsBlock b = length b ≡ 64

take-drop : (n : ℕ) (xs : Bytes) → take n xs ++ drop n xs ≡ xs
take-drop zero xs = refl
take-drop (suc n) [] = refl
take-drop (suc n) (x ∷ xs) = ap (x ∷◌) (take-drop n xs)

length-take : (n : ℕ) (xs : Bytes) → n ≤ length xs → length (take n xs) ≡ n
length-take zero xs h = refl
length-take (suc n) [] h = absurd (omega arith)
length-take (suc n) (x ∷ xs) h = omega (arith, length-take n xs (omega arith))

length-drop : (n : ℕ) (xs : Bytes) → length (drop n xs) ≡ length xs - n
length-drop zero xs = omega arith
length-drop (suc n) [] = omega arith
length-drop (suc n) (x ∷ xs) = omega (arith, length-drop n xs)

-- The two halves of a count of bits, with more bytes.
more_lem :
    (lo hi length : ℕ)
    → lo < 2 ^ 32
    → hi < 2 ^ 32
    → (more_lo lo length < 2 ^ 32)
      × (more_hi lo hi length < 2 ^ 32)
      × (more_hi lo hi length * 2 ^ 32 + more_lo lo length
          ≡ (hi * 2 ^ 32 + lo + 8 * length) % 2 ^ 64)
more_lem lo hi length l h = (omega arith, omega arith, ground arith)

module _ (algorithm : Algorithm) where
  open algorithm use {State, initial, transform, result, count_bytes}

  -- The state after blocks.
  unfoldable pub run : State → List Bytes → State
  run state [] = state
  run state (b ∷ bs) = run (transform b state) bs

  pub run-append :
      (state : State) (bs cs : List Bytes) → run state (bs ++ cs) ≡ run (run state bs) cs
  unfolding run
  run-append state [] cs = refl
  run-append state (b ∷ bs) cs = run-append (transform b state) bs cs

  -- Bytes that were taken in whole blocks, up to fewer than 64.
  pub record Taken (before : State) (bytes : Bytes) (after : State × Bytes) : Type 0 where
    pub blocks : List Bytes
    pub whole : All IsBlock blocks
    pub parts : bytes ≡ flat blocks ++ after.1
    pub state : after.0 ≡ run before blocks

  transform_all-Taken :
      (fuel : ℕ) (state : State) (bytes : Bytes)
      → length bytes ≤ fuel
      → Taken state bytes (transform_all algorithm fuel state bytes)
        × (length (transform_all algorithm fuel state bytes).1 < 64)
  unfolding transform_all flat run
  transform_all-Taken zero state bytes h =
      (record { blocks = []; whole = tt; parts = refl; state = refl }, omega arith)
  transform_all-Taken (suc fuel) state bytes h = elim (Bool-cases (leb 64 (length bytes))) [
    | inl more ↦
        let (t, short) =
          transform_all-Taken fuel (transform (take 64 bytes) state) (drop 64 bytes)
            (ground (arith, length-drop 64 bytes)) in
        rw more (
          record {
            blocks = take 64 bytes ∷ t.blocks;
            whole = (length-take 64 bytes (ground arith), t.whole);
            parts =
                sym (take-drop 64 bytes)
                ∙ ap (take 64 bytes ++◌) t.parts
                ∙ sym (append_assoc (take 64 bytes) (flat t.blocks) _);
            state = t.state;
          },
          short,
        )
    | inr last ↦
        rw last (record { blocks = []; whole = tt; parts = refl; state = refl }, ground arith)
  ]

  pub Taken-then :
      (before : State) (m more : Bytes) (state : State) (span : Bytes) (after : State × Bytes)
      → Taken before m (state, span)
      → Taken state (span ++ more) after
      → Taken before (m ++ more) after
  Taken-then before m more state span after t u = record {
    blocks = t.blocks ++ u.blocks;
    whole = All-append IsBlock t.blocks u.blocks t.whole u.whole;
    parts =
        ap (λ x. x ++ more) t.parts
        ∙ append_assoc (flat t.blocks) span more
        ∙ ap (flat t.blocks ++◌) u.parts
        ∙ sym (append_assoc (flat t.blocks) (flat u.blocks) after.1)
        ∙ ap (λ x. x ++ after.1) (sym (flat-append t.blocks u.blocks));
    state = u.state ∙ ap (λ s. run s u.blocks) t.state ∙ sym (run-append before t.blocks u.blocks);
  }

  pub one_block :
      (state : State) (b : Bytes) (rest : Bytes)
      → IsBlock b
      → Taken state (b ++ rest) (transform b state, rest)
  unfolding run flat
  one_block state b rest h = record {
    blocks = b ∷ [];
    whole = (h, tt);
    parts = ap (λ x. x ++ rest) (sym (append-nil b));
    state = refl;
  }

  absorb-Taken :
      (state : State) (span bytes : Bytes)
      → length span < 64
      → Taken state (span ++ bytes) (absorb algorithm state span bytes)
        × (length (absorb algorithm state span bytes).1 < 64)
  unfolding absorb fill flat run
  absorb-Taken state [] bytes h = elim (Bool-cases (ltb (length bytes) (64 - 0))) [
    | inl few ↦
        rw few (record { blocks = []; whole = tt; parts = refl; state = refl }, ground arith)
    | inr many ↦ rw many (transform_all-Taken (length bytes) state bytes (omega arith))
  ]
  absorb-Taken state (b ∷ span) bytes h =
      elim (Bool-cases (ltb (length bytes) (64 - length (b ∷ span)))) [
        | inl few ↦ rw few (
          record { blocks = []; whole = tt; parts = refl; state = refl },
          ground (arith, length-append (b ∷ span) bytes),
        )
        | inr many ↦
            let rest = 64 - length (b ∷ span) in
            let first = take rest bytes in
            let block : length ((b ∷ span) ++ first) ≡ 64 =
              ground (arith, length-append (b ∷ span) first, length-take rest bytes) in
            let (t, short) =
              transform_all-Taken (length (drop rest bytes)) (transform ((b ∷ span) ++ first) state)
                (drop rest bytes) (omega arith) in
            let same : ((b ∷ span) ++ first) ++ drop rest bytes ≡ (b ∷ span) ++ bytes =
              append_assoc (b ∷ span) first (drop rest bytes)
              ∙ ap ((b ∷ span) ++◌) (take-drop rest bytes) in
            rw many (
              record {
                blocks = ((b ∷ span) ++ first) ∷ t.blocks;
                whole = (block, t.whole);
                parts =
                    sym same
                    ∙ ap (((b ∷ span) ++ first) ++◌) t.parts
                    ∙ sym (append_assoc ((b ∷ span) ++ first) (flat t.blocks) _);
                state = t.state;
              },
              short,
            )
      ]

  -- What the object holds of the message so far.
  pub record Absorbed (h : Hash State) (m : Bytes) : Type 0 where
    pub taken : Taken initial m (h.state, h.span)
    pub short : length h.span < 64
    pub lo : h.count_lo < 2 ^ 32
    pub hi : h.count_hi < 2 ^ 32
    pub count : h.count_hi * 2 ^ 32 + h.count_lo ≡ 8 * length m % 2 ^ 64

  pub start-Absorbed : Absorbed (start algorithm) []
  unfolding start flat run
  start-Absorbed = record {
    taken = record { blocks = []; whole = tt; parts = refl; state = refl };
    short = omega arith;
    lo = omega arith;
    hi = omega arith;
    count = omega arith;
  }

  pub update-Absorbed :
      (h : Hash State) (m bytes : Bytes)
      → Absorbed h m
      → Absorbed (update algorithm h bytes) (m ++ bytes)
  unfolding update
  update-Absorbed h m [] a = rw (append-nil m) a
  update-Absorbed h m (b ∷ bytes) a =
      let (t, short) = absorb-Taken h.state h.span (b ∷ bytes) a.short in
      let counts = more_lem h.count_lo h.count_hi (length (b ∷ bytes)) a.lo a.hi in
      record {
        taken = Taken-then initial m (b ∷ bytes) h.state h.span _ a.taken t;
        short = short;
        lo = counts.0;
        hi = counts.1;
        count = omega (arith, counts.2, a.count, length-append m (b ∷ bytes));
      }

  pub update_all-Absorbed :
      (h : Hash State) (m : Bytes) (pieces : List Bytes)
      → Absorbed h m
      → Absorbed (update_all algorithm h pieces) (m ++ flat pieces)
  unfolding update_all flat
  update_all-Absorbed h m [] a = rw (append-nil m) a
  update_all-Absorbed h m (piece ∷ pieces) a = rw (sym (append_assoc m piece (flat pieces))) (
      update_all-Absorbed (update algorithm h piece) (m ++ piece) pieces
        (update-Absorbed h m piece a))
