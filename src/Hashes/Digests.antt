-- ===== src/Hashes/Digests.antt =====
-- libs/cov-api/include/cov/hash/hash.hh: the digest of a message.
use git2_cxx.Base.{
  ℕ, zero, suc, ◌+◌, ◌-◌, ◌*◌, ◌/◌, ◌%◌, ◌^◌, ◌<◌, true, false, List, [], ◌∷◌, ◌++◌, Bytes, ltb,
  length, ◌≡◌, refl, ap, sym, ◌∙◌, arith, All, Bool-cases, inl, inr, length-append,
  length-replicate, append_assoc, append-nil, drop, take, replicate, drop-append, take-append,
  All-append,
}
use git2_cxx.Hashes.{Algorithm, Hash, start, update, make_room, finalize, update_all}
use git2_cxx.Hashes.Sha1.{Sha1State, sha1, result_sha1}
use git2_cxx.Hashes.Md5.{Md5State, md5, result_md5}
use git2_cxx.Hashes.Absorbed.{
  flat, flat-append, run-append, IsBlock, run, Absorbed, start-Absorbed, update-Absorbed,
  update_all-Absorbed,
}

-- Whole blocks and fewer than 64 bytes behind them are cut in one way only.
same_blocks :
    (bs cs : List Bytes) (s t : Bytes)
    → All IsBlock bs
    → All IsBlock cs
    → length s < 64
    → length t < 64
    → flat bs ++ s ≡ flat cs ++ t
    → (bs ≡ cs) × (s ≡ t)
unfolding flat
same_blocks [] [] s t hb hc hs ht e = (refl, e)
same_blocks [] (c ∷ cs) s t hb hc hs ht e =
    absurd (omega (arith, ap length e, length-append (c ++ flat cs) t, length-append c (flat cs)))
same_blocks (b ∷ bs) [] s t hb hc hs ht e =
    absurd (omega (arith, ap length e, length-append (b ++ flat bs) s, length-append b (flat bs)))
same_blocks (b ∷ bs) (c ∷ cs) s t hb hc hs ht e =
    let e' : b ++ (flat bs ++ s) ≡ c ++ (flat cs ++ t) =
      sym (append_assoc b (flat bs) s) ∙ e ∙ append_assoc c (flat cs) t in
    let first : b ≡ c =
      sym (take-append 64 b (flat bs ++ s) hb.0)
      ∙ ap (take 64) e'
      ∙ take-append 64 c (flat cs ++ t) hc.0 in
    let rest : flat bs ++ s ≡ flat cs ++ t =
      sym (drop-append 64 b (flat bs ++ s) hb.0)
      ∙ ap (drop 64) e'
      ∙ drop-append 64 c (flat cs ++ t) hc.0 in
    let (blocks, spans) = same_blocks bs cs s t hb.1 hc.1 hs ht rest in (cc, spans)

replicate-add :
    {A : Type 0} (m n : ℕ) (a : A) → replicate (m + n) a ≡ replicate m a ++ replicate n a
replicate-add zero n a = let none_more : 0 + n ≡ n = omega arith in rw none_more refl
replicate-add (suc m) n a =
    let one_more : suc m + n ≡ suc (m + n) = omega arith in
    rw one_more (ap (a ∷◌) (replicate-add m n a))

-- The last blocks of a message, with and without room for the count.
one_last :
    (m body span zeros count : Bytes)
    → m ≡ body ++ span
    → body ++ ((((span ++ 0x80 ∷ []) ++ zeros) ++ count) ++ []) ≡ m ++ (0x80 ∷ (zeros ++ count))
one_last m body span zeros count e = rw e (simp (append_assoc, append-nil))

two_last :
    (m body span zeros more count : Bytes)
    → m ≡ body ++ span
    → body ++ (((span ++ 0x80 ∷ []) ++ zeros) ++ ((more ++ count) ++ []))
      ≡ m ++ (0x80 ∷ ((zeros ++ more) ++ count))
two_last m body span zeros more count e = rw e (simp (append_assoc, append-nil))

make_room-full :
    (algorithm : Algorithm) (state : algorithm.State) (span : Bytes)
    → ltb 56 (length span) ≡ true
    → make_room algorithm state span
      ≡ (algorithm.transform (span ++ replicate (64 - length span) 0) state, [])
unfolding make_room
make_room-full algorithm state span h = rw h refl

make_room-free :
    (algorithm : Algorithm) (state : algorithm.State) (span : Bytes)
    → ltb 56 (length span) ≡ false
    → make_room algorithm state span ≡ (state, span)
unfolding make_room
make_room-free algorithm state span h = rw h refl

module _ (algorithm : Algorithm) where
  open algorithm use {State, initial, transform, result, count_bytes}

  Absorbed-same :
      (h k : Hash State) (m : Bytes) → Absorbed algorithm h m → Absorbed algorithm k m → h ≡ k
  Absorbed-same h k m a b =
      let (blocks, spans) =
        same_blocks a.taken.blocks b.taken.blocks h.span k.span a.taken.whole b.taken.whole a.short
          b.short (sym a.taken.parts ∙ b.taken.parts) in
      let states : h.state ≡ k.state =
        a.taken.state ∙ ap (run algorithm initial) blocks ∙ sym b.taken.state in
      let lo : h.count_lo ≡ k.count_lo = omega (arith, a.lo, b.lo, a.hi, b.hi, a.count, b.count) in
      let hi : h.count_hi ≡ k.count_hi = omega (arith, a.lo, b.lo, a.hi, b.hi, a.count, b.count) in
      λ i. record { state = states i; count_lo = lo i; count_hi = hi i; span = spans i }

  -- It does not matter in which pieces a message is given: the object is the one that the whole
  -- message leaves.
  pub update_all-flat :
      (pieces : List Bytes)
      → update_all algorithm (start algorithm) pieces
        ≡ update algorithm (start algorithm) (flat pieces)
  update_all-flat pieces =
      Absorbed-same _ _ (flat pieces)
        (update_all-Absorbed algorithm (start algorithm) [] pieces (start-Absorbed algorithm))
        (update-Absorbed algorithm (start algorithm) [] (flat pieces) (start-Absorbed algorithm))

  abbrev IsPadded : Bytes → ℕ → ℕ → List Bytes → ℕ → Type 0
  IsPadded m lo hi blocks zeros =
      All IsBlock blocks
      × (zeros < 64)
      × (flat blocks ≡ m ++ (0x80 ∷ (replicate zeros 0 ++ count_bytes lo hi)))

  finalize-Absorbed :
      ((lo hi : ℕ) → length (count_bytes lo hi) ≡ 8)
      → (h : Hash State) (m : Bytes) → Absorbed algorithm h m
      → (blocks : List Bytes) × (zeros : ℕ) × IsPadded m h.count_lo h.count_hi blocks zeros
        × (finalize algorithm h ≡ (result (run algorithm initial blocks), start algorithm))
  unfolding finalize flat run
  finalize-Absorbed eight h m a =
      let span = h.span ++ 0x80 ∷ [] in
      let used = length span in
      let long : used ≡ length h.span + 1 = omega (arith, length-append h.span (0x80 ∷ [])) in
      let count = count_bytes h.count_lo h.count_hi in
      let bs = a.taken.blocks in
      elim (Bool-cases (ltb 56 used)) [
        | inl full ↦
            let b1 = span ++ replicate (64 - used) 0 in
            let b2 = replicate 56 0 ++ count in
            let first_long : length b1 ≡ 64 = ground (
              arith,
              a.short,
              full,
              long,
              length-append span (replicate (64 - used) 0),
              length-replicate {A = ℕ} (64 - used) 0,
            ) in
            (
              bs ++ (b1 ∷ (b2 ∷ [])),
              (64 - used) + 56,
              (
                All-append IsBlock bs (b1 ∷ (b2 ∷ [])) a.taken.whole
                    (first_long, (omega (arith, eight h.count_lo h.count_hi), tt)),
                ground (arith, a.short),
                flat-append bs (b1 ∷ (b2 ∷ []))
                    ∙ two_last m (flat bs) h.span (replicate (64 - used) 0) (replicate 56 0) count
                        a.taken.parts
                    ∙ ap (λ z. m ++ (0x80 ∷ (z ++ count))) (sym (replicate-add (64 - used) 56 0)),
              ),
              rw (make_room-full algorithm h.state span full, finalize)
                  (ap (λ s. (result (transform b2 (transform b1 s)), start algorithm)) a.taken.state
                    ∙ ap (λ s. (result s, start algorithm))
                        (sym (run-append algorithm initial bs (b1 ∷ (b2 ∷ []))))),
            )
        | inr room ↦
            let last_long : length ((span ++ replicate (56 - used) 0) ++ count) ≡ 64 = ground (
              arith,
              room,
              long,
              length-append (span ++ replicate (56 - used) 0) count,
              length-append span (replicate (56 - used) 0),
              length-replicate {A = ℕ} (56 - used) 0,
              eight h.count_lo h.count_hi,
            ) in
            let b = (span ++ replicate (56 - used) 0) ++ count in
            (
              bs ++ (b ∷ []),
              56 - used,
              (
                All-append IsBlock bs (b ∷ []) a.taken.whole (last_long, tt),
                omega arith,
                flat-append bs (b ∷ [])
                    ∙ one_last m (flat bs) h.span (replicate (56 - used) 0) count a.taken.parts,
              ),
              rw (make_room-free algorithm h.state span room, finalize)
                  (ap (λ s. (result (transform b s), start algorithm)) a.taken.state
                    ∙ ap (λ s. (result s, start algorithm))
                        (sym (run-append algorithm initial bs (b ∷ [])))),
            )
      ]

  -- The digest is made of the blocks of the message, the byte 0x80, fewer than 64 zeros and the count
  -- of bits, and the object is then as it was at the start.
  pub finalize-blocks :
      ((lo hi : ℕ) → length (count_bytes lo hi) ≡ 8)
      → (pieces : List Bytes)
      → let bits = 8 * length (flat pieces) % 2 ^ 64 in
        (blocks : List Bytes) × (zeros : ℕ) × All IsBlock blocks
        × (zeros < 64)
        × (flat blocks
            ≡ flat pieces
              ++ (0x80 ∷ (replicate zeros 0 ++ count_bytes (bits % 2 ^ 32) (bits / 2 ^ 32))))
        × (finalize algorithm (update_all algorithm (start algorithm) pieces)
            ≡ (result (run algorithm initial blocks), start algorithm))
  finalize-blocks eight pieces =
      let h = update_all algorithm (start algorithm) pieces in
      let a =
        update_all-Absorbed algorithm (start algorithm) [] pieces (start-Absorbed algorithm) in
      let lo : h.count_lo ≡ 8 * length (flat pieces) % 2 ^ 64 % 2 ^ 32 =
        omega (arith, a.count, a.lo, a.hi) in
      let hi : h.count_hi ≡ 8 * length (flat pieces) % 2 ^ 64 / 2 ^ 32 =
        omega (arith, a.count, a.lo, a.hi) in
      let (blocks, zeros, padded, digest) = finalize-Absorbed eight h (flat pieces) a in
      (
        blocks,
        zeros,
        padded.0,
        padded.1,
        padded.2
            ∙ ap (λ c. flat pieces ++ (0x80 ∷ (replicate zeros 0 ++ c)))
                (ap (λ l. count_bytes l h.count_hi) lo ∙ ap (count_bytes _) hi),
        digest,
      )

result_sha1_lem :
    (s : Sha1State) → (length (result_sha1 s) ≡ 20) × All (λ b. b < 256) (result_sha1 s)
unfolding result_sha1
result_sha1_lem s = (refl, omega arith)

result_md5_lem : (s : Md5State) → (length (result_md5 s) ≡ 16) × All (λ b. b < 256) (result_md5 s)
unfolding result_md5
result_md5_lem s = (refl, omega arith)

-- The digest of every message that was given in pieces has 20 bytes for SHA-1 and 16 for MD5.
pub finalize_sizes :
    (pieces : List Bytes)
    → let sha1_digest = (finalize sha1 (update_all sha1 (start sha1) pieces)).0 in
      let md5_digest = (finalize md5 (update_all md5 (start md5) pieces)).0 in
      (length sha1_digest ≡ 20)
      × All (λ b. b < 256) sha1_digest
      × (length md5_digest ≡ 16)
      × All (λ b. b < 256) md5_digest
unfolding finalize
finalize_sizes pieces =
    let (sha1_long, sha1_bytes) = result_sha1_lem _ in
    let (md5_long, md5_bytes) = result_md5_lem _ in (sha1_long, sha1_bytes, md5_long, md5_bytes)
