-- ===== src/Hashes.antt =====
-- libs/cov-api/include/cov/hash/hash.hh: `basic_hash`, which feeds the bytes of a message to an
-- algorithm in blocks of 64 bytes.
pub mod Words
pub mod Sha1
pub mod Md5
pub mod Absorbed
pub mod Digests
pub mod Examples
use git2_cxx.Base.{
  ℕ, zero, suc, ◌+◌, ◌-◌, ◌*◌, ◌/◌, ◌%◌, ◌^◌, ◌==◌, ◌<◌, ◌≤◌, min, max, Bool, true, false, not,
  ◌&&◌, ◌||◌, List, [], ◌∷◌, ◌++◌, Option, none, some, Bytes, ltb, leb, if◌then◌else◌, codes,
  length, ◌≡◌, ◌≢◌, refl, ap, sym, ◌∙◌, arith, All, Bool-cases, Option-cases, inl, inr, ◌⊎◌, ◌↔◌,
  length-append, length-replicate, append_assoc, append-nil, drop, take, replicate, get_or,
  get_elem?, map, tests, drop-append, take-append, All-append,
}

-- What `Derived` has: the words that it keeps, `transform` of a block, the bytes of `on_result`, which
-- also sets the words back, and `ll2c` of the two halves of the count.
pub record Algorithm : Type 1 where
  pub State : Type 0
  pub initial : State
  pub transform : Bytes → State → State
  pub result : State → Bytes
  pub count_bytes : ℕ → ℕ → Bytes

-- `span` is the used part of `span_`.
pub record Hash (State : Type 0) : Type 0 where
  pub state : State
  pub count_lo : ℕ
  pub count_hi : ℕ
  pub span : Bytes

-- The low half of the count of bits, with `length` more bytes.
abbrev pub more_lo : ℕ → ℕ → ℕ
more_lo lo length = (lo + length % 2 ^ 32 * 2 ^ 3 % 2 ^ 32) % 2 ^ 32

abbrev pub more_hi : ℕ → ℕ → ℕ → ℕ
more_hi lo hi length =
    ((if ltb (more_lo lo length) lo then (hi + 1) % 2 ^ 32 else hi) + length / 2 ^ 29 % 2 ^ 32)
    % 2 ^ 32

module _ (algorithm : Algorithm) where
  open algorithm use {State, initial, transform, result, count_bytes}

  unfoldable pub start : Hash State
  start = record { state = initial; count_lo = 0; count_hi = 0; span = [] }

  -- The loop over whole blocks: the state after them, and the bytes behind them. Every round takes 64
  -- bytes, so the number of bytes is enough fuel.
  unfoldable pub transform_all : ℕ → State → Bytes → State × Bytes
  transform_all zero state bytes = (state, bytes)
  transform_all (suc fuel) state bytes =
      let rest = transform_all fuel (transform (take 64 bytes) state) (drop 64 bytes) in
      if leb 64 (length bytes) then rest else (state, bytes)

  -- A started block is filled first.
  unfoldable pub fill : State → Bytes → Bytes → State × Bytes
  fill state [] bytes = (state, bytes)
  fill state (b ∷ span) bytes =
      let rest = 64 - length (b ∷ span) in
      (transform ((b ∷ span) ++ take rest bytes) state, drop rest bytes)

  unfoldable pub absorb : State → Bytes → Bytes → State × Bytes
  unfolding transform_all fill
  absorb state span bytes =
      let filled = fill state span bytes in
      if ltb (length bytes) (64 - length span)
      then (state, span ++ bytes)
      else transform_all (length filled.1) filled.0 filled.1

  unfoldable pub update : Hash State → Bytes → Hash State
  unfolding absorb
  update h [] = h
  update h (b ∷ bytes) =
      let after = absorb h.state h.span (b ∷ bytes) in
      record {
        state = after.0;
        count_lo = more_lo h.count_lo (length (b ∷ bytes));
        count_hi = more_hi h.count_lo h.count_hi (length (b ∷ bytes));
        span = after.1;
      }

  -- The block that has no room for the count is finished with zeros.
  unfoldable pub make_room : State → Bytes → State × Bytes
  make_room state span =
      if ltb 56 (length span)
      then (transform (span ++ replicate (64 - length span) 0) state, [])
      else (state, span)

  -- The digest, and the object as it can be used again.
  unfoldable pub finalize : Hash State → Bytes × Hash State
  unfolding make_room start
  finalize h =
      let (state, span) = make_room h.state (h.span ++ 0x80 ∷ []) in
      let last = (span ++ replicate (56 - length span) 0) ++ count_bytes h.count_lo h.count_hi in
      (result (transform last state), start)

  unfoldable pub once : Bytes → Bytes
  unfolding finalize
  once bytes = (finalize (update start bytes)).0

  -- `update` of one piece after the other.
  unfoldable pub update_all : Hash State → List Bytes → Hash State
  update_all h [] = h
  update_all h (piece ∷ pieces) = update_all (update h piece) pieces
