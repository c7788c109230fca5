-- ===== src/Objects/Dispatch.antt =====
-- libs/cov-api/src/cov/io/db_object.cc and include/cov/io/db_object.hh: object files start with a tag
-- and a version, which choose the handler of what follows.
pub mod Stored
pub mod Outcomes
pub mod Examples
use git2_cxx.Base.{
  ℕ, zero, suc, ◌+◌, ◌-◌, ◌*◌, ◌/◌, ◌%◌, ◌^◌, ◌==◌, ◌<◌, ◌≤◌, min, max, Bool, true, false, not,
  ◌&&◌, ◌||◌, List, [], ◌∷◌, ◌++◌, Option, none, some, Bytes, ltb, leb, if◌then◌else◌, codes,
  length, ◌≡◌, ◌≢◌, refl, ap, sym, ◌∙◌, arith, All, Bool-cases, Option-cases, inl, inr, ◌⊎◌, ◌↔◌,
  length-append, length-replicate, append_assoc, append-nil, drop, take, replicate, get_or,
  get_elem?, map, tests, drop-append, take-append, All-append,
}
use git2_cxx.Words.{tag}
use git2_cxx.Streams.{Outcome, done, refused, fault, M, word, store_word}

pub data Errc : Type 0 where
  bad_syntax unknown_magic unsupported_version : Errc

-- What `load` gives: an object, an error, or a read past the end of a buffer.
pub data Loaded (A : Type 0) : Type 0 where
  loaded : A → Loaded A
  failed : Errc → Loaded A
  crashed : Loaded A

-- `db_handler`. Its `load` sets `bad_syntax` where it refuses.
pub record Handler (A : Type 0) : Type 0 where
  pub load : M A
  pub recognized : A → Bool
  pub store : A → Option Bytes

-- `handlers_`: the pairs of the map, with distinct tags.
abbrev pub Handlers : Type 0 → Type 0
Handlers A = List (ℕ × ℕ × Handler A)

-- `version & VERSION_MAJOR`, as a number of 16 bits.
abbrev pub major : ℕ → ℕ
major version = version / 2 ^ 16

module _ {A : Type 0} where
  unfoldable pub set_handler : Handlers A → ℕ → ℕ → Handler A → Handlers A
  set_handler [] magic version handler = (magic, version, handler) ∷ []
  set_handler ((other, old, h) ∷ handlers) magic version handler =
      if other == magic
      then (magic, version, handler) ∷ handlers
      else (other, old, h) ∷ set_handler handlers magic version handler

  unfoldable pub remove_handler : Handlers A → ℕ → Handlers A
  remove_handler [] magic = []
  remove_handler ((other, old, h) ∷ handlers) magic =
      if other == magic then handlers else (other, old, h) ∷ remove_handler handlers magic

  -- A null handler removes what is there.
  unfoldable pub add_handler : Handlers A → ℕ → Option (Handler A) → ℕ → Handlers A
  unfolding set_handler remove_handler
  add_handler handlers magic none version = remove_handler handlers magic
  add_handler handlers magic (some handler) version = set_handler handlers magic version handler

  unfoldable pub find_handler : Handlers A → ℕ → Option (ℕ × Handler A)
  find_handler [] magic = none
  find_handler ((other, version, h) ∷ handlers) magic =
      if other == magic then some (version, h) else find_handler handlers magic

  unfoldable pub ended : Outcome A → Loaded A
  ended (done a rest) = loaded a
  ended refused = failed bad_syntax
  ended fault = crashed

  -- The version of an unknown tag is compared with the current one.
  unfoldable pub load_with : Option (ℕ × Handler A) → ℕ → Bytes → Loaded A
  unfolding ended
  load_with none version s =
      if major version == major 0x10000 then failed unknown_magic else failed unsupported_version
  load_with (some (known, h)) version s =
      if major version == major known then ended (h.load s) else failed unsupported_version

  unfoldable pub load : Handlers A → Bytes → Loaded A
  unfolding load_with
  load handlers s = elim (word s) [
    | done magic t ↦ elim (word t) [
      | done version u ↦ load_with (find_handler handlers magic) version u
      | refused ↦ failed bad_syntax
      | fault ↦ crashed
    ]
    | refused ↦ failed bad_syntax
    | fault ↦ crashed
  ]

  -- The first handler that recognizes the object stores it.
  unfoldable pub store : Handlers A → A → Option Bytes
  store [] value = none
  store ((magic, version, h) ∷ handlers) value =
      if h.recognized value
      then elim (h.store value) [
        | none ↦ none
        | some bytes ↦ some (store_word magic (store_word version bytes))
      ]
      else store handlers value
