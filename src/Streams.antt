-- ===== src/Streams.antt =====
-- libs/cov-api/include/cov/streams.hh and src/cov/io/read_stream.cc: bytes that are read one behind
-- the other, as `bytes_read_stream` does it, and the words of a little-endian machine.
pub mod Laws
use git2_cxx.Base.{
  ℕ, zero, suc, ◌+◌, ◌*◌, ◌/◌, ◌%◌, ◌^◌, Option, none, some, Bool, true, false, List, [], ◌∷◌, ◌++◌,
  Bytes, leb, if◌then◌else◌, length, take, drop,
}

-- What a read leaves: a value and the bytes behind it, a refusal, or a read past the end of a buffer,
-- which C++ leaves undefined.
pub data Outcome (A : Type 0) : Type 0 where
  done : A → Bytes → Outcome A
  refused fault : Outcome A

abbrev pub M : Type 0 → Type 0
M A = Bytes → Outcome A

unfoldable pub and_then : {A B : Type 0} → Outcome A → (A → M B) → Outcome B
and_then (done a rest) f = f a rest
and_then refused f = refused
and_then fault f = fault

infixl 5 ◌>>=◌ ◌>>◌
abbrev pub ◌>>=◌ : {A B : Type 0} → M A → (A → M B) → M B
◌>>=◌ m f s = and_then (m s) f

abbrev pub ◌>>◌ : {B : Type 0} → M (Unit {0}) → M B → M B
m >> k = m >>= λ _. k

abbrev pub pure : {A : Type 0} → A → M A
pure a s = done a s

abbrev pub guard : Bool → M (Unit {0})
guard true s = done tt s
guard false s = refused

-- `load` of a vector of bytes: `read` of fewer bytes than were asked for is a refusal.
unfoldable pub read : ℕ → M Bytes
read count s = if leb count (length s) then done (take count s) (drop count s) else refused

unfoldable pub skip : ℕ → M (Unit {0})
skip count s = if leb count (length s) then done tt (drop count s) else refused

-- `load` of a `uint32_t`.
unfoldable pub word : M ℕ
word (a ∷ (b ∷ (c ∷ (d ∷ s)))) = done (a + b * 2 ^ 8 + c * 2 ^ 16 + d * 2 ^ 24) s
word s = refused

-- `store` of a `uint32_t`, with what is stored behind it.
unfoldable pub store_word : ℕ → Bytes → Bytes
store_word w rest =
    (w % 2 ^ 8) ∷ ((w / 2 ^ 8 % 2 ^ 8) ∷ ((w / 2 ^ 16 % 2 ^ 8) ∷ ((w / 2 ^ 24 % 2 ^ 8) ∷ rest)))

unfoldable pub store_bytes : Bytes → Bytes → Bytes
store_bytes bytes rest = bytes ++ rest

-- `reinterpret_cast` of the bytes of a buffer: they are read from its start, and what is behind them
-- is not looked at.
unfoldable pub in_buffer : {A : Type 0} → M A → Bytes → M A
in_buffer m buffer s = elim (m buffer) [ done a _ ↦ done a s | refused ↦ fault | fault ↦ fault ]

-- A loop that reads so many items.
unfoldable pub load_items : {A : Type 0} → ℕ → M A → M (List A)
load_items zero item = pure []
load_items (suc count) item = do x ← item; xs ← load_items count item; pure (x ∷ xs)

-- A loop that stores items, with what is stored behind them.
unfoldable pub store_items : {A : Type 0} → (A → Bytes → Bytes) → List A → Bytes → Bytes
store_items put [] rest = rest
store_items put (x ∷ xs) rest = put x (store_items put xs rest)

-- A loop that makes what is stored of every item; it ends early where one has no place.
unfoldable pub place_all : {A W : Type 0} → (A → Option W) → List A → Option (List W)
place_all place [] = some []
place_all place (x ∷ xs) =
    let rest = place_all place xs in
    elim (place x) [ none ↦ none | some w ↦ elim rest [ none ↦ none | some ws ↦ some (w ∷ ws) ] ]
