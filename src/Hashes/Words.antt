-- ===== src/Hashes/Words.antt =====
-- libs/cov-api/include/cov/hash/hash.hh: words of 32 bits and their bytes, in both orders.
use git2_cxx.Base.{ℕ, ◌+◌, ◌-◌, ◌*◌, ◌/◌, ◌%◌, ◌^◌, List, [], ◌∷◌, Bytes}
use Prim.Native.Nat.{bit_or}

-- `ROTATE`.
unfoldable pub rotate : ℕ → ℕ → ℕ
rotate x n = bit_or (x * 2 ^ n % 2 ^ 32) (x / 2 ^ (32 - n))

-- `~x`.
abbrev pub complement : ℕ → ℕ
complement x = 2 ^ 32 - 1 - x

-- `host<endian::big>`: `c2l` of every word of a block, and `l2c`.
unfoldable pub big_words : Bytes → List ℕ
big_words (a ∷ (b ∷ (c ∷ (d ∷ s)))) = (a * 2 ^ 24 + b * 2 ^ 16 + c * 2 ^ 8 + d) ∷ big_words s
big_words s = []

unfoldable pub big_bytes : ℕ → Bytes → Bytes
big_bytes w rest =
    (w / 2 ^ 24 % 256) ∷ ((w / 2 ^ 16 % 256) ∷ ((w / 2 ^ 8 % 256) ∷ ((w % 256) ∷ rest)))

-- `host<endian::little>`.
unfoldable pub little_words : Bytes → List ℕ
little_words (a ∷ (b ∷ (c ∷ (d ∷ s)))) = (a + b * 2 ^ 8 + c * 2 ^ 16 + d * 2 ^ 24) ∷ little_words s
little_words s = []

unfoldable pub little_bytes : ℕ → Bytes → Bytes
little_bytes w rest =
    (w % 256) ∷ ((w / 2 ^ 8 % 256) ∷ ((w / 2 ^ 16 % 256) ∷ ((w / 2 ^ 24 % 256) ∷ rest)))
