-- ===== src/Hashes/Md5.antt =====
-- libs/cov-api/src/cov/hash/md5.cc and include/cov/hash/md5.hh.
use git2_cxx.Base.{ℕ, ◌+◌, ◌%◌, ◌^◌, ◌==◌, List, [], ◌∷◌, Bytes, if◌then◌else◌, get_or}
use Prim.Native.Nat.{bit_and, bit_or, bit_xor}
use git2_cxx.Hashes.{Algorithm}
use git2_cxx.Hashes.Words.{rotate, complement, little_words, little_bytes}

-- `A_` to `D_`.
pub record Md5State : Type 0 where
  pub a : ℕ
  pub b : ℕ
  pub c : ℕ
  pub d : ℕ

abbrev pub initial_md5 : Md5State
initial_md5 = record { a = 0x67452301; b = 0xefcdab89; c = 0x98badcfe; d = 0x10325476 }

-- `F`, `G`, `H` and `I`, by the round.
unfoldable pub md5_op : ℕ → ℕ → ℕ → ℕ → ℕ
md5_op round b c d =
    if round == 0
    then bit_xor (bit_and (bit_xor c d) b) d
    else if round == 1
    then bit_xor (bit_and (bit_xor b c) d) c
    else if round == 2
    then bit_xor (bit_xor b c) d
    else bit_xor (bit_or (complement d) b) c

-- A call of `R0` to `R3`: its round, the index of its word, its shift and its constant.
abbrev pub Call : Type 0
Call = ℕ × ℕ × ℕ × ℕ

-- `R_`. The variables are named as the next call has them.
unfoldable pub md5_step : List ℕ → Call → Md5State → Md5State
unfolding md5_op rotate
md5_step xs (round, k, s, t) r = record {
  a = r.d;
  b = (rotate ((r.a + (get_or xs k 0 + t + md5_op round r.b r.c r.d)) % 2 ^ 32) s + r.b) % 2 ^ 32;
  c = r.b;
  d = r.c;
}

abbrev pub calls : List Call
calls =
    (0, 0, 7, 0xd76aa478)
    ∷ (0, 1, 12, 0xe8c7b756)
    ∷ (0, 2, 17, 0x242070db)
    ∷ (0, 3, 22, 0xc1bdceee)
    ∷ (0, 4, 7, 0xf57c0faf)
    ∷ (0, 5, 12, 0x4787c62a)
    ∷ (0, 6, 17, 0xa8304613)
    ∷ (0, 7, 22, 0xfd469501)
    ∷ (0, 8, 7, 0x698098d8)
    ∷ (0, 9, 12, 0x8b44f7af)
    ∷ (0, 10, 17, 0xffff5bb1)
    ∷ (0, 11, 22, 0x895cd7be)
    ∷ (0, 12, 7, 0x6b901122)
    ∷ (0, 13, 12, 0xfd987193)
    ∷ (0, 14, 17, 0xa679438e)
    ∷ (0, 15, 22, 0x49b40821)
    ∷ (1, 1, 5, 0xf61e2562)
    ∷ (1, 6, 9, 0xc040b340)
    ∷ (1, 11, 14, 0x265e5a51)
    ∷ (1, 0, 20, 0xe9b6c7aa)
    ∷ (1, 5, 5, 0xd62f105d)
    ∷ (1, 10, 9, 0x02441453)
    ∷ (1, 15, 14, 0xd8a1e681)
    ∷ (1, 4, 20, 0xe7d3fbc8)
    ∷ (1, 9, 5, 0x21e1cde6)
    ∷ (1, 14, 9, 0xc33707d6)
    ∷ (1, 3, 14, 0xf4d50d87)
    ∷ (1, 8, 20, 0x455a14ed)
    ∷ (1, 13, 5, 0xa9e3e905)
    ∷ (1, 2, 9, 0xfcefa3f8)
    ∷ (1, 7, 14, 0x676f02d9)
    ∷ (1, 12, 20, 0x8d2a4c8a)
    ∷ (2, 5, 4, 0xfffa3942)
    ∷ (2, 8, 11, 0x8771f681)
    ∷ (2, 11, 16, 0x6d9d6122)
    ∷ (2, 14, 23, 0xfde5380c)
    ∷ (2, 1, 4, 0xa4beea44)
    ∷ (2, 4, 11, 0x4bdecfa9)
    ∷ (2, 7, 16, 0xf6bb4b60)
    ∷ (2, 10, 23, 0xbebfbc70)
    ∷ (2, 13, 4, 0x289b7ec6)
    ∷ (2, 0, 11, 0xeaa127fa)
    ∷ (2, 3, 16, 0xd4ef3085)
    ∷ (2, 6, 23, 0x04881d05)
    ∷ (2, 9, 4, 0xd9d4d039)
    ∷ (2, 12, 11, 0xe6db99e5)
    ∷ (2, 15, 16, 0x1fa27cf8)
    ∷ (2, 2, 23, 0xc4ac5665)
    ∷ (3, 0, 6, 0xf4292244)
    ∷ (3, 7, 10, 0x432aff97)
    ∷ (3, 14, 15, 0xab9423a7)
    ∷ (3, 5, 21, 0xfc93a039)
    ∷ (3, 12, 6, 0x655b59c3)
    ∷ (3, 3, 10, 0x8f0ccc92)
    ∷ (3, 10, 15, 0xffeff47d)
    ∷ (3, 1, 21, 0x85845dd1)
    ∷ (3, 8, 6, 0x6fa87e4f)
    ∷ (3, 15, 10, 0xfe2ce6e0)
    ∷ (3, 6, 15, 0xa3014314)
    ∷ (3, 13, 21, 0x4e0811a1)
    ∷ (3, 4, 6, 0xf7537e82)
    ∷ (3, 11, 10, 0xbd3af235)
    ∷ (3, 2, 15, 0x2ad7d2bb)
    ∷ (3, 9, 21, 0xeb86d391)
    ∷ []

unfoldable pub md5_steps : List ℕ → List Call → Md5State → Md5State
unfolding md5_step
md5_steps xs [] r = r
md5_steps xs (call ∷ rest) r = md5_steps xs rest (md5_step xs call r)

unfoldable pub transform_md5 : Bytes → Md5State → Md5State
unfolding md5_steps little_words
transform_md5 block s =
    let r = md5_steps (little_words block) calls s in
    record {
      a = (s.a + r.a) % 2 ^ 32;
      b = (s.b + r.b) % 2 ^ 32;
      c = (s.c + r.c) % 2 ^ 32;
      d = (s.d + r.d) % 2 ^ 32;
    }

unfoldable pub result_md5 : Md5State → Bytes
unfolding little_bytes
result_md5 s = little_bytes s.a (little_bytes s.b (little_bytes s.c (little_bytes s.d [])))

abbrev pub md5 : Algorithm
md5 = record {
  State = Md5State;
  initial = initial_md5;
  transform = transform_md5;
  result = result_md5;
  count_bytes = λ lo hi. little_bytes lo (little_bytes hi []);
}
