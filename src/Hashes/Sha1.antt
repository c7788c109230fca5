-- ===== src/Hashes/Sha1.antt =====
-- libs/cov-api/src/cov/hash/sha1.cc and include/cov/hash/sha1.hh.
use git2_cxx.Base.{ℕ, zero, suc, ◌+◌, ◌%◌, ◌^◌, List, [], ◌∷◌, Bytes, ltb, if◌then◌else◌, get_or}
use Prim.Native.Nat.{bit_and, bit_or, bit_xor}
use mathlib.Core.List.{reverse}
use git2_cxx.Hashes.{Algorithm}
use git2_cxx.Hashes.Words.{rotate, complement, big_words, big_bytes}

-- `A_` to `E_`.
pub record Sha1State : Type 0 where
  pub a : ℕ
  pub b : ℕ
  pub c : ℕ
  pub d : ℕ
  pub e : ℕ

abbrev pub initial_sha1 : Sha1State
initial_sha1 = record {
  a = 0x67452301;
  b = 0xEFCDAB89;
  c = 0x98BADCFE;
  d = 0x10325476;
  e = 0xC3D2E1F0;
}

-- `W[t]` for so many more `t`, the latest word first.
unfoldable pub schedule : ℕ → List ℕ → List ℕ
unfolding rotate
schedule zero ws = ws
schedule (suc n) ws =
    let mixed =
      bit_xor (bit_xor (get_or ws 2 0) (get_or ws 7 0))
        (bit_xor (get_or ws 13 0) (get_or ws 15 0)) in
    schedule n (rotate mixed 1 ∷ ws)

-- `SHA_ROUND`.
unfoldable pub sha_round : Sha1State → ℕ → ℕ → ℕ → Sha1State
unfolding rotate
sha_round s w bcd k = record {
  a = (rotate s.a 5 + bcd + s.e + w + k) % 2 ^ 32;
  b = s.a;
  c = rotate s.b 30;
  d = s.c;
  e = s.d;
}

-- `T_0_19`, `T_20_39`, `T_40_59` and `T_60_79`, by the round.
unfoldable pub sha_step : ℕ → ℕ → Sha1State → Sha1State
unfolding sha_round
sha_step t w s =
    if ltb t 20
    then sha_round s w (bit_or (bit_and s.b s.c) (bit_and (complement s.b) s.d)) 0x5A827999
    else if ltb t 40
    then sha_round s w (bit_xor (bit_xor s.b s.c) s.d) 0x6ED9EBA1
    else if ltb t 60
    then sha_round s w (bit_or (bit_or (bit_and s.b s.c) (bit_and s.b s.d)) (bit_and s.c s.d))
        0x8F1BBCDC
    else sha_round s w (bit_xor (bit_xor s.b s.c) s.d) 0xCA62C1D6

unfoldable pub sha_steps : ℕ → List ℕ → Sha1State → Sha1State
unfolding sha_step
sha_steps t [] s = s
sha_steps t (w ∷ ws) s = sha_steps (t + 1) ws (sha_step t w s)

unfoldable pub transform_sha1 : Bytes → Sha1State → Sha1State
unfolding schedule sha_steps big_words
transform_sha1 block s =
    let r = sha_steps 0 (reverse (schedule 64 (reverse (big_words block)))) s in
    record {
      a = (s.a + r.a) % 2 ^ 32;
      b = (s.b + r.b) % 2 ^ 32;
      c = (s.c + r.c) % 2 ^ 32;
      d = (s.d + r.d) % 2 ^ 32;
      e = (s.e + r.e) % 2 ^ 32;
    }

unfoldable pub result_sha1 : Sha1State → Bytes
unfolding big_bytes
result_sha1 s = big_bytes s.a (big_bytes s.b (big_bytes s.c (big_bytes s.d (big_bytes s.e []))))

abbrev pub sha1 : Algorithm
sha1 = record {
  State = Sha1State;
  initial = initial_sha1;
  transform = transform_sha1;
  result = result_sha1;
  count_bytes = λ lo hi. big_bytes hi (big_bytes lo []);
}
