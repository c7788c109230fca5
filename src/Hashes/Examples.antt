-- ===== src/Hashes/Examples.antt =====
-- Digests of known messages.
use git2_cxx.Base.{
  ℕ, ◌*◌, ◌/◌, ◌%◌, ◌^◌, ◌<◌, List, [], ◌∷◌, ◌++◌, Bytes, codes, length, ◌≡◌, refl, All, replicate,
}
use git2_cxx.Hashes.{start, update, finalize, once, update_all}
use git2_cxx.Hashes.Sha1.{sha1, initial_sha1, transform_sha1, result_sha1}
use git2_cxx.Hashes.Md5.{md5, transform_md5, result_md5}
use git2_cxx.Hashes.Absorbed.{flat, IsBlock, run}
use git2_cxx.Hashes.Digests.{update_all-flat, finalize-blocks, finalize_sizes}
use git2_cxx.Hashes.Words.{big_bytes}

sha1_abc :
    once sha1 (codes "abc")
    ≡ 0xa9 ∷ 0x99 ∷ 0x3e ∷ 0x36 ∷ 0x47 ∷ 0x06 ∷ 0x81 ∷ 0x6a ∷ 0xba ∷ 0x3e ∷ 0x25 ∷ 0x71 ∷ 0x78
      ∷ 0x50 ∷ 0xc2 ∷ 0x6c ∷ 0x9c ∷ 0xd0 ∷ 0xd8 ∷ 0x9d ∷ []
unfolding once update transform_sha1 result_sha1
sha1_abc = refl

md5_abc :
    once md5 (codes "abc")
    ≡ 0x90 ∷ 0x01 ∷ 0x50 ∷ 0x98 ∷ 0x3c ∷ 0xd2 ∷ 0x4f ∷ 0xb0 ∷ 0xd6 ∷ 0x96 ∷ 0x3f ∷ 0x7d ∷ 0x28
      ∷ 0xe1 ∷ 0x7f ∷ 0x72 ∷ []
unfolding once update transform_md5 result_md5
md5_abc = refl

-- Two pieces with more than one block.
abbrev pieces : List Bytes
pieces = replicate 40 97 ∷ (replicate 60 98 ∷ [])

update_all-flat_example :
    update_all md5 (start md5) pieces ≡ update md5 (start md5) (replicate 40 97 ++ replicate 60 98)
unfolding flat
update_all-flat_example = update_all-flat md5 pieces

finalize-blocks_example :
    let bits = 8 * length (flat pieces) % 2 ^ 64 in
    (blocks : List Bytes) × (zeros : ℕ) × All IsBlock blocks
    × (zeros < 64)
    × (flat blocks
        ≡ flat pieces
          ++ (0x80
              ∷ (replicate zeros 0 ++ big_bytes (bits / 2 ^ 32) (big_bytes (bits % 2 ^ 32) []))))
    × (finalize sha1 (update_all sha1 (start sha1) pieces)
        ≡ (result_sha1 (run sha1 initial_sha1 blocks), start sha1))
unfolding big_bytes
finalize-blocks_example = finalize-blocks sha1 (λ lo hi. refl) pieces

finalize_sizes_test :
    let sha1_digest = (finalize sha1 (update_all sha1 (start sha1) pieces)).0 in
    let md5_digest = (finalize md5 (update_all md5 (start md5) pieces)).0 in
    (length sha1_digest ≡ 20)
    × All (λ b. b < 256) sha1_digest
    × (length md5_digest ≡ 16)
    × All (λ b. b < 256) md5_digest
finalize_sizes_test = finalize_sizes pieces
