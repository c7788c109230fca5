-- ===== src/Words/Examples.antt =====
-- Tests of the words, and the theorems about them at concrete values.
use git2_cxx.Base.{ℕ, codes, ◌≡◌, refl, arith}
use git2_cxx.Base.Int.{negsuc}
use git2_cxx.Words.{tag, add_u32, of_seconds, to_seconds}
use git2_cxx.Words.Laws.{to_seconds-of_seconds, mk_tag-injective}

tag_report : tag (codes "rprt") ≡ 0x74727072
unfolding tag
tag_report = refl

tag_build : tag (codes "bld") ≡ tag (codes "bld ")
unfolding tag
tag_build = refl

add_full : add_u32 0xffff_fff0 0x20 ≡ 0xffff_ffff
unfolding add_u32
add_full = refl

to_seconds-of_seconds_example : to_seconds (of_seconds (negsuc 86399)) ≡ negsuc 86399
to_seconds-of_seconds_example = to_seconds-of_seconds (negsuc 86399) (omega arith)

distinct_tags :
    (◌≡◌ {A = ℕ} b'r' b'r')
    × (◌≡◌ {A = ℕ} b'p' b'p')
    × (◌≡◌ {A = ℕ} b'r' b'r')
    × (◌≡◌ {A = ℕ} b't' b't')
distinct_tags =
    mk_tag-injective b'r' b'p' b'r' b't' b'r' b'p' b'r' b't' (omega arith) (omega arith) refl
