-- ===== src/Words/Laws.antt =====
-- The 32-bit helpers, time stamps and tags.
use git2_cxx.Base.{ℕ, ◌+◌, ◌<◌, ◌≡◌, min, arith}
use git2_cxx.Base.Int.{ℤ, pos, negsuc, IsInt64}
use git2_cxx.Words.{max_u32, IsU32, mk_tag, clip_u32, add_u32, inc_u32, of_seconds, to_seconds}

pub add_u32-min : (a b : ℕ) → IsU32 a → add_u32 a b ≡ min max_u32 (a + b)
unfolding add_u32
add_u32-min a b h = ground arith

pub inc_u32-min : (a : ℕ) → IsU32 a → inc_u32 a ≡ min max_u32 (a + 1)
unfolding inc_u32
inc_u32-min a h = ground arith

pub clip_u32-min : (a : ℕ) → clip_u32 a ≡ min max_u32 a
unfolding clip_u32
clip_u32-min a = ground arith

-- Every time that fits an `int64_t`, before or after the epoch, is read back as it was stored.
pub to_seconds-of_seconds : (s : ℤ) → IsInt64 s → to_seconds (of_seconds s) ≡ s
unfolding to_seconds of_seconds
to_seconds-of_seconds (pos n) h = ground arith
to_seconds-of_seconds (negsuc n) h = ground arith

-- Two tags of four bytes each are equal only if their bytes are.
pub mk_tag-injective :
    (a b c d a' b' c' d' : ℕ)
    → (a < 256) × (b < 256) × (c < 256) × (d < 256)
    → (a' < 256) × (b' < 256) × (c' < 256) × (d' < 256)
    → mk_tag a b c d ≡ mk_tag a' b' c' d'
    → (a ≡ a') × (b ≡ b') × (c ≡ c') × (d ≡ d')
unfolding mk_tag
mk_tag-injective a b c d a' b' c' d' h h' e = omega arith
