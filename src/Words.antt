-- ===== src/Words.antt =====
-- libs/cov-api/include/cov/io/types.hh: the 32-bit helpers, the tags and the time stamps of the
-- object files. A `uint32_t` is a number below 2 ^ 32, a `uint64_t` one below 2 ^ 64.
pub mod Laws
pub mod Examples
use git2_cxx.Base.{
  ℕ, ◌+◌, ◌-◌, ◌*◌, ◌/◌, ◌%◌, ◌^◌, ◌<◌, ◌≤◌, min, Bytes, ltb, if◌then◌else◌, get_or,
}
use git2_cxx.Base.Int.{ℤ, to_u64, signed64}

abbrev pub max_u32 : ℕ
max_u32 = 2 ^ 32 - 1

abbrev pub IsU32 : ℕ → Type 0
IsU32 n = n ≤ max_u32

-- The arguments are `char`s, of which `& 0xFF` keeps the low byte; the four bytes do not overlap.
unfoldable pub mk_tag : ℕ → ℕ → ℕ → ℕ → ℕ
mk_tag c1 c2 c3 c4 = c1 % 256 + c2 % 256 * 2 ^ 8 + c3 % 256 * 2 ^ 16 + c4 % 256 * 2 ^ 24

-- `"bld"_tag`: a missing character is a space.
unfoldable pub tag : Bytes → ℕ
unfolding mk_tag
tag s = mk_tag (get_or s 0 b' ') (get_or s 1 b' ') (get_or s 2 b' ') (get_or s 3 b' ')

unfoldable pub clip_u32 : ℕ → ℕ
clip_u32 raw = min raw max_u32 % 2 ^ 32

unfoldable pub add_u32 : ℕ → ℕ → ℕ
add_u32 lhs rhs = let rest = max_u32 - lhs in if ltb rest rhs then max_u32 else (lhs + rhs) % 2 ^ 32

unfoldable pub inc_u32 : ℕ → ℕ
inc_u32 rhs = if ltb rhs max_u32 then rhs + 1 else rhs

pub record Timestamp : Type 0 where
  pub hi : ℕ
  pub lo : ℕ

-- `operator=(sys_seconds)`: the count is an `int64_t` read as a `uint64_t`.
unfoldable pub of_seconds : ℤ → Timestamp
of_seconds seconds =
    let time = to_u64 seconds in record { hi = (time / 2 ^ 32) % 2 ^ 32; lo = time % 2 ^ 32 }

-- The halves do not overlap, so `|` is a sum.
unfoldable pub to_seconds : Timestamp → ℤ
to_seconds t = signed64 ((t.hi * 2 ^ 32 + t.lo) % 2 ^ 64)
