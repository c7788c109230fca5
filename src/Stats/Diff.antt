-- ===== src/Stats/Diff.antt =====
-- The difference of two counters.
use git2_cxx.Base.{ℕ, ◌-◌, ◌+◌, ◌^◌, ◌≤◌, ◌<◌, ◌≡◌, arith}
use git2_cxx.Base.Int.{pos, negsuc, sub_ℕ}
use git2_cxx.Stats.{diff}

abbrev pub max_i32 : ℕ
max_i32 = 2 ^ 31 - 1

-- The difference is exact where an int32_t can hold it, and is held at the end of that range
-- where it cannot; -2 ^ 31 is never returned.
pub diff_lem :
    (newer older : ℕ)
    → (newer ≤ older + max_i32 → older ≤ newer + max_i32 → diff newer older ≡ sub_ℕ newer older)
      × (older + max_i32 < newer → diff newer older ≡ pos max_i32)
      × (newer + max_i32 < older → diff newer older ≡ negsuc (max_i32 - 1))
unfolding diff
diff_lem newer older = (λ h k. ground arith, λ h. ground arith, λ h. ground arith)
