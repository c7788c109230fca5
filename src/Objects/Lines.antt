-- ===== src/Objects/Lines.antt =====
-- libs/cov-api/src/cov/io/line_coverage.cc: the counters of the lines of a file. A counter and the
-- flag that it is none share a word, the flag in its highest bit.
use git2_cxx.Base.{
  ◌+◌, ◌/◌, ◌%◌, ◌^◌, ◌==◌, ◌<◌, not, List, [], Bytes, if◌then◌else◌, length, ◌≡◌, arith, All,
}
use git2_cxx.Stats.{Coverage}
use git2_cxx.Streams.{done, M, ◌>>=◌, pure, word, store_word, load_items, store_items}
use git2_cxx.Streams.Laws.{step, word-store_word, load_items-store_same}

unfoldable pub load_coverage : M Coverage
load_coverage = do
  bits ← word
  pure (record { value = bits % 2 ^ 31; is_null = not (bits / 2 ^ 31 == 0) })

unfoldable pub store_coverage : Coverage → Bytes → Bytes
store_coverage c rest = store_word (c.value % 2 ^ 31 + (if c.is_null then 2 ^ 31 else 0)) rest

unfoldable pub load_lines : M (List Coverage)
unfolding load_coverage
load_lines = do count ← word; load_items count load_coverage

unfoldable pub store_lines : List Coverage → Bytes
unfolding store_coverage
store_lines items = store_word (length items % 2 ^ 32) (store_items store_coverage items [])

abbrev pub IsCoverage : Coverage → Type 0
IsCoverage c = c.value < 2 ^ 31

load_coverage-store_coverage :
    (c : Coverage)
    → IsCoverage c
    → (rest : Bytes) → load_coverage (store_coverage c rest) ≡ done c rest
unfolding load_coverage store_coverage
load_coverage-store_coverage c h rest =
    step _ (word-store_word (c.value % 2 ^ 31 + (if c.is_null then 2 ^ 31 else 0)) (ground arith) _)
      (ground arith)

-- Fewer than 2 ^ 32 lines, with counters below 2 ^ 31, are read back as they were stored.
pub load_lines-store_lines :
    (items : List Coverage)
    → length items < 2 ^ 32
    → All IsCoverage items
    → load_lines (store_lines items) ≡ done items []
unfolding load_lines store_lines
load_lines-store_lines items small h =
    let same : length items % 2 ^ 32 ≡ length items = omega arith in
    rw same (
      step _ (word-store_word (length items) (omega arith) _) (
        load_items-store_same load_coverage store_coverage IsCoverage load_coverage-store_coverage
          items h []))
