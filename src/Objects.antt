-- ===== src/Objects.antt =====
-- The object files of libs/cov-api/src/cov/io: what their structures (include/cov/io/types.hh) share.
-- An object id is its 20 bytes. What is stored is written with what is stored behind it, and the
-- stream that is written to takes all of it.
pub mod Codecs
pub mod Lines
pub mod FunctionList
pub mod Files
pub mod Props
pub mod Build
pub mod Report
pub mod Dispatch
pub mod Examples
use git2_cxx.Base.{
  ℕ, ◌+◌, ◌*◌, ◌/◌, ◌%◌, ◌^◌, ◌==◌, Bool, true, false, List, [], ◌∷◌, Option, none, some, Bytes,
  if◌then◌else◌, length,
}
use git2_cxx.Words.{Timestamp}
use git2_cxx.Stats.{Stats, CoverageStats}
use git2_cxx.Strings.{at, StringsBlock, Block, ArrayRef, locate_or}
use git2_cxx.Streams.{
  Outcome, done, refused, fault, M, ◌>>=◌, pure, read, word, store_word, store_bytes,
}

abbrev pub GitOid : Type 0
GitOid = Bytes

unfoldable pub load_id : M GitOid
load_id = read 20

unfoldable pub load_stats : M Stats
load_stats = do
  relevant ← word
  visited ← word
  pure (record { relevant = relevant; visited = visited })

unfoldable pub store_stats : Stats → Bytes → Bytes
store_stats s rest = store_word s.relevant (store_word s.visited rest)

unfoldable pub load_coverage_stats : M CoverageStats
load_coverage_stats = do
  lines_total ← word
  lines ← load_stats
  functions ← load_stats
  branches ← load_stats
  pure (record {
    lines_total = lines_total;
    lines = lines;
    functions = functions;
    branches = branches;
  })

unfoldable pub store_coverage_stats : CoverageStats → Bytes → Bytes
store_coverage_stats s rest =
    store_word s.lines_total
      (store_stats s.lines (store_stats s.functions (store_stats s.branches rest)))

unfoldable pub load_block : M Block
load_block = do offset ← word; size ← word; pure (record { offset = offset; size = size })

unfoldable pub store_block : Block → Bytes → Bytes
store_block b rest = store_word b.offset (store_word b.size rest)

unfoldable pub load_array_ref : M ArrayRef
load_array_ref = do
  offset ← word
  size ← word
  count ← word
  pure (record { offset = offset; size = size; count = count })

unfoldable pub store_array_ref : ArrayRef → Bytes → Bytes
store_array_ref a rest = store_word a.offset (store_word a.size (store_word a.count rest))

unfoldable pub load_timestamp : M Timestamp
load_timestamp = do hi ← word; lo ← word; pure (record { hi = hi; lo = lo })

unfoldable pub store_timestamp : Timestamp → Bytes → Bytes
store_timestamp t rest = store_word t.hi (store_word t.lo rest)

-- `strings.at(offset)`.
unfoldable pub view : Bytes → ℕ → M Bytes
view block offset s = elim (at block offset) [ none ↦ fault | some text ↦ done text s ]

-- `locate` of the handlers, which throws where the offset does not fit: `none`.
unfoldable pub locate32 : StringsBlock → Bytes → Option ℕ
locate32 stg value = elim (locate_or stg value (length stg.bytes + 1)) [
  | none ↦ none
  | some offset ↦ if offset % 2 ^ 32 == offset then some offset else none
]
