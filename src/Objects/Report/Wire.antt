-- ===== src/Objects/Report/Wire.antt =====
-- `v1::report` of libs/cov-api/include/cov/io/types.hh: how a report and its entries are laid out.
use git2_cxx.Base.{ℕ, Bytes}
use git2_cxx.Words.{Timestamp}
use git2_cxx.Stats.{CoverageStats}
use git2_cxx.Strings.{Block, ArrayRef}
use git2_cxx.Streams.{M, ◌>>=◌, pure, word, store_word, store_bytes}
use git2_cxx.Objects.{
  GitOid, load_id, load_block, store_block, load_array_ref, store_array_ref, load_timestamp,
  store_timestamp, load_coverage_stats, store_coverage_stats,
}

-- The texts of a report, or their offsets.
pub record Texts (A : Type 0) : Type 0 where
  pub branch : A
  pub author_name : A
  pub author_email : A
  pub committer_name : A
  pub committer_email : A
  pub message : A

-- `v1::report::entry`.
pub record WireEntry : Type 0 where
  pub build_id : GitOid
  pub propset : ℕ
  pub stats : CoverageStats

unfoldable pub load_wire_entry : M WireEntry
load_wire_entry = do
  build_id ← load_id
  propset ← word
  stats ← load_coverage_stats
  pure (record { build_id = build_id; propset = propset; stats = stats })

unfoldable pub store_wire_entry : WireEntry → Bytes → Bytes
store_wire_entry w rest =
    store_bytes w.build_id (store_word w.propset (store_coverage_stats w.stats rest))

-- `v1::report`.
pub record WireReport : Type 0 where
  pub strings : Block
  pub parent : GitOid
  pub file_list : GitOid
  pub entries : ArrayRef
  pub added : Timestamp
  pub texts : Texts ℕ
  pub commit_id : GitOid
  pub committed : Timestamp
  pub stats : CoverageStats

unfoldable pub load_texts : M (Texts ℕ)
load_texts = do
  branch ← word
  author_name ← word
  author_email ← word
  committer_name ← word
  committer_email ← word
  message ← word
  pure (record {
    branch = branch;
    author_name = author_name;
    author_email = author_email;
    committer_name = committer_name;
    committer_email = committer_email;
    message = message;
  })

unfoldable pub store_texts : Texts ℕ → Bytes → Bytes
store_texts t rest = store_word t.branch (
    store_word t.author_name (
      store_word t.author_email
        (store_word t.committer_name (store_word t.committer_email (store_word t.message rest)))))

unfoldable pub load_header : M WireReport
load_header = do
  strings ← load_block
  parent ← load_id
  file_list ← load_id
  entries ← load_array_ref
  added ← load_timestamp
  texts ← load_texts
  commit_id ← load_id
  committed ← load_timestamp
  stats ← load_coverage_stats
  pure (record {
    strings = strings;
    parent = parent;
    file_list = file_list;
    entries = entries;
    added = added;
    texts = texts;
    commit_id = commit_id;
    committed = committed;
    stats = stats;
  })

unfoldable pub store_header : WireReport → Bytes → Bytes
store_header w rest = store_block w.strings (
    store_bytes w.parent (
      store_bytes w.file_list (
        store_array_ref w.entries (
          store_timestamp w.added (
            store_texts w.texts (
              store_bytes w.commit_id
                (store_timestamp w.committed (store_coverage_stats w.stats rest))))))))
