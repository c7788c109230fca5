-- ===== src/Objects/Report.antt =====
-- libs/cov-api/src/cov/io/report.cc: `load` and `store` of a report.
pub mod Wire
pub mod Builder
pub mod Header
pub mod Stored
pub mod Short
pub mod Examples
use git2_cxx.Base.{
  ℕ, zero, suc, ◌+◌, ◌-◌, ◌*◌, ◌/◌, ◌%◌, ◌^◌, ◌==◌, ◌<◌, ◌≤◌, min, max, Bool, true, false, not,
  ◌&&◌, ◌||◌, List, [], ◌∷◌, ◌++◌, Option, none, some, Bytes, ltb, leb, if◌then◌else◌, codes,
  length, ◌≡◌, ◌≢◌, refl, ap, sym, ◌∙◌, arith, All, Bool-cases, Option-cases, inl, inr, ◌⊎◌, ◌↔◌,
  length-append, length-replicate, append_assoc, append-nil, drop, take, replicate, get_or,
  get_elem?, map, tests, drop-append, take-append, All-append,
}
use git2_cxx.Base.Int.{ℤ}
use git2_cxx.Words.{Timestamp, of_seconds, to_seconds}
use git2_cxx.Stats.{CoverageStats}
use git2_cxx.Strings.{
  is_valid, build, Block, ArrayRef, StringsBlock, after, align_array, header_valid,
}
use git2_cxx.Strings.Locate.{insert_all}
use git2_cxx.Streams.{
  Outcome, done, refused, fault, M, and_then, ◌>>=◌, ◌>>◌, pure, guard, read, skip, word,
  store_word, store_bytes, in_buffer, load_items, store_items, place_all,
}
use git2_cxx.Objects.{
  GitOid, load_id, load_block, store_block, load_array_ref, store_array_ref, load_timestamp,
  store_timestamp, load_coverage_stats, store_coverage_stats, view, locate32,
}
use git2_cxx.Objects.Props.{Json, normalize}
use git2_cxx.Objects.Report.Wire.{
  Texts, WireEntry, load_wire_entry, store_wire_entry, WireReport, load_texts, store_texts,
  load_header, store_header,
}

-- `report::build`.
pub record ReportBuild : Type 0 where
  pub build_id : GitOid
  pub props_json : Bytes
  pub stats : CoverageStats

-- `cov::report`, but for its own id, which is known before it is loaded.
pub record ReportObject : Type 0 where
  pub parent : GitOid
  pub file_list : GitOid
  pub commit : GitOid
  pub texts : Texts Bytes
  pub commit_time_utc : ℤ
  pub add_time_utc : ℤ
  pub stats : CoverageStats
  pub builds : List ReportBuild

-- The body of the loop of `load_resources`. The structure is looked up in the buffer, which holds
-- `entry_size` bytes.
unfoldable pub load_resource : Json → ℕ → Bytes → M ReportBuild
load_resource json entry_size strings = do
  buffer ← read entry_size
  entry ← in_buffer load_wire_entry buffer
  guard (is_valid strings entry.propset)
  props ← view strings entry.propset
  pure
      (record { build_id = entry.build_id; props_json = normalize json props; stats = entry.stats })

unfoldable pub are_valid : Bytes → Texts ℕ → Bool
are_valid strings t =
    (is_valid strings t.branch
      && (is_valid strings t.author_name && is_valid strings t.author_email))
    && (is_valid strings t.committer_name
        && (is_valid strings t.committer_email && is_valid strings t.message))

unfoldable pub view_texts : Bytes → Texts ℕ → M (Texts Bytes)
view_texts strings t = do
  branch ← view strings t.branch
  author_name ← view strings t.author_name
  author_email ← view strings t.author_email
  committer_name ← view strings t.committer_name
  committer_email ← view strings t.committer_email
  message ← view strings t.message
  pure (record {
    branch = branch;
    author_name = author_name;
    author_email = author_email;
    committer_name = committer_name;
    committer_email = committer_email;
    message = message;
  })

-- The size of an entry in bytes is cast to a `uint32_t`.
unfoldable pub load_report : Json → M ReportObject
load_report json = do
  header ← load_header
  guard (header_valid 148 52 header.strings header.entries)
  skip (header.strings.offset * 4 - 148)
  strings ← read (header.strings.size * 4)
  guard (are_valid strings header.texts)
  texts ← view_texts strings header.texts
  skip ((header.entries.offset - (header.strings.offset + header.strings.size) % 2 ^ 32) * 4)
  builds ←
      load_items header.entries.count
        (load_resource json (header.entries.size * 4 % 2 ^ 32) strings)
  pure (record {
    parent = header.parent;
    file_list = header.file_list;
    commit = header.commit_id;
    texts = texts;
    commit_time_utc = to_seconds header.committed;
    add_time_utc = to_seconds header.added;
    stats = header.stats;
    builds = builds;
  })

unfoldable pub build_props : List ReportBuild → List Bytes
build_props [] = []
build_props (b ∷ builds) = b.props_json ∷ build_props builds

unfoldable pub report_strings : ReportObject → List Bytes
unfolding build_props
report_strings r =
    r.texts.branch
    ∷ (r.texts.author_name
        ∷ (r.texts.author_email
            ∷ (r.texts.committer_name
                ∷ (r.texts.committer_email ∷ (r.texts.message ∷ build_props r.builds)))))

abbrev after_some : {A B : Type 0} → Option A → (A → Option B) → Option B
after_some none f = none
after_some (some a) f = f a

unfoldable pub place_texts : StringsBlock → Texts Bytes → Option (Texts ℕ)
place_texts stg t = after_some (locate32 stg t.branch) (λ branch.
    after_some (locate32 stg t.author_name) (λ author_name.
      after_some (locate32 stg t.author_email) (λ author_email.
        after_some (locate32 stg t.committer_name) (λ committer_name.
          after_some (locate32 stg t.committer_email) (λ committer_email.
            after_some (locate32 stg t.message) (λ message. some (record {
              branch = branch;
              author_name = author_name;
              author_email = author_email;
              committer_name = committer_name;
              committer_email = committer_email;
              message = message;
            })))))))

unfoldable pub place_entry : StringsBlock → ReportBuild → Option WireEntry
place_entry stg b = elim (locate32 stg b.props_json) [
  | none ↦ none
  | some propset ↦ some (record { build_id = b.build_id; propset = propset; stats = b.stats })
]

unfoldable pub wire_header : ReportObject → Bytes → Texts ℕ → WireReport
wire_header r block texts = record {
  strings = after 148 block;
  parent = r.parent;
  file_list = r.file_list;
  entries = align_array 148 52 block (length r.builds);
  added = of_seconds r.add_time_utc;
  texts = texts;
  commit_id = r.commit;
  committed = of_seconds r.commit_time_utc;
  stats = r.stats;
}

unfoldable pub store_report : ReportObject → Option Bytes
store_report r =
    let stg = build (insert_all (report_strings r) []) in
    elim (place_texts stg r.texts) [
      | none ↦ none
      | some texts ↦ elim (place_all (place_entry stg) r.builds) [
        | none ↦ none
        | some entries ↦ some (
            store_header (wire_header r stg.bytes texts)
              (store_bytes stg.bytes (store_items store_wire_entry entries [])))
      ]
    ]
