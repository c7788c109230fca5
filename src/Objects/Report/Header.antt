-- ===== src/Objects/Report/Header.antt =====
-- The header of a report is read back as it was stored.
use git2_cxx.Base.{ℕ, Bytes, ◌≡◌, refl}
use git2_cxx.Streams.{done}
use git2_cxx.Words.{IsU32}
use git2_cxx.Streams.Laws.{step, word-store_word}
use git2_cxx.Objects.Codecs.{
  IsId, IsCoverageStats, load_id-store_bytes, load_block-store_block,
  load_array_ref-store_array_ref, load_timestamp-store_timestamp,
  load_coverage_stats-store_coverage_stats,
}
use git2_cxx.Objects.Report.Wire.{
  Texts, WireReport, load_texts, store_texts, load_header, store_header,
}

abbrev pub AllTexts : {A : Type 0} → (A → Type 0) → Texts A → Type 0
AllTexts P t =
    P t.branch
    × P t.author_name
    × P t.author_email
    × P t.committer_name
    × P t.committer_email
    × P t.message

-- Values that fit the fields of the header.
pub record IsWireReport (w : WireReport) : Type 0 where
  pub strings : IsU32 w.strings.offset × IsU32 w.strings.size
  pub ids : IsId w.parent × IsId w.file_list × IsId w.commit_id
  pub entries : IsU32 w.entries.offset × IsU32 w.entries.size × IsU32 w.entries.count
  pub added : IsU32 w.added.hi × IsU32 w.added.lo
  pub texts : AllTexts IsU32 w.texts
  pub committed : IsU32 w.committed.hi × IsU32 w.committed.lo
  pub counters : IsCoverageStats w.stats

load_texts-store_texts :
    (t : Texts ℕ)
    → AllTexts IsU32 t
    → (rest : Bytes) → load_texts (store_texts t rest) ≡ done t rest
unfolding load_texts store_texts
load_texts-store_texts t h rest = step _ (word-store_word t.branch h.0 _) (
    step _ (word-store_word t.author_name h.1 _) (
      step _ (word-store_word t.author_email h.2 _) (
        step _ (word-store_word t.committer_name h.3 _) (
          step _ (word-store_word t.committer_email h.4 _)
            (step _ (word-store_word t.message h.5 _) refl)))))

pub load_header-store_header :
    (w : WireReport)
    → IsWireReport w
    → (rest : Bytes) → load_header (store_header w rest) ≡ done w rest
unfolding load_header store_header
load_header-store_header w h rest =
    step _ (load_block-store_block w.strings h.strings.0 h.strings.1 _) (
      step _ (load_id-store_bytes w.parent h.ids.0 _) (
        step _ (load_id-store_bytes w.file_list h.ids.1 _) (
          step _ (load_array_ref-store_array_ref w.entries h.entries.0 h.entries.1 h.entries.2 _) (
            step _ (load_timestamp-store_timestamp w.added h.added.0 h.added.1 _) (
              step _ (load_texts-store_texts w.texts h.texts _) (
                step _ (load_id-store_bytes w.commit_id h.ids.2 _) (
                  step _ (load_timestamp-store_timestamp w.committed h.committed.0 h.committed.1 _)
                    (step _ (load_coverage_stats-store_coverage_stats w.stats h.counters _)
                      refl))))))))
