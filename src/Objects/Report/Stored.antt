-- ===== src/Objects/Report/Stored.antt =====
-- `report::load` of what `report::store` has stored.
use git2_cxx.Base.{
  ℕ, ◌+◌, ◌*◌, ◌%◌, ◌^◌, ◌<◌, true, List, [], ◌∷◌, ◌++◌, some, Bytes, length, ◌≡◌, refl, ap, sym,
  ◌∙◌, arith, All, inl, inr, length-append, append_assoc,
}
use git2_cxx.Strings.{build, after, align_array}
use git2_cxx.Strings.Locate.{insert_all}
use git2_cxx.Streams.{done, store_word, store_bytes, store_items}
use git2_cxx.Objects.{store_coverage_stats, store_stats}
use git2_cxx.Objects.Props.{Json, normalize}
use git2_cxx.Words.{IsU32}
use git2_cxx.Words.Laws.{to_seconds-of_seconds}
use git2_cxx.Base.Int.{IsInt64}
use git2_cxx.Strings.Layout.{LacksNul, length-build}
use git2_cxx.Strings.Sorted.{In}
use git2_cxx.Streams.Laws.{
  step, word-store_word, read-store_bytes, skip-none, guard-true, load_items-place_all,
  in_buffer-store, read-put, map-id,
}
use git2_cxx.Objects.Codecs.{
  IsId, IsCoverageStats, load_id-store_bytes, load_coverage_stats-store_coverage_stats,
  locate32_found, view_place, IsLaidOut, after-IsLaidOut, of_seconds-IsU32,
}
use git2_cxx.Objects.Report.Wire.{Texts, WireEntry, load_wire_entry, store_wire_entry, store_header}
use git2_cxx.Objects.Report.Header.{AllTexts, IsWireReport, load_header-store_header}
use git2_cxx.Objects.Report.{
  ReportBuild, ReportObject, load_resource, are_valid, view_texts, load_report, build_props,
  report_strings, place_texts, place_entry, wire_header, store_report,
}

-- A build of a report: its properties are in normal form and without a NUL, its values fit.
pub record IsReportBuild (json : Json) (b : ReportBuild) : Type 0 where
  pub id : IsId b.build_id
  pub normal : normalize json b.props_json ≡ b.props_json
  pub no_nul : LacksNul b.props_json
  pub counters : IsCoverageStats b.stats

pub record IsReport (json : Json) (r : ReportObject) : Type 0 where
  pub ids : IsId r.parent × IsId r.file_list × IsId r.commit
  pub no_nul : AllTexts LacksNul r.texts
  pub times : IsInt64 r.commit_time_utc × IsInt64 r.add_time_utc
  pub counters : IsCoverageStats r.stats
  pub builds : All (IsReportBuild json) r.builds

load_wire_entry-store_wire_entry :
    (json : Json) (b : ReportBuild) (propset : ℕ)
    → IsReportBuild json b
    → IsU32 propset
    → let w : WireEntry = record { build_id = b.build_id; propset = propset; stats = b.stats } in
      (rest : Bytes) → load_wire_entry (store_wire_entry w rest) ≡ done w rest
unfolding load_wire_entry store_wire_entry
load_wire_entry-store_wire_entry json b propset h p rest =
    step _ (load_id-store_bytes b.build_id h.id _) (
      step _ (word-store_word propset p _)
        (step _ (load_coverage_stats-store_coverage_stats b.stats h.counters _) refl))

store_wire_entry-split :
    (w : WireEntry) (rest : Bytes) → store_wire_entry w rest ≡ store_wire_entry w [] ++ rest
unfolding store_wire_entry store_bytes store_word store_coverage_stats store_stats
store_wire_entry-split w rest = simp append_assoc

length-store_wire_entry : (w : WireEntry) → IsId w.build_id → length (store_wire_entry w []) ≡ 52
unfolding store_wire_entry store_bytes store_word store_coverage_stats store_stats
length-store_wire_entry w h = rw length-append (omega (arith, h))

module _ (names : List Bytes) (l : All LacksNul names)
    (small : length (build (insert_all names [])).bytes < 2 ^ 32) where
  texts_back :
      (t : Texts Bytes)
      → AllTexts (λ x. In x names) t
      → let stg = build (insert_all names []) in
        (w : Texts ℕ) × (place_texts stg t ≡ some w)
        × AllTexts IsU32 w
        × (are_valid stg.bytes w ≡ true)
        × ((rest : Bytes) → view_texts stg.bytes w rest ≡ done t rest)
  unfolding place_texts are_valid view_texts
  texts_back t h =
      let stg = build (insert_all names []) in
      let (b, b_found, b_at) = locate32_found names l small t.branch h.0 in
      let (an, an_found, an_at) = locate32_found names l small t.author_name h.1 in
      let (ae, ae_found, ae_at) = locate32_found names l small t.author_email h.2 in
      let (cn, cn_found, cn_at) = locate32_found names l small t.committer_name h.3 in
      let (ce, ce_found, ce_at) = locate32_found names l small t.committer_email h.4 in
      let (m, m_found, m_at) = locate32_found names l small t.message h.5 in
      (
        record {
          branch = b;
          author_name = an;
          author_email = ae;
          committer_name = cn;
          committer_email = ce;
          message = m;
        },
        rw (b_found, an_found, ae_found, cn_found, ce_found, m_found, place_texts) refl,
        (b_at.0, an_at.0, ae_at.0, cn_at.0, ce_at.0, m_at.0),
        ground (arith, b_at.1, an_at.1, ae_at.1, cn_at.1, ce_at.1, m_at.1),
        λ rest. step _ (view_place stg.bytes t.branch b b_at.2 rest) (
            step _ (view_place stg.bytes t.author_name an an_at.2 rest) (
              step _ (view_place stg.bytes t.author_email ae ae_at.2 rest) (
                step _ (view_place stg.bytes t.committer_name cn cn_at.2 rest) (
                  step _ (view_place stg.bytes t.committer_email ce ce_at.2 rest)
                    (step _ (view_place stg.bytes t.message m m_at.2 rest) refl))))),
      )

  entry_back :
      (json : Json) (b : ReportBuild)
      → IsReportBuild json b × In b.props_json names
      → let stg = build (insert_all names []) in
        (w : WireEntry) × (place_entry stg b ≡ some w)
        × ((rest : Bytes) → load_resource json 52 stg.bytes (store_wire_entry w rest) ≡ done b rest)
  unfolding place_entry load_resource
  entry_back json b (h, i) =
      let stg = build (insert_all names []) in
      let (p, found, place) = locate32_found names l small b.props_json i in
      let w : WireEntry = record { build_id = b.build_id; propset = p; stats = b.stats } in
      (
        w,
        rw (found, place_entry) refl,
        λ rest.
            step _
              (read-put (store_wire_entry w) 52 (store_wire_entry-split w)
                (length-store_wire_entry w h.id) rest)
              (step _
                (in_buffer-store load_wire_entry (store_wire_entry w []) [] w
                  (load_wire_entry-store_wire_entry json b p h place.0 []) rest)
                (step _ (guard-true _ place.1 rest)
                  (step _ (view_place stg.bytes b.props_json p place.2 rest) (rw h.normal refl)))),
      )

header_back :
    (json : Json) (r : ReportObject) (block : Bytes) (texts : Texts ℕ)
    → IsReport json r
    → AllTexts IsU32 texts
    → IsLaidOut 148 52
        (length r.builds)
        block
        (after 148 block)
        (align_array 148 52 block (length r.builds))
    → IsWireReport (wire_header r block texts)
unfolding wire_header
header_back json r block texts h t laid = record {
  strings = (laid.words.0, laid.words.1);
  ids = h.ids;
  entries = (laid.words.2, laid.words.3, laid.words.4);
  added = of_seconds-IsU32 r.add_time_utc;
  texts = t;
  committed = of_seconds-IsU32 r.commit_time_utc;
  counters = h.counters;
}

props_LacksNul :
    (json : Json) (builds : List ReportBuild)
    → All (IsReportBuild json) builds
    → All LacksNul (build_props builds)
unfolding build_props
props_LacksNul json [] h = tt
props_LacksNul json (b ∷ builds) h = (h.0.no_nul, props_LacksNul json builds h.1)

builds_In :
    (json : Json) (builds : List ReportBuild) (names : List Bytes)
    → All (IsReportBuild json) builds
    → ((y : Bytes) → In y (build_props builds) → In y names)
    → All (λ b. IsReportBuild json b × In b.props_json names) builds
unfolding build_props
builds_In json [] names h into = tt
builds_In json (b ∷ builds) names h into =
    ((h.0, into b.props_json (inl refl)), builds_In json builds names h.1 (λ y i. into y (inr i)))

strings_LacksNul :
    (json : Json) (r : ReportObject) → IsReport json r → All LacksNul (report_strings r)
unfolding report_strings
strings_LacksNul json r h =
    let t = h.no_nul in
    (t.0, (t.1, (t.2, (t.3, (t.4, (t.5, props_LacksNul json r.builds h.builds))))))

texts_In : (r : ReportObject) → AllTexts (λ x. In x (report_strings r)) r.texts
unfolding report_strings
texts_In r = (
  inl refl,
  inr (inl refl),
  inr (inr (inl refl)),
  inr (inr (inr (inl refl))),
  inr (inr (inr (inr (inl refl)))),
  inr (inr (inr (inr (inr (inl refl))))),
)

props_In : (r : ReportObject) (y : Bytes) → In y (build_props r.builds) → In y (report_strings r)
unfolding report_strings
props_In r y i = inr (inr (inr (inr (inr (inr i)))))

-- A report is read back as it was stored: its times, its texts, its counters and its builds in their
-- order.
pub load_report-store_report :
    (json : Json) (r : ReportObject)
    → IsReport json r
    → length r.builds < 2 ^ 32
    → length (build (insert_all (report_strings r) [])).bytes + 148 < 2 ^ 32
    → (bytes : Bytes) × (store_report r ≡ some bytes) × (load_report json bytes ≡ done r [])
unfolding store_report load_report wire_header
load_report-store_report json r h few small =
    let names = report_strings r in
    let nul_free = strings_LacksNul json r h in
    let stg = build (insert_all names []) in
    let block = stg.bytes in
    let laid =
      after-IsLaidOut 148 52 (length r.builds) block refl refl (length-build (insert_all names []))
        (omega arith) (omega arith) (omega arith) in
    let (texts, t_placed, t_words, t_valid, t_back) =
      texts_back names nul_free (omega arith) r.texts (texts_In r) in
    let (entries, placed, back) =
      load_items-place_all (place_entry stg) store_wire_entry (load_resource json 52 block) (λ b. b)
        (λ b. IsReportBuild json b × In b.props_json names)
        (entry_back names nul_free (omega arith) json) r.builds
        (builds_In json r.builds names h.builds (props_In r)) in
    let strings = after 148 block in
    let array = align_array 148 52 block (length r.builds) in
    let tail = store_items store_wire_entry entries [] in
    let size32 : array.size * 4 % 2 ^ 32 ≡ 52 = omega (arith, laid.entry_size) in
    (
      store_header (wire_header r block texts) (store_bytes block tail),
      rw (t_placed, placed, store_report) refl,
      step _
          (load_header-store_header (wire_header r block texts)
            (header_back json r block texts h t_words laid) _)
          (step _ (guard-true _ laid.valid _) (
            rw laid.no_gap (
              step _ (skip-none _) (
                step _ (read-store_bytes (strings.size * 4) block (sym laid.block_size) tail) (
                  step _ (guard-true _ t_valid _) (
                    step _ (t_back _) (
                      rw laid.no_gap_behind (
                        step _ (skip-none _) (
                          rw (laid.entry_count, size32)
                            (step _ (back [] ∙ ap (λ bs. done bs []) (map-id r.builds)) (
                              rw
                                (
                                  to_seconds-of_seconds r.add_time_utc h.times.1,
                                  to_seconds-of_seconds r.commit_time_utc h.times.0,
                                )
                                refl))))))))))),
    )
