-- ===== src/Objects/Build.antt =====
-- libs/cov-api/src/cov/io/build.cc: `load` and `store` of a build.
use git2_cxx.Base.{
  ℕ, ◌+◌, ◌-◌, ◌*◌, ◌^◌, ◌<◌, not, [], ◌∷◌, Option, none, some, Bytes, ltb, length, ◌≡◌, refl, sym,
  arith, inl,
}
use git2_cxx.Base.Int.{ℤ, IsInt64}
use git2_cxx.Words.{IsU32, Timestamp, of_seconds, to_seconds}
use git2_cxx.Words.Laws.{to_seconds-of_seconds}
use git2_cxx.Stats.{CoverageStats}
use git2_cxx.Strings.{is_valid, build, after}
use git2_cxx.Strings.Layout.{LacksNul, length-build}
use git2_cxx.Strings.Locate.{insert_all}
use git2_cxx.Streams.{done, M, ◌>>=◌, ◌>>◌, pure, guard, read, skip, word, store_word, store_bytes}
use git2_cxx.Streams.Laws.{step, word-store_word, read-store_bytes, skip-none, guard-true}
use git2_cxx.Objects.{
  GitOid, load_id, load_block, store_block, load_timestamp, store_timestamp, load_coverage_stats,
  store_coverage_stats, view, locate32,
}
use git2_cxx.Objects.Codecs.{
  IsId, IsCoverageStats, load_id-store_bytes, load_block-store_block,
  load_timestamp-store_timestamp, load_coverage_stats-store_coverage_stats, locate32_found,
  view_place, after-IsLaidOut, of_seconds-IsU32,
}
use git2_cxx.Objects.Props.{Json, normalize}

-- `cov::build`, but for its own id, which is known before it is loaded.
pub record BuildObject : Type 0 where
  pub file_list : GitOid
  pub add_time_utc : ℤ
  pub props_json : Bytes
  pub stats : CoverageStats

-- `v1::build`, behind the block of strings.
pub record WireBuild : Type 0 where
  pub file_list : GitOid
  pub added : Timestamp
  pub propset : ℕ
  pub stats : CoverageStats

unfoldable pub load_wire : M WireBuild
load_wire = do
  file_list ← load_id
  added ← load_timestamp
  propset ← word
  stats ← load_coverage_stats
  pure (record { file_list = file_list; added = added; propset = propset; stats = stats })

unfoldable pub store_wire : WireBuild → Bytes → Bytes
store_wire w rest =
    store_bytes w.file_list
      (store_timestamp w.added (store_word w.propset (store_coverage_stats w.stats rest)))

unfoldable pub load_build : Json → M BuildObject
load_build json = do
  strings ← load_block
  header ← load_wire
  guard (not (ltb strings.offset 17))
  skip (strings.offset * 4 - 68)
  block ← read (strings.size * 4)
  guard (is_valid block header.propset)
  propset ← view block header.propset
  pure (record {
    file_list = header.file_list;
    add_time_utc = to_seconds header.added;
    props_json = normalize json propset;
    stats = header.stats;
  })

unfoldable pub store_build : BuildObject → Option Bytes
store_build b =
    let stg = build (insert_all (b.props_json ∷ []) []) in
    elim (locate32 stg b.props_json) [
      | none ↦ none
      | some propset ↦ some (
          store_block (after 68 stg.bytes) (
            store_wire
              (record {
                file_list = b.file_list;
                added = of_seconds b.add_time_utc;
                propset = propset;
                stats = b.stats;
              })
              (store_bytes stg.bytes [])))
    ]

-- Properties in their normal form and without a NUL, and values that fit their words.
pub record IsBuild (json : Json) (b : BuildObject) : Type 0 where
  pub list : IsId b.file_list
  pub time : IsInt64 b.add_time_utc
  pub normal : normalize json b.props_json ≡ b.props_json
  pub no_nul : LacksNul b.props_json
  pub counters : IsCoverageStats b.stats

load_wire-store_wire :
    (json : Json) (b : BuildObject) (propset : ℕ)
    → IsBuild json b
    → IsU32 propset
    → let w : WireBuild = record {
      file_list = b.file_list;
      added = of_seconds b.add_time_utc;
      propset = propset;
      stats = b.stats;
    } in
      (rest : Bytes) → load_wire (store_wire w rest) ≡ done w rest
unfolding load_wire store_wire
load_wire-store_wire json b propset h p rest =
    let time = of_seconds-IsU32 b.add_time_utc in
    step _ (load_id-store_bytes b.file_list h.list _) (
      step _ (load_timestamp-store_timestamp (of_seconds b.add_time_utc) time.0 time.1 _) (
        step _ (word-store_word propset p _)
          (step _ (load_coverage_stats-store_coverage_stats b.stats h.counters _) refl)))

-- A build is read back as it was stored.
pub load_build-store_build :
    (json : Json) (b : BuildObject)
    → IsBuild json b
    → length (build (insert_all (b.props_json ∷ []) [])).bytes + 68 < 2 ^ 32
    → (bytes : Bytes) × (store_build b ≡ some bytes) × (load_build json bytes ≡ done b [])
unfolding store_build load_build
load_build-store_build json b h small =
    let names = b.props_json ∷ [] in
    let stg = build (insert_all names []) in
    let laid =
      after-IsLaidOut 68 68 0 stg.bytes refl refl (length-build (insert_all names [])) (omega arith)
        (omega arith) (omega arith) in
    let (p, found, place) =
      locate32_found names (h.no_nul, tt) (omega arith) b.props_json (inl refl) in
    let strings = after 68 stg.bytes in
    let w : WireBuild = record {
      file_list = b.file_list;
      added = of_seconds b.add_time_utc;
      propset = p;
      stats = b.stats;
    } in
    (
      store_block strings (store_wire w (store_bytes stg.bytes [])),
      rw (found, store_build) refl,
      step _ (load_block-store_block strings laid.words.0 laid.words.1 _) (
          step _ (load_wire-store_wire json b p h place.0 _) (
            step _ (guard-true _ (ground (arith, laid.behind)) _) (
              rw laid.no_gap (
                step _ (skip-none _) (
                  step _ (read-store_bytes (strings.size * 4) stg.bytes (sym laid.block_size) []) (
                    step _ (guard-true _ place.1 _) (
                      step _ (view_place stg.bytes b.props_json p place.2 [])
                        (rw (to_seconds-of_seconds b.add_time_utc h.time, h.normal) refl)))))))),
    )
