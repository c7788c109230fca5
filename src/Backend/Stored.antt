-- ===== src/Backend/Stored.antt =====
-- libs/cov-api/src/cov/db.cc: objects that are written to a store and looked up in it.
use git2_cxx.Base.{
  ℕ, ◌+◌, ◌^◌, ◌<◌, List, [], ◌∷◌, some, Bytes, if◌then◌else◌, codes, length, ◌≡◌, refl, ap, ◌∙◌,
  arith, All, Bool-cases, inl, inr,
}
use git2_cxx.Text.{eqb}
use git2_cxx.Words.{IsU32, tag, mk_tag}
use git2_cxx.Stats.{Coverage}
use git2_cxx.Strings.{build}
use git2_cxx.Strings.Locate.{insert_all}
use git2_cxx.Functions.{FunctionEntry}
use git2_cxx.Hashes.{once}
use git2_cxx.Hashes.Sha1.{sha1}
use git2_cxx.Streams.{done, store_word}
use git2_cxx.Streams.Laws.{step}
use git2_cxx.Objects.{GitOid}
use git2_cxx.Objects.Props.{Json}
use git2_cxx.Objects.Lines.{IsCoverage, store_lines, load_lines-store_lines}
use git2_cxx.Objects.FunctionList.{function_names, store_functions}
use git2_cxx.Objects.FunctionList.Stored.{IsFunction, load_functions-store_functions}
use git2_cxx.Objects.Build.{BuildObject, IsBuild, store_build, load_build-store_build}
use git2_cxx.Objects.Files.{FileEntry, paths_of, store_files}
use git2_cxx.Objects.Files.Sorted.{IsAscending}
use git2_cxx.Objects.Files.Entries.{IsFile}
use git2_cxx.Objects.Files.Stored.{kept_files, load_files-store_files}
use git2_cxx.Objects.Report.{ReportObject, report_strings, store_report}
use git2_cxx.Objects.Report.Stored.{IsReport, load_report-store_report}
use git2_cxx.Objects.Dispatch.{
  loaded, Handler, add_handler, set_handler, remove_handler, find_handler, load_with, load, store,
}
use git2_cxx.Objects.Dispatch.Stored.{load-found, load_with-done}
use git2_cxx.Backend.Dict.{get_file-put_file}
use git2_cxx.Backend.{
  Object, report_object, build_object, files_object, lines_object, functions_object, report_handler,
  build_handler, files_handler, lines_handler, functions_handler, loose_handlers, Codec, Store,
  put_file, found, found_in, load_file, lookup_object, write,
}

-- Objects that are not too large for the words that count their parts.
pub record IsSmallReport (json : Json) (r : ReportObject) : Type 0 where
  pub valid : IsReport json r
  pub few : length r.builds < 2 ^ 32
  pub small : length (build (insert_all (report_strings r) [])).bytes + 148 < 2 ^ 32

pub record IsSmallBuild (json : Json) (b : BuildObject) : Type 0 where
  pub valid : IsBuild json b
  pub small : length (build (insert_all (b.props_json ∷ []) [])).bytes + 68 < 2 ^ 32

pub record IsSmallFiles (entries : List FileEntry) : Type 0 where
  pub valid : All IsFile entries
  pub ascending : IsAscending entries
  pub few : length entries < 2 ^ 32
  pub small : length (build (insert_all (paths_of entries) [])).bytes + 20 < 2 ^ 32

pub record IsSmallLines (items : List Coverage) : Type 0 where
  pub valid : All IsCoverage items
  pub few : length items < 2 ^ 32

pub record IsSmallFunctions (entries : List FunctionEntry) : Type 0 where
  pub valid : All IsFunction entries
  pub few : length entries < 2 ^ 32
  pub small : length (build (insert_all (function_names entries) [])).bytes + 20 < 2 ^ 32

unfoldable pub IsObject : Json → Object → Type 0
IsObject json (report_object r) = IsSmallReport json r
IsObject json (build_object b) = IsSmallBuild json b
IsObject json (files_object entries) = IsSmallFiles entries
IsObject json (lines_object items) = IsSmallLines items
IsObject json (functions_object entries) = IsSmallFunctions entries

-- What is read back of an object.
unfoldable pub kept : Object → Object
kept (files_object entries) = files_object (kept_files entries)
kept (report_object r) = report_object r
kept (build_object b) = build_object b
kept (lines_object items) = lines_object items
kept (functions_object entries) = functions_object entries

loose-load :
    (json : Json) (magic : ℕ) (h : Handler Object) (payload rest : Bytes) (o : Object)
    → IsU32 magic
    → find_handler (loose_handlers json) magic ≡ some (0x10000, h)
    → h.load payload ≡ done o rest
    → load (loose_handlers json) (store_word magic (store_word 0x10000 payload)) ≡ loaded o
loose-load json magic h payload rest o m there loads =
    load-found (loose_handlers json) magic 0x10000 payload m (omega arith)
    ∙ ap (λ f. load_with f 0x10000 payload) there
    ∙ load_with-done h 0x10000 payload rest o loads

tag-IsU32 : (s : Bytes) → IsU32 (tag s)
unfolding tag mk_tag
tag-IsU32 s = omega arith

loose-report :
    (json : Json) (r : ReportObject) (payload : Bytes)
    → store_report r ≡ some payload
    → (find_handler (loose_handlers json) (tag (codes "rprt"))
        ≡ some (0x10000, report_handler json))
      × (store (loose_handlers json) (report_object r)
          ≡ some (store_word (tag (codes "rprt")) (store_word 0x10000 payload)))
unfolding loose_handlers add_handler set_handler remove_handler find_handler store report_handler
    build_handler files_handler lines_handler functions_handler tag mk_tag
loose-report json r payload e = (refl, rw e refl)

loose-build :
    (json : Json) (b : BuildObject) (payload : Bytes)
    → store_build b ≡ some payload
    → (find_handler (loose_handlers json) (tag (codes "bld")) ≡ some (0x10000, build_handler json))
      × (store (loose_handlers json) (build_object b)
          ≡ some (store_word (tag (codes "bld")) (store_word 0x10000 payload)))
unfolding loose_handlers add_handler set_handler remove_handler find_handler store report_handler
    build_handler files_handler lines_handler functions_handler tag mk_tag
loose-build json b payload e = (refl, rw e refl)

loose-files :
    (json : Json) (entries : List FileEntry) (payload : Bytes)
    → store_files entries ≡ some payload
    → (find_handler (loose_handlers json) (tag (codes "list")) ≡ some (0x10000, files_handler))
      × (store (loose_handlers json) (files_object entries)
          ≡ some (store_word (tag (codes "list")) (store_word 0x10000 payload)))
unfolding loose_handlers add_handler set_handler remove_handler find_handler store report_handler
    build_handler files_handler lines_handler functions_handler tag mk_tag
loose-files json entries payload e = (refl, rw e refl)

loose-lines :
    (json : Json) (items : List Coverage)
    → (find_handler (loose_handlers json) (tag (codes "lnes")) ≡ some (0x10000, lines_handler))
      × (store (loose_handlers json) (lines_object items)
          ≡ some (store_word (tag (codes "lnes")) (store_word 0x10000 (store_lines items))))
unfolding loose_handlers add_handler set_handler remove_handler find_handler store report_handler
    build_handler files_handler lines_handler functions_handler tag mk_tag
loose-lines json items = (refl, refl)

loose-functions :
    (json : Json) (entries : List FunctionEntry) (payload : Bytes)
    → store_functions entries ≡ some payload
    → (find_handler (loose_handlers json) (tag (codes "fnct")) ≡ some (0x10000, functions_handler))
      × (store (loose_handlers json) (functions_object entries)
          ≡ some (store_word (tag (codes "fnct")) (store_word 0x10000 payload)))
unfolding loose_handlers add_handler set_handler remove_handler find_handler store report_handler
    build_handler files_handler lines_handler functions_handler tag mk_tag
loose-functions json entries payload e = (refl, rw e refl)

-- Every object has bytes that are loaded as what is kept of it.
load-store_object :
    (json : Json) (o : Object)
    → IsObject json o
    → (bytes : Bytes) × (store (loose_handlers json) o ≡ some bytes)
      × (load (loose_handlers json) bytes ≡ loaded (kept o))
unfolding IsObject kept report_handler build_handler files_handler lines_handler functions_handler
load-store_object json (report_object r) h =
    let (payload, stored, loads) = load_report-store_report json r h.valid h.few h.small in
    let (there, placed) = loose-report json r payload stored in
    (
      _,
      placed,
      loose-load json _ (report_handler json) payload [] (report_object r)
          (tag-IsU32 (codes "rprt")) there (step _ loads refl),
    )
load-store_object json (build_object b) h =
    let (payload, stored, loads) = load_build-store_build json b h.valid h.small in
    let (there, placed) = loose-build json b payload stored in
    (
      _,
      placed,
      loose-load json _ (build_handler json) payload [] (build_object b) (tag-IsU32 (codes "bld"))
          there (step _ loads refl),
    )
load-store_object json (files_object entries) h =
    let (payload, stored, loads) =
      load_files-store_files entries h.valid h.ascending h.few h.small in
    let (there, placed) = loose-files json entries payload stored in
    (
      _,
      placed,
      loose-load json _ files_handler payload [] (files_object (kept_files entries))
          (tag-IsU32 (codes "list")) there (step _ loads refl),
    )
load-store_object json (lines_object items) h =
    let loads = load_lines-store_lines items h.few h.valid in
    let (there, placed) = loose-lines json items in
    (
      _,
      placed,
      loose-load json _ lines_handler (store_lines items) [] (lines_object items)
          (tag-IsU32 (codes "lnes")) there (step _ loads refl),
    )
load-store_object json (functions_object entries) h =
    let (payload, stored, loads) = load_functions-store_functions entries h.valid h.few h.small in
    let (there, placed) = loose-functions json entries payload stored in
    (
      _,
      placed,
      loose-load json _ functions_handler payload [] (functions_object entries)
          (tag-IsU32 (codes "fnct")) there (step _ loads refl),
    )

load_file-deflate :
    (codec : Codec) (json : Json) (bytes : Bytes) (o : Object)
    → codec.inflate (codec.deflate bytes) ≡ some bytes
    → load (loose_handlers json) bytes ≡ loaded o
    → load_file codec json (codec.deflate bytes) ≡ found o
unfolding load_file found_in
load_file-deflate codec json bytes o back loads = rw (back, load_file) (rw (loads, found_in) refl)

-- If inflating undoes deflating, a valid object is written, and then a look-up by its id finds it, but
-- for what its file does not keep. Every other id finds what it found before.
pub write-lookup_object :
    (codec : Codec) (json : Json)
    → ((bytes : Bytes) → codec.inflate (codec.deflate bytes) ≡ some bytes)
    → (store' : Store) (o : Object) → IsObject json o
    → (other : GitOid)
    → (after : Store) × (id : GitOid) × (write codec json store' o ≡ some (after, id))
      × (lookup_object codec json after other
          ≡ (if eqb id other then found (kept o) else lookup_object codec json store' other))
unfolding write lookup_object
write-lookup_object codec json back store' o h other =
    let (bytes, stored, loads) = load-store_object json o h in
    let put = get_file-put_file store' (once sha1 bytes) other (codec.deflate bytes) in
    let there = load_file-deflate codec json bytes (kept o) (back bytes) loads in
    (
      put_file store' (once sha1 bytes) (codec.deflate bytes),
      once sha1 bytes,
      rw (stored, write) refl,
      elim (Bool-cases (eqb (once sha1 bytes) other)) [
        | inl same ↦ ground (arith, same, put, there)
        | inr differs ↦ ground (arith, differs, put)
      ],
    )
