-- ===== src/Backend.antt =====
-- libs/cov-api/src/cov/db.cc: a store of objects by their ids, each in a file of its own. The
-- compression is a parameter, and the files of the store are the list of their ids and
-- contents.
pub mod Dict
pub mod Stored
pub mod Prefix
pub mod Examples
use git2_cxx.Base.{
  ℕ, zero, suc, ◌+◌, ◌-◌, ◌*◌, ◌/◌, ◌%◌, ◌^◌, ◌==◌, ◌<◌, ◌≤◌, min, max, Bool, true, false, not,
  ◌&&◌, ◌||◌, List, [], ◌∷◌, ◌++◌, Option, none, some, Bytes, ltb, leb, if◌then◌else◌, codes,
  length, ◌≡◌, ◌≢◌, refl, ap, sym, ◌∙◌, arith, All, Bool-cases, Option-cases, inl, inr, ◌⊎◌, ◌↔◌,
  length-append, length-replicate, append_assoc, append-nil, drop, take, replicate, get_or,
  get_elem?, map, tests, drop-append, take-append, All-append,
}
use git2_cxx.Text.{starts_with, eqb}
use git2_cxx.Words.{tag}
use git2_cxx.Hashes.{once}
use git2_cxx.Hashes.Sha1.{sha1}
use git2_cxx.Streams.{M, ◌>>=◌, pure}
use git2_cxx.Stats.{Coverage}
use git2_cxx.Functions.{FunctionEntry}
use git2_cxx.Objects.{GitOid}
use git2_cxx.Objects.Props.{Json}
use git2_cxx.Objects.Lines.{load_lines, store_lines}
use git2_cxx.Objects.FunctionList.{load_functions, store_functions}
use git2_cxx.Objects.Build.{BuildObject, load_build, store_build}
use git2_cxx.Objects.Files.{FileEntry, load_files, store_files}
use git2_cxx.Objects.Report.{ReportObject, load_report, store_report}
use git2_cxx.Objects.Dispatch.{
  Loaded, loaded, failed, crashed, Handler, Handlers, add_handler, load, store,
}

-- The objects that `loose_backend` has handlers for.
pub data Object : Type 0 where
  report_object : ReportObject → Object
  build_object : BuildObject → Object
  files_object : List FileEntry → Object
  lines_object : List Coverage → Object
  functions_object : List FunctionEntry → Object

abbrev pub mapped : {A B : Type 0} → (A → B) → M A → M B
mapped f m = m >>= λ a. pure (f a)

unfoldable pub report_handler : Json → Handler Object
report_handler json = record {
  load = mapped report_object (load_report json);
  recognized = λ o. elim o [ report_object r ↦ true | _ ↦ false ];
  store = λ o. elim o [ report_object r ↦ store_report r | _ ↦ none ];
}

unfoldable pub build_handler : Json → Handler Object
build_handler json = record {
  load = mapped build_object (load_build json);
  recognized = λ o. elim o [ build_object b ↦ true | _ ↦ false ];
  store = λ o. elim o [ build_object b ↦ store_build b | _ ↦ none ];
}

unfoldable pub files_handler : Handler Object
files_handler = record {
  load = mapped files_object load_files;
  recognized = λ o. elim o [ files_object f ↦ true | _ ↦ false ];
  store = λ o. elim o [ files_object f ↦ store_files f | _ ↦ none ];
}

unfoldable pub lines_handler : Handler Object
lines_handler = record {
  load = mapped lines_object load_lines;
  recognized = λ o. elim o [ lines_object l ↦ true | _ ↦ false ];
  store = λ o. elim o [ lines_object l ↦ some (store_lines l) | _ ↦ none ];
}

unfoldable pub functions_handler : Handler Object
functions_handler = record {
  load = mapped functions_object load_functions;
  recognized = λ o. elim o [ functions_object f ↦ true | _ ↦ false ];
  store = λ o. elim o [ functions_object f ↦ store_functions f | _ ↦ none ];
}

-- The constructor of `loose_backend` in libs/cov-api/src/cov/db.cc. All of them have version 1.0.
unfoldable pub loose_handlers : Json → Handlers Object
unfolding report_handler build_handler files_handler lines_handler functions_handler
loose_handlers json =
    let added = λ (hs : Handlers Object) (name : Bytes) (h : Handler Object).
      add_handler hs (tag name) (some h) 0x10000 in
    added
      (added
        (added
          (added (added [] (codes "rprt") (report_handler json)) (codes "bld") (build_handler json))
          (codes "list") files_handler)
        (codes "lnes") lines_handler)
      (codes "fnct") functions_handler

-- What the source calls of zlib, and git's digits of an id.
pub record Codec : Type 0 where
  pub deflate : Bytes → Bytes
  pub inflate : Bytes → Option Bytes
  pub format : GitOid → Bytes

abbrev pub Store : Type 0
Store = List (GitOid × Bytes)

-- `rename` of a finished file takes the place of one with its name.
unfoldable pub put_file : Store → GitOid → Bytes → Store
put_file [] id contents = (id, contents) ∷ []
put_file ((other, old) ∷ store') id contents =
    if eqb other id then (id, contents) ∷ store' else (other, old) ∷ put_file store' id contents

unfoldable pub get_file : Store → GitOid → Option Bytes
get_file [] id = none
get_file ((other, contents) ∷ store') id =
    if eqb other id then some contents else get_file store' id

-- What a look-up gives: an object, nothing, or a read past the end of a buffer.
pub data Found : Type 0 where
  found : Object → Found
  missing lost : Found

unfoldable pub found_in : Loaded Object → Found
found_in (loaded o) = found o
found_in (failed e) = missing
found_in crashed = lost

module _ (codec : Codec) (json : Json) where
  unfoldable pub load_file : Bytes → Found
  load_file contents = elim (codec.inflate contents) [
    | none ↦ missing
    | some bytes ↦ found_in (load (loose_handlers json) bytes)
  ]

  unfoldable pub lookup_object : Store → GitOid → Found
  lookup_object store' id = elim (get_file store' id) [
    | none ↦ missing
    | some contents ↦ load_file contents
  ]

  -- The files whose ids have these first digits.
  unfoldable pub matches : Store → Bytes → List Bytes
  matches [] prefix = []
  matches ((id, contents) ∷ store') prefix =
      let rest = matches store' prefix in
      if starts_with (codec.format id) prefix then contents ∷ rest else rest

  -- `lookup_object` with a number of digits: 40 are a whole id, fewer than 4 are too few, and two
  -- files with the same first digits are refused.
  unfoldable pub lookup_prefix : Store → GitOid → ℕ → Found
  lookup_prefix store' id character_count =
      if leb 40 character_count
      then lookup_object store' id
      else if ltb character_count 4
      then missing
      else elim (matches store' (take character_count (codec.format id))) [
        | [] ↦ missing
        | contents ∷ [] ↦ load_file contents
        | contents ∷ (other ∷ rest) ↦ missing
      ]

  -- The id of an object is the digest of its bytes.
  unfoldable pub write : Store → Object → Option (Store × GitOid)
  write store' o = elim (store (loose_handlers json) o) [
    | none ↦ none
    | some bytes ↦ some (put_file store' (once sha1 bytes) (codec.deflate bytes), once sha1 bytes)
  ]
