-- ===== src/Objects/Examples.antt =====
-- Objects that are stored and read back.
use git2_cxx.Base.{
  ℕ, ◌+◌, ◌^◌, ◌<◌, true, false, List, [], ◌∷◌, some, Bytes, codes, length, ◌≡◌, refl, arith, All,
  replicate,
}
use git2_cxx.Base.Int.{pos, negsuc}
use git2_cxx.Text.{eqb, less}
use git2_cxx.Text.Parts.{trim}
use git2_cxx.Stats.{CoverageStats, Coverage}
use git2_cxx.Strings.{build, insert, append, fill32}
use git2_cxx.Strings.Locate.{insert_all}
use git2_cxx.Functions.{FunctionEntry}
use git2_cxx.Streams.{done}
use git2_cxx.Objects.{GitOid}
use git2_cxx.Objects.Props.{
  Json, text, plain_node, drop_quote, from_chars, natural_from, signed_from, signed_natural,
  digits_from, number, truth, node, normalize, strip, embrace, unbrace,
}
use git2_cxx.Objects.Lines.{load_lines, store_lines, load_lines-store_lines}
use git2_cxx.Objects.FunctionList.{function_names, load_functions, store_functions, is_forward}
use git2_cxx.Objects.FunctionList.Stored.{IsFunction, load_functions-store_functions}
use git2_cxx.Objects.Build.{BuildObject, IsBuild, load_build, store_build, load_build-store_build}
use git2_cxx.Objects.Files.{FileEntry, paths_of, add_files, by_path, load_files, store_files}
use git2_cxx.Objects.Files.Sorted.{IsAscending, add_files_lem}
use git2_cxx.Objects.Files.Entries.{IsFile}
use git2_cxx.Objects.Files.Stored.{kept_files, load_files-store_files}
use git2_cxx.Objects.Report.{ReportObject, report_strings, build_props, load_report, store_report}
use git2_cxx.Objects.Report.Stored.{IsReport, load_report-store_report}

abbrev pub an_id : ℕ → GitOid
an_id byte = replicate 20 byte

-- A library whose dictionaries are their texts.
abbrev pub a_json : Json
a_json = record {
  Map = Bytes;
  empty = codes "{}";
  set = λ map name value. map;
  write = λ map. map;
  read = λ s. some s;
}

abbrev pub a_count : CoverageStats
a_count = record {
  lines_total = 30;
  lines = record { relevant = 20; visited = 12 };
  functions = record { relevant = 2; visited = 1 };
  branches = record { relevant = 0; visited = 0 };
}

abbrev pub a_build : BuildObject
a_build = record {
  file_list = an_id 3;
  add_time_utc = pos 1700000000;
  props_json = codes "\"os\":\"linux\"";
  stats = a_count;
}

abbrev pub a_report : ReportObject
a_report = record {
  parent = an_id 0;
  file_list = an_id 3;
  commit = an_id 4;
  texts = record {
    branch = codes "main";
    author_name = codes "A";
    author_email = codes "a@b";
    committer_name = codes "C";
    committer_email = codes "c@b";
    message = codes "start";
  };
  commit_time_utc = negsuc 9;
  add_time_utc = pos 1700000000;
  stats = a_count;
  builds =
      record { build_id = an_id 5; props_json = codes "\"os\":\"linux\""; stats = a_count } ∷ [];
}

abbrev pub a_file : FileEntry
a_file = record {
  path = codes "src/a.cc";
  stats = a_count;
  contents = an_id 6;
  line_coverage = an_id 7;
  function_coverage = an_id 8;
  branch_coverage = an_id 0;
}

abbrev pub b_file : FileEntry
b_file = record a_file { path = codes "src/b.cc" }

abbrev pub the_files : List FileEntry
the_files = a_file ∷ b_file ∷ []

abbrev pub the_lines : List Coverage
the_lines = record { value = 4; is_null = false } ∷ record { value = 0; is_null = true } ∷ []

abbrev pub the_functions : List FunctionEntry
the_functions =
    record {
      name = codes "_Zf";
      demangled_name = codes "f";
      count = 3;
      pos = record {
        start = record { line = 2; column = 1 };
        end = record { line = 4; column = 2 };
      };
    }
    ∷ []

pub a_report-IsReport : IsReport a_json a_report
unfolding normalize strip trim embrace unbrace
a_report-IsReport = record {
  ids = (refl, refl, refl);
  no_nul = omega arith;
  times = (omega arith, omega arith);
  counters = omega arith;
  builds = (record { id = refl; normal = refl; no_nul = omega arith; counters = omega arith }, tt);
}

pub a_report_small : length (build (insert_all (report_strings a_report) [])).bytes + 148 < 2 ^ 32
unfolding build insert_all report_strings build_props insert append fill32 eqb less
a_report_small = omega arith

load_report-store_report_example :
    (bytes : Bytes) × (store_report a_report ≡ some bytes)
    × (load_report a_json bytes ≡ done a_report [])
load_report-store_report_example =
    load_report-store_report a_json a_report a_report-IsReport (omega arith) a_report_small

pub a_build-IsBuild : IsBuild a_json a_build
unfolding normalize strip trim embrace unbrace
a_build-IsBuild = record {
  list = refl;
  time = omega arith;
  normal = refl;
  no_nul = omega arith;
  counters = omega arith;
}

pub a_build_small : length (build (insert_all (a_build.props_json ∷ []) [])).bytes + 68 < 2 ^ 32
unfolding build insert_all insert append fill32 eqb less
a_build_small = omega arith

a_build_restored :
    (bytes : Bytes) × (store_build a_build ≡ some bytes)
    × (load_build a_json bytes ≡ done a_build [])
a_build_restored = load_build-store_build a_json a_build a_build-IsBuild a_build_small

pub the_files-IsFile : All IsFile the_files
the_files-IsFile = (
  record { no_nul = omega arith; counters = omega arith; ids = (refl, refl, refl, refl) },
  (record { no_nul = omega arith; counters = omega arith; ids = (refl, refl, refl, refl) }, tt),
)

pub the_files-IsAscending : IsAscending the_files
unfolding less eqb
the_files-IsAscending = ((refl, tt), (tt, tt))

pub the_files_small : length (build (insert_all (paths_of the_files) [])).bytes + 20 < 2 ^ 32
unfolding build insert_all paths_of insert append fill32 eqb less
the_files_small = omega arith

load_files-store_files_example :
    (bytes : Bytes) × (store_files the_files ≡ some bytes)
    × (load_files bytes ≡ done (kept_files the_files) [])
load_files-store_files_example =
    load_files-store_files the_files the_files-IsFile the_files-IsAscending (omega arith)
      the_files_small

add_files_lem_example :
    (files : List FileEntry) × (add_files (b_file ∷ (a_file ∷ [])) [] ≡ some files)
    × IsAscending files
    × (by_path files (codes "src/b.cc") ≡ some b_file)
unfolding by_path eqb
add_files_lem_example =
    add_files_lem (b_file ∷ (a_file ∷ [])) (codes "src/b.cc") ((refl, tt), (tt, tt))

pub the_functions-IsFunction : All IsFunction the_functions
unfolding is_forward
the_functions-IsFunction = (
  record {
    names = omega arith;
    count = omega arith;
    start = omega arith;
    end = omega arith;
    forward = refl;
  },
  tt,
)

pub the_functions_small :
    length (build (insert_all (function_names the_functions) [])).bytes + 20 < 2 ^ 32
unfolding build insert_all function_names insert append fill32 eqb less
the_functions_small = omega arith

load_functions-store_functions_example :
    (bytes : Bytes) × (store_functions the_functions ≡ some bytes)
    × (load_functions bytes ≡ done the_functions [])
load_functions-store_functions_example =
    load_functions-store_functions the_functions the_functions-IsFunction (omega arith)
      the_functions_small

the_lines_restored : load_lines (store_lines the_lines) ≡ done the_lines []
the_lines_restored = load_lines-store_lines the_lines (omega arith) (omega arith)

-- A dictionary is taken out of its braces; a list is cut at both ends as well.
properties_braces : (unbrace (codes "{\"a\":1}") ≡ codes "\"a\":1") × (unbrace (codes "{x") ≡ [])
unfolding unbrace
properties_braces = (refl, refl)

node_kinds :
    (node (codes "on") ≡ truth true)
    × (node (codes "-12") ≡ number (negsuc 11))
    × (node (codes "12a") ≡ text (codes "12a"))
    × (node (codes "'12'") ≡ text (codes "12"))
unfolding node plain_node drop_quote from_chars natural_from signed_from signed_natural digits_from
    eqb
node_kinds = (refl, refl, refl, refl)
