-- ===== src/Objects/Report/Examples.antt =====
-- A report that is cut short.
use git2_cxx.Base.{◌^◌, true, [], ◌∷◌, Bytes, codes, ◌≡◌, refl, arith}
use git2_cxx.Strings.{at, is_valid, header_valid, c_string}
use git2_cxx.Streams.{done, fault, store_bytes}
use git2_cxx.Objects.Report.{load_report}
use git2_cxx.Objects.Report.Wire.{WireReport, store_header}
use git2_cxx.Objects.Report.Header.{IsWireReport}
use git2_cxx.Objects.Report.Short.{load_report-cut_size}
use git2_cxx.Objects.{view}
use git2_cxx.Objects.Report.{are_valid, view_texts}
use git2_cxx.Streams.{and_then}
use git2_cxx.Objects.Examples.{an_id, a_json, a_count}

-- A report with a block of one string, and one entry of 2 ^ 30 words.
abbrev cut_block : Bytes
cut_block = 97 ∷ (0 ∷ (0 ∷ (0 ∷ [])))

abbrev cut_header : WireReport
cut_header = record {
  strings = record { offset = 37; size = 1 };
  parent = an_id 0;
  file_list = an_id 3;
  entries = record { offset = 38; size = 2 ^ 30; count = 1 };
  added = record { hi = 0; lo = 9 };
  texts = record {
    branch = 0;
    author_name = 0;
    author_email = 0;
    committer_name = 0;
    committer_email = 0;
    message = 0;
  };
  commit_id = an_id 4;
  committed = record { hi = 0; lo = 9 };
  stats = a_count;
}

cut_header-IsWireReport : IsWireReport cut_header
cut_header-IsWireReport = record {
  strings = omega arith;
  ids = (refl, refl, refl);
  entries = omega arith;
  added = omega arith;
  texts = omega arith;
  committed = omega arith;
  counters = omega arith;
}

cut_block-are_valid : are_valid cut_block cut_header.texts ≡ true
unfolding are_valid is_valid
cut_block-are_valid = refl

cut_block-view_texts :
    (rest : Bytes)
    → view_texts cut_block cut_header.texts rest
      ≡ done
          (record {
            branch = codes "a";
            author_name = codes "a";
            author_email = codes "a";
            committer_name = codes "a";
            committer_email = codes "a";
            message = codes "a";
          })
          rest
unfolding view_texts view at c_string and_then is_valid
cut_block-view_texts rest = refl

load_report-cut_size_example :
    (header_valid 148 52
        (record { offset = 37; size = 1 })
        (record { offset = 38; size = 2 ^ 30; count = 1 })
      ≡ true)
    × (load_report a_json (store_header cut_header (store_bytes cut_block [])) ≡ fault)
load_report-cut_size_example =
    load_report-cut_size a_json cut_header cut_block [] 0 _ cut_header-IsWireReport refl refl refl
      refl refl cut_block-are_valid (cut_block-view_texts [])
