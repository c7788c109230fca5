-- ===== src/Objects/Report/Short.antt =====
-- A report whose header gives its entries a size that `load` cuts to 32 bits.
use git2_cxx.Base.{ℕ, suc, ◌+◌, ◌-◌, ◌*◌, ◌%◌, ◌^◌, true, [], Bytes, length, ◌≡◌, refl, sym, arith}
use git2_cxx.Strings.{header_valid}
use git2_cxx.Streams.{done, fault, and_then, read, store_bytes, in_buffer}
use git2_cxx.Objects.{load_id}
use git2_cxx.Objects.Props.{Json}
use git2_cxx.Streams.Laws.{
  step, step-fault, load_items-fault, read-store_bytes, skip-none, guard-true,
}
use git2_cxx.Objects.Report.Wire.{Texts, load_wire_entry, WireReport, store_header}
use git2_cxx.Objects.Report.Header.{IsWireReport, load_header-store_header}
use git2_cxx.Objects.Report.{load_resource, are_valid, view_texts, load_report}

load_resource-empty : (json : Json) (block rest : Bytes) → load_resource json 0 block rest ≡ fault
unfolding load_resource in_buffer load_wire_entry load_id read store_bytes and_then
load_resource-empty json block rest = step _ (read-store_bytes 0 [] refl rest) refl

-- If every entry is said to take 2 ^ 30 words, and there is one, the header of a report is valid, but
-- `load` reads no bytes for the entry and looks for it in an empty buffer.
pub load_report-cut_size :
    (json : Json) (w : WireReport) (block rest : Bytes) (count : ℕ) (texts : Texts Bytes)
    → IsWireReport w
    → w.entries.size ≡ 2 ^ 30
    → w.entries.count ≡ suc count
    → w.strings.offset ≡ 37
    → w.strings.size * 4 ≡ length block
    → w.entries.offset ≡ 37 + w.strings.size
    → are_valid block w.texts ≡ true
    → view_texts block w.texts rest ≡ done texts rest
    → (header_valid 148 52 w.strings w.entries ≡ true)
      × (load_report json (store_header w (store_bytes block rest)) ≡ fault)
unfolding load_report header_valid
load_report-cut_size json w block rest count texts h size many start words behind valid there =
    let ok : header_valid 148 52 w.strings w.entries ≡ true = ground (arith, h.entries) in
    let gap : w.strings.offset * 4 - 148 ≡ 0 = omega arith in
    let gap_behind : (w.entries.offset - (w.strings.offset + w.strings.size) % 2 ^ 32) * 4 ≡ 0 =
      omega (arith, h.entries) in
    let cut : w.entries.size * 4 % 2 ^ 32 ≡ 0 = omega arith in
    (
      ok,
      step _ (load_header-store_header w h _) (
          step _ (guard-true _ ok _) (
            rw gap (
              step _ (skip-none _) (
                step _ (read-store_bytes (w.strings.size * 4) block (sym words) rest) (
                  step _ (guard-true _ valid _) (
                    step _ there (
                      rw gap_behind (
                        step _ (skip-none _) (
                          rw (many, cut)
                            (step-fault _ (
                              load_items-fault _ count rest
                                (load_resource-empty json block rest)))))))))))),
    )
