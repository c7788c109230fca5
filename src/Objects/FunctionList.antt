-- ===== src/Objects/FunctionList.antt =====
-- libs/cov-api/src/cov/io/function_coverage.cc: `load` and `store` of a list of functions.
pub mod Stored
use git2_cxx.Base.{
  ℕ, zero, suc, ◌+◌, ◌-◌, ◌*◌, ◌/◌, ◌%◌, ◌^◌, ◌==◌, ◌<◌, ◌≤◌, min, max, Bool, true, false, not,
  ◌&&◌, ◌||◌, List, [], ◌∷◌, ◌++◌, Option, none, some, Bytes, ltb, leb, if◌then◌else◌, codes,
  length, ◌≡◌, ◌≢◌, refl, ap, sym, ◌∙◌, arith, All, Bool-cases, Option-cases, inl, inr, ◌⊎◌, ◌↔◌,
  length-append, length-replicate, append_assoc, append-nil, drop, take, replicate, get_or,
  get_elem?, map, tests, drop-append, take-append, All-append,
}
use git2_cxx.Words.{IsU32}
use git2_cxx.Strings.{
  is_valid, at, insert, build, Block, ArrayRef, StringsBlock, after, align_array, header_valid,
}
use git2_cxx.Strings.Layout.{LacksNul, length-build}
use git2_cxx.Strings.Sorted.{In}
use git2_cxx.Strings.Locate.{insert_all}
use git2_cxx.Functions.{TextPos, FunctionPos, FunctionEntry}
use git2_cxx.Streams.{
  Outcome, done, refused, fault, M, and_then, ◌>>=◌, ◌>>◌, pure, guard, read, skip, word,
  store_word, store_bytes, in_buffer, load_items, store_items, place_all,
}
use git2_cxx.Streams.Laws.{
  step, word-store_word, read-store_bytes, skip-none, load_items-place_all, in_buffer-store,
  read-put, map-id, guard-true,
}
use git2_cxx.Objects.{load_block, store_block, load_array_ref, store_array_ref, view, locate32}
use git2_cxx.Objects.Codecs.{
  load_block-store_block, load_array_ref-store_array_ref, IsPlace, locate32_found, view_place,
  IsLaidOut, after-IsLaidOut,
}

-- `v1::function_coverage::entry`: the names are offsets in the block of strings.
pub record WireFunction : Type 0 where
  pub name : ℕ
  pub demangled_name : ℕ
  pub count : ℕ
  pub pos : FunctionPos

unfoldable pub load_text_pos : M TextPos
load_text_pos = do line ← word; column ← word; pure (record { line = line; column = column })

unfoldable pub store_text_pos : TextPos → Bytes → Bytes
store_text_pos p rest = store_word p.line (store_word p.column rest)

unfoldable pub load_wire : M WireFunction
load_wire = do
  name ← word
  demangled_name ← word
  count ← word
  start ← load_text_pos
  end ← load_text_pos
  pure (record {
    name = name;
    demangled_name = demangled_name;
    count = count;
    pos = record { start = start; end = end };
  })

unfoldable pub store_wire : WireFunction → Bytes → Bytes
store_wire w rest = store_word w.name (
    store_word w.demangled_name
      (store_word w.count (store_text_pos w.pos.start (store_text_pos w.pos.end rest))))

-- A function ends where it starts or behind that.
unfoldable pub is_forward : FunctionPos → Bool
is_forward p =
    not (
      ltb p.end.line p.start.line
      || (p.start.line == p.end.line && ltb p.end.column p.start.column))

unfoldable pub load_function : ℕ → Bytes → M FunctionEntry
load_function entry_size strings = do
  buffer ← read entry_size
  entry ← in_buffer load_wire buffer
  guard
      (is_valid strings entry.name && is_valid strings entry.demangled_name && is_forward entry.pos)
  name ← view strings entry.name
  demangled_name ← view strings entry.demangled_name
  pure (record {
    name = name;
    demangled_name = demangled_name;
    count = entry.count;
    pos = entry.pos;
  })

-- The offsets are differences of `uint32_t`, and their products by 4 are 64 bits wide.
unfoldable pub load_functions : M (List FunctionEntry)
unfolding load_function
load_functions = do
  strings ← load_block
  entries ← load_array_ref
  guard (header_valid 20 28 strings entries)
  skip (strings.offset * 4 - 20)
  block ← read (strings.size * 4)
  skip ((entries.offset - (strings.offset + strings.size) % 2 ^ 32) * 4)
  load_items entries.count (load_function (entries.size * 4) block)

unfoldable pub function_names : List FunctionEntry → List Bytes
function_names [] = []
function_names (e ∷ entries) = e.name ∷ (e.demangled_name ∷ function_names entries)

unfoldable pub place_function : StringsBlock → FunctionEntry → Option WireFunction
place_function stg e = elim (locate32 stg e.name) [
  | none ↦ none
  | some name ↦ elim (locate32 stg e.demangled_name) [
    | none ↦ none
    | some demangled_name ↦
        some (record { name = name; demangled_name = demangled_name; count = e.count; pos = e.pos })
  ]
]

unfoldable pub store_functions : List FunctionEntry → Option Bytes
store_functions entries =
    let stg = build (insert_all (function_names entries) []) in
    elim (place_all (place_function stg) entries) [
      | none ↦ none
      | some wires ↦ some (
          store_block (after 20 stg.bytes) (
            store_array_ref (align_array 20 28 stg.bytes (length entries))
              (store_bytes stg.bytes (store_items store_wire wires []))))
    ]
