-- ===== src/Objects/FunctionList/Stored.antt =====
-- `function_coverage::load` of what `function_coverage::store` has stored.
use git2_cxx.Base.{
  ℕ, ◌+◌, ◌*◌, ◌^◌, ◌<◌, true, List, [], ◌∷◌, ◌++◌, some, Bytes, length, ◌≡◌, refl, ap, sym, ◌∙◌,
  arith, All, inl, inr,
}
use git2_cxx.Words.{IsU32}
use git2_cxx.Strings.{build, after, align_array}
use git2_cxx.Strings.Layout.{LacksNul, length-build}
use git2_cxx.Strings.Sorted.{In}
use git2_cxx.Strings.Locate.{insert_all}
use git2_cxx.Functions.{TextPos, FunctionEntry}
use git2_cxx.Streams.{done, store_word, store_bytes, store_items}
use git2_cxx.Streams.Laws.{
  step, word-store_word, read-store_bytes, skip-none, load_items-place_all, in_buffer-store,
  read-put, map-id, guard-true,
}
use git2_cxx.Objects.{store_block, store_array_ref}
use git2_cxx.Objects.Codecs.{
  load_block-store_block, load_array_ref-store_array_ref, locate32_found, view_place,
  after-IsLaidOut,
}
use git2_cxx.Objects.FunctionList.{
  WireFunction, load_text_pos, store_text_pos, load_wire, store_wire, is_forward, load_function,
  load_functions, function_names, place_function, store_functions,
}

-- Names without a NUL, words, and a function that does not end before it starts.
pub record IsFunction (e : FunctionEntry) : Type 0 where
  pub names : LacksNul e.name × LacksNul e.demangled_name
  pub count : IsU32 e.count
  pub start : IsU32 e.pos.start.line × IsU32 e.pos.start.column
  pub end : IsU32 e.pos.end.line × IsU32 e.pos.end.column
  pub forward : is_forward e.pos ≡ true

load_text_pos-store_text_pos :
    (p : TextPos)
    → IsU32 p.line
    → IsU32 p.column
    → (rest : Bytes) → load_text_pos (store_text_pos p rest) ≡ done p rest
unfolding load_text_pos store_text_pos
load_text_pos-store_text_pos p h k rest =
    step _ (word-store_word p.line h _) (step _ (word-store_word p.column k _) refl)

load_wire-store_wire :
    (e : FunctionEntry) (name demangled_name : ℕ)
    → IsFunction e
    → IsU32 name
    → IsU32 demangled_name
    → let w : WireFunction = record {
      name = name;
      demangled_name = demangled_name;
      count = e.count;
      pos = e.pos;
    } in
      (rest : Bytes) → load_wire (store_wire w rest) ≡ done w rest
unfolding load_wire store_wire
load_wire-store_wire e name demangled_name h n d rest = step _ (word-store_word name n _) (
    step _ (word-store_word demangled_name d _) (
      step _ (word-store_word e.count h.count _) (
        step _ (load_text_pos-store_text_pos e.pos.start h.start.0 h.start.1 _)
          (step _ (load_text_pos-store_text_pos e.pos.end h.end.0 h.end.1 _) refl))))

store_wire-split : (w : WireFunction) (rest : Bytes) → store_wire w rest ≡ store_wire w [] ++ rest
unfolding store_wire store_text_pos store_word
store_wire-split w rest = refl

length-store_wire : (w : WireFunction) → length (store_wire w []) ≡ 28
unfolding store_wire store_text_pos store_word
length-store_wire w = refl

all_names :
    (entries : List FunctionEntry) → All IsFunction entries → All LacksNul (function_names entries)
unfolding function_names
all_names [] h = tt
all_names (e ∷ entries) h = (h.0.names.0, (h.0.names.1, all_names entries h.1))

abbrev IsNamed : List Bytes → FunctionEntry → Type 0
IsNamed names e = IsFunction e × In e.name names × In e.demangled_name names

all-IsNamed :
    (entries : List FunctionEntry) (names : List Bytes)
    → All IsFunction entries
    → ((y : Bytes) → In y (function_names entries) → In y names)
    → All (IsNamed names) entries
unfolding function_names
all-IsNamed [] names h into = tt
all-IsNamed (e ∷ entries) names h into = (
  (h.0, into e.name (inl refl), into e.demangled_name (inr (inl refl))),
  all-IsNamed entries names h.1 (λ y i. into y (inr (inr i))),
)

module _ (names : List Bytes) (l : All LacksNul names)
    (small : length (build (insert_all names [])).bytes < 2 ^ 32) where
  function_back :
      (e : FunctionEntry)
      → IsNamed names e
      → let stg = build (insert_all names []) in
        (w : WireFunction) × (place_function stg e ≡ some w)
        × ((rest : Bytes) → load_function 28 stg.bytes (store_wire w rest) ≡ done e rest)
  unfolding place_function load_function
  function_back e h =
      let stg = build (insert_all names []) in
      let (n, n_found, n_place) = locate32_found names l small e.name h.1 in
      let (d, d_found, d_place) = locate32_found names l small e.demangled_name h.2 in
      let w : WireFunction = record {
        name = n;
        demangled_name = d;
        count = e.count;
        pos = e.pos;
      } in
      (
        w,
        rw (n_found, d_found, place_function) refl,
        λ rest.
            step _ (read-put (store_wire w) 28 (store_wire-split w) (length-store_wire w) rest) (
              step _
                (in_buffer-store load_wire (store_wire w []) [] w
                  (load_wire-store_wire e n d h.0 n_place.0 d_place.0 []) rest)
                (step _ (guard-true _ (ground (arith, n_place.1, d_place.1, h.0.forward)) rest) (
                  step _ (view_place stg.bytes e.name n n_place.2 rest)
                    (step _ (view_place stg.bytes e.demangled_name d d_place.2 rest) refl)))),
      )

-- A list of functions is read back as it was stored.
pub load_functions-store_functions :
    (entries : List FunctionEntry)
    → All IsFunction entries
    → length entries < 2 ^ 32
    → length (build (insert_all (function_names entries) [])).bytes + 20 < 2 ^ 32
    → (bytes : Bytes) × (store_functions entries ≡ some bytes)
      × (load_functions bytes ≡ done entries [])
unfolding store_functions load_functions
load_functions-store_functions entries h few small =
    let names = function_names entries in
    let stg = build (insert_all names []) in
    let laid =
      after-IsLaidOut 20 28 (length entries) stg.bytes refl refl
        (length-build (insert_all names [])) (omega arith) (omega arith) (omega arith) in
    let (wires, placed, back) =
      load_items-place_all (place_function stg) store_wire (load_function 28 stg.bytes) (λ e. e)
        (IsNamed names) (function_back names (all_names entries h) (omega arith)) entries
        (all-IsNamed entries names h (λ y i. i)) in
    let strings = after 20 stg.bytes in
    let array = align_array 20 28 stg.bytes (length entries) in
    let tail = store_items store_wire wires [] in
    (
      store_block strings (store_array_ref array (store_bytes stg.bytes tail)),
      rw (placed, store_functions) refl,
      step _ (load_block-store_block strings laid.words.0 laid.words.1 _) (
          step _ (load_array_ref-store_array_ref array laid.words.2 laid.words.3 laid.words.4 _) (
            step _ (guard-true _ laid.valid _) (
              rw laid.no_gap (
                step _ (skip-none _) (
                  step _ (read-store_bytes (strings.size * 4) stg.bytes (sym laid.block_size) tail)
                    (rw laid.no_gap_behind (
                      step _ (skip-none _) (
                        rw (laid.entry_count, laid.entry_size)
                          (back [] ∙ ap (λ es. done es []) (map-id entries)))))))))),
    )
