-- ===== src/Modules/Groups.antt =====
-- `from_config` of libs/cov-api/src/cov/module.cc, against the values of a configuration.
use git2_cxx.Base.{
  ℕ, zero, suc, true, false, ◌||◌, List, [], ◌∷◌, ◌++◌, Option, none, some, Bytes, if◌then◌else◌,
  codes, length, ◌≡◌, refl, ap, sym, ◌∙◌, arith, Bool-cases, Option-cases, inl, inr, append_assoc,
  append-nil,
}
use git2_cxx.Text.{eqb, starts_with}
use git2_cxx.Text.Order.{eqb→eq, eqb_comm, eqb_same, eqb_join}
use git2_cxx.Text.Parts.{ends_with}
use git2_cxx.Modules.{ModuleInfo}
use git2_cxx.Modules.Edit.{
  has_name, prefixes_of, IsValidEntries, IsValid, is_empty, is_empty-append,
}
use git2_cxx.Modules.Config.{
  ConfigEntry, mod_name, Read, position, push_prefix, add_value, on_entry, read_entries,
  from_config, values,
}

unfoldable index_of : List ModuleInfo → Bytes → Option ℕ
index_of [] name = none
index_of (mod' ∷ result) name =
    let rest = index_of result name in
    if eqb mod'.name name then some 0 else elim rest [ none ↦ none | some i ↦ some (suc i) ]

index_of-has_name :
    (result : List ModuleInfo) (name : Bytes)
    → index_of result name ≡ none
    → (has_name result name ≡ false) × (prefixes_of result name ≡ [])
unfolding index_of has_name prefixes_of
index_of-has_name [] name h = (refl, refl)
index_of-has_name (mod' ∷ result) name h = ground (arith, index_of-has_name result name)

index_of-append :
    (result : List ModuleInfo) (name x : Bytes) (paths : List Bytes)
    → index_of result name ≡ none
    → index_of (result ++ record { name = name; prefixes = paths } ∷ []) x
      ≡ (if eqb name x then some (length result) else index_of result x)
unfolding index_of
index_of-append [] name x paths h = ground arith
index_of-append (mod' ∷ result) name x paths h =
    ground (arith, index_of-append result name x paths, eqb_join mod'.name name x)

-- What a push at the position of a name changes.
index_of-push_prefix :
    (result : List ModuleInfo) (index : ℕ) (value x : Bytes)
    → index_of (push_prefix result index value) x ≡ index_of result x
unfolding index_of push_prefix
index_of-push_prefix [] index value x = refl
index_of-push_prefix (mod' ∷ result) zero value x = refl
index_of-push_prefix (mod' ∷ result) (suc index) value x =
    ground (arith, index_of-push_prefix result index value x)

prefixes_of-push_prefix :
    (result : List ModuleInfo) (index : ℕ) (name value x : Bytes)
    → index_of result name ≡ some index
    → prefixes_of (push_prefix result index value) x
      ≡ (if eqb name x then prefixes_of result x ++ value ∷ [] else prefixes_of result x)
unfolding index_of push_prefix prefixes_of
prefixes_of-push_prefix [] index name value x h = cc
prefixes_of-push_prefix (mod' ∷ result) zero name value x h =
    ground (arith, eqb_same mod'.name name x)
prefixes_of-push_prefix (mod' ∷ result) (suc index) name value x h =
    ground (arith, prefixes_of-push_prefix result index name value x, eqb_join mod'.name name x)

has_name-push_prefix :
    (result : List ModuleInfo) (index : ℕ) (value x : Bytes)
    → has_name (push_prefix result index value) x ≡ has_name result x
unfolding has_name push_prefix
has_name-push_prefix [] index value x = refl
has_name-push_prefix (mod' ∷ result) zero value x = refl
has_name-push_prefix (mod' ∷ result) (suc index) value x =
    ground (arith, has_name-push_prefix result index value x)

push_prefix-IsValidEntries :
    (result : List ModuleInfo) (index : ℕ) (value : Bytes)
    → IsValidEntries result
    → IsValidEntries (push_prefix result index value)
unfolding IsValidEntries push_prefix
push_prefix-IsValidEntries [] index value h = h
push_prefix-IsValidEntries (mod' ∷ result) zero value h =
    (h.0, is_empty-append mod'.prefixes value, h.2)
push_prefix-IsValidEntries (mod' ∷ result) (suc index) value h = (
  rw (has_name-push_prefix result index value mod'.name) h.0,
  h.1,
  push_prefix-IsValidEntries result index value h.2,
)

-- A new module at the end gets the value.
push_prefix-new :
    (result : List ModuleInfo) (name value : Bytes)
    → push_prefix (result ++ record { name = name; prefixes = [] } ∷ []) (length result) value
      ≡ result ++ record { name = name; prefixes = value ∷ [] } ∷ []
unfolding push_prefix
push_prefix-new [] name value = refl
push_prefix-new (mod' ∷ result) name value = ap (mod' ∷◌) (push_prefix-new result name value)

has_name-append :
    (result : List ModuleInfo) (name x : Bytes) (paths : List Bytes)
    → has_name (result ++ record { name = name; prefixes = paths } ∷ []) x
      ≡ (has_name result x || eqb name x)
unfolding has_name
has_name-append [] name x paths = ground arith
has_name-append (mod' ∷ result) name x paths = ground (arith, has_name-append result name x paths)

append-IsValidEntries :
    (result : List ModuleInfo) (name value : Bytes)
    → has_name result name ≡ false
    → IsValidEntries result
    → IsValidEntries (result ++ record { name = name; prefixes = value ∷ [] } ∷ [])
unfolding IsValidEntries has_name is_empty
append-IsValidEntries [] name value h k = ground arith
append-IsValidEntries (mod' ∷ result) name value h k = ground (
  arith,
  append-IsValidEntries result name value,
  has_name-append result name mod'.name (value ∷ []),
  eqb_comm mod'.name name,
)

prefixes_of-append :
    (result : List ModuleInfo) (name x value : Bytes)
    → has_name result name ≡ false
    → prefixes_of (result ++ record { name = name; prefixes = value ∷ [] } ∷ []) x
      ≡ (if eqb name x then prefixes_of result x ++ value ∷ [] else prefixes_of result x)
unfolding has_name prefixes_of
prefixes_of-append [] name x value h = ground arith
prefixes_of-append (mod' ∷ result) name x value h =
    ground (arith, prefixes_of-append result name x value, eqb_join mod'.name name x)

record IsReading (r : Read) : Type 0 where
  valid : IsValidEntries r.result
  indexed : (x : Bytes) → position r.positions x ≡ index_of r.result x

add_value-old :
    (r : Read) (name value : Bytes) (i : ℕ)
    → position r.positions name ≡ some i
    → add_value r name value ≡ record r { result = push_prefix r.result i value }
unfolding add_value
add_value-old r name value i h = ground (arith, h)

add_value-new :
    (r : Read) (name value : Bytes)
    → position r.positions name ≡ none
    → add_value r name value ≡ record r {
      positions = (name, length r.result) ∷ r.positions;
      result = r.result ++ record { name = name; prefixes = value ∷ [] } ∷ [];
    }
unfolding add_value
add_value-new r name value h = ground (arith, h, push_prefix-new r.result name value)

-- Both branches of `add_value` keep the positions right and append the value to its module.
add_value_lem :
    (r : Read) (name value : Bytes)
    → IsReading r
    → IsReading (add_value r name value)
      × ((x : Bytes)
          → prefixes_of (add_value r name value).result x
            ≡ (if eqb name x then prefixes_of r.result x ++ value ∷ [] else prefixes_of r.result x))
unfolding position
add_value_lem r name value h = elim (Option-cases (position r.positions name)) [
  | inl e ↦
      let none_yet : index_of r.result name ≡ none = sym (h.indexed name) ∙ e in
      let free = index_of-has_name r.result name none_yet in
      rw (add_value-new r name value e) (
        record {
          valid = append-IsValidEntries r.result name value free.0 h.valid;
          indexed = λ x.
              ground (arith, h.indexed x, index_of-append r.result name x (value ∷ []) none_yet);
        },
        λ x. prefixes_of-append r.result name x value free.0,
      )
  | inr (i, e) ↦ rw (add_value-old r name value i e) (
    record {
      valid = push_prefix-IsValidEntries r.result i value h.valid;
      indexed = λ x. h.indexed x ∙ sym (index_of-push_prefix r.result i value x);
    },
    λ x. prefixes_of-push_prefix r.result i name value x (sym (h.indexed name) ∙ e),
  )
]

sep-mod_name : (name : Bytes) → eqb name (codes "module.sep") ≡ true → mod_name name ≡ none
unfolding mod_name ends_with starts_with eqb
sep-mod_name name h = rw (eqb→eq name (codes "module.sep") h) refl

on_entry-sep :
    (r : Read) (entry : ConfigEntry)
    → eqb entry.name (codes "module.sep") ≡ true
    → on_entry r entry ≡ record r { sep = entry.value }
unfolding on_entry
on_entry-sep r entry h = ground (arith, h)

on_entry-name :
    (r : Read) (entry : ConfigEntry)
    → eqb entry.name (codes "module.sep") ≡ false
    → on_entry r entry
      ≡ elim (mod_name entry.name) [ none ↦ r | some name ↦ add_value r name entry.value ]
unfolding on_entry
on_entry-name r entry h = ground (arith, h)

-- One entry appends its value to the module that it names, and to no other.
on_entry_lem :
    (r : Read) (entry : ConfigEntry) (name : Bytes)
    → IsReading r
    → IsReading (on_entry r entry)
      × (prefixes_of (on_entry r entry).result name
          ≡ prefixes_of r.result name ++ values name (entry ∷ []))
unfolding values prefixes_of mod_name starts_with
on_entry_lem r entry name h = elim (Bool-cases (eqb entry.name (codes "module.sep"))) [
  | inl e ↦
      rw (on_entry-sep r entry e, sep-mod_name entry.name e)
        (
          record { valid = h.valid; indexed = h.indexed },
          sym (append-nil (prefixes_of r.result name)),
        )
  | inr e ↦ elim (Option-cases (mod_name entry.name)) [
    | inl n ↦ rw (on_entry-name r entry e, n) (h, sym (append-nil (prefixes_of r.result name)))
    | inr (key, k) ↦
        let added = add_value_lem r key entry.value h in
        rw (on_entry-name r entry e, k)
          (added.0, added.1 name ∙ ground (arith, append-nil (prefixes_of r.result name)))
  ]
]

values-append :
    (name : Bytes) (xs ys : List ConfigEntry)
    → values name (xs ++ ys) ≡ values name xs ++ values name ys
unfolding values
values-append name [] ys = refl
values-append name (x ∷ xs) ys = ground (arith, values-append name xs ys)

read_entries-values :
    (entries : List ConfigEntry) (r : Read) (name : Bytes)
    → IsReading r
    → IsValidEntries (read_entries entries r).result
      × (prefixes_of (read_entries entries r).result name
          ≡ prefixes_of r.result name ++ values name entries)
unfolding read_entries values
read_entries-values [] r name h = (h.valid, sym (append-nil (prefixes_of r.result name)))
read_entries-values (entry ∷ entries) r name h =
    let step = on_entry_lem r entry name h in
    let rest = read_entries-values entries (on_entry r entry) name step.0 in
    (
      rest.0,
      rest.1
          ∙ ap (◌++ values name entries) step.1
          ∙ append_assoc (prefixes_of r.result name) (values name (entry ∷ []))
              (values name entries)
          ∙ ap (prefixes_of r.result name ++◌) (sym (values-append name (entry ∷ []) entries)),
    )

-- The modules of a configuration have different names and a path each, and the paths of every
-- module are the values of its entries, in their order.
pub from_config-values :
    (entries : List ConfigEntry) (name : Bytes)
    → IsValid (from_config entries)
      × (prefixes_of (from_config entries).entries name ≡ values name entries)
unfolding IsValid from_config prefixes_of IsValidEntries position index_of
from_config-values entries name =
    let start : Read = record { sep = []; positions = []; result = [] } in
    read_entries-values entries start name (record { valid = ground arith; indexed = λ x. refl })
