-- ===== src/Modules/Filter.antt =====
-- `filter_impl` of libs/cov-api/src/cov/module.cc, against the files that satisfy a test.
use git2_cxx.Text.{eqb, starts_with}
use git2_cxx.Base.{
  ℕ, ltb, length, take, ◌==◌, ◌&&◌, sym, ◌∙◌, map, Bool, false, not, ◌||◌, List, [], ◌∷◌, ◌++◌,
  Bytes, if◌then◌else◌, ◌≡◌, refl, ap, arith, append_assoc, append-nil,
}
use git2_cxx.Modules.{
  ModuleInfo, Modules, Views, ModuleView, named_view, contains_path, contains_any, push_to, place,
  place_all, start_views, used_views, filter,
}

-- A text begins with another one.
abbrev pub begins : Bytes → Bytes → Bool
begins s start = eqb (take (length start) s) start

abbrev pub ends_in_slash : Bytes → Bool
ends_in_slash [] = false
ends_in_slash (c ∷ []) = c == b'/'
ends_in_slash (c ∷ (d ∷ s)) = ends_in_slash (d ∷ s)

-- A path is a prefix, or it stands below the prefix, whose '/' may be left out.
unfoldable pub is_below : Bytes → Bytes → Bool
is_below prefix p =
    eqb prefix p || begins p (prefix ++ b'/' ∷ []) || (ends_in_slash prefix && begins p prefix)

unfoldable pub is_below_any : List Bytes → Bytes → Bool
is_below_any [] p = false
is_below_any (prefix ∷ prefixes) p = is_below prefix p || is_below_any prefixes p

contains_path-step :
    (p q c : ℕ) (qs s : Bytes)
    → contains_path (p ∷ (q ∷ qs)) (c ∷ s) ≡ (p == c && contains_path (q ∷ qs) s)
unfolding contains_path eqb starts_with
contains_path-step p q c qs s = ground arith

is_below-step :
    (p q c : ℕ) (qs s : Bytes) → is_below (p ∷ (q ∷ qs)) (c ∷ s) ≡ (p == c && is_below (q ∷ qs) s)
unfolding is_below eqb
is_below-step p q c qs s = ground arith

contains_path-is_below : (prefix p : Bytes) → contains_path prefix p ≡ is_below prefix p
unfolding contains_path is_below eqb starts_with
contains_path-is_below [] [] = refl
contains_path-is_below [] (c ∷ s) = ground arith
contains_path-is_below (p ∷ ps) [] = ground arith
contains_path-is_below (p ∷ []) (c ∷ []) = ground arith
contains_path-is_below (p ∷ []) (c ∷ (d ∷ s)) = ground arith
contains_path-is_below (p ∷ (q ∷ qs)) (c ∷ s) =
    contains_path-step p q c qs s
    ∙ ap (λ b. p == c && b) (contains_path-is_below (q ∷ qs) s)
    ∙ sym (is_below-step p q c qs s)

contains_any-is_below_any :
    (prefixes : List Bytes) (p : Bytes) → contains_any prefixes p ≡ is_below_any prefixes p
unfolding contains_any is_below_any
contains_any-is_below_any [] p = refl
contains_any-is_below_any (prefix ∷ prefixes) p =
    ground (arith, contains_path-is_below prefix p, contains_any-is_below_any prefixes p)

module _ {A : Type 0} (path : A → Bytes) where
  -- The files that satisfy a test, in their order.
  unfoldable pub select : (A → Bool) → List A → List A
  select p [] = []
  select p (file ∷ files) = if p file then file ∷ select p files else select p files

  unfoldable pub belongs : ModuleInfo → A → Bool
  unfolding is_below_any
  belongs mod' file = is_below_any mod'.prefixes (path file)

  unfoldable pub somewhere : List ModuleInfo → A → Bool
  unfolding belongs
  somewhere [] file = false
  somewhere (mod' ∷ mods) file = belongs mod' file || somewhere mods file

  unfoldable pub files_of : List ModuleInfo → List A → List (ModuleInfo × List A)
  unfolding select belongs
  files_of [] files = []
  files_of (mod' ∷ mods) files = (mod', select (belongs mod') files) ∷ files_of mods files

  unfoldable pub others : List ModuleInfo → List A → List A
  unfolding select somewhere
  others mods files = select (λ file. not (somewhere mods file)) files

  select-append :
      (p : A → Bool) (files : List A) (file : A)
      → select p (files ++ file ∷ [])
        ≡ (if p file then select p files ++ file ∷ [] else select p files)
  unfolding select
  select-append p [] file = ground arith
  select-append p (x ∷ files) file = ground (arith, select-append p files file)

  start_views-files_of : (mods : List ModuleInfo) → start_views path mods ≡ files_of mods []
  unfolding start_views files_of select
  start_views-files_of [] = refl
  start_views-files_of (mod' ∷ mods) = ap ((mod', []) ∷◌) (start_views-files_of mods)

  push_to-files_of :
      (mods : List ModuleInfo) (seen : List A) (file : A)
      → push_to path file (files_of mods seen)
        ≡ (files_of mods (seen ++ file ∷ []), somewhere mods file)
  unfolding push_to files_of somewhere belongs
  push_to-files_of [] seen file = refl
  push_to-files_of (mod' ∷ mods) seen file = ground (
    arith,
    push_to-files_of mods seen file,
    select-append (belongs mod') seen file,
    contains_any-is_below_any mod'.prefixes (path file),
  )

  views_of : List ModuleInfo → List A → Views path
  views_of mods files = record { views = files_of mods files; rest = others mods files }

  place-views_of :
      (mods : List ModuleInfo) (seen : List A) (file : A)
      → place path (views_of mods seen) file ≡ views_of mods (seen ++ file ∷ [])
  unfolding place views_of others
  place-views_of mods seen file =
      rw (push_to-files_of mods seen file)
        (ground (arith, select-append (λ f. not (somewhere mods f)) seen file))

  place_all-views_of :
      (files : List A) (mods : List ModuleInfo) (seen : List A)
      → place_all path files (views_of mods seen) ≡ views_of mods (seen ++ files)
  unfolding place_all
  place_all-views_of [] mods seen = rw (append-nil seen) refl
  place_all-views_of (file ∷ files) mods seen =
      rw
        (
          place-views_of mods seen file,
          place_all-views_of files mods (seen ++ file ∷ []),
          append_assoc seen (file ∷ []) files,
        )
        refl

  -- The files below a module's prefixes, and those below no prefix, which have no name.
  unfoldable pub module_view : List A → ModuleInfo → ModuleView A
  unfolding select belongs
  module_view files mod' = record { name = mod'.name; items = select (belongs mod') files }

  unfoldable pub all_views : List ModuleInfo → List A → List (ModuleView A)
  unfolding module_view others
  all_views mods files =
      map (module_view files) mods ++ record { name = []; items = others mods files } ∷ []

  abbrev pub has_files : ModuleView A → Bool
  has_files view = ltb 0 (length view.items)

  unfoldable pub with_files : List (ModuleView A) → List (ModuleView A)
  with_files [] = []
  with_files (view ∷ views) = if has_files view then view ∷ with_files views else with_files views

  named_view-with_files :
      (name : Bytes) (items : List A) (views : List (ModuleView A))
      → named_view path name items ++ with_files views
        ≡ with_files (record { name = name; items = items } ∷ views)
  unfolding named_view with_files
  named_view-with_files name [] views = ground arith
  named_view-with_files name (item ∷ items) views = ground arith

  used_views-with_files :
      (mods : List ModuleInfo) (files rest : List A)
      → used_views path (files_of mods files) rest
        ≡ with_files (map (module_view files) mods ++ record { name = []; items = rest } ∷ [])
  unfolding used_views files_of with_files module_view
  used_views-with_files [] files rest =
      sym (append-nil (named_view path [] rest)) ∙ named_view-with_files [] rest []
  used_views-with_files (mod' ∷ mods) files rest =
      ap (named_view path mod'.name (select (belongs mod') files) ++◌)
        (used_views-with_files mods files rest)
      ∙ named_view-with_files mod'.name (select (belongs mod') files)
          (map (module_view files) mods ++ record { name = []; items = rest } ∷ [])

  -- Each module is listed with the files that are one of its prefixes or stand below one, in their
  -- order, then the files of no module without a name, and views without files are left out.
  pub filter-files_of :
      (m : Modules) (files : List A) → filter path m files ≡ with_files (all_views m.entries files)
  unfolding filter views_of others select all_views
  filter-files_of m files =
      rw (start_views-files_of m.entries, place_all-views_of files m.entries [])
        (used_views-with_files m.entries files (others m.entries files))
