-- ===== src/Format/Lookup.antt =====
-- Searches of names in libs/cov-api/src/cov/format/parser.cc against the plain search of a list.
use git2_cxx.Base.{
  Bool, true, false, ◌&&◌, List, [], ◌∷◌, none, some, Bytes, ◌≡◌, refl, ap, sym, ◌∙◌, arith, All,
  Bool-cases, inl, inr,
}
use mathlib.Core.Path.{subst}
use git2_cxx.Text.{eqb, less}
use git2_cxx.Text.Order.{eqb_refl, eqb_comm, eqb→eq, less_irrefl, less_trans, less-total}
use git2_cxx.Format.Tokens.{Color}
use git2_cxx.Format.Colors.{colors, not_less, taken, find_color}
use git2_cxx.Format.Spelling.{look_up}

-- What holds of every entry holds of the one that is found.
pub look_up-All :
    {A : Type 0} (P : Bytes × A → Type 0) (name : Bytes) (entries : List (Bytes × A)) (a : A)
    → All P entries
    → look_up name entries ≡ some a
    → P (name, a)
unfolding look_up
look_up-All P name [] a h found = absurd (ground (arith, found))
look_up-All P name ((key, b) ∷ entries) a h found = elim (Bool-cases (eqb key name)) [
  | inl e ↦
      let same : b ≡ a = ground (arith, found, e) in
      subst (λ n. P (n, a)) (eqb→eq key name e) (subst (λ x. P (key, x)) same h.0)
  | inr e ↦
      let later : look_up name entries ≡ some a = ground (arith, found, e) in
      look_up-All P name entries a h.1 later
]

-- The names behind a name are greater, everywhere in a list.
abbrev below_all : Bytes → List (Bytes × Color) → Bool
below_all name [] = true
below_all name (pair ∷ pairs) = less name pair.0 && below_all name pairs

abbrev ascending : List (Bytes × Color) → Bool
ascending [] = true
ascending (pair ∷ pairs) = below_all pair.0 pairs && ascending pairs

colors-ascending : ascending colors ≡ true
unfolding less
colors-ascending = refl

below_all_trans :
    (name key : Bytes) (pairs : List (Bytes × Color))
    → less name key ≡ true
    → below_all key pairs ≡ true
    → below_all name pairs ≡ true
below_all_trans name key [] h k = refl
below_all_trans name key ((later, c) ∷ pairs) h k =
    ground (arith, h, k, less_trans name key later, below_all_trans name key pairs)

less-eqb : (s t : Bytes) → less s t ≡ true → eqb s t ≡ true → true ≡ false
less-eqb s t h k = sym h ∙ ap (λ x. less x t) (eqb→eq s t k) ∙ less_irrefl t

look_up_above :
    (name : Bytes) (pairs : List (Bytes × Color))
    → below_all name pairs ≡ true
    → look_up name pairs ≡ none
unfolding look_up
look_up_above name [] h = refl
look_up_above name ((key, c) ∷ pairs) h = elim (Bool-cases (eqb key name)) [
  | inl e ↦ absurd (ground (arith, less-eqb name key (ground (arith, h)) (eqb_comm name key ∙ e)))
  | inr e ↦ ground (arith, h, e, look_up_above name pairs)
]

not_less-look_up :
    (name : Bytes) (pairs : List (Bytes × Color))
    → ascending pairs ≡ true
    → taken name (not_less name pairs) ≡ look_up name pairs
unfolding taken not_less look_up
not_less-look_up name [] h = refl
not_less-look_up name ((key, c) ∷ pairs) h = elim (Bool-cases (less key name)) [
  | inl e ↦ elim (Bool-cases (eqb key name)) [
    | inl f ↦ absurd (ground (arith, less-eqb key name e f))
    | inr f ↦ rw (e, f) (not_less-look_up name pairs (ground (arith, h)))
  ]
  | inr e ↦ elim (Bool-cases (eqb key name)) [
    | inl f ↦ rw (e, f) refl
    | inr f ↦
        rw (e, f)
          (sym (
            look_up_above name pairs (
              below_all_trans name key pairs
                (less-total key name e (λ p. absurd (ground (arith, f, p, eqb_refl name))))
                (ground (arith, h)))))
  ]
]

-- The binary search for a color finds what a search from the front of the table finds, for every name.
pub find_color-look_up : (name : Bytes) → find_color name ≡ look_up name colors
unfolding find_color
find_color-look_up name = not_less-look_up name colors colors-ascending
