-- ===== src/Format/Colors.antt =====
-- The names of colors in libs/cov-api/src/cov/format/parser.cc, and their search.
use git2_cxx.Base.{List, [], ◌∷◌, Option, none, some, Bytes, if◌then◌else◌, codes}
use git2_cxx.Format.Tokens.{Color}
use git2_cxx.Text.{eqb, less}

abbrev pub colors : List (Bytes × Color)
colors =
    (codes "bg blue", Color.bg_blue)
    ∷ (codes "bg cyan", Color.bg_cyan)
    ∷ (codes "bg green", Color.bg_green)
    ∷ (codes "bg magenta", Color.bg_magenta)
    ∷ (codes "bg rating", Color.bg_rating_lines)
    ∷ (codes "bg rating:B", Color.bg_rating_branches)
    ∷ (codes "bg rating:F", Color.bg_rating_functions)
    ∷ (codes "bg rating:L", Color.bg_rating_lines)
    ∷ (codes "bg red", Color.bg_red)
    ∷ (codes "bg yellow", Color.bg_yellow)
    ∷ (codes "blue", Color.blue)
    ∷ (codes "bold blue", Color.bold_blue)
    ∷ (codes "bold cyan", Color.bold_cyan)
    ∷ (codes "bold green", Color.bold_green)
    ∷ (codes "bold magenta", Color.bold_magenta)
    ∷ (codes "bold normal", Color.bold_normal)
    ∷ (codes "bold rating", Color.bold_rating_lines)
    ∷ (codes "bold rating:B", Color.bold_rating_branches)
    ∷ (codes "bold rating:F", Color.bold_rating_functions)
    ∷ (codes "bold rating:L", Color.bold_rating_lines)
    ∷ (codes "bold red", Color.bold_red)
    ∷ (codes "bold yellow", Color.bold_yellow)
    ∷ (codes "cyan", Color.cyan)
    ∷ (codes "faint blue", Color.faint_blue)
    ∷ (codes "faint cyan", Color.faint_cyan)
    ∷ (codes "faint green", Color.faint_green)
    ∷ (codes "faint magenta", Color.faint_magenta)
    ∷ (codes "faint normal", Color.faint_normal)
    ∷ (codes "faint rating", Color.faint_rating_lines)
    ∷ (codes "faint rating:B", Color.faint_rating_branches)
    ∷ (codes "faint rating:F", Color.faint_rating_functions)
    ∷ (codes "faint rating:L", Color.faint_rating_lines)
    ∷ (codes "faint red", Color.faint_red)
    ∷ (codes "faint yellow", Color.faint_yellow)
    ∷ (codes "green", Color.green)
    ∷ (codes "magenta", Color.magenta)
    ∷ (codes "normal", Color.normal)
    ∷ (codes "rating", Color.rating_lines)
    ∷ (codes "rating:B", Color.rating_branches)
    ∷ (codes "rating:F", Color.rating_functions)
    ∷ (codes "rating:L", Color.rating_lines)
    ∷ (codes "red", Color.red)
    ∷ (codes "reset", Color.reset)
    ∷ (codes "yellow", Color.yellow)
    ∷ []

-- `std::lower_bound`: the first pair whose name is not less than a name, if there is one.
unfoldable pub not_less : Bytes → List (Bytes × Color) → Option (Bytes × Color)
not_less name [] = none
not_less name (pair ∷ pairs) = if less pair.0 name then not_less name pairs else some pair

-- The pair has the name, or the name is not in the table.
unfoldable pub taken : Bytes → Option (Bytes × Color) → Option Color
taken name none = none
taken name (some pair) = if eqb pair.0 name then some pair.1 else none

unfoldable pub find_color : Bytes → Option Color
unfolding not_less taken
find_color name = taken name (not_less name colors)
