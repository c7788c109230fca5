-- ===== src/Format/Examples.antt =====
-- Format texts of docs/format.md, read, and instances of the theorems.
use git2_cxx.Base.{List, [], ◌∷◌, some, codes, ◌≡◌, refl, arith}
use git2_cxx.Text.{eqb, less}
use git2_cxx.Format.{nest, formatter_from, tokens}
use git2_cxx.Format.Tokens.{Color, SelfField, Common, BlockType, Token, Printable, Opcodes}
use git2_cxx.Format.Colors.{find_color, colors}
use git2_cxx.Format.Lookup.{find_color-look_up}
use git2_cxx.Format.Parser.{parse}
use git2_cxx.Format.Values.{plain}
use git2_cxx.Format.Spelling.{
  look_up, Spelling, spell, meaning, IsSpelling, Fits, decimal, width_args, digit_chars,
}
use git2_cxx.Format.Placeholders.{IsUnambiguous, parse-spell_unambiguous}
use git2_cxx.Format.Blocks.{nest-end}
use git2_cxx.Format.Texts.{Piece, print, tokens_of, IsFormat, from-print}

abbrev short_hash : Common
short_hash = Common.self SelfField.primary_hash_abbr

-- "%hR:%{B[ %hR%]}" is the hash of a report and those of its builds.
abbrev builds : Opcodes
builds = Opcodes.cons (Printable.plain short_hash) (
    Opcodes.cons (Printable.plain (Common.text (codes ":"))) (
      Opcodes.cons
        (Printable.block BlockType.loop_start (codes "B") (
          Opcodes.cons (Printable.plain (Common.text (codes " ")))
            (Opcodes.cons (Printable.plain short_hash) Opcodes.nil)))
        Opcodes.nil))

from_test : formatter_from (codes "%hR:%{B[ %hR%]}") ≡ builds
unfolding formatter_from
from_test = refl

-- What is no placeholder stays text, and an open block is closed.
unfinished_test : formatter_from (codes "%hR:%{B[ %hR") ≡ builds
unfolding formatter_from
unfinished_test = refl

unknown_test :
    tokens (codes "a%Cyellow %q%C(bold red)")
    ≡ Token.common (Common.text (codes "a%Cyellow %q"))
      ∷ (Token.common (Common.color Color.bold_red) ∷ [])
unfolding tokens find_color less eqb
unknown_test = refl

parse-spell_unambiguous_example :
    parse (codes "w(42,6,9) x")
    ≡ (some (plain (Common.width (record { total = 42; indent1 = 6; indent2 = 9 }))), codes " x")
unfolding spell meaning IsSpelling IsUnambiguous Fits decimal width_args digit_chars
parse-spell_unambiguous_example =
    parse-spell_unambiguous (Spelling.widths (4 ∷ (2 ∷ [])) (6 ∷ []) (9 ∷ [])) (codes " x")
      (record {
        total_number = record {
          digits = (omega arith, (omega arith, tt));
          not_empty = omega arith;
          fits = omega arith;
        };
        indent1_number = record {
          digits = (omega arith, tt);
          not_empty = omega arith;
          fits = omega arith;
        };
        indent2_number = record {
          digits = (omega arith, tt);
          not_empty = omega arith;
          fits = omega arith;
        };
        indent1_less = omega arith;
        indent2_less = omega arith;
      })
      tt tt

find_color-look_up_example : find_color (codes "bold red") ≡ look_up (codes "bold red") colors
find_color-look_up_example = find_color-look_up (codes "bold red")

nest-end_test :
    nest (
      Token.block_token BlockType.if_start (codes "prop")
      ∷ (Token.block_token BlockType.end [] ∷ []))
    ≡ nest (Token.block_token BlockType.if_start (codes "prop") ∷ [])
nest-end_test = nest-end (Token.block_token BlockType.if_start (codes "prop") ∷ []) []

abbrev hash_piece : Piece
hash_piece = Piece.placeholder (Spelling.fixed (codes "hR") (Token.common short_hash))

abbrev pieces : List Piece
pieces =
    hash_piece
    ∷ (Piece.literal (codes ":")
        ∷ (Piece.placeholder (Spelling.opening BlockType.loop_start (codes "B"))
            ∷ (Piece.literal (codes " ")
                ∷ (hash_piece
                    ∷ (Piece.placeholder
                          (Spelling.fixed (codes "]}") (Token.block_token BlockType.end []))
                        ∷ [])))))

from-print_example : formatter_from (codes "%hR:%{B[ %hR%]}") ≡ builds
unfolding print tokens_of IsFormat IsSpelling Fits look_up spell meaning eqb
from-print_example =
    from-print pieces builds
      (
        refl,
        (
          tt,
          (
            refl,
            (
              omega arith,
              ((refl, refl), (tt, (refl, (omega arith, (refl, (tt, (refl, (tt, refl)))))))),
            ),
          ),
        ),
      )
      (refl, (refl, ((refl, (refl, (refl, refl))), refl))) refl
