-- ===== src/Format/Placeholders.antt =====
-- `parse` of libs/cov-api/src/cov/format/parser.cc reads every spelling of a placeholder.
use git2_cxx.Base.{
  ℕ, ◌+◌, ◌*◌, ◌<◌, true, List, [], ◌∷◌, ◌++◌, some, Bytes, codes, ◌≡◌, ◌≢◌, refl, ap, ◌∙◌, arith,
  All, append_assoc, ge→ltb,
}
use git2_cxx.Text.Parts.{trim, trim_front, trim_back}
use git2_cxx.Format.Tokens.{Color, NameType, BlockType, Token, Common}
use git2_cxx.Format.Colors.{colors}
use git2_cxx.Format.Values.{
  plain, switch, case_of, hex, low_nybble, parse_hex, until, is_it, color_token, named_color,
  closed_color, red_or_reset, behind_r, parse_color, width_of, width_token, bracketed_width,
  closed_width, parse_width,
}
use git2_cxx.Format.Parser.{
  parse_ref_names, parse_magic, parse_hash, parse_date, person_info, parse_report, parse_stats_impl,
  parse_stats, parse_person, block_of, closed_block, start_block, end_block, parse_labels, parse,
}
use git2_cxx.Format.Spelling.{
  look_up, fixed_spellings, name_letters, digit_chars, Spelling, spell, meaning, IsWidths,
  IsReference, IsSpelling, Fits, NoBracket, free, width_args,
}
use git2_cxx.Format.Numbers.{until_lem, bracketed_width_lem, indented_list_lem}
use git2_cxx.Format.Lookup.{look_up-All, find_color-look_up}

abbrev Parses : Bytes × Token → Type 0
Parses entry = (rest : Bytes) → parse (entry.0 ++ rest) ≡ (some entry.1, rest)

fixed-Parses : All Parses fixed_spellings
unfolding parse case_of switch end_block parse_color is_it behind_r red_or_reset parse_width
    bracketed_width closed_width until width_of trim trim_front trim_back width_token parse_hash
    parse_labels parse_stats parse_stats_impl parse_person parse_report parse_date person_info
fixed-Parses = search tt

abbrev FitsBrackets : Bytes × Color → Type 0
FitsBrackets entry = free b')' entry.0 ≡ true

colors-FitsBrackets : All FitsBrackets colors
colors-FitsBrackets = search tt

named_color_lem :
    (s : Bytes) (c : Color) (rest : Bytes)
    → look_up s colors ≡ some c
    → named_color (s ++ b')' ∷ rest) ≡ (some (plain (Common.color c)), rest)
unfolding named_color closed_color color_token
named_color_lem s c rest h =
    let fits = look_up-All FitsBrackets s colors c colors-FitsBrackets h in
    rw (until_lem b')' s rest fits, find_color-look_up s, h) refl

color_name-Parses :
    (s : Bytes) (c : Color) (rest : Bytes)
    → look_up s colors ≡ some c
    → parse (spell (Spelling.color_name s c) ++ rest) ≡ (some (plain (Common.color c)), rest)
unfolding parse case_of switch spell parse_color
color_name-Parses s c rest h = rw (append_assoc s (codes ")") rest, named_color_lem s c rest h) refl

hex_digits-Parses :
    (high low : ℕ) (rest : Bytes)
    → hex high < 16
    → hex low < 16
    → parse (b'x' ∷ (high ∷ (low ∷ rest)))
      ≡ (some (plain (Common.char (hex high * 16 + hex low))), rest)
unfolding parse case_of switch parse_hex low_nybble
hex_digits-Parses high low rest h k =
    let swap : hex low + hex high * 16 ≡ hex high * 16 + hex low = omega arith in
    rw (ge→ltb 15 (hex high) (omega arith), ge→ltb 15 (hex low) (omega arith), swap) refl

block_of_lem :
    (type : BlockType) (ref rest : Bytes)
    → free b'[' ref ≡ true
    → block_of type (ref ++ b'[' ∷ rest) ≡ (some (Token.block_token type ref), rest)
unfolding block_of closed_block
block_of_lem type ref rest h = rw (until_lem b'[' ref rest h) refl

opening-Parses :
    (type : BlockType) (ref rest : Bytes)
    → IsReference type ref
    → parse (spell (Spelling.opening type ref) ++ rest) ≡ (some (Token.block_token type ref), rest)
unfolding parse case_of switch spell start_block
opening-Parses BlockType.loop_start [] rest h = block_of_lem BlockType.loop_start [] rest refl
opening-Parses BlockType.loop_start (c ∷ ref) rest h =
    rw (h.0, append_assoc ref (codes "[") rest)
      (block_of_lem BlockType.loop_start (c ∷ ref) rest h.1)
opening-Parses BlockType.if_start ref rest h =
    rw (append_assoc ref (codes "[") rest) (block_of_lem BlockType.if_start ref rest h)
opening-Parses BlockType.end ref rest h = absurd (ground (arith, h))

abbrev LettersParse : Bytes × NameType → Type 0
LettersParse entry = (rest : Bytes) → parse (entry.0 ++ rest) ≡ parse_ref_names entry.1 rest

letters-LettersParse : All LettersParse name_letters
unfolding parse case_of switch parse_magic
letters-LettersParse = search tt

bare_names_lem :
    (type : NameType) (rest : Bytes)
    → NoBracket rest
    → parse_ref_names type rest
      ≡ (some (plain (Common.names (record { type = type; indent = 0 }))), rest)
unfolding parse_ref_names
bare_names_lem type [] h = refl
bare_names_lem type (c ∷ rest) h = rw h refl

widths-Parses :
    (total indent1 indent2 : List ℕ) (rest : Bytes)
    → IsWidths total indent1 indent2
    → parse (spell (Spelling.widths total indent1 indent2) ++ rest)
      ≡ (some (meaning (Spelling.widths total indent1 indent2)), rest)
unfolding parse case_of switch parse_width spell meaning width_args
widths-Parses total indent1 indent2 rest h =
    let args = width_args total indent1 indent2 in
    ap (λ s. parse (b'w' ∷ (b'(' ∷ s))) (append_assoc args (codes ")") rest)
    ∙ bracketed_width_lem total indent1 indent2 h rest

indented_list-Parses :
    (letters : Bytes) (type : NameType) (ds : List ℕ) (rest : Bytes)
    → look_up letters name_letters ≡ some type
    → All (λ d. d < 10) ds
    → parse (spell (Spelling.indented_list letters type ds) ++ rest)
      ≡ (some (meaning (Spelling.indented_list letters type ds)), rest)
unfolding spell meaning
indented_list-Parses letters type ds rest h k =
    ap parse (append_assoc letters (b'(' ∷ (digit_chars ds ++ codes ")")) rest)
    ∙ ap (λ s. parse (letters ++ b'(' ∷ s)) (append_assoc (digit_chars ds) (codes ")") rest)
    ∙ look_up-All LettersParse letters name_letters type letters-LettersParse h
        (b'(' ∷ (digit_chars ds ++ b')' ∷ rest))
    ∙ indented_list_lem type ds rest k

-- A spelling behind a '%' is read as the placeholder of the table, whose meanings are the code's where docs/format.md gives two.
pub parse-spell :
    (p : Spelling) (rest : Bytes)
    → IsSpelling p
    → Fits p rest
    → parse (spell p ++ rest) ≡ (some (meaning p), rest)
unfolding spell meaning IsSpelling Fits
parse-spell (Spelling.fixed s token) rest h fits =
    look_up-All Parses s fixed_spellings token fixed-Parses h rest
parse-spell (Spelling.hex_digits high low) rest h fits = hex_digits-Parses high low rest h.0 h.1
parse-spell (Spelling.color_name s c) rest h fits = color_name-Parses s c rest h
parse-spell (Spelling.widths total indent1 indent2) rest h fits =
    widths-Parses total indent1 indent2 rest h
parse-spell (Spelling.name_list letters type) rest h fits =
    look_up-All LettersParse letters name_letters type letters-LettersParse h rest
    ∙ bare_names_lem type rest fits
parse-spell (Spelling.indented_list letters type ds) rest h fits =
    indented_list-Parses letters type ds rest h.0 h.1
parse-spell (Spelling.opening type ref) rest h fits = opening-Parses type ref rest h

-- The spellings that docs/format.md lists twice, with two meanings. The lists of names are the
-- properties of a build there, too, for which the code has other letters.
abbrev pub ambiguous_spellings : List Bytes
ambiguous_spellings =
    codes "hf"
    ∷ codes "pPL"
    ∷ codes "pVL"
    ∷ codes "pTL"
    ∷ codes "prL"
    ∷ codes "d"
    ∷ codes "D"
    ∷ codes "md"
    ∷ codes "mD"
    ∷ []

-- The characters are not those of an ambiguous spelling.
abbrev Differs : Bytes → Type 0
Differs s = All (λ other. s ≢ other) ambiguous_spellings

unfoldable pub IsUnambiguous : Spelling → Type 0
IsUnambiguous (Spelling.fixed s token) = Differs s
IsUnambiguous (Spelling.name_list letters type) = Differs letters
IsUnambiguous (Spelling.indented_list letters type ds) = Differs letters
IsUnambiguous _ = Unit {0}

-- A spelling behind a '%' to which docs/format.md does not give two meanings is read as the
-- placeholder that it spells, whatever follows that does not belong to it, and nothing that follows is
-- taken.
pub parse-spell_unambiguous :
    (p : Spelling) (rest : Bytes)
    → IsSpelling p
    → IsUnambiguous p
    → Fits p rest
    → parse (spell p ++ rest) ≡ (some (meaning p), rest)
parse-spell_unambiguous p rest h u fits = parse-spell p rest h fits
