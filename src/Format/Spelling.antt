-- ===== src/Format/Spelling.antt =====
-- How the texts of a format are spelled, as a list of fixed spellings and the shapes of the others.
use git2_cxx.Base.{
  ℕ, ◌+◌, ◌*◌, ◌%◌, ◌^◌, ◌==◌, ◌<◌, ◌≤◌, Bool, true, false, not, ◌&&◌, List, [], ◌∷◌, ◌++◌, Option,
  none, some, Bytes, if◌then◌else◌, codes, length, ◌≡◌, All,
}
use git2_cxx.Text.{eqb}
use git2_cxx.Format.Tokens.{
  Color, SelfField, StatsField, NameType, CommitField, PersonField, Who, Common, BlockType, Token,
}
use git2_cxx.Format.Colors.{colors}
use git2_cxx.Format.Values.{plain, hex}

-- The first entry of a name.
unfoldable pub look_up : {A : Type 0} → Bytes → List (Bytes × A) → Option A
look_up name [] = none
look_up name ((key, a) ∷ entries) = if eqb key name then some a else look_up name entries

abbrev pub fixed_spellings : List (Bytes × Token)
fixed_spellings =
    (codes "%", plain (Common.char b'%'))
    ∷ (codes "n", plain (Common.char 10))
    ∷ (codes "Cgreen", plain (Common.color Color.green))
    ∷ (codes "Cblue", plain (Common.color Color.blue))
    ∷ (codes "Cred", plain (Common.color Color.red))
    ∷ (codes "Creset", plain (Common.color Color.reset))
    ∷ (codes "w()", plain (Common.width (record { total = 76; indent1 = 6; indent2 = 9 })))
    ∷ (codes "]}", Token.block_token BlockType.end [])
    ∷ (codes "s", plain (Common.commit CommitField.subject))
    ∷ (codes "f", plain (Common.commit CommitField.subject_sanitized))
    ∷ (codes "b", plain (Common.commit CommitField.body))
    ∷ (codes "B", plain (Common.commit CommitField.body_raw))
    ∷ (codes "rD", plain (Common.commit CommitField.branch))
    ∷ (codes "HR", plain (Common.self SelfField.primary_hash))
    ∷ (codes "HC", plain (Common.self SelfField.primary_hash))
    ∷ (codes "H1", plain (Common.self SelfField.primary_hash))
    ∷ (codes "HF", plain (Common.self SelfField.secondary_hash))
    ∷ (codes "HL", plain (Common.self SelfField.secondary_hash))
    ∷ (codes "H2", plain (Common.self SelfField.secondary_hash))
    ∷ (codes "HP", plain (Common.self SelfField.tertiary_hash))
    ∷ (codes "Hf", plain (Common.self SelfField.tertiary_hash))
    ∷ (codes "H3", plain (Common.self SelfField.tertiary_hash))
    ∷ (codes "HG", plain (Common.self SelfField.quaternary_hash))
    ∷ (codes "HB", plain (Common.self SelfField.quaternary_hash))
    ∷ (codes "H4", plain (Common.self SelfField.quaternary_hash))
    ∷ (codes "hR", plain (Common.self SelfField.primary_hash_abbr))
    ∷ (codes "hC", plain (Common.self SelfField.primary_hash_abbr))
    ∷ (codes "h1", plain (Common.self SelfField.primary_hash_abbr))
    ∷ (codes "hF", plain (Common.self SelfField.secondary_hash_abbr))
    ∷ (codes "hL", plain (Common.self SelfField.secondary_hash_abbr))
    ∷ (codes "h2", plain (Common.self SelfField.secondary_hash_abbr))
    ∷ (codes "hP", plain (Common.self SelfField.tertiary_hash_abbr))
    ∷ (codes "hf", plain (Common.self SelfField.tertiary_hash_abbr))
    ∷ (codes "h3", plain (Common.self SelfField.tertiary_hash_abbr))
    ∷ (codes "hG", plain (Common.self SelfField.quaternary_hash_abbr))
    ∷ (codes "hB", plain (Common.self SelfField.quaternary_hash_abbr))
    ∷ (codes "h4", plain (Common.self SelfField.quaternary_hash_abbr))
    ∷ (codes "Ln", plain (Common.self SelfField.primary_label))
    ∷ (codes "L1", plain (Common.self SelfField.primary_label))
    ∷ (codes "L2", plain (Common.self SelfField.secondary_label))
    ∷ (codes "L3", plain (Common.self SelfField.tertiary_label))
    ∷ (codes "L4", plain (Common.self SelfField.quaternary_label))
    ∷ (codes "pL", plain (Common.stats StatsField.lines))
    ∷ (codes "pPL", plain (Common.stats StatsField.lines_percent))
    ∷ (codes "pPF", plain (Common.stats StatsField.functions_percent))
    ∷ (codes "pPB", plain (Common.stats StatsField.branches_percent))
    ∷ (codes "pTL", plain (Common.stats StatsField.lines_total))
    ∷ (codes "pTF", plain (Common.stats StatsField.functions_total))
    ∷ (codes "pTB", plain (Common.stats StatsField.branches_total))
    ∷ (codes "pVL", plain (Common.stats StatsField.lines_visited))
    ∷ (codes "pVF", plain (Common.stats StatsField.functions_visited))
    ∷ (codes "pVB", plain (Common.stats StatsField.branches_visited))
    ∷ (codes "prL", plain (Common.stats StatsField.lines_rating))
    ∷ (codes "prF", plain (Common.stats StatsField.functions_rating))
    ∷ (codes "prB", plain (Common.stats StatsField.branches_rating))
    ∷ (codes "an", plain (Common.person Who.author PersonField.name))
    ∷ (codes "ae", plain (Common.person Who.author PersonField.email))
    ∷ (codes "al", plain (Common.person Who.author PersonField.email_local))
    ∷ (codes "ad", plain (Common.person Who.author PersonField.date))
    ∷ (codes "ar", plain (Common.person Who.author PersonField.date_relative))
    ∷ (codes "at", plain (Common.person Who.author PersonField.date_timestamp))
    ∷ (codes "ai", plain (Common.person Who.author PersonField.date_iso_like))
    ∷ (codes "aI", plain (Common.person Who.author PersonField.date_iso_strict))
    ∷ (codes "as", plain (Common.person Who.author PersonField.date_short))
    ∷ (codes "cn", plain (Common.person Who.committer PersonField.name))
    ∷ (codes "ce", plain (Common.person Who.committer PersonField.email))
    ∷ (codes "cl", plain (Common.person Who.committer PersonField.email_local))
    ∷ (codes "cd", plain (Common.person Who.committer PersonField.date))
    ∷ (codes "cr", plain (Common.person Who.committer PersonField.date_relative))
    ∷ (codes "ct", plain (Common.person Who.committer PersonField.date_timestamp))
    ∷ (codes "ci", plain (Common.person Who.committer PersonField.date_iso_like))
    ∷ (codes "cI", plain (Common.person Who.committer PersonField.date_iso_strict))
    ∷ (codes "cs", plain (Common.person Who.committer PersonField.date_short))
    ∷ (codes "rd", plain (Common.person Who.reporter PersonField.date))
    ∷ (codes "rr", plain (Common.person Who.reporter PersonField.date_relative))
    ∷ (codes "rt", plain (Common.person Who.reporter PersonField.date_timestamp))
    ∷ (codes "ri", plain (Common.person Who.reporter PersonField.date_iso_like))
    ∷ (codes "rI", plain (Common.person Who.reporter PersonField.date_iso_strict))
    ∷ (codes "rs", plain (Common.person Who.reporter PersonField.date_short))
    ∷ []

abbrev pub name_letters : List (Bytes × NameType)
name_letters =
    (codes "D", NameType.ref_names_unwrapped)
    ∷ (codes "d", NameType.ref_names)
    ∷ (codes "Z", NameType.props_unwrapped)
    ∷ (codes "z", NameType.props)
    ∷ (codes "mD", NameType.magic_ref_names_unwrapped)
    ∷ (codes "md", NameType.magic_ref_names)
    ∷ (codes "mZ", NameType.magic_props_unwrapped)
    ∷ (codes "mz", NameType.magic_props)
    ∷ []

-- The characters of digits, and the number that they spell behind `n`.
unfoldable pub digit_chars : List ℕ → Bytes
digit_chars [] = []
digit_chars (d ∷ ds) = (b'0' + d) ∷ digit_chars ds

unfoldable pub decimal : ℕ → List ℕ → ℕ
decimal n [] = n
decimal n (d ∷ ds) = decimal (n * 10 + d) ds

-- What stands behind a '%'. Numbers are lists of digits.
pub data Spelling : Type 0 where
  fixed : Bytes → Token → Spelling
  hex_digits : ℕ → ℕ → Spelling
  color_name : Bytes → Color → Spelling
  widths : List ℕ → List ℕ → List ℕ → Spelling
  name_list : Bytes → NameType → Spelling
  indented_list : Bytes → NameType → List ℕ → Spelling
  opening : BlockType → Bytes → Spelling

abbrev opening_mark : BlockType → Bytes
opening_mark BlockType.if_start = codes "?"
opening_mark _ = []

unfoldable pub width_args : List ℕ → List ℕ → List ℕ → Bytes
unfolding digit_chars
width_args total indent1 indent2 =
    digit_chars total ++ b',' ∷ (digit_chars indent1 ++ b',' ∷ digit_chars indent2)

unfoldable pub spell : Spelling → Bytes
unfolding digit_chars width_args
spell (Spelling.fixed s token) = s
spell (Spelling.hex_digits high low) = b'x' ∷ (high ∷ (low ∷ []))
spell (Spelling.color_name s c) = codes "C(" ++ s ++ codes ")"
spell (Spelling.widths total indent1 indent2) =
    codes "w(" ++ width_args total indent1 indent2 ++ codes ")"
spell (Spelling.name_list letters type) = letters
spell (Spelling.indented_list letters type ds) = letters ++ b'(' ∷ (digit_chars ds ++ codes ")")
spell (Spelling.opening type ref) = b'{' ∷ (opening_mark type ++ ref ++ codes "[")

unfoldable pub meaning : Spelling → Token
unfolding hex decimal
meaning (Spelling.fixed s token) = token
meaning (Spelling.hex_digits high low) = plain (Common.char (hex high * 16 + hex low))
meaning (Spelling.color_name s c) = plain (Common.color c)
meaning (Spelling.widths total indent1 indent2) = plain (
    Common.width (record {
      total = decimal 0 total;
      indent1 = decimal 0 indent1;
      indent2 = decimal 0 indent2;
    }))
meaning (Spelling.name_list letters type) =
    plain (Common.names (record { type = type; indent = 0 }))
meaning (Spelling.indented_list letters type ds) =
    plain (Common.names (record { type = type; indent = decimal 0 ds % 2 ^ 32 }))
meaning (Spelling.opening type ref) = Token.block_token type ref

-- Digits of a number of 32 bits.
pub record IsNumber (ds : List ℕ) : Type 0 where
  pub digits : All (λ d. d < 10) ds
  pub not_empty : 1 ≤ length ds
  pub fits : decimal 0 ds < 2 ^ 32

pub record IsWidths (total indent1 indent2 : List ℕ) : Type 0 where
  pub total_number : IsNumber total
  pub indent1_number : IsNumber indent1
  pub indent2_number : IsNumber indent2
  pub indent1_less : decimal 0 indent1 < decimal 0 total
  pub indent2_less : decimal 0 indent2 < decimal 0 total

-- A character is not in a text.
abbrev pub free : ℕ → Bytes → Bool
free stop [] = true
free stop (c ∷ s) = not (c == stop) && free stop s

-- The reference of a block is not taken for a '?' or a '['.
abbrev pub StartsPlain : Bytes → Type 0
StartsPlain [] = Unit {0}
StartsPlain (c ∷ s) = (c == b'?') ≡ false

abbrev pub IsReference : BlockType → Bytes → Type 0
IsReference BlockType.loop_start ref = StartsPlain ref × (free b'[' ref ≡ true)
IsReference BlockType.if_start ref = free b'[' ref ≡ true
IsReference BlockType.end ref = true ≡ false

unfoldable pub IsSpelling : Spelling → Type 0
IsSpelling (Spelling.fixed s token) = look_up s fixed_spellings ≡ some token
IsSpelling (Spelling.hex_digits high low) = (hex high < 16) × (hex low < 16)
IsSpelling (Spelling.color_name s c) = look_up s colors ≡ some c
IsSpelling (Spelling.widths total indent1 indent2) = IsWidths total indent1 indent2
IsSpelling (Spelling.name_list letters type) = look_up letters name_letters ≡ some type
IsSpelling (Spelling.indented_list letters type ds) =
    (look_up letters name_letters ≡ some type) × All (λ d. d < 10) ds
IsSpelling (Spelling.opening type ref) = IsReference type ref

-- What may follow: a list of names without an indent is not followed by a '('.
abbrev pub NoBracket : Bytes → Type 0
NoBracket [] = Unit {0}
NoBracket (c ∷ s) = (c == b'(') ≡ false

unfoldable pub Fits : Spelling → Bytes → Type 0
Fits (Spelling.name_list letters type) rest = NoBracket rest
Fits _ rest = Unit {0}
