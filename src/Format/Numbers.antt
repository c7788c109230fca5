-- ===== src/Format/Numbers.antt =====
-- The numbers of libs/cov-api/src/cov/format/parser.cc: indents and widths, from their digits.
use git2_cxx.Base.{
  ℕ, ◌+◌, ◌-◌, ◌*◌, ◌%◌, ◌^◌, ◌<◌, ◌≤◌, Bool, true, false, not, ◌&&◌, List, [], ◌∷◌, ◌++◌, none,
  some, Bytes, length, ◌≡◌, refl, arith, All, length-append, lt→ltb,
}
use git2_cxx.Text.Parts.{is_space, trim, trim_front, trim_back}
use git2_cxx.Objects.Props.{natural_from, digits_from}
use git2_cxx.Revs.Parse.{is_digit}
use git2_cxx.Format.Tokens.{NameType, Common}
use git2_cxx.Format.Values.{
  plain, in_32_bits, uint_from, until, to_comma, checked, third_width, second_width, second_part,
  first_width, first_part, width_of, width_token, closed_width, bracketed_width, behind_comma,
  argument,
}
use git2_cxx.Format.Parser.{indent_from, indented, closed_names, parse_ref_names}
use git2_cxx.Format.Spelling.{digit_chars, decimal, IsNumber, IsWidths, free, width_args}

indent_from_lem :
    (n : ℕ) (ds : List ℕ) (rest : Bytes)
    → All (λ d. d < 10) ds
    → indent_from (n % 2 ^ 32) (digit_chars ds ++ b')' ∷ rest)
      ≡ (decimal n ds % 2 ^ 32, b')' ∷ rest)
unfolding indent_from digit_chars decimal is_digit
indent_from_lem n [] rest h = refl
indent_from_lem n (d ∷ ds) rest h =
    let wrap : ((n % 2 ^ 32) * 10 % 2 ^ 32 + (b'0' + d - b'0')) % 2 ^ 32 ≡ (n * 10 + d) % 2 ^ 32 =
      omega arith in
    let is_one : is_digit (b'0' + d) ≡ true = ground (arith, h.0) in
    rw (wrap, indent_from_lem (n * 10 + d) ds rest h.1, is_one) refl

pub indented_list_lem :
    (type : NameType) (ds : List ℕ) (rest : Bytes)
    → All (λ d. d < 10) ds
    → parse_ref_names type (b'(' ∷ (digit_chars ds ++ b')' ∷ rest))
      ≡ (some (plain (Common.names (record { type = type; indent = decimal 0 ds % 2 ^ 32 }))), rest)
unfolding parse_ref_names indented closed_names
indented_list_lem type ds rest h = rw (indent_from_lem 0 ds rest h) refl

digits_from_lem :
    (n : ℕ) (ds : List ℕ)
    → All (λ d. d < 10) ds
    → digits_from (digit_chars ds) n ≡ some (decimal n ds)
unfolding digits_from digit_chars decimal
digits_from_lem n [] h = refl
digits_from_lem n (d ∷ ds) h = ground (arith, h.0, digits_from_lem (n * 10 + d) ds h.1)

-- Digits and commas hold no white space and no character below them.
abbrev dense : Bytes → Bool
dense [] = true
dense (c ∷ s) = not (is_space c) && dense s

free-digits : (stop : ℕ) (ds : List ℕ) → stop < 48 → free stop (digit_chars ds) ≡ true
unfolding digit_chars
free-digits stop [] h = refl
free-digits stop (d ∷ ds) h = ground (arith, free-digits stop ds h)

dense-digits : (ds : List ℕ) → dense (digit_chars ds) ≡ true
unfolding digit_chars is_space
dense-digits [] = refl
dense-digits (d ∷ ds) = ground (arith, dense-digits ds)

free-append :
    (stop : ℕ) (s t : Bytes) → free stop s ≡ true → free stop t ≡ true → free stop (s ++ t) ≡ true
free-append stop [] t h k = k
free-append stop (c ∷ s) t h k = ground (arith, h, free-append stop s t)

dense-append : (s t : Bytes) → dense s ≡ true → dense t ≡ true → dense (s ++ t) ≡ true
dense-append [] t h k = k
dense-append (c ∷ s) t h k = ground (arith, h, dense-append s t)

trim_back_lem : (s : Bytes) → dense s ≡ true → trim_back s ≡ s
unfolding trim_back
trim_back_lem [] h = refl
trim_back_lem (c ∷ []) h = ground (arith, h)
trim_back_lem (c ∷ (d ∷ s)) h = rw (trim_back_lem (d ∷ s) (ground (arith, h))) refl

trim_lem : (s : Bytes) → dense s ≡ true → trim s ≡ s
unfolding trim trim_front
trim_lem [] h = trim_back_lem [] refl
trim_lem (c ∷ s) h =
    let solid : is_space c ≡ false = ground (arith, h) in rw solid (trim_back_lem (c ∷ s) h)

pub until-free : (stop : ℕ) (s : Bytes) → free stop s ≡ true → until stop s ≡ (s, [])
unfolding until
until-free stop [] h = refl
until-free stop (c ∷ s) h = ground (arith, h, until-free stop s)

pub until_lem :
    (stop : ℕ) (before rest : Bytes)
    → free stop before ≡ true
    → until stop (before ++ stop ∷ rest) ≡ (before, stop ∷ rest)
unfolding until
until_lem stop [] rest h = ground arith
until_lem stop (c ∷ before) rest h = ground (arith, h, until_lem stop before rest)

natural_from-digits :
    (ds : List ℕ)
    → All (λ d. d < 10) ds
    → 1 ≤ length ds
    → natural_from (digit_chars ds) ≡ some (decimal 0 ds)
unfolding natural_from digit_chars
natural_from-digits [] h k = absurd (omega arith)
natural_from-digits (d ∷ ds) h k = digits_from_lem 0 (d ∷ ds) h

uint_from-digits : (ds : List ℕ) → IsNumber ds → uint_from (digit_chars ds) ≡ some (decimal 0 ds)
unfolding uint_from in_32_bits
uint_from-digits ds h =
    rw (natural_from-digits ds h.digits h.not_empty, lt→ltb (decimal 0 ds) (2 ^ 32) h.fits) refl

argument_lem : (ds : List ℕ) → IsNumber ds → argument (digit_chars ds) ≡ some (decimal 0 ds)
argument_lem ds h = rw (trim_lem (digit_chars ds) (dense-digits ds)) (uint_from-digits ds h)

to_comma_lem :
    (ds : List ℕ) (rest : Bytes)
    → to_comma (digit_chars ds ++ b',' ∷ rest) ≡ (digit_chars ds, some rest)
unfolding to_comma behind_comma
to_comma_lem ds rest =
    rw (until_lem b',' (digit_chars ds) rest (free-digits b',' ds (omega arith))) refl

to_comma-digits : (ds : List ℕ) → to_comma (digit_chars ds) ≡ (digit_chars ds, none)
unfolding to_comma behind_comma
to_comma-digits ds = rw (until-free b',' (digit_chars ds) (free-digits b',' ds (omega arith))) refl

first_part-width : (s : Bytes) → 1 ≤ length s → width_of s ≡ first_part (to_comma s)
unfolding width_of
first_part-width [] h = absurd (omega arith)
first_part-width (c ∷ s) h = refl

module _ (total indent1 indent2 : List ℕ) (h : IsWidths total indent1 indent2) where
  third_width_lem :
      third_width (decimal 0 total) (decimal 0 indent1) (to_comma (digit_chars indent2))
      ≡ some (record {
        total = decimal 0 total;
        indent1 = decimal 0 indent1;
        indent2 = decimal 0 indent2;
      })
  unfolding third_width checked
  third_width_lem =
      rw (to_comma-digits indent2, argument_lem indent2 h.indent2_number)
        (ground (arith, h.indent1_less, h.indent2_less))

  second_part_lem :
      second_part (decimal 0 total) (to_comma (digit_chars indent1 ++ b',' ∷ digit_chars indent2))
      ≡ some (record {
        total = decimal 0 total;
        indent1 = decimal 0 indent1;
        indent2 = decimal 0 indent2;
      })
  unfolding second_part second_width
  second_part_lem =
      rw (to_comma_lem indent1 (digit_chars indent2), argument_lem indent1 h.indent1_number)
        third_width_lem

  first_part_lem :
      first_part (to_comma (width_args total indent1 indent2))
      ≡ some (record {
        total = decimal 0 total;
        indent1 = decimal 0 indent1;
        indent2 = decimal 0 indent2;
      })
  unfolding first_part first_width width_args
  first_part_lem =
      rw
        (
          to_comma_lem total (digit_chars indent1 ++ b',' ∷ digit_chars indent2),
          argument_lem total h.total_number,
        )
        second_part_lem

  args-not_empty : 1 ≤ length (width_args total indent1 indent2)
  unfolding width_args
  args-not_empty =
      rw
        (length-append (digit_chars total)
          (b',' ∷ (digit_chars indent1 ++ b',' ∷ digit_chars indent2)))
        (omega arith)

  args-dense : dense (width_args total indent1 indent2) ≡ true
  unfolding width_args is_space
  args-dense =
      let behind =
        dense-append (digit_chars indent1) (b',' ∷ digit_chars indent2) (dense-digits indent1)
          (dense-digits indent2) in
      dense-append (digit_chars total) (b',' ∷ (digit_chars indent1 ++ b',' ∷ digit_chars indent2))
        (dense-digits total) behind

  args-free : free b')' (width_args total indent1 indent2) ≡ true
  unfolding width_args
  args-free =
      let digits : (ds : List ℕ) → free b')' (digit_chars ds) ≡ true =
        λ ds. free-digits b')' ds (omega arith) in
      let behind =
        free-append b')' (digit_chars indent1) (b',' ∷ digit_chars indent2) (digits indent1)
          (digits indent2) in
      free-append b')' (digit_chars total)
        (b',' ∷ (digit_chars indent1 ++ b',' ∷ digit_chars indent2)) (digits total) behind

  pub bracketed_width_lem :
      (rest : Bytes)
      → bracketed_width (width_args total indent1 indent2 ++ b')' ∷ rest) ≡ (
        some (
            plain (
              Common.width (record {
                total = decimal 0 total;
                indent1 = decimal 0 indent1;
                indent2 = decimal 0 indent2;
              }))),
        rest,
      )
  unfolding bracketed_width closed_width width_token
  bracketed_width_lem rest =
      rw
        (
          until_lem b')' (width_args total indent1 indent2) rest args-free,
          trim_lem (width_args total indent1 indent2) args-dense,
          first_part-width (width_args total indent1 indent2) args-not_empty,
          first_part_lem,
        )
        refl
