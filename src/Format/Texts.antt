-- ===== src/Format/Texts.antt =====
-- The first half of `formatter::from` in libs/cov-api/src/cov/format/parser.cc, which cuts a format text
-- into tokens, and the whole of it.
use git2_cxx.Base.{
  ℕ, zero, suc, ◌-◌, ◌<◌, ◌≤◌, true, false, List, [], ◌∷◌, ◌++◌, Bytes, length, ◌≡◌, refl, ap, sym,
  ◌∙◌, arith, length-append, append-nil, take, take-append,
}
use git2_cxx.Format.{as_text, text_between, found, round, scan, tokens, nest, formatter_from}
use git2_cxx.Format.Tokens.{Common, Token, Opcodes}
use git2_cxx.Format.Values.{until}
use git2_cxx.Format.Numbers.{until_lem, until-free}
use git2_cxx.Format.Placeholders.{parse-spell}
use git2_cxx.Format.Spelling.{Spelling, spell, meaning, IsSpelling, Fits, free}
use git2_cxx.Format.Blocks.{flatten, IsNested, nest-flatten}

-- A part of a format text.
pub data Piece : Type 0 where
  literal : Bytes → Piece
  placeholder : Spelling → Piece

unfoldable pub print : List Piece → Bytes
unfolding spell
print [] = []
print (Piece.literal s ∷ ps) = s ++ print ps
print (Piece.placeholder p ∷ ps) = b'%' ∷ (spell p ++ print ps)

unfoldable pub tokens_of : List Piece → List Token
unfolding meaning
tokens_of [] = []
tokens_of (Piece.literal s ∷ ps) = Token.common (Common.text s) ∷ tokens_of ps
tokens_of (Piece.placeholder p ∷ ps) = meaning p ∷ tokens_of ps

-- A literal holds no '%', is not empty, and is not followed by a literal. A placeholder is spelled, and
-- what follows does not belong to it.
unfoldable pub IsFormat : List Piece → Type 0
unfolding print IsSpelling Fits
IsFormat [] = true ≡ true
IsFormat (Piece.literal s ∷ []) = (free b'%' s ≡ true) × (1 ≤ length s)
IsFormat (Piece.literal s ∷ (Piece.literal t ∷ ps)) = true ≡ false
IsFormat (Piece.literal s ∷ (Piece.placeholder p ∷ ps)) =
    (free b'%' s ≡ true) × ((1 ≤ length s) × (IsSpelling p × (Fits p (print ps) × IsFormat ps)))
IsFormat (Piece.placeholder p ∷ ps) = IsSpelling p × (Fits p (print ps) × IsFormat ps)

text_between-same : (s : Bytes) → text_between s s ≡ []
unfolding text_between as_text
text_between-same s =
    let none_left : length s - length s ≡ 0 = omega arith in ap (λ n. as_text (take n s)) none_left

text_between_lem :
    (s rest : Bytes)
    → 1 ≤ length s
    → text_between (s ++ rest) rest ≡ Token.common (Common.text s) ∷ []
unfolding text_between as_text
text_between_lem [] rest h = absurd (omega arith)
text_between_lem (c ∷ s) rest h =
    let size : length (c ∷ s) ≡ length ((c ∷ s) ++ rest) - length rest =
      omega (arith, length-append (c ∷ s) rest) in
    ap as_text (take-append (length ((c ∷ s) ++ rest) - length rest) (c ∷ s) rest size)

-- A round at a placeholder.
round-placeholder :
    (more : Bytes → Bytes → List Token) (prev : Bytes) (p : Spelling) (rest : Bytes)
    → IsSpelling p
    → Fits p rest
    → round more prev (b'%' ∷ (spell p ++ rest))
      ≡ text_between prev (b'%' ∷ (spell p ++ rest)) ++ meaning p ∷ more rest rest
unfolding round found
round-placeholder more prev p rest h fits = rw (parse-spell p rest h fits) refl

scan-print :
    (fuel : ℕ) (ps : List Piece)
    → IsFormat ps
    → length (print ps) < fuel
    → scan fuel (print ps) (print ps) ≡ tokens_of ps
unfolding scan print tokens_of IsFormat until round
scan-print zero ps h k = absurd (omega arith)
scan-print (suc fuel) [] h k = text_between-same []
scan-print (suc fuel) (Piece.literal s ∷ []) h k =
    rw (append-nil s, until-free b'%' s h.0)
      (ap (λ t. text_between t []) (sym (append-nil s)) ∙ text_between_lem s [] h.1)
scan-print (suc fuel) (Piece.literal s ∷ (Piece.literal t ∷ ps)) h k = absurd (ground (arith, h))
scan-print (suc fuel) (Piece.literal s ∷ (Piece.placeholder p ∷ ps)) h k =
    let prev = print (Piece.literal s ∷ (Piece.placeholder p ∷ ps)) in
    let behind = spell p ++ print ps in
    let shorter : length (print ps) < fuel =
      omega (arith, k, length-append s (b'%' ∷ behind), length-append (spell p) (print ps)) in
    ap (λ t. round (scan fuel) prev t.1) (until_lem b'%' s behind h.0)
    ∙ round-placeholder (scan fuel) prev p (print ps) h.1.1.0 h.1.1.1.0
    ∙ ap (λ ts. ts ++ meaning p ∷ scan fuel (print ps) (print ps))
        (text_between_lem s (b'%' ∷ behind) h.1.0)
    ∙ ap (λ ts. Token.common (Common.text s) ∷ (meaning p ∷ ts))
        (scan-print fuel ps h.1.1.1.1 shorter)
scan-print (suc fuel) (Piece.placeholder p ∷ ps) h k =
    let prev = print (Piece.placeholder p ∷ ps) in
    round-placeholder (scan fuel) prev p (print ps) h.0 h.1.0
    ∙ ap (λ ts. ts ++ meaning p ∷ scan fuel (print ps) (print ps)) (text_between-same prev)
    ∙ ap (λ ts. meaning p ∷ ts)
        (scan-print fuel ps h.1.1 (omega (arith, k, length-append (spell p) (print ps))))

pub tokens-print : (ps : List Piece) → IsFormat ps → tokens (print ps) ≡ tokens_of ps
unfolding tokens
tokens-print ps h = scan-print (suc (length (print ps))) ps h (omega arith)

-- A format that spells the tokens of nested opcodes is read as these opcodes, with every text, every
-- placeholder and every block in its place.
pub from-print :
    (ps : List Piece) (ops : Opcodes)
    → IsFormat ps
    → IsNested ops
    → tokens_of ps ≡ flatten ops
    → formatter_from (print ps) ≡ ops
unfolding formatter_from
from-print ps ops h k same = ap nest (tokens-print ps h ∙ same) ∙ nest-flatten ops k
