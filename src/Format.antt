-- ===== src/Format.antt =====
-- libs/cov-api/src/cov/format/parser.cc: `formatter::from`. A format text is cut into tokens, and the
-- tokens are nested into blocks. A pointer into the text is what is left of the text from there.
pub mod Tokens
pub mod Colors
pub mod Values
pub mod Parser
pub mod Spelling
pub mod Lookup
pub mod Numbers
pub mod Placeholders
pub mod Blocks
pub mod Texts
pub mod Examples
use git2_cxx.Base.{
  ℕ, zero, suc, ◌+◌, ◌-◌, ◌*◌, ◌/◌, ◌%◌, ◌^◌, ◌==◌, ◌<◌, ◌≤◌, min, max, Bool, true, false, not,
  ◌&&◌, ◌||◌, List, [], ◌∷◌, ◌++◌, Option, none, some, Bytes, ltb, leb, if◌then◌else◌, codes,
  length, ◌≡◌, ◌≢◌, refl, ap, sym, ◌∙◌, arith, All, Bool-cases, Option-cases, inl, inr, ◌⊎◌, ◌↔◌,
  length-append, length-replicate, append_assoc, append-nil, drop, take, replicate, get_or,
  get_elem?, map, tests, drop-append, take-append, All-append,
}
use mathlib.Core.List.{foldl}
use git2_cxx.Format.Tokens.{Common, BlockType, Token, Printable, Opcodes}
use git2_cxx.Format.Parser.{parse}
use git2_cxx.Format.Values.{until}

unfoldable pub as_text : Bytes → List Token
as_text [] = []
as_text (c ∷ s) = Token.common (Common.text (c ∷ s)) ∷ []

-- The text between two pointers, as a token if it is not empty.
unfoldable pub text_between : Bytes → Bytes → List Token
unfolding as_text
text_between begin stop = as_text (take (length begin - length stop) begin)

-- The end of a round: a failure goes on behind what it has read, and leaves it to the text.
unfoldable pub found :
    (Bytes → Bytes → List Token) → Bytes → Bytes → Option Token × Bytes → List Token
unfolding text_between
found more prev text_end (none, rest) = more prev rest
found more prev text_end (some token, rest) = text_between prev text_end ++ token ∷ more rest rest

-- A round at the next '%', or the end of the text.
unfoldable pub round : (Bytes → Bytes → List Token) → Bytes → Bytes → List Token
unfolding text_between found parse
round more prev [] = text_between prev []
round more prev (c ∷ s) = found more prev (c ∷ s) (parse s)

-- The loop over the text, from `cur`, where the text from `prev` is not in the tokens yet. Every round
-- but the last takes a '%', so the length of the text is enough fuel.
unfoldable pub scan : ℕ → Bytes → Bytes → List Token
unfolding until text_between round
scan zero prev cur = text_between prev []
scan (suc fuel) prev cur = round (scan fuel) prev ((until b'%' cur).1)

unfoldable pub tokens : Bytes → List Token
unfolding scan
tokens input = scan (suc (length input)) input input

-- `push_back`.
unfoldable pub push : Opcodes → Printable → Opcodes
push Opcodes.nil p = Opcodes.cons p Opcodes.nil
push (Opcodes.cons q ops) p = Opcodes.cons q (push ops p)

-- `current.back()`, if it is a block, is given the opcodes.
unfoldable pub with_opcodes : Printable → Opcodes → Printable
with_opcodes (Printable.plain c) inner = Printable.plain c
with_opcodes (Printable.block type ref ops) inner = Printable.block type ref inner

unfoldable pub fill_last : Opcodes → Opcodes → Opcodes
unfolding with_opcodes
fill_last Opcodes.nil inner = Opcodes.nil
fill_last (Opcodes.cons p Opcodes.nil) inner = Opcodes.cons (with_opcodes p inner) Opcodes.nil
fill_last (Opcodes.cons p (Opcodes.cons q ops)) inner =
    Opcodes.cons p (fill_last (Opcodes.cons q ops) inner)

-- The stack: its back, and what is under it, from the back.
pub record Stack : Type 0 where
  pub back : Opcodes
  pub under : List Opcodes

unfoldable pub popped : Opcodes → List Opcodes → Stack
unfolding fill_last
popped back [] = record { back = back; under = [] }
popped back (current ∷ under) = record { back = fill_last current back; under = under }

abbrev pub pop : Stack → Stack
unfolding popped
pop stack = popped stack.back stack.under

unfoldable pub visit : Stack → Token → Stack
unfolding push popped
visit stack (Token.common c) = record stack { back = push stack.back (Printable.plain c) }
visit stack (Token.block_token BlockType.end ref) = pop stack
visit stack (Token.block_token BlockType.loop_start ref) = record {
  back = Opcodes.nil;
  under = push stack.back (Printable.block BlockType.loop_start ref Opcodes.nil) ∷ stack.under;
}
visit stack (Token.block_token BlockType.if_start ref) = record {
  back = Opcodes.nil;
  under = push stack.back (Printable.block BlockType.if_start ref Opcodes.nil) ∷ stack.under;
}

-- What is open at the end of the text is closed there.
unfoldable pub close : Opcodes → List Opcodes → Opcodes
unfolding fill_last
close back [] = back
close back (current ∷ under) = close (fill_last current back) under

unfoldable pub visit_all : Stack → List Token → Stack
unfolding visit
visit_all stack [] = stack
visit_all stack (t ∷ ts) = visit_all (visit stack t) ts

unfoldable pub nest : List Token → Opcodes
unfolding visit_all close
nest ts =
    let stack = visit_all (record { back = Opcodes.nil; under = [] }) ts in
    close stack.back stack.under

-- `formatter::from`.
unfoldable pub formatter_from : Bytes → Opcodes
unfolding tokens nest
formatter_from input = nest (tokens input)
