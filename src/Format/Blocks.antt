-- ===== src/Format/Blocks.antt =====
-- The second half of `formatter::from` in libs/cov-api/src/cov/format/parser.cc, which nests tokens.
use git2_cxx.Base.{
  true, false, List, [], ◌∷◌, ◌++◌, Bytes, ◌≡◌, refl, ap, sym, ◌∙◌, arith, append_assoc, append-nil,
}
use git2_cxx.Format.{push, with_opcodes, fill_last, Stack, popped, visit, visit_all, close, nest}
use git2_cxx.Format.Tokens.{BlockType, Token, Printable, Opcodes}

-- The tokens of opcodes: a block ends with an end.
abbrev mutual
  flatten_one : Printable → List Token
  flatten_one (Printable.plain c) = Token.common c ∷ []
  flatten_one (Printable.block type ref inner) =
      Token.block_token type ref ∷ (flatten inner ++ Token.block_token BlockType.end [] ∷ [])

  pub flatten : Opcodes → List Token
  flatten Opcodes.nil = []
  flatten (Opcodes.cons p ops) = flatten_one p ++ flatten ops

-- A block starts a loop or an if.
abbrev IsStart : BlockType → Type 0
IsStart BlockType.end = true ≡ false
IsStart _ = true ≡ true

abbrev mutual
  IsPrintable : Printable → Type 0
  IsPrintable (Printable.plain c) = true ≡ true
  IsPrintable (Printable.block type ref inner) = IsStart type × IsNested inner

  pub IsNested : Opcodes → Type 0
  IsNested Opcodes.nil = true ≡ true
  IsNested (Opcodes.cons p ops) = IsPrintable p × IsNested ops

unfoldable join : Opcodes → Opcodes → Opcodes
unfolding push
join back Opcodes.nil = back
join back (Opcodes.cons p ops) = join (push back p) ops

fill_last-push :
    (ops : Opcodes) (type : BlockType) (ref : Bytes) (inner : Opcodes)
    → fill_last (push ops (Printable.block type ref Opcodes.nil)) inner
      ≡ push ops (Printable.block type ref inner)
unfolding fill_last push with_opcodes
fill_last-push Opcodes.nil type ref inner = refl
fill_last-push (Opcodes.cons p Opcodes.nil) type ref inner = refl
fill_last-push (Opcodes.cons p (Opcodes.cons q ops)) type ref inner =
    ap (Opcodes.cons p) (fill_last-push (Opcodes.cons q ops) type ref inner)

join-cons :
    (p : Printable) (back ops : Opcodes)
    → join (Opcodes.cons p back) ops ≡ Opcodes.cons p (join back ops)
unfolding join push
join-cons p back Opcodes.nil = refl
join-cons p back (Opcodes.cons q ops) = join-cons p (push back q) ops

join-nil : (ops : Opcodes) → join Opcodes.nil ops ≡ ops
unfolding join push
join-nil Opcodes.nil = refl
join-nil (Opcodes.cons p ops) = join-cons p Opcodes.nil ops ∙ ap (Opcodes.cons p) (join-nil ops)

visit-start :
    (type : BlockType) (ref : Bytes) (back : Opcodes) (under : List Opcodes)
    → IsStart type
    → visit (record { back = back; under = under }) (Token.block_token type ref) ≡ record {
      back = Opcodes.nil;
      under = push back (Printable.block type ref Opcodes.nil) ∷ under;
    }
unfolding visit
visit-start BlockType.loop_start ref back under h = refl
visit-start BlockType.if_start ref back under h = refl
visit-start BlockType.end ref back under h = absurd (ground (arith, h))

visit-end :
    (type : BlockType) (ref : Bytes) (inner back : Opcodes) (under : List Opcodes)
    → visit
        (record {
          back = join Opcodes.nil inner;
          under = push back (Printable.block type ref Opcodes.nil) ∷ under;
        })
        (Token.block_token BlockType.end [])
      ≡ record { back = push back (Printable.block type ref inner); under = under }
unfolding visit popped
visit-end type ref inner back under = rw (join-nil inner, fill_last-push back type ref inner) refl

-- The tokens of opcodes put them behind the back of the stack.
mutual
  unfolding visit_all visit join popped

  visit_one-flatten :
      (p : Printable) (ts : List Token) (back : Opcodes) (under : List Opcodes)
      → IsPrintable p
      → visit_all (record { back = back; under = under }) (flatten_one p ++ ts)
        ≡ visit_all (record { back = push back p; under = under }) ts
  visit_one-flatten (Printable.plain c) ts back under h = refl
  visit_one-flatten (Printable.block type ref inner) ts back under h =
      let closing = Token.block_token BlockType.end [] in
      let inside = push back (Printable.block type ref Opcodes.nil) ∷ under in
      ap (λ stack. visit_all stack ((flatten inner ++ closing ∷ []) ++ ts))
        (visit-start type ref back under h.0)
      ∙ ap (visit_all (record { back = Opcodes.nil; under = inside }))
          (append_assoc (flatten inner) (closing ∷ []) ts)
      ∙ visit_all-flatten inner (closing ∷ ts) Opcodes.nil inside h.1
      ∙ ap (λ stack. visit_all stack ts) (visit-end type ref inner back under)

  visit_all-flatten :
      (ops : Opcodes) (ts : List Token) (back : Opcodes) (under : List Opcodes)
      → IsNested ops
      → visit_all (record { back = back; under = under }) (flatten ops ++ ts)
        ≡ visit_all (record { back = join back ops; under = under }) ts
  visit_all-flatten Opcodes.nil ts back under h = refl
  visit_all-flatten (Opcodes.cons p ops) ts back under h =
      rw (append_assoc (flatten_one p) (flatten ops) ts) (
        visit_one-flatten p (flatten ops ++ ts) back under h.0
        ∙ visit_all-flatten ops ts (push back p) under h.1)

pub nest-flatten : (ops : Opcodes) → IsNested ops → nest (flatten ops) ≡ ops
unfolding nest visit_all close
nest-flatten ops h =
    ap nest (sym (append-nil (flatten ops)))
    ∙ ap (λ stack. close stack.back stack.under) (visit_all-flatten ops [] Opcodes.nil [] h)
    ∙ join-nil ops

visit_all-append :
    (stack : Stack) (ts us : List Token)
    → visit_all stack (ts ++ us) ≡ visit_all (visit_all stack ts) us
unfolding visit_all
visit_all-append stack [] us = refl
visit_all-append stack (t ∷ ts) us = visit_all-append (visit stack t) ts us

close-popped :
    (back : Opcodes) (under : List Opcodes)
    → close ((popped back under).back) ((popped back under).under) ≡ close back under
unfolding close popped
close-popped back [] = refl
close-popped back (current ∷ under) = refl

-- An end at the end of the text changes nothing: it closes what the end of the text would close, and an
-- end without a start is ignored.
pub nest-end :
    (ts : List Token) (ref : Bytes)
    → nest (ts ++ Token.block_token BlockType.end ref ∷ []) ≡ nest ts
unfolding nest visit_all visit
nest-end ts ref =
    let bottom : Stack = record { back = Opcodes.nil; under = [] } in
    let top = visit_all bottom ts in
    ap (λ stack. close stack.back stack.under)
      (visit_all-append bottom ts (Token.block_token BlockType.end ref ∷ []))
    ∙ close-popped top.back top.under
