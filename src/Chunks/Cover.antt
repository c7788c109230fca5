-- ===== src/Chunks/Cover.antt =====
-- What `mark_line` of libs/cov-core/src/cvg_info.cc makes of lines in ascending order.
use git2_cxx.Base.{
  ℕ, ◌+◌, ◌-◌, ◌%◌, ◌^◌, ◌==◌, ◌<◌, ◌≤◌, Bool, true, false, ◌&&◌, ◌||◌, List, [], ◌∷◌, ltb, leb,
  ◌≡◌, refl, arith, Bool-cases, inl, inr, ◌⊎◌, ltb→lt,
}
use mathlib.Core.Path.{subst}
use git2_cxx.Chunks.{Chunk, chunk_start, chunk_stop, mark_line, mark_lines}

-- Lines in ascending order, from a line on, that leave room for the ends of their chunks.
unfoldable pub AscendsFrom : ℕ → List ℕ → Type 0
AscendsFrom low [] = true ≡ true
AscendsFrom low (line ∷ lines) = (low ≤ line) × ((line + 6 < 2 ^ 32) × AscendsFrom line lines)

unfoldable pub holds : List ℕ → ℕ → Bool
holds [] line = false
holds (other ∷ lines) line = other == line || holds lines line

unfoldable pub in_chunks : List Chunk → ℕ → Bool
in_chunks [] line = false
in_chunks ((start, stop) ∷ chunks) line = (leb start line && leb line stop) || in_chunks chunks line

-- More than three lines are between a chunk and the one behind it.
unfoldable pub IsApart : List Chunk → Type 0
IsApart [] = true ≡ true
IsApart (chunk ∷ []) = chunk.0 ≤ chunk.1
IsApart (chunk ∷ (older ∷ chunks)) =
    (chunk.0 ≤ chunk.1) × ((older.1 + 3 < chunk.0) × IsApart (older ∷ chunks))

-- The last chunk began before a line, and ends at most three lines behind it.
abbrev Reaches : ℕ → List Chunk → Type 0
Reaches low [] = true ≡ true
Reaches low (chunk ∷ chunks) = (chunk.0 ≤ low) × ((chunk.1 ≤ low + 3) × (low + 6 < 2 ^ 32))

chunk_start_lem : (line : ℕ) → chunk_start line ≡ line - 3
chunk_start_lem line = ground arith

chunk_stop_lem : (line : ℕ) → line + 6 < 2 ^ 32 → chunk_stop line ≡ line + 3
chunk_stop_lem line fits = omega arith

-- A line opens a chunk, or is put into the last one.
mark_line_cases :
    (start stop : ℕ) (chunks : List Chunk) (line low : ℕ)
    → line + 6 < 2 ^ 32
    → Reaches low ((start, stop) ∷ chunks)
    → ((stop + 3 < line - 3)
        × (mark_line ((start, stop) ∷ chunks) line ≡ (line - 3, line + 3) ∷ (start, stop) ∷ chunks))
      ⊎ (mark_line ((start, stop) ∷ chunks) line ≡ (start, line + 3) ∷ chunks)
unfolding mark_line
mark_line_cases start stop chunks line low fits reach =
    let near : (stop + 3) % 2 ^ 32 ≡ stop + 3 = omega (arith, reach.1.0, reach.1.1) in
    elim (Bool-cases (ltb (stop + 3) (line - 3))) [
      | inl e ↦ inl (
        ltb→lt (stop + 3) (line - 3) e,
        rw (near, chunk_start_lem line, e, chunk_stop_lem line fits) refl,
      )
      | inr e ↦ inr (rw (near, chunk_start_lem line, e, chunk_stop_lem line fits) refl)
    ]

mark_first : (line : ℕ) → line + 6 < 2 ^ 32 → mark_line [] line ≡ (line - 3, line + 3) ∷ []
unfolding mark_line
mark_first line fits = rw (chunk_start_lem line, chunk_stop_lem line fits) refl

module _ (line low : ℕ) (fits : line + 6 < 2 ^ 32) (later : low ≤ line) where
  mark_line-Reaches :
      (chunks : List Chunk) → Reaches low chunks → Reaches line (mark_line chunks line)
  mark_line-Reaches [] k = rw (mark_first line fits) (omega arith, (omega arith, fits))
  mark_line-Reaches ((start, stop) ∷ chunks) k =
      elim (mark_line_cases start stop chunks line low fits k) [
        | inl e ↦ rw e.1 (omega arith, (omega arith, fits))
        | inr e ↦ rw e (omega (arith, k.0), (omega arith, fits))
      ]

  mark_line-own :
      (chunks : List Chunk) → Reaches low chunks → in_chunks (mark_line chunks line) line ≡ true
  unfolding in_chunks
  mark_line-own [] k = rw (mark_first line fits) (ground arith)
  mark_line-own ((start, stop) ∷ chunks) k =
      elim (mark_line_cases start stop chunks line low fits k) [
        | inl e ↦ rw e.1 (ground arith)
        | inr e ↦ rw e (ground (arith, k.0))
      ]

  mark_line-keeps :
      (chunks : List Chunk) (other : ℕ)
      → Reaches low chunks
      → in_chunks chunks other ≡ true
      → in_chunks (mark_line chunks line) other ≡ true
  unfolding in_chunks
  mark_line-keeps [] other k e = absurd (ground (arith, e))
  mark_line-keeps ((start, stop) ∷ chunks) other k e =
      elim (mark_line_cases start stop chunks line low fits k) [
        | inl f ↦ rw f.1 (ground (arith, e))
        | inr f ↦ rw f (ground (arith, e, k.1.0))
      ]

  mark_line-IsApart :
      (chunks : List Chunk) → Reaches low chunks → IsApart chunks → IsApart (mark_line chunks line)
  unfolding IsApart
  mark_line-IsApart [] k apart = rw (mark_first line fits) (omega arith)
  mark_line-IsApart ((start, stop) ∷ []) k apart =
      elim (mark_line_cases start stop [] line low fits k) [
        | inl e ↦ rw e.1 (omega arith, (e.0, apart))
        | inr e ↦ rw e (omega (arith, k.0))
      ]
  mark_line-IsApart ((start, stop) ∷ (older ∷ chunks)) k apart =
      elim (mark_line_cases start stop (older ∷ chunks) line low fits k) [
        | inl e ↦ rw e.1 (omega arith, (e.0, apart))
        | inr e ↦ rw e (omega (arith, k.0), apart.1)
      ]

-- The lines that are marked in ascending order are in the chunks, and those of older chunks stay.
pub mark_lines-covers :
    (lines : List ℕ) (chunks : List Chunk) (low line : ℕ)
    → AscendsFrom low lines
    → Reaches low chunks
    → (in_chunks chunks line || holds lines line) ≡ true
    → in_chunks (mark_lines chunks lines) line ≡ true
unfolding mark_lines holds AscendsFrom
mark_lines-covers [] chunks low line asc k e = ground (arith, e)
mark_lines-covers (m ∷ lines) chunks low line asc k e =
    let next =
      mark_lines-covers lines (mark_line chunks m) m line asc.1.1
        (mark_line-Reaches m low asc.1.0 asc.0 chunks k) in
    let own = mark_line-own m low asc.1.0 asc.0 chunks k in
    let keeps = mark_line-keeps m low asc.1.0 asc.0 chunks line k in
    elim (Bool-cases (m == line)) [
      | inl f ↦
          let same : m ≡ line = ground (arith, f) in
          let here = subst (λ l. in_chunks (mark_line chunks m) l ≡ true) same own in
          next (ground (arith, here))
      | inr f ↦ next (ground (arith, e, f, keeps))
    ]

pub mark_lines-IsApart :
    (lines : List ℕ) (chunks : List Chunk) (low : ℕ)
    → AscendsFrom low lines
    → Reaches low chunks
    → IsApart chunks
    → IsApart (mark_lines chunks lines)
unfolding mark_lines AscendsFrom
mark_lines-IsApart [] chunks low asc k apart = apart
mark_lines-IsApart (m ∷ lines) chunks low asc k apart =
    mark_lines-IsApart lines (mark_line chunks m) m asc.1.1
      (mark_line-Reaches m low asc.1.0 asc.0 chunks k)
      (mark_line-IsApart m low asc.1.0 asc.0 chunks k apart)
