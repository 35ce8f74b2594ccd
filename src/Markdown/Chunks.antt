-- ===== src/Markdown/Chunks.antt =====
-- The chunks of ChunkContent in internal/chunking/markdown/chunker.go against the lines.
use claude_mnemonic_plus.Prelude.{
  ℕ, ◌<◌, ◌≡◌, refl, ◌∙◌, false, List, [], ◌∷◌, length, All, arith, if◌then◌else◌, subst, ltb, map,
  bytes_eq,
}
use claude_mnemonic_plus.Markdown.{
  BreakPoint, scan_break_points, chunks_at, chunk_content, join_lines, target_size, select_breaks,
}
use claude_mnemonic_plus.Markdown.Sorting.{All-of_mem, mem-All}
use claude_mnemonic_plus.Markdown.Breaks.{select_breaks-IsGreedy}
use claude_mnemonic_plus.Markdown.Cutting.{
  Tiles, scan_break_points-bound, cut_chunks-Tiles, cut_chunks-join,
}

module _ (trim_space : List ℕ → List ℕ) (digits : ℕ → List ℕ) where
  -- The lines that selectBreaks selects are lines of the document.
  select_breaks-bound :
      (points : List BreakPoint) (t n : ℕ)
      → All (λ b. b.line < n) points
      → All (λ s. s < n) (select_breaks points t)
  select_breaks-bound points t n h =
      All-of_mem (λ s. s < n) (select_breaks points t)
        (λ s m.
          let (b, k, e) = (select_breaks-IsGreedy points t).from_points s m in
          subst (λ v. v < n) e (mem-All (λ c. c.line < n) points h b k))

  chunks_at-Tiles :
      (content : List ℕ) (lines : List (List ℕ)) (t : ℕ) (points : List BreakPoint)
      → 0 < length lines
      → All (λ b. b.line < length lines) points
      → Tiles 0 (length lines) (chunks_at trim_space digits content lines t points)
  unfolding chunks_at
  chunks_at-Tiles content lines t [] h a = (refl, h, refl)
  chunks_at-Tiles content lines t (p ∷ ps) h a =
      cut_chunks-Tiles trim_space digits lines 0 0 (select_breaks (p ∷ ps) t) (omega arith)
        (select_breaks-bound (p ∷ ps) t (length lines) a)

  chunks_at-join :
      (content : List ℕ) (lines : List (List ℕ)) (t : ℕ) (points : List BreakPoint)
      → All (λ b. b.line < length lines) points
      → join_lines (map (λ c. c.content) (chunks_at trim_space digits content lines t points))
        ≡ (if ltb 0 (length points) then join_lines lines else content)
  unfolding chunks_at
  chunks_at-join content lines t [] a = unfold join_lines in refl
  chunks_at-join content lines t (p ∷ ps) a =
      cut_chunks-join trim_space digits lines 0 0 (select_breaks (p ∷ ps) t) (omega arith)
        (select_breaks-bound (p ∷ ps) t (length lines) a)
      ∙ ground arith

  -- The chunks of a document that is not empty and has at least one line follow one another from
  -- its first line to its last one, so that each line is in one chunk, and no chunk is empty.
  pub chunk_content-Tiles :
      (max_chunk_size : ℕ) (content : List ℕ) (lines : List (List ℕ))
      → bytes_eq content [] ≡ false
      → 0 < length lines
      → Tiles 0 (length lines) (chunk_content trim_space digits max_chunk_size content lines)
  unfolding chunk_content
  chunk_content-Tiles m content lines h k =
      let t = target_size m in
      rw h (
        chunks_at-Tiles content lines t (scan_break_points trim_space digits lines t) k
          (scan_break_points-bound trim_space digits lines t))

  -- If a document is not empty, the contents of its chunks, joined by newlines, are its lines
  -- joined by newlines, or its whole content where it has no candidate to break at.
  pub chunk_content-join :
      (max_chunk_size : ℕ) (content : List ℕ) (lines : List (List ℕ))
      → bytes_eq content [] ≡ false
      → join_lines
          (map (λ c. c.content) (chunk_content trim_space digits max_chunk_size content lines))
        ≡ (if ltb 0
              (length (scan_break_points trim_space digits lines (target_size max_chunk_size)))
            then join_lines lines
            else content)
  unfolding chunk_content
  chunk_content-join m content lines h =
      let t = target_size m in
      rw h (
        chunks_at-join content lines t (scan_break_points trim_space digits lines t)
          (scan_break_points-bound trim_space digits lines t))
