-- ===== src/Markdown/Tests.antt =====
-- A document with two headings, and the theorems at it.
use claude_mnemonic_plus.Prelude.{
  ℕ, ◌+◌, ◌≡◌, refl, List, [], ◌∷◌, map, has_prefix, cut_prefix, bytes_eq, codes, arith,
}
use claude_mnemonic_plus.Markdown.{
  is_fence, base_score, boundary_distance, apply_decay, target_size, exchange, exchange_sort,
  better, distance, too_close, pick_breaks, min_gap, select_breaks, join_lines, scan_lines,
  scan_break_points, heading_of, extract_heading, chunk_name, build_chunk, cut_chunks, chunks_at,
  chunk_content,
}
use claude_mnemonic_plus.Markdown.Breaks.{IsGreedy, select_breaks-IsGreedy}
use claude_mnemonic_plus.Markdown.Cutting.{Tiles}
use claude_mnemonic_plus.Markdown.Chunks.{chunk_content-Tiles, chunk_content-join}

program : Unit {0}
unfolding is_fence base_score boundary_distance apply_decay target_size exchange exchange_sort
    better distance too_close pick_breaks min_gap select_breaks join_lines scan_lines
    scan_break_points heading_of extract_heading chunk_name build_chunk cut_chunks chunks_at
    chunk_content has_prefix cut_prefix bytes_eq
program = tt

abbrev trimmed : List ℕ → List ℕ
trimmed s = s

abbrev digit : ℕ → List ℕ
digit n = (48 + n) ∷ []

abbrev document : List (List ℕ)
document =
    codes "# a"
    ∷ codes "x"
    ∷ codes "```"
    ∷ codes "# no"
    ∷ codes "```"
    ∷ codes "y"
    ∷ codes "# b"
    ∷ codes "z"
    ∷ []

abbrev text : List ℕ
text = codes "any"

-- The heading in the fence is no candidate.
candidates : map (λ b. b.line) (scan_break_points trimmed digit document 10) ≡ 0 ∷ 4 ∷ 6 ∷ []
unfolding program
candidates = refl

-- The fence's end is too near to both.
two_chunks :
    map {B = List ℕ × ℕ × ℕ}
      (λ c. (c.name, c.start_line, c.end_line))
      (chunk_content trimmed digit 800 text document)
    ≡ (codes "a", 1, 6) ∷ (codes "b", 7, 8) ∷ []
unfolding program
two_chunks = refl

select_breaks-IsGreedy_example :
    IsGreedy
      (min_gap 10)
      (scan_break_points trimmed digit document 10)
      (select_breaks (scan_break_points trimmed digit document 10) 10)
select_breaks-IsGreedy_example =
    select_breaks-IsGreedy (scan_break_points trimmed digit document 10) 10

chunk_content-Tiles_example : Tiles 0 8 (chunk_content trimmed digit 800 text document)
unfolding program
chunk_content-Tiles_example = chunk_content-Tiles trimmed digit 800 text document refl (omega arith)

chunk_content-join_example :
    join_lines (map (λ c. c.content) (chunk_content trimmed digit 800 text document))
    ≡ join_lines document
unfolding program
chunk_content-join_example = chunk_content-join trimmed digit 800 text document refl

untitled :
    map (λ c. c.name) (chunk_content trimmed digit 0 text (codes "x" ∷ []))
    ≡ codes "untitled-1" ∷ []
unfolding program
untitled = refl
