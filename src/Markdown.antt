-- ===== src/Markdown.antt =====
-- internal/chunking/markdown/chunker.go: the chunks of a Markdown file. The lines that bufio.Scanner
-- finds are an input, texts are lists of bytes, and strings.TrimSpace and the decimal digits of a
-- number are parameters. The scores, which the source has in float64, are multiplied by
-- 10 * targetSize * targetSize, which makes them natural numbers.
pub mod Sorting
pub mod Picking
pub mod Breaks
pub mod Lines
pub mod Cutting
pub mod Chunks
mod Tests
use claude_mnemonic_plus.Prelude.{
  ℕ, zero, suc, ◌+◌, ◌-◌, ◌*◌, ◌/◌, ◌%◌, Bool, true, false, not, ◌||◌, List, [], ◌∷◌, ◌++◌, Option,
  none, some, length, take, drop, ltb, leb, ◌==◌, if◌then◌else◌, has_prefix, cut_prefix, bytes_eq,
  codes,
}

-- breakPoint
pub record BreakPoint : Type 0 where
  pub line : ℕ
  pub score : ℕ

-- chunking.Chunk, with the fields that buildChunk sets to something of the file.
pub record Chunk : Type 0 where
  pub name : List ℕ
  pub content : List ℕ
  pub start_line : ℕ
  pub end_line : ℕ

abbrev pub default_target_size : ℕ
default_target_size = 80

-- A code fence's delimiter.
unfoldable pub is_fence : List ℕ → Bool
is_fence trimmed = has_prefix (codes "```") trimmed || has_prefix (codes "~~~") trimmed

-- The switch of scanBreakPoints, `none` for its `continue`.
unfoldable pub base_score : List ℕ → Option ℕ
base_score trimmed =
    if has_prefix (codes "# ") trimmed
    then some 100
    else if has_prefix (codes "## ") trimmed
    then some 90
    else if has_prefix (codes "### ") trimmed
        || (has_prefix (codes "#### ") trimmed
            || (has_prefix (codes "##### ") trimmed || has_prefix (codes "###### ") trimmed))
    then some 80
    else if bytes_eq trimmed (codes "---")
        || (bytes_eq trimmed (codes "***") || bytes_eq trimmed (codes "___"))
    then some 60
    else if bytes_eq trimmed []
    then some 20
    else none

-- The distance to the nearest multiple of targetSize.
unfoldable pub boundary_distance : ℕ → ℕ → ℕ
boundary_distance i t = if ltb (t / 2) (i % t) then t - i % t else i % t

-- applyDecay, 10 * t * t times: 1 - (d / (t / 2)) ^ 2 * 0.7, and 0.3 at least.
unfoldable pub apply_decay : ℕ → ℕ → ℕ → ℕ
apply_decay base i t =
    let d = boundary_distance i t in
    let decay = 10 * (t * t) - 28 * (d * d) in
    if ltb decay (3 * (t * t)) then base * (3 * (t * t)) else base * decay

-- The target size of ChunkContent, from the option MaxChunkSize.
unfoldable pub target_size : ℕ → ℕ
target_size max_chunk_size =
    if ltb 0 max_chunk_size
    then (if ltb (max_chunk_size / 80) 10 then 10 else max_chunk_size / 80)
    else default_target_size

-- A pass of the inner loop of selectBreaks: the element at i, and those after it.
unfoldable pub exchange : {A : Type 0} → (A → A → Bool) → A → List A → A × List A
exchange before x [] = (x, [])
exchange before x (y ∷ ys) =
    let rest = exchange before (if before y x then y else x) ys in
    (rest.0, (if before y x then x else y) ∷ rest.1)

-- Both loops: i takes as many values as there are elements.
unfoldable pub exchange_sort : {A : Type 0} → (A → A → Bool) → ℕ → List A → List A
exchange_sort before zero xs = xs
exchange_sort before (suc n) [] = []
exchange_sort before (suc n) (x ∷ xs) =
    let pass = exchange before x xs in pass.0 ∷ exchange_sort before n pass.1

-- The order of the candidates: by score, the highest first, and by line.
unfoldable pub better : BreakPoint → BreakPoint → Bool
better b a =
    if ltb a.score b.score then true else if b.score == a.score then ltb b.line a.line else false

-- absInt of the difference
unfoldable pub distance : ℕ → ℕ → ℕ
distance a b = if ltb a b then b - a else a - b

-- The loop over the selected lines.
unfoldable pub too_close : ℕ → ℕ → List ℕ → Bool
too_close gap l [] = false
too_close gap l (s ∷ ss) =
    let rest = too_close gap l ss in if ltb (distance l s) gap then true else rest

-- The loop over the sorted candidates.
unfoldable pub pick_breaks : ℕ → List ℕ → List BreakPoint → List ℕ
pick_breaks gap selected [] = selected
pick_breaks gap selected (b ∷ bs) =
    let next = if too_close gap b.line selected then selected else selected ++ (b.line ∷ []) in
    pick_breaks gap next bs

unfoldable pub min_gap : ℕ → ℕ
min_gap t = if ltb (t / 2) 5 then 5 else t / 2

-- selectBreaks
unfoldable pub select_breaks : List BreakPoint → ℕ → List ℕ
select_breaks points t =
    let picked = pick_breaks (min_gap t) [] (exchange_sort better (length points) points) in
    exchange_sort ltb (length picked) picked

-- strings.Join with a newline
unfoldable pub join_lines : List (List ℕ) → List ℕ
join_lines [] = []
join_lines (x ∷ []) = x
join_lines (x ∷ y ∷ ys) = x ++ (10 ∷ join_lines (y ∷ ys))

module _ (trim_space : List ℕ → List ℕ) (digits : ℕ → List ℕ) where
  -- The loop of scanBreakPoints, from line i on.
  unfoldable pub scan_lines : ℕ → ℕ → Bool → List (List ℕ) → List BreakPoint
  scan_lines t i in_fence [] = []
  scan_lines t i in_fence (line ∷ lines) =
      let trimmed = trim_space line in
      let fence = is_fence trimmed in
      let rest = scan_lines t (suc i) (if fence then not in_fence else in_fence) lines in
      if fence
      then (if in_fence then record { line = i; score = apply_decay 80 i t } ∷ rest else rest)
      else if in_fence
      then rest
      else elim (base_score trimmed) [
        | none ↦ rest
        | some base ↦ record { line = i; score = apply_decay base i t } ∷ rest
      ]

  -- scanBreakPoints
  unfoldable pub scan_break_points : List (List ℕ) → ℕ → List BreakPoint
  scan_break_points lines t = scan_lines (if ltb 0 t then t else default_target_size) 0 false lines

  -- The loop of extractHeading over the prefixes.
  unfoldable pub heading_of : List (List ℕ) → List ℕ → Option (List ℕ)
  heading_of [] trimmed = none
  heading_of (p ∷ ps) trimmed = elim (cut_prefix p trimmed) [
    | some text ↦ some text
    | none ↦ heading_of ps trimmed
  ]

  -- extractHeading
  unfoldable pub extract_heading : List (List ℕ) → List ℕ
  extract_heading [] = []
  extract_heading (line ∷ lines) =
      let prefixes = codes "# " ∷ codes "## " ∷ codes "### " ∷ codes "#### " ∷ [] in
      let rest = extract_heading lines in
      elim (heading_of prefixes (trim_space line)) [ some text ↦ text | none ↦ rest ]

  -- The name of a chunk.
  unfoldable pub chunk_name : List (List ℕ) → ℕ → List ℕ
  chunk_name lines idx =
      let heading = extract_heading lines in
      if bytes_eq heading [] then codes "untitled-" ++ digits (suc idx) else heading

  -- buildChunk
  unfoldable pub build_chunk : List (List ℕ) → ℕ → ℕ → ℕ → Chunk
  build_chunk lines start end idx =
      let chunk_lines = take (end - start) (drop start lines) in
      record {
        name = chunk_name chunk_lines idx;
        content = join_lines chunk_lines;
        start_line = suc start;
        end_line = end;
      }

  -- The loop of ChunkContent over the breaks, and the final chunk.
  unfoldable pub cut_chunks : List (List ℕ) → ℕ → ℕ → List ℕ → List Chunk
  cut_chunks lines start idx [] =
      if ltb start (length lines) then build_chunk lines start (length lines) idx ∷ [] else []
  cut_chunks lines start idx (bp ∷ bps) =
      let skip = leb bp start in
      let rest =
        cut_chunks lines (if skip then start else bp) (if skip then idx else suc idx) bps in
      if skip then rest else build_chunk lines start bp idx ∷ rest

  -- ChunkContent from the candidates on: without one the whole content is a chunk.
  unfoldable pub chunks_at : List ℕ → List (List ℕ) → ℕ → List BreakPoint → List Chunk
  chunks_at content lines t [] =
      record {
        name = chunk_name lines 0;
        content = content;
        start_line = 1;
        end_line = length lines;
      }
      ∷ []
  chunks_at content lines t (p ∷ ps) = cut_chunks lines 0 0 (select_breaks (p ∷ ps) t)

  -- ChunkContent
  unfoldable pub chunk_content : ℕ → List ℕ → List (List ℕ) → List Chunk
  chunk_content max_chunk_size content lines =
      let t = target_size max_chunk_size in
      if bytes_eq content [] then [] else chunks_at content lines t (scan_break_points lines t)
