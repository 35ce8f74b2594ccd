-- ===== src/Markdown/Cutting.antt =====
-- The loops of scanBreakPoints and ChunkContent in internal/chunking/markdown/chunker.go.
use claude_mnemonic_plus.Prelude.{
  ℕ, suc, ◌+◌, ◌-◌, ◌≤◌, ◌<◌, ◌≡◌, refl, sym, ◌∙◌, ap, inl, inr, Bool, false, not, List, [], ◌∷◌,
  ◌++◌, length, All, arith, All-imp, Option-cases, Bool-cases, if◌then◌else◌, ltb, leb, map, take,
  take_all, drop,
}
use claude_mnemonic_plus.Markdown.{
  BreakPoint, Chunk, apply_decay, is_fence, base_score, scan_lines, scan_break_points, build_chunk,
  cut_chunks, join_lines,
}
use claude_mnemonic_plus.Markdown.Lines.{
  drop-drop, take-append-drop, length-drop, length-take_le, join_lines-cons, join_lines-append,
  All-if,
}

-- The chunks follow one another from line s to line e, and none is empty.
abbrev pub Tiles : ℕ → ℕ → List Chunk → Type 0
Tiles s e [] = s ≡ e
Tiles s e (c ∷ cs) = (c.start_line ≡ suc s) × (s < c.end_line) × Tiles c.end_line e cs

no_elements : (xs : List (List ℕ)) → length xs ≡ 0 → xs ≡ []
no_elements [] h = refl
no_elements (x ∷ xs) h = absurd (omega arith)

module _ (trim_space : List ℕ → List ℕ) (digits : ℕ → List ℕ) where
  scan_lines-bound :
      (t i : ℕ) (f : Bool) (lines : List (List ℕ))
      → All (λ b. b.line < i + length lines) (scan_lines trim_space digits t i f lines)
  unfolding scan_lines
  scan_lines-bound t i f [] = tt
  scan_lines-bound t i f (line ∷ lines) =
      let fence = is_fence (trim_space line) in
      let g = if fence then not f else f in
      let P : BreakPoint → Type 0 = λ b. b.line < i + suc (length lines) in
      let rest : All P (scan_lines trim_space digits t (suc i) g lines) =
        All-imp (scan_lines trim_space digits t (suc i) g lines) (λ b h. omega arith)
          (scan_lines-bound t (suc i) g lines) in
      let here : (score : ℕ)
          → All P (
              record { line = i; score = score } ∷ scan_lines trim_space digits t (suc i) g lines) =
        λ score. (omega arith, rest) in
      All-if P fence _ _ (All-if P f _ _ (here (apply_decay 80 i t)) rest) (
        All-if P f _ _ rest (elim (Option-cases (base_score (trim_space line))) [
          | inl e ↦ rw e rest
          | inr (base, e) ↦ rw e (here (apply_decay base i t))
        ]))

  pub scan_break_points-bound :
      (lines : List (List ℕ)) (t : ℕ)
      → All (λ b. b.line < length lines) (scan_break_points trim_space digits lines t)
  unfolding scan_break_points
  scan_break_points-bound lines t =
      All-imp (scan_break_points trim_space digits lines t) (λ b h. omega arith)
        (scan_lines-bound (if ltb 0 t then t else 80) 0 false lines)

  pub cut_chunks-Tiles :
      (lines : List (List ℕ)) (start idx : ℕ) (bps : List ℕ)
      → start ≤ length lines
      → All (λ b. b < length lines) bps
      → Tiles start (length lines) (cut_chunks trim_space digits lines start idx bps)
  unfolding cut_chunks build_chunk
  cut_chunks-Tiles lines start idx [] h a = elim (Bool-cases (ltb start (length lines))) [
    | inl more ↦ rw more (refl, ground arith, refl)
    | inr done ↦ rw done (ground arith)
  ]
  cut_chunks-Tiles lines start idx (bp ∷ bps) h a = elim (Bool-cases (leb bp start)) [
    | inl skip ↦ let rest = cut_chunks-Tiles lines start idx bps h a.1 in rw skip rest
    | inr cut ↦
        let rest = cut_chunks-Tiles lines bp (suc idx) bps (omega (arith, a.0)) a.1 in
        rw cut (refl, ground arith, rest)
  ]

  cut_chunks_some :
      (lines : List (List ℕ)) (start idx : ℕ) (bps : List ℕ)
      → start < length lines
      → All (λ b. b < length lines) bps
      → 0 < length (map (λ c. c.content) (cut_chunks trim_space digits lines start idx bps))
  unfolding cut_chunks
  cut_chunks_some lines start idx [] h a = ground arith
  cut_chunks_some lines start idx (bp ∷ bps) h a = elim (Bool-cases (leb bp start)) [
    | inl skip ↦ let rest = cut_chunks_some lines start idx bps h a.1 in rw skip rest
    | inr cut ↦ rw cut (omega arith)
  ]

  slice :
      (lines : List (List ℕ)) (start bp : ℕ)
      → start < bp
      → bp < length lines
      → join_lines (drop start lines)
        ≡ join_lines (take (bp - start) (drop start lines)) ++ (10 ∷ join_lines (drop bp lines))
  slice lines start bp h k =
      let front = take (bp - start) (drop start lines) in
      let back = drop bp lines in
      let split : front ++ back ≡ drop start lines =
        ap (λ l. front ++ l) (sym (drop-drop start bp lines (omega arith)))
        ∙ take-append-drop (bp - start) (drop start lines) in
      let n = length-drop start lines in
      let m = length-take_le (bp - start) (drop start lines) (omega arith) in
      let o = length-drop bp lines in
      sym (ap join_lines split) ∙ join_lines-append front back (omega arith) (omega arith)

  pub cut_chunks-join :
      (lines : List (List ℕ)) (start idx : ℕ) (bps : List ℕ)
      → start ≤ length lines
      → All (λ b. b < length lines) bps
      → join_lines (map (λ c. c.content) (cut_chunks trim_space digits lines start idx bps))
        ≡ join_lines (drop start lines)
  unfolding cut_chunks build_chunk
  cut_chunks-join lines start idx [] h a =
      let n = length-drop start lines in
      let whole = take_all (length lines - start) (drop start lines) (omega arith) in
      elim (Bool-cases (ltb start (length lines))) [
        | inl more ↦ rw more (unfold join_lines in ap join_lines whole)
        | inr done ↦
            let empty : drop start lines ≡ [] = no_elements (drop start lines) (ground arith) in
            rw (done, empty) refl
      ]
  cut_chunks-join lines start idx (bp ∷ bps) h a = elim (Bool-cases (leb bp start)) [
    | inl skip ↦ let rest = cut_chunks-join lines start idx bps h a.1 in rw skip rest
    | inr cut ↦
        let rest = cut_chunks-join lines bp (suc idx) bps (omega (arith, a.0)) a.1 in
        let some_left = cut_chunks_some lines bp (suc idx) bps a.0 a.1 in
        let here = join_lines (take (bp - start) (drop start lines)) in
        rw cut (
          join_lines-cons here _ some_left
          ∙ ap (λ l. here ++ (10 ∷ l)) rest
          ∙ sym (slice lines start bp (ground arith) a.0))
  ]
