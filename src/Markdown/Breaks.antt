-- ===== src/Markdown/Breaks.antt =====
-- Which of the candidates selectBreaks of internal/chunking/markdown/chunker.go selects.
use mathlib.Core.List.{Memᴰ}
use mathlib.Core.List.Memᴰ as Memᴰ
use claude_mnemonic_plus.Prelude.{
  dec_lt, ◌⊎◌, ℕ, ◌+◌, ◌≤◌, ◌<◌, ◌≡◌, refl, sym, inl, inr, true, false, List, [], ◌∷◌, ◌++◌, length,
  All, arith, Bool-cases, if◌then◌else◌, subst, ltb,
}
use claude_mnemonic_plus.Markdown.{
  BreakPoint, better, distance, too_close, pick_breaks, min_gap, exchange_sort, select_breaks,
}
use claude_mnemonic_plus.Markdown.Sorting.{
  Pairs, mem-exchange_sort, exchange_sort-mem, exchange_sort-Pairs, IsSorted,
  exchange_sort-IsSorted,
}
use claude_mnemonic_plus.Markdown.Picking.{
  too_close-some, IsApart, pick_breaks-IsApart, mem-pick_breaks, pick_breaks-mem, better_irrefl,
  distance_self,
}

-- A selected candidate that is as good as b, and near it.
pub record Stands (gap : ℕ) (points : List BreakPoint) (picked : List ℕ) (b : BreakPoint)
    : Type 0 where
  pub by_point : BreakPoint
  pub candidate : Memᴰ by_point points
  pub selected : Memᴰ (by_point.line) picked
  pub near : distance b.line by_point.line < gap
  pub as_good : (b.score < by_point.score) ⊎ ((b.score ≡ by_point.score) × (by_point.line ≤ b.line))

better-false :
    (b c : BreakPoint)
    → better b c ≡ false
    → (b.score < c.score) ⊎ ((b.score ≡ c.score) × (c.line ≤ b.line))
unfolding better
better-false b c h = elim (dec_lt b.score c.score) [
  | yes less ↦ inl less
  | no ne ↦ inr (ground arith, ground arith)
]

module _ (gap : ℕ) (points : List BreakPoint) (room : 0 < gap) where
  -- The candidates whose lines are selected are as good as those that remain.
  abbrev HasOrigins : List ℕ → List BreakPoint → Type 0
  HasOrigins sel bs =
      (s : ℕ)
      → Memᴰ s sel
      → (c : BreakPoint) × Memᴰ c points × (c.line ≡ s) × All (λ b. better b c ≡ false) bs

  pick_breaks-Stands :
      (sel : List ℕ) (bs : List BreakPoint)
      → IsSorted better bs
      → ((c : BreakPoint) → Memᴰ c bs → Memᴰ c points)
      → HasOrigins sel bs
      → (b : BreakPoint) → Memᴰ b bs
      → Stands gap points (pick_breaks gap sel bs) b
  unfolding pick_breaks
  pick_breaks-Stands sel [] sorted sub org b m = elim m [ ]
  pick_breaks-Stands sel (b ∷ bs) sorted sub org c m =
      let next = if too_close gap b.line sel then sel else sel ++ (b.line ∷ []) in
      let kept : HasOrigins sel bs = λ s k. let (d, k1, e, good) = org s k in (d, k1, e, good.1) in
      let org1 : HasOrigins next bs = elim (Bool-cases (too_close gap b.line sel)) [
        | inl near ↦ rw near kept
        | inr far ↦ rw far (λ s k. elim (Memᴰ.append_cases sel k) [
          | inl old ↦ kept s old
          | inr new ↦ (b, sub b (Memᴰ.head refl), sym (Memᴰ.eq_of_singleton new), sorted.0)
        ])
      ] in
      let sub1 : (d : BreakPoint) → Memᴰ d bs → Memᴰ d points = λ d k. sub d (Memᴰ.tail k) in
      elim m [
        | Memᴰ.tail k ↦ pick_breaks-Stands next bs sorted.1 sub1 org1 c k
        | Memᴰ.head e ↦ elim (Bool-cases (too_close gap b.line sel)) [
          | inl near ↦
              let (s, k, close) = too_close-some gap b.line sel near in
              let (d, k1, e1, good) = org s k in
              record {
                by_point = d;
                candidate = k1;
                selected =
                    mem-pick_breaks gap next bs d.line
                      (rw near (subst (λ v. Memᴰ v sel) (sym e1) k));
                near = ground (arith, close, e1, e);
                as_good = better-false c d (ground (arith, good.0, e));
              }
          | inr far ↦ record {
            by_point = b;
            candidate = sub b (Memᴰ.head refl);
            selected =
                mem-pick_breaks gap next bs b.line
                  (rw far (Memᴰ.append_right sel (Memᴰ.head refl)));
            near = ground (arith, distance_self b.line, e);
            as_good = better-false c b (ground (arith, better_irrefl b, e));
          }
        ]
      ]

better_later : (a b c : BreakPoint) → better b a ≡ false → better c b ≡ false → better c a ≡ false
unfolding better
better_later a b c h k = ground arith

better_asym : (a b : BreakPoint) → better a b ≡ true → better b a ≡ false
unfolding better
better_asym a b h = ground arith

distance_comm : (gap a b : ℕ) → gap ≤ distance a b → gap ≤ distance b a
unfolding distance
distance_comm gap a b h = ground arith

later_apart :
    (gap a : ℕ) (xs : List ℕ)
    → All (λ b. ltb b a ≡ false) xs
    → All (λ b. gap ≤ distance a b) xs
    → All (λ b. a + gap ≤ b) xs
unfolding distance
later_apart gap a [] s d = tt
later_apart gap a (b ∷ xs) s d = (ground (arith, s.0, d.0), later_apart gap a xs s.1 d.1)

sorted_apart :
    (gap : ℕ) (xs : List ℕ) → IsSorted ltb xs → IsApart gap xs → Pairs (λ a b. a + gap ≤ b) xs
sorted_apart gap [] s d = tt
sorted_apart gap (x ∷ xs) s d = (later_apart gap x xs s.0 d.0, sorted_apart gap xs s.1 d.1)

-- The greedy choice: what is selected, and why the rest is not.
pub record IsGreedy (gap : ℕ) (points : List BreakPoint) (selected : List ℕ) : Type 0 where
  pub in_order : Pairs (λ a b. a + gap ≤ b) selected
  pub from_points : (s : ℕ) → Memᴰ s selected → (b : BreakPoint) × Memᴰ b points × (b.line ≡ s)
  pub stands : (b : BreakPoint) → Memᴰ b points → Stands gap points selected b

min_gap-positive : (t : ℕ) → 5 ≤ min_gap t
unfolding min_gap
min_gap-positive t = ground arith

-- selectBreaks selects lines of candidates, in ascending order and at least half of the target
-- size and five lines apart, and it leaves out a candidate only where it selects a candidate that
-- is nearer than that, and whose score is at least as high (for the same score, whose line is not
-- later).
pub select_breaks-IsGreedy :
    (points : List BreakPoint) (t : ℕ) → IsGreedy (min_gap t) points (select_breaks points t)
unfolding select_breaks
select_breaks-IsGreedy points t =
    let gap = min_gap t in
    let n = length points in
    let sorted = exchange_sort better n points in
    let picked = pick_breaks gap [] sorted in
    let apart = pick_breaks-IsApart gap [] sorted tt in
    let order =
      exchange_sort-IsSorted better better_later better_asym better_irrefl n points (omega arith) in
    record {
      in_order =
          sorted_apart gap (exchange_sort ltb (length picked) picked)
            (exchange_sort-IsSorted ltb (λ a b c h k. ground arith) (λ a b h. ground arith)
              (λ a. ground arith) (length picked) picked (omega arith))
            (exchange_sort-Pairs ltb (λ a b. gap ≤ distance a b) (distance_comm gap) (length picked)
              picked apart);
      from_points = λ s m.
          elim (pick_breaks-mem gap [] sorted s
            (exchange_sort-mem ltb (length picked) picked s m)) [
              | inl k ↦ elim k [ ]
              | inr (b, k, e) ↦ (b, exchange_sort-mem better n points b k, e)
            ];
      stands = λ b m.
          let st =
            pick_breaks-Stands gap points (omega (arith, min_gap-positive t)) [] sorted order
              (exchange_sort-mem better n points) (λ s k. elim k [ ]) b
              (mem-exchange_sort better n points b m) in
          record {
            by_point = st.by_point;
            candidate = st.candidate;
            selected = mem-exchange_sort ltb (length picked) picked st.by_point.line st.selected;
            near = st.near;
            as_good = st.as_good;
          };
    }
