-- ===== src/Markdown/Picking.antt =====
-- The loop over the candidates in selectBreaks of internal/chunking/markdown/chunker.go.
use mathlib.Core.List.{Memᴰ}
use mathlib.Core.List.Memᴰ as Memᴰ
use claude_mnemonic_plus.Prelude.{
  ℕ, ◌≤◌, ◌<◌, ◌≡◌, refl, sym, inl, inr, ◌⊎◌, true, false, List, [], ◌∷◌, ◌++◌, All, arith,
  Bool-cases, if◌then◌else◌, subst, ltb, All-append,
}
use claude_mnemonic_plus.Markdown.{BreakPoint, better, distance, too_close, pick_breaks}
use claude_mnemonic_plus.Markdown.Sorting.{Pairs}

too_close-All :
    (gap l : ℕ) (ss : List ℕ) → too_close gap l ss ≡ false → All (λ s. gap ≤ distance s l) ss
unfolding too_close distance
too_close-All gap l [] h = tt
too_close-All gap l (s ∷ ss) h = (ground arith, too_close-All gap l ss (ground arith))

pub too_close-some :
    (gap l : ℕ) (ss : List ℕ)
    → too_close gap l ss ≡ true
    → (s : ℕ) × Memᴰ s ss × (distance l s < gap)
unfolding too_close
too_close-some gap l [] h = absurd cc
too_close-some gap l (s ∷ ss) h = elim (Bool-cases (ltb (distance l s) gap)) [
  | inl near ↦ (s, Memᴰ.head refl, ground arith)
  | inr far ↦ let (u, m, near) = too_close-some gap l ss (ground arith) in (u, Memᴰ.tail m, near)
]

-- Lines that are a gap apart.
abbrev pub IsApart : ℕ → List ℕ → Type 0
IsApart gap = Pairs (λ a b. gap ≤ distance a b)

pub snoc-IsApart :
    (gap l : ℕ) (ss : List ℕ)
    → IsApart gap ss
    → All (λ s. gap ≤ distance s l) ss
    → IsApart gap (ss ++ (l ∷ []))
snoc-IsApart gap l [] h a = (tt, tt)
snoc-IsApart gap l (s ∷ ss) h a =
    (All-append (λ b. gap ≤ distance s b) ss (l ∷ []) h.0 (a.0, tt), snoc-IsApart gap l ss h.1 a.1)

pub pick_breaks-IsApart :
    (gap : ℕ) (sel : List ℕ) (bs : List BreakPoint)
    → IsApart gap sel
    → IsApart gap (pick_breaks gap sel bs)
unfolding pick_breaks
pick_breaks-IsApart gap sel [] h = h
pick_breaks-IsApart gap sel (b ∷ bs) h =
    pick_breaks-IsApart gap (if too_close gap b.line sel then sel else sel ++ (b.line ∷ [])) bs
      (elim (Bool-cases (too_close gap b.line sel)) [
        | inl near ↦ rw near h
        | inr far ↦ rw far (snoc-IsApart gap b.line sel h (too_close-All gap b.line sel far))
      ])

pub mem-pick_breaks :
    (gap : ℕ) (sel : List ℕ) (bs : List BreakPoint) (s : ℕ)
    → Memᴰ s sel
    → Memᴰ s (pick_breaks gap sel bs)
unfolding pick_breaks
mem-pick_breaks gap sel [] s m = m
mem-pick_breaks gap sel (b ∷ bs) s m =
    mem-pick_breaks gap (if too_close gap b.line sel then sel else sel ++ (b.line ∷ [])) bs s
      (elim (Bool-cases (too_close gap b.line sel)) [
        | inl near ↦ rw near m
        | inr far ↦ rw far (Memᴰ.append_left (b.line ∷ []) m)
      ])

-- A selected line is that of a candidate.
pub pick_breaks-mem :
    (gap : ℕ) (sel : List ℕ) (bs : List BreakPoint) (s : ℕ)
    → Memᴰ s (pick_breaks gap sel bs)
    → Memᴰ s sel ⊎ ((b : BreakPoint) × Memᴰ b bs × (b.line ≡ s))
unfolding pick_breaks
pick_breaks-mem gap sel [] s m = inl m
pick_breaks-mem gap sel (b ∷ bs) s m =
    let next = if too_close gap b.line sel then sel else sel ++ (b.line ∷ []) in
    elim (pick_breaks-mem gap next bs s m) [
      | inr (c, k, e) ↦ inr (c, Memᴰ.tail k, e)
      | inl k ↦ elim (Bool-cases (too_close gap b.line sel)) [
        | inl near ↦ let e : next ≡ sel = rw near refl in inl (subst (Memᴰ s) e k)
        | inr far ↦
            let e : next ≡ sel ++ (b.line ∷ []) = rw far refl in
            elim (Memᴰ.append_cases sel (subst (Memᴰ s) e k)) [
              | inl old ↦ inl old
              | inr new ↦ inr (b, Memᴰ.head refl, sym (Memᴰ.eq_of_singleton new))
            ]
      ]
    ]

pub better_irrefl : (b : BreakPoint) → better b b ≡ false
unfolding better
better_irrefl b = ground arith

pub distance_self : (a : ℕ) → distance a a ≡ 0
unfolding distance
distance_self a = ground arith
