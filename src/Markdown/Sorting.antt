-- ===== src/Markdown/Sorting.antt =====
-- The two sorting loops of selectBreaks in internal/chunking/markdown/chunker.go.
use mathlib.Core.List.{Memᴰ}
use claude_mnemonic_plus.Prelude.{
  ℕ, zero, suc, ◌≡◌, refl, sym, ap, inl, inr, ◌⊎◌, ◌≤◌, Bool, true, false, List, [], ◌∷◌, length,
  All, subst, arith, Bool-cases, if◌then◌else◌,
}
use claude_mnemonic_plus.Markdown.{exchange, exchange_sort}

module _ {A : Type 0} where
  pub All-of_mem : (P : A → Type 0) (xs : List A) → ((a : A) → Memᴰ a xs → P a) → All P xs
  All-of_mem P [] f = tt
  All-of_mem P (x ∷ xs) f = (f x (Memᴰ.head refl), All-of_mem P xs (λ a m. f a (Memᴰ.tail m)))

  pub mem-All : (P : A → Type 0) (xs : List A) → All P xs → (a : A) → Memᴰ a xs → P a
  mem-All P [] h a m = elim m [ ]
  mem-All P (x ∷ xs) h a (Memᴰ.head e) = subst P (sym e) h.0
  mem-All P (x ∷ xs) h a (Memᴰ.tail m) = mem-All P xs h.1 a m

  -- A relation between each element and those after it.
  abbrev pub Pairs : (A → A → Type 0) → List A → Type 0
  Pairs R [] = Unit
  Pairs R (x ∷ xs) = All (R x) xs × Pairs R xs

  mem_second : {a : A} (u v : A) (us : List A) → Memᴰ a (u ∷ us) → Memᴰ a (u ∷ v ∷ us)
  mem_second u v us (Memᴰ.head e) = Memᴰ.head e
  mem_second u v us (Memᴰ.tail m) = Memᴰ.tail (Memᴰ.tail m)

  -- Without the second of three.
  mem_split : {a u v : A} {us : List A} → Memᴰ a (u ∷ v ∷ us) → Memᴰ a (u ∷ us) ⊎ (a ≡ v)
  mem_split (Memᴰ.head e) = inl (Memᴰ.head e)
  mem_split (Memᴰ.tail (Memᴰ.head e)) = inr e
  mem_split (Memᴰ.tail (Memᴰ.tail k)) = inl (Memᴰ.tail k)

module _ {A : Type 0} (before : A → A → Bool) where
  mem-exchange :
      (x : A) (xs : List A) (a : A)
      → Memᴰ a (x ∷ xs)
      → Memᴰ a ((exchange before x xs).0 ∷ (exchange before x xs).1)
  unfolding exchange
  mem-exchange x [] a m = m
  mem-exchange x (y ∷ ys) a (Memᴰ.head e) = elim (Bool-cases (before y x)) [
    | inl h ↦ rw h (Memᴰ.tail (Memᴰ.head e))
    | inr h ↦ rw h (mem_second _ y _ (mem-exchange x ys a (Memᴰ.head e)))
  ]
  mem-exchange x (y ∷ ys) a (Memᴰ.tail m) = elim (Bool-cases (before y x)) [
    | inl h ↦ rw h (mem_second _ x _ (mem-exchange y ys a m))
    | inr h ↦ elim m [
      | Memᴰ.head e ↦ rw h (Memᴰ.tail (Memᴰ.head e))
      | Memᴰ.tail k ↦ rw h (mem_second _ y _ (mem-exchange x ys a (Memᴰ.tail k)))
    ]
  ]

  exchange_swapped :
      (x y : A) (ys : List A)
      → before y x ≡ true
      → exchange before x (y ∷ ys) ≡ ((exchange before y ys).0, x ∷ (exchange before y ys).1)
  unfolding exchange
  exchange_swapped x y ys h = rw h refl

  exchange_kept :
      (x y : A) (ys : List A)
      → before y x ≡ false
      → exchange before x (y ∷ ys) ≡ ((exchange before x ys).0, y ∷ (exchange before x ys).1)
  unfolding exchange
  exchange_kept x y ys h = rw h refl

  exchange-mem :
      (x : A) (xs : List A) (a : A)
      → Memᴰ a ((exchange before x xs).0 ∷ (exchange before x xs).1)
      → Memᴰ a (x ∷ xs)
  exchange-mem x [] a m = unfold exchange in m
  exchange-mem x (y ∷ ys) a m = elim (Bool-cases (before y x)) [
    | inl h ↦
        let m1 = subst (λ z. Memᴰ a (z.0 ∷ z.1)) (exchange_swapped x y ys h) m in
        elim (mem_split m1) [ inl k ↦ Memᴰ.tail (exchange-mem y ys a k) | inr e ↦ Memᴰ.head e ]
    | inr h ↦
        let m1 = subst (λ z. Memᴰ a (z.0 ∷ z.1)) (exchange_kept x y ys h) m in
        elim (mem_split m1) [
          | inl k ↦ mem_second x y ys (exchange-mem x ys a k)
          | inr e ↦ Memᴰ.tail (Memᴰ.head e)
        ]
  ]

  length-exchange : (x : A) (xs : List A) → length (exchange before x xs).1 ≡ length xs
  unfolding exchange
  length-exchange x [] = refl
  length-exchange x (y ∷ ys) = ap suc (length-exchange (if before y x then y else x) ys)

  -- A symmetric relation between all elements.
  exchange-Pairs :
      (R : A → A → Type 0)
      → ((a b : A) → R a b → R b a)
      → (x : A) (xs : List A) → Pairs R (x ∷ xs)
      → Pairs R ((exchange before x xs).0 ∷ (exchange before x xs).1)
  exchange-Pairs R s x [] h = unfold exchange in h
  exchange-Pairs R s x (y ∷ ys) (rx, (ry, rest)) = elim (Bool-cases (before y x)) [
    | inl h ↦
        let later = exchange-Pairs R s y ys (ry, rest) in
        let from_x =
          All-of_mem (R x) ((exchange before y ys).0 ∷ (exchange before y ys).1)
            (λ a m. mem-All (R x) (y ∷ ys) rx a (exchange-mem y ys a m)) in
        subst (λ z. Pairs R (z.0 ∷ z.1)) (sym (exchange_swapped x y ys h))
          ((s x _ from_x.0, later.0), (from_x.1, later.1))
    | inr h ↦
        let later = exchange-Pairs R s x ys (rx.1, rest) in
        let from_y =
          All-of_mem (R y) ((exchange before x ys).0 ∷ (exchange before x ys).1)
            (λ a m. mem-All (R y) (x ∷ ys) (s x y rx.0, ry) a (exchange-mem x ys a m)) in
        subst (λ z. Pairs R (z.0 ∷ z.1)) (sym (exchange_kept x y ys h))
          ((s y _ from_y.0, later.0), (from_y.1, later.1))
  ]

  pub mem-exchange_sort :
      (n : ℕ) (xs : List A) (a : A) → Memᴰ a xs → Memᴰ a (exchange_sort before n xs)
  unfolding exchange_sort
  mem-exchange_sort zero xs a m = m
  mem-exchange_sort (suc n) [] a m = m
  mem-exchange_sort (suc n) (x ∷ xs) a m = elim (mem-exchange x xs a m) [
    | Memᴰ.head e ↦ Memᴰ.head e
    | Memᴰ.tail k ↦ Memᴰ.tail (mem-exchange_sort n (exchange before x xs).1 a k)
  ]

  pub exchange_sort-mem :
      (n : ℕ) (xs : List A) (a : A) → Memᴰ a (exchange_sort before n xs) → Memᴰ a xs
  unfolding exchange_sort
  exchange_sort-mem zero xs a m = m
  exchange_sort-mem (suc n) [] a m = m
  exchange_sort-mem (suc n) (x ∷ xs) a m = exchange-mem x xs a (elim m [
    | Memᴰ.head e ↦ Memᴰ.head e
    | Memᴰ.tail k ↦ Memᴰ.tail (exchange_sort-mem n (exchange before x xs).1 a k)
  ])

  pub exchange_sort-Pairs :
      (R : A → A → Type 0)
      → ((a b : A) → R a b → R b a)
      → (n : ℕ) (xs : List A) → Pairs R xs
      → Pairs R (exchange_sort before n xs)
  unfolding exchange_sort
  exchange_sort-Pairs R s zero xs h = h
  exchange_sort-Pairs R s (suc n) [] h = h
  exchange_sort-Pairs R s (suc n) (x ∷ xs) h =
      let once = exchange-Pairs R s x xs h in
      let rest = (exchange before x xs).1 in
      (
        All-of_mem (R (exchange before x xs).0) (exchange_sort before n rest)
            (λ a m. mem-All (R _) rest once.0 a (exchange_sort-mem n rest a m)),
        exchange_sort-Pairs R s n rest once.1,
      )

  -- No element goes before an earlier one.
  abbrev pub IsSorted : List A → Type 0
  IsSorted = Pairs (λ a b. before b a ≡ false)

  module _
      (later_trans : (a b c : A) → before b a ≡ false → before c b ≡ false → before c a ≡ false)
      (asym : (a b : A) → before a b ≡ true → before b a ≡ false)
      (irrefl : (a : A) → before a a ≡ false) where
    exchange-first :
        (x : A) (xs : List A)
        → (before x (exchange before x xs).0 ≡ false)
          × All (λ y. before y (exchange before x xs).0 ≡ false) (exchange before x xs).1
    exchange-first x [] = unfold exchange in (irrefl x, tt)
    exchange-first x (y ∷ ys) = elim (Bool-cases (before y x)) [
      | inl h ↦
          let (first, rest) = exchange-first y ys in
          let over = later_trans (exchange before y ys).0 y x first (asym y x h) in
          subst (λ z. (before x z.0 ≡ false) × All (λ v. before v z.0 ≡ false) z.1)
            (sym (exchange_swapped x y ys h)) (over, (over, rest))
      | inr h ↦
          let (first, rest) = exchange-first x ys in
          let over = later_trans (exchange before x ys).0 x y first h in
          subst (λ z. (before x z.0 ≡ false) × All (λ v. before v z.0 ≡ false) z.1)
            (sym (exchange_kept x y ys h)) (first, (over, rest))
    ]

    pub exchange_sort-IsSorted :
        (n : ℕ) (xs : List A) → length xs ≤ n → IsSorted (exchange_sort before n xs)
    unfolding exchange_sort
    exchange_sort-IsSorted zero [] h = tt
    exchange_sort-IsSorted zero (x ∷ xs) h = absurd (omega arith)
    exchange_sort-IsSorted (suc n) [] h = tt
    exchange_sort-IsSorted (suc n) (x ∷ xs) h =
        let rest = (exchange before x xs).1 in
        (
          All-of_mem _ (exchange_sort before n rest) (λ a m.
              mem-All (λ v. before v (exchange before x xs).0 ≡ false) rest (exchange-first x xs).1
                a (exchange_sort-mem n rest a m)),
          exchange_sort-IsSorted n rest (omega (arith, length-exchange x xs)),
        )
