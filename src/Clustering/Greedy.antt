-- ===== src/Clustering/Greedy.antt =====
-- The clustering of pkg/similarity/clustering.go against the greedy choice of representatives.
use claude_mnemonic_plus.Prelude.{
  ℕ, zero, suc, ◌≤◌, ◌≡◌, refl, sym, ap, subst, All-imp, ◌∙◌, Bool, true, false, ◌&&◌, List, [],
  ◌∷◌, All, leb, length, arith, inl, inr, Bool-cases, if◌then◌else◌,
}
use claude_mnemonic_plus.Clustering.{
  Marked, mark_similar, mark_near, cluster_loop, unmarked, cluster_observations_simple,
  cluster_observations_optimized, cluster_observations,
}

module _ {A : Type 0} (same : A → A → Bool) where
  -- Whether a representative chosen before stands for an observation.
  unfoldable pub covered : List A → A → Bool
  covered [] x = false
  covered (r ∷ rs) x = if same r x then true else covered rs x

  -- The reference: in their order, the observations that no representative chosen before stands
  -- for.
  unfoldable pub greedy : List A → List A → List A
  greedy reps [] = []
  greedy reps (x ∷ xs) =
      let skipped = greedy reps xs in
      let kept = greedy (x ∷ reps) xs in if covered reps x then skipped else x ∷ kept

  unfoldable flagged : List A → List A → List (Marked A)
  flagged reps [] = []
  flagged reps (x ∷ xs) = (x, covered reps x) ∷ flagged reps xs

  -- A marking that follows the test.
  abbrev Follows : (A → List (Marked A) → List (Marked A)) → Type 0
  Follows mark =
      (reps : List A) (o : A) (xs : List A) → mark o (flagged reps xs) ≡ flagged (o ∷ reps) xs

  cluster_loop-greedy :
      (mark : A → List (Marked A) → List (Marked A))
      → Follows mark
      → (n : ℕ) (xs reps : List A) → length xs ≤ n
      → cluster_loop mark n (flagged reps xs) ≡ greedy reps xs
  unfolding cluster_loop greedy flagged
  cluster_loop-greedy mark f zero [] reps le = refl
  cluster_loop-greedy mark f zero (x ∷ xs) reps le = elim le [ ]
  cluster_loop-greedy mark f (suc n) [] reps le = refl
  cluster_loop-greedy mark f (suc n) (x ∷ xs) reps le = ground (
    arith,
    cluster_loop-greedy mark f n xs reps (omega arith),
    cluster_loop-greedy mark f n xs (x ∷ reps) (omega arith),
    f reps x xs,
  )

module _ {A : Type 0} (same : A → A → Bool) where
  -- No representative stands for a later one.
  abbrev pub Apart : List A → Type 0
  Apart [] = Unit
  Apart (x ∷ xs) = All (λ y. same x y ≡ false) xs × Apart xs

  greedy-new : (xs reps : List A) → All (λ y. covered same reps y ≡ false) (greedy same reps xs)
  unfolding greedy covered
  greedy-new [] reps = tt
  greedy-new (x ∷ xs) reps = elim (Bool-cases (covered same reps x)) [
    | inl h ↦
        let e : greedy same reps (x ∷ xs) ≡ greedy same reps xs = ground arith in
        subst (All (λ y. covered same reps y ≡ false)) (sym e) (greedy-new xs reps)
    | inr h ↦
        let e : greedy same reps (x ∷ xs) ≡ x ∷ greedy same (x ∷ reps) xs = ground arith in
        subst (All (λ y. covered same reps y ≡ false)) (sym e)
          (h, All-imp (greedy same (x ∷ reps) xs) (λ y n. ground arith) (greedy-new xs (x ∷ reps)))
  ]

  greedy-Apart : (xs reps : List A) → Apart (greedy same reps xs)
  unfolding greedy covered
  greedy-Apart [] reps = tt
  greedy-Apart (x ∷ xs) reps = elim (Bool-cases (covered same reps x)) [
    | inl h ↦
        let e : greedy same reps (x ∷ xs) ≡ greedy same reps xs = ground arith in
        subst Apart (sym e) (greedy-Apart xs reps)
    | inr h ↦
        let e : greedy same reps (x ∷ xs) ≡ x ∷ greedy same (x ∷ reps) xs = ground arith in
        subst Apart (sym e) (
          All-imp (greedy same (x ∷ reps) xs) (λ y n. ground arith) (greedy-new xs (x ∷ reps)),
          greedy-Apart xs (x ∷ reps),
        )
  ]

unflagged : {A : Type 0} (same : A → A → Bool) (xs : List A) → unmarked xs ≡ flagged same [] xs
unfolding unmarked flagged covered
unflagged same [] = refl
unflagged same (x ∷ xs) = ap (λ l. (x, false) ∷ l) (unflagged same xs)

module _ {A : Type 0} (similar near : A → A → Bool) where
  -- The test by which the optimised loop marks.
  abbrev pub both : A → A → Bool
  both o x = near o x && similar o x

  mark_similar-Follows : Follows similar (mark_similar similar near)
  unfolding mark_similar flagged covered
  mark_similar-Follows reps o [] = refl
  mark_similar-Follows reps o (x ∷ xs) = ground (arith, mark_similar-Follows reps o xs)

  mark_near-Follows : Follows both (mark_near similar near)
  unfolding mark_near flagged covered
  mark_near-Follows reps o [] = refl
  mark_near-Follows reps o (x ∷ xs) = ground (arith, mark_near-Follows reps o xs)

  simple-greedy : (xs : List A) → cluster_observations_simple similar near xs ≡ greedy similar [] xs
  unfolding cluster_observations_simple
  simple-greedy xs =
      ap (cluster_loop (mark_similar similar near) (length xs)) (unflagged similar xs)
      ∙ cluster_loop-greedy similar (mark_similar similar near) mark_similar-Follows (length xs) xs
          [] (omega arith)

  optimized-greedy :
      (xs : List A) → cluster_observations_optimized similar near xs ≡ greedy both [] xs
  unfolding cluster_observations_optimized
  optimized-greedy xs =
      ap (cluster_loop (mark_near similar near) (length xs)) (unflagged both xs)
      ∙ cluster_loop-greedy both (mark_near similar near) mark_near-Follows (length xs) xs []
          (omega arith)

  -- ClusterObservations makes the greedy choice of representatives, which takes in order each
  -- observation that is not similar to one taken before: of at most 50 observations by their
  -- similarity, and of more by their similarity where their signatures are near.
  pub cluster_observations-greedy :
      (xs : List A)
      → cluster_observations similar near xs
        ≡ (if leb (length xs) 50 then greedy similar [] xs else greedy both [] xs)
  unfolding cluster_observations greedy covered
  cluster_observations-greedy [] = refl
  cluster_observations-greedy (x ∷ []) = refl
  cluster_observations-greedy (x ∷ y ∷ xs) =
      ground (arith, simple-greedy (x ∷ y ∷ xs), optimized-greedy (x ∷ y ∷ xs))

  -- Of at most 50 observations, ClusterObservations keeps none that is similar to an earlier one
  -- that it keeps.
  pub cluster_observations-Apart :
      (xs : List A) → length xs ≤ 50 → Apart similar (cluster_observations similar near xs)
  cluster_observations-Apart xs few =
      let e : cluster_observations similar near xs ≡ greedy similar [] xs =
        ground (arith, cluster_observations-greedy xs) in
      subst (Apart similar) (sym e) (greedy-Apart similar xs [])
