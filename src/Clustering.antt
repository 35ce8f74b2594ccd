-- ===== src/Clustering.antt =====
-- pkg/similarity/clustering.go: one representative for each cluster of similar observations. The
-- scores are floating point, so two tests on observations are parameters: `similar` for
-- `JaccardSimilarity(…) >= similarityThreshold`, and `near` for signatures of which at most 32 bits
-- differ.
pub mod Greedy
mod Tests
use claude_mnemonic_plus.Prelude.{
  ℕ, zero, suc, Bool, true, false, ◌&&◌, List, [], ◌∷◌, map, leb, length, if◌then◌else◌,
}

-- An observation with its entry of `clustered`.
abbrev pub Marked : Type 0 → Type 0
Marked A = A × Bool

module _ {A : Type 0} where
  -- The outer loop of both, for at most the given number of positions.
  unfoldable pub cluster_loop :
      (A → List (Marked A) → List (Marked A)) → ℕ → List (Marked A) → List A
  cluster_loop mark zero xs = []
  cluster_loop mark (suc n) [] = []
  cluster_loop mark (suc n) ((x, clustered) ∷ xs) =
      let skipped = cluster_loop mark n xs in
      let kept = cluster_loop mark n (mark x xs) in if clustered then skipped else x ∷ kept

  unfoldable pub unmarked : List A → List (Marked A)
  unmarked [] = []
  unmarked (x ∷ xs) = (x, false) ∷ unmarked xs

module _ {A : Type 0} (similar near : A → A → Bool) where
  -- The inner loop of clusterObservationsSimple, over the observations after the representative.
  unfoldable pub mark_similar : A → List (Marked A) → List (Marked A)
  mark_similar o [] = []
  mark_similar o ((x, clustered) ∷ xs) =
      let rest = mark_similar o xs in
      if clustered then (x, true) ∷ rest else (x, similar o x) ∷ rest

  -- The inner loop of clusterObservationsOptimized, with the comparison of the signatures.
  unfoldable pub mark_near : A → List (Marked A) → List (Marked A)
  mark_near o [] = []
  mark_near o ((x, clustered) ∷ xs) =
      let rest = mark_near o xs in
      if clustered
      then (x, true) ∷ rest
      else if near o x
      then (x, similar o x) ∷ rest
      else (x, false) ∷ rest

  -- clusterObservationsSimple
  unfoldable pub cluster_observations_simple : List A → List A
  cluster_observations_simple xs = cluster_loop mark_similar (length xs) (unmarked xs)

  -- clusterObservationsOptimized
  unfoldable pub cluster_observations_optimized : List A → List A
  cluster_observations_optimized xs = cluster_loop mark_near (length xs) (unmarked xs)

  -- ClusterObservations
  unfoldable pub cluster_observations : List A → List A
  cluster_observations xs =
      if leb (length xs) 1
      then xs
      else if leb (length xs) 50
      then cluster_observations_simple xs
      else cluster_observations_optimized xs

module _ {A : Type 0} (similar : A → A → Bool) where
  -- The loop of IsSimilarToAny over the existing observations.
  unfoldable pub similar_to_existing : A → List A → Bool
  similar_to_existing o [] = false
  similar_to_existing o (x ∷ xs) = if similar o x then true else similar_to_existing o xs

  -- IsSimilarToAny; `has_terms` is whether ExtractObservationTerms finds any.
  unfoldable pub is_similar_to_any : (A → Bool) → A → List A → Bool
  is_similar_to_any has_terms o [] = false
  is_similar_to_any has_terms o (x ∷ xs) =
      if has_terms o then similar_to_existing o (x ∷ xs) else false
