-- ===== src/Clustering/Tests.antt =====
-- Clusters of numbers, and the theorem at them.
use claude_mnemonic_plus.Prelude.{
  ℕ, ◌%◌, ◌==◌, ◌≡◌, refl, Bool, true, false, List, [], ◌∷◌, leb, length, if◌then◌else◌,
}
use claude_mnemonic_plus.Clustering.{
  mark_similar, mark_near, cluster_loop, unmarked, cluster_observations_simple,
  cluster_observations_optimized, cluster_observations, similar_to_existing, is_similar_to_any,
}
use claude_mnemonic_plus.Clustering.Greedy.{covered, greedy, both, cluster_observations-greedy}

program : Unit {0}
unfolding mark_similar mark_near cluster_loop unmarked cluster_observations_simple
    cluster_observations_optimized cluster_observations similar_to_existing is_similar_to_any
    covered greedy
program = tt

-- Numbers are similar if they agree modulo 10.
abbrev similar : ℕ → ℕ → Bool
similar a b = a % 10 == b % 10

abbrev far : ℕ → ℕ → Bool
far a b = false

kept : cluster_observations similar far (31 ∷ 42 ∷ 51 ∷ 62 ∷ 7 ∷ []) ≡ 31 ∷ 42 ∷ 7 ∷ []
unfolding program
kept = refl

-- With signatures that are far apart the other loop keeps what is similar.
kept_far : cluster_observations_optimized similar far (31 ∷ 51 ∷ []) ≡ 31 ∷ 51 ∷ []
unfolding program
kept_far = refl

known : is_similar_to_any similar (λ x. true) 12 (31 ∷ 42 ∷ []) ≡ true
unfolding program
known = refl

abbrev numbers : List ℕ
numbers = 31 ∷ 42 ∷ 51 ∷ []

cluster_observations-greedy_example : cluster_observations similar far numbers ≡ (
    if leb (length numbers) 50
    then greedy similar [] numbers
    else greedy (both similar far) [] numbers)
cluster_observations-greedy_example = cluster_observations-greedy similar far numbers
