-- ===== src/GrpcPool/Counting.antt =====
-- Every connection that getOrDialGRPC of internal/handlers/engramcore/grpcpool.go dials has one
-- owner: the pool, the goroutine that is about to store it, or the list of those closed.
use claude_mnemonic_plus.Prelude.{
  ℕ, suc, zero, ◌+◌, ◌≤◌, ◌≡◌, refl, inl, inr, String, Bool, true, false, List, [], ◌∷◌, Option,
  none, some, get_elem?, set, lookup, insert, ◌==◌, ltb, arith, Option-cases,
}
use claude_mnemonic_plus.GrpcPool.{
  ConnKey, conn_key_of, dec_conn_key, Url, Conn, Request, GrpcPool, Phase, started, dialing,
  storing, returned, failed, World, conn_key, dial_grpc, pool_step, world_step, run_world,
}

unfoldable pub one_if : Bool → ℕ
one_if true = 1
one_if false = 0

-- The entries of the pool that hold connection n.
unfoldable pub count_pooled : ℕ → List (ConnKey × Conn) → ℕ
count_pooled n [] = 0
count_pooled n ((k, c) ∷ m) = one_if (c.number == n) + count_pooled n m

unfoldable pub holds : ℕ → Phase → ℕ
holds n started = 0
holds n (dialing k) = 0
holds n (storing k c) = one_if (c.number == n)
holds n (returned c) = 0
holds n failed = 0

-- The goroutines that are about to store connection n.
unfoldable pub count_storing : ℕ → List (Request × Phase) → ℕ
count_storing n [] = 0
count_storing n ((r, p) ∷ gs) = holds n p + count_storing n gs

unfoldable pub count_closed : ℕ → List ℕ → ℕ
count_closed n [] = 0
count_closed n (x ∷ xs) = one_if (x == n) + count_closed n xs

abbrev pub owners : ℕ → GrpcPool → ℕ
owners n p = count_pooled n p.conns + count_closed n p.closed

count_storing-set :
    (n i : ℕ) (gs : List (Request × Phase)) (g h : Request × Phase)
    → get_elem? gs i ≡ some g
    → count_storing n (set gs i h) + holds n g.1 ≡ count_storing n gs + holds n h.1
unfolding count_storing
count_storing-set n i [] g h e = absurd cc
count_storing-set n zero (x ∷ gs) g h e = ground (arith, e)
count_storing-set n (suc i) (x ∷ gs) g h e = omega (arith, count_storing-set n i gs g h e)

count_pooled-insert :
    (n : ℕ) (k : ConnKey) (c : Conn) (m : List (ConnKey × Conn))
    → lookup dec_conn_key k m ≡ none
    → count_pooled n (insert dec_conn_key k c m) ≡ one_if (c.number == n) + count_pooled n m
unfolding count_pooled insert lookup
count_pooled-insert n k c [] e = refl
count_pooled-insert n k c ((j, d) ∷ m) e = elim (dec_conn_key k j) [
  | yes p ↦ ground arith
  | no p ↦ let rest = count_pooled-insert n k c m (ground arith) in ground (arith, rest)
]

pub count_pooled-lookup :
    (k : ConnKey) (c : Conn) (m : List (ConnKey × Conn))
    → lookup dec_conn_key k m ≡ some c
    → 1 ≤ count_pooled c.number m
unfolding count_pooled lookup one_if
count_pooled-lookup k c [] e = absurd cc
count_pooled-lookup k c ((j, d) ∷ m) e = elim (dec_conn_key k j) [
  | yes p ↦ ground arith
  | no p ↦ let rest = count_pooled-lookup k c m (ground arith) in ground (arith, rest)
]

-- The connections that have been dialled, and no others, have one owner.
abbrev pub OneOwner : World → Type 0
OneOwner w =
    (n : ℕ) → owners n w.pool + count_storing n w.goroutines ≡ one_if (ltb n w.pool.dialled)

module _ (parse_url : List ℕ → Option Url) (short_hash : String → String) where
  -- A step adds an owner for the connection it dials, and moves the others.
  pool_step-owners :
      (n : ℕ) (r : Request) (ph : Phase) (p : GrpcPool)
      → owners n (pool_step parse_url short_hash r ph p).0
          + holds n (pool_step parse_url short_hash r ph p).1
          + one_if (ltb n p.dialled)
        ≡ owners n p + holds n ph + one_if (ltb n (pool_step parse_url short_hash r ph p).0.dialled)
  unfolding pool_step holds
  pool_step-owners n r started p = elim (Option-cases (conn_key parse_url short_hash r)) [
    | inl e ↦ ground (arith, e)
    | inr (k, e) ↦ elim (Option-cases (lookup dec_conn_key k p.conns)) [
      | inl f ↦ ground (arith, e, f)
      | inr (c, f) ↦ ground (arith, e, f)
    ]
  ]
  pool_step-owners n r (dialing (conn_key_of a m h t)) p = unfold one_if dial_grpc in ground arith
  pool_step-owners n r (storing k c) p = elim (Option-cases (lookup dec_conn_key k p.conns)) [
    | inl f ↦ ground (arith, f, count_pooled-insert n k c p.conns f)
    | inr (a, f) ↦ unfold count_closed in ground (arith, f)
  ]
  pool_step-owners n r (returned c) p = refl
  pool_step-owners n r failed p = refl

  world_step-OneOwner :
      (i : ℕ) (w : World) → OneOwner w → OneOwner (world_step parse_url short_hash i w)
  unfolding world_step
  world_step-OneOwner i w h n = elim (Option-cases (get_elem? w.goroutines i)) [
    | inl e ↦ ground (arith, e, h n)
    | inr (g, e) ↦
        let next = pool_step parse_url short_hash g.0 g.1 w.pool in
        let moved = pool_step-owners n g.0 g.1 w.pool in
        let there = count_storing-set n i w.goroutines g (g.0, next.1) e in
        ground (arith, e, h n, moved, there)
  ]

  pub run_world-OneOwner :
      (is : List ℕ) (w : World) → OneOwner w → OneOwner (run_world parse_url short_hash is w)
  unfolding run_world
  run_world-OneOwner [] w h = h
  run_world-OneOwner (i ∷ is) w h =
      run_world-OneOwner is (world_step parse_url short_hash i w) (world_step-OneOwner i w h)
