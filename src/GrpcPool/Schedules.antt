-- ===== src/GrpcPool/Schedules.antt =====
-- What the goroutines of a schedule have when they return from getOrDialGRPC of
-- internal/handlers/engramcore/grpcpool.go.
use claude_mnemonic_plus.Prelude.{
  ℕ, suc, zero, ◌≡◌, refl, sym, ◌∙◌, inl, inr, String, List, [], ◌∷◌, Option, some, map, get_elem?,
  set, lookup, arith, Option-cases, ap, subst, get_elem?-set_self, get_elem?-set_ne, ℕ_discrete,
  All,
}
use claude_mnemonic_plus.GrpcPool.{
  Url, Conn, Request, Phase, started, returned, World, conn_key, pool_step, world_step, run_world,
}
use claude_mnemonic_plus.GrpcPool.Counting.{
  holds, count_pooled, count_storing, count_closed, one_if, count_pooled-lookup, OneOwner,
  run_world-OneOwner,
}
use claude_mnemonic_plus.GrpcPool.Connections.{
  IsSound, IsOnTrack, key_of, pool_step-IsKeyed, pool_step-IsOnTrack, IsOnTrack-keeps,
  pool_step-keeps,
}

-- A new pool, and the goroutines that are about to call.
unfoldable pub new_world : List Request → World
new_world rs = record {
  pool = record { conns = []; dialled = 0; closed = [] };
  goroutines = map (λ r. (r, started)) rs;
}

-- The environment variable does not change between its two reads.
abbrev pub ReadsSameCa : List Request → Type 0
ReadsSameCa rs = All (λ r. r.tls_ca_dial ≡ r.tls_ca) rs

get_elem?-started :
    (rs : List Request) (i : ℕ) (g : Request × Phase)
    → get_elem? (map (λ r. (r, started)) rs) i ≡ some g
    → (g.1 ≡ started) × (ReadsSameCa rs → g.0.tls_ca_dial ≡ g.0.tls_ca)
get_elem?-started [] i g e = absurd cc
get_elem?-started (r ∷ rs) zero g e = (ground (arith, e), λ h. ground (arith, e, h.0))
get_elem?-started (r ∷ rs) (suc i) g e =
    let rest = get_elem?-started rs i g e in (rest.0, λ h. rest.1 h.1)

count_storing_started :
    (n : ℕ) (rs : List Request) → count_storing n (map (λ r. (r, started)) rs) ≡ 0
unfolding count_storing holds
count_storing_started n [] = refl
count_storing_started n (r ∷ rs) = omega (arith, count_storing_started n rs)

module _ (parse_url : List ℕ → Option Url) (short_hash : String → String) where
  world_step-IsSound :
      (i : ℕ) (w : World)
      → IsSound parse_url short_hash w
      → IsSound parse_url short_hash (world_step parse_url short_hash i w)
  world_step-IsSound i w v = elim (Option-cases (get_elem? w.goroutines i)) [
    | inl e ↦
        let same : world_step parse_url short_hash i w ≡ w =
          unfold world_step in ground (arith, e) in
        subst (IsSound parse_url short_hash) (sym same) v
    | inr (g, e) ↦
        let next = pool_step parse_url short_hash g.0 g.1 w.pool in
        let w1 : World = record { pool = next.0; goroutines = set w.goroutines i (g.0, next.1) } in
        let same : world_step parse_url short_hash i w ≡ w1 =
          unfold world_step in ground (arith, e) in
        let here = get_elem?-set_self w.goroutines i (g.0, next.1) e in
        let old = v.on_track i g e in
        let away : (j : ℕ) → ¬ (i ≡ j) → get_elem? w1.goroutines j ≡ get_elem? w.goroutines j =
          λ j n. get_elem?-set_ne w.goroutines i j (g.0, next.1) n in
        let step : IsSound parse_url short_hash w1 = record {
          keyed = pool_step-IsKeyed parse_url short_hash g.0 g.1 w.pool old v.keyed;
          on_track = λ j h f. elim (ℕ_discrete i j) [
            | yes p ↦
                let same_g : (g.0, next.1) ≡ h = ground (arith, here, f, p) in
                subst (λ x. IsOnTrack parse_url short_hash x.0 next.0 x.1) same_g
                  (pool_step-IsOnTrack parse_url short_hash g.0 g.1 w.pool (v.same_ca i g e) old)
            | no n ↦
                IsOnTrack-keeps parse_url short_hash h.0 h.1 w.pool next.0
                  (pool_step-keeps parse_url short_hash g.0 g.1 w.pool)
                  (v.on_track j h (sym (away j n) ∙ f))
          ];
          same_ca = λ j h f. elim (ℕ_discrete i j) [
            | yes p ↦
                let same_g : (g.0, next.1) ≡ h = ground (arith, here, f, p) in
                subst (λ x. x.0.tls_ca_dial ≡ x.0.tls_ca) same_g (v.same_ca i g e)
            | no n ↦ v.same_ca j h (sym (away j n) ∙ f)
          ];
        } in
        subst (IsSound parse_url short_hash) (sym same) step
  ]

  run_world-IsSound :
      (is : List ℕ) (w : World)
      → IsSound parse_url short_hash w
      → IsSound parse_url short_hash (run_world parse_url short_hash is w)
  unfolding run_world
  run_world-IsSound [] w v = v
  run_world-IsSound (i ∷ is) w v =
      run_world-IsSound is (world_step parse_url short_hash i w) (world_step-IsSound i w v)

  new_world-IsSound :
      (rs : List Request) → ReadsSameCa rs → IsSound parse_url short_hash (new_world rs)
  unfolding new_world
  new_world-IsSound rs same = record {
    keyed = λ k c e. absurd (unfold lookup in cc);
    on_track = λ i g e.
        subst (IsOnTrack parse_url short_hash g.0 (new_world rs).pool)
          (sym (get_elem?-started rs i g e).0) tt;
    same_ca = λ i g e. (get_elem?-started rs i g e).1 same;
  }

  new_world-OneOwner : (rs : List Request) → OneOwner (new_world rs)
  unfolding new_world count_pooled count_closed one_if
  new_world-OneOwner rs n = ground (arith, count_storing_started n rs)

  -- However the goroutines that call getOrDialGRPC interleave, a connection that one of them has
  -- returned was dialled for the address, the TLS policy and the token that its own call asks
  -- for, as far as the hashes tell, and it is not among those closed, if ENGRAM_TLS_CA does not
  -- change between the two reads of a call.
  pub run_world-returned :
      (rs : List Request) (is : List ℕ) (i : ℕ) (r : Request) (c : Conn)
      → ReadsSameCa rs
      → get_elem? (run_world parse_url short_hash is (new_world rs)).goroutines i
        ≡ some (r, returned c)
      → (conn_key parse_url short_hash r ≡ some (key_of parse_url short_hash c))
        × (count_closed c.number (run_world parse_url short_hash is (new_world rs)).pool.closed ≡ 0)
  run_world-returned rs is i r c same e =
      let v = run_world-IsSound is (new_world rs) (new_world-IsSound rs same) in
      let (k, named, found) = v.on_track i (r, returned c) e in
      let pooled = count_pooled-lookup k c _ found in
      let once =
        run_world-OneOwner parse_url short_hash is (new_world rs) (new_world-OneOwner rs)
          c.number in
      (named ∙ sym (ap some (v.keyed k c found)), unfold one_if in ground (arith, pooled, once))

  -- However the goroutines interleave, two whose calls have the same key return the same
  -- connection, if ENGRAM_TLS_CA does not change between the two reads of a call.
  pub run_world-shared :
      (rs : List Request) (is : List ℕ) (i j : ℕ) (r q : Request) (c d : Conn)
      → ReadsSameCa rs
      → get_elem? (run_world parse_url short_hash is (new_world rs)).goroutines i
        ≡ some (r, returned c)
      → get_elem? (run_world parse_url short_hash is (new_world rs)).goroutines j
        ≡ some (q, returned d)
      → conn_key parse_url short_hash r ≡ conn_key parse_url short_hash q
      → c ≡ d
  run_world-shared rs is i j r q c d same e f keys =
      let v = run_world-IsSound is (new_world rs) (new_world-IsSound rs same) in
      let (k, named, found) = v.on_track i (r, returned c) e in
      let (l, named1, found1) = v.on_track j (q, returned d) f in
      ground (arith, named, named1, found, found1, keys)
