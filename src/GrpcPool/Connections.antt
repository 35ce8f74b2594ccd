-- ===== src/GrpcPool/Connections.antt =====
-- Which connection getOrDialGRPC of internal/handlers/engramcore/grpcpool.go returns.
use claude_mnemonic_plus.Prelude.{
  ℕ, suc, ◌≡◌, sym, ◌∙◌, inl, inr, String, List, ◌∷◌, Option, some, get_elem?, lookup, insert,
  arith, Option-cases, Bool-cases, lookup-insert, ap, subst, dec_str, has_prefix, codes,
}
use claude_mnemonic_plus.GrpcPool.{
  ConnKey, conn_key_of, dec_conn_key, Url, Conn, Request, GrpcPool, Phase, started, dialing,
  storing, returned, failed, World, conn_key, dial_grpc, pool_step, TlsPolicy, custom_ca,
  system_tls, plaintext, tls_policy, hash_token, key_mode, parse_grpc_addr,
}

module _ (parse_url : List ℕ → Option Url) (short_hash : String → String) where
  -- The key that belongs to a connection.
  unfoldable pub policy_key : TlsPolicy → String × String
  policy_key (custom_ca ca) = ("custom-ca", hash_token parse_url short_hash ca)
  policy_key system_tls = ("system-tls", "")
  policy_key plaintext = ("plaintext", "")

  unfoldable pub key_of : Conn → ConnKey
  key_of c =
      conn_key_of c.addr (policy_key c.policy).0 (policy_key c.policy).1
        (hash_token parse_url short_hash c.conn_token)

  pub key_of-dial_grpc :
      (r : Request) (k : ConnKey) (n : ℕ)
      → r.tls_ca_dial ≡ r.tls_ca
      → conn_key parse_url short_hash r ≡ some k
      → key_of (dial_grpc parse_url short_hash r k n) ≡ k
  unfolding key_of dial_grpc conn_key key_mode tls_policy policy_key
  key_of-dial_grpc r (conn_key_of a m h t) n ca e =
      elim (Option-cases (parse_grpc_addr parse_url short_hash r.server_url)) [
        | inl f ↦ absurd (ground (arith, f, e))
        | inr (addr, f) ↦ elim (dec_str r.tls_ca "") [
          | no p ↦ ground (arith, f, e, ca)
          | yes p ↦ elim (Bool-cases (has_prefix (codes "https") r.server_url)) [
            | inl q ↦ ground (arith, f, e, ca, p, q)
            | inr q ↦ ground (arith, f, e, ca, p, q)
          ]
        ]
      ]

  -- The pool has only connections under their own keys.
  abbrev pub IsKeyed : GrpcPool → Type 0
  IsKeyed p = (k : ConnKey) (c : Conn) → lookup dec_conn_key k p.conns ≡ some c → key_of c ≡ k

  -- A goroutine holds its own key, and has returned what the pool has under it.
  abbrev pub IsOnTrack : Request → GrpcPool → Phase → Type 0
  IsOnTrack r p started = Unit
  IsOnTrack r p (dialing k) = conn_key parse_url short_hash r ≡ some k
  IsOnTrack r p (storing k c) = (conn_key parse_url short_hash r ≡ some k) × (key_of c ≡ k)
  IsOnTrack r p (returned c) =
      (k : ConnKey) × (conn_key parse_url short_hash r ≡ some k)
      × (lookup dec_conn_key k p.conns ≡ some c)
  IsOnTrack r p failed = Unit

  -- A connection stays under its key.
  pub pool_step-keeps :
      (r : Request) (ph : Phase) (p : GrpcPool) (k : ConnKey) (c : Conn)
      → lookup dec_conn_key k p.conns ≡ some c
      → lookup dec_conn_key k (pool_step parse_url short_hash r ph p).0.conns ≡ some c
  unfolding pool_step
  pool_step-keeps r started p k c h = ground (arith, h)
  pool_step-keeps r (dialing j) p k c h = ground (arith, h)
  pool_step-keeps r (storing j d) p k c h =
      ground (arith, h, lookup-insert dec_conn_key j k d p.conns)
  pool_step-keeps r (returned d) p k c h = h
  pool_step-keeps r failed p k c h = h

  pub IsOnTrack-keeps :
      (r : Request) (ph : Phase) (p q : GrpcPool)
      → ((k : ConnKey) (c : Conn)
          → lookup dec_conn_key k p.conns ≡ some c
          → lookup dec_conn_key k q.conns ≡ some c)
      → IsOnTrack r p ph
      → IsOnTrack r q ph
  IsOnTrack-keeps r started p q f h = tt
  IsOnTrack-keeps r (dialing k) p q f h = h
  IsOnTrack-keeps r (storing k c) p q f h = h
  IsOnTrack-keeps r (returned c) p q f h = let (k, e, l) = h in (k, e, f k c l)
  IsOnTrack-keeps r failed p q f h = tt

  IsOnTrack-subst :
      (r : Request) (x y : GrpcPool × Phase) → x ≡ y → IsOnTrack r y.0 y.1 → IsOnTrack r x.0 x.1
  IsOnTrack-subst r x y e h = subst (λ z. IsOnTrack r z.0 z.1) (sym e) h

  pub pool_step-IsOnTrack :
      (r : Request) (ph : Phase) (p : GrpcPool)
      → r.tls_ca_dial ≡ r.tls_ca
      → IsOnTrack r p ph
      → IsOnTrack r
          (pool_step parse_url short_hash r ph p).0
          (pool_step parse_url short_hash r ph p).1
  unfolding pool_step
  pool_step-IsOnTrack r started p ca h = elim (Option-cases (conn_key parse_url short_hash r)) [
    | inl e ↦
        IsOnTrack-subst r (pool_step parse_url short_hash r started p) (p, failed)
          (ground (arith, e)) tt
    | inr (k, e) ↦ elim (Option-cases (lookup dec_conn_key k p.conns)) [
      | inl f ↦
          IsOnTrack-subst r (pool_step parse_url short_hash r started p) (p, dialing k)
            (ground (arith, e, f)) e
      | inr (c, f) ↦
          IsOnTrack-subst r (pool_step parse_url short_hash r started p) (p, returned c)
            (ground (arith, e, f)) (k, e, f)
    ]
  ]
  pool_step-IsOnTrack r (dialing k) p ca h = elim (Bool-cases r.dials) [
    | inl d ↦
        let c = dial_grpc parse_url short_hash r k p.dialled in
        IsOnTrack-subst r (pool_step parse_url short_hash r (dialing k) p)
          (record p { dialled = suc p.dialled }, storing k c) (ground (arith, d))
          (h, key_of-dial_grpc r k p.dialled ca h)
    | inr d ↦
        IsOnTrack-subst r (pool_step parse_url short_hash r (dialing k) p) (p, failed)
          (ground (arith, d)) tt
  ]
  pool_step-IsOnTrack r (storing k c) p ca h = elim (Option-cases (lookup dec_conn_key k p.conns)) [
    | inl f ↦
        IsOnTrack-subst r (pool_step parse_url short_hash r (storing k c) p)
          (record p { conns = insert dec_conn_key k c p.conns }, returned c) (ground (arith, f))
          (k, h.0, ground (arith, lookup-insert dec_conn_key k k c p.conns))
    | inr (a, f) ↦
        IsOnTrack-subst r (pool_step parse_url short_hash r (storing k c) p)
          (record p { closed = c.number ∷ p.closed }, returned a) (ground (arith, f)) (k, h.0, f)
  ]
  pool_step-IsOnTrack r (returned c) p ca h = h
  pool_step-IsOnTrack r failed p ca h = tt

  pub pool_step-IsKeyed :
      (r : Request) (ph : Phase) (p : GrpcPool)
      → IsOnTrack r p ph
      → IsKeyed p
      → IsKeyed (pool_step parse_url short_hash r ph p).0
  unfolding pool_step
  pool_step-IsKeyed r started p h v j d l = v j d (ground (arith, l))
  pool_step-IsKeyed r (dialing k) p h v j d l = v j d (ground (arith, l))
  pool_step-IsKeyed r (storing k c) p h v j d l =
      let s = lookup-insert dec_conn_key k j c p.conns in
      elim (Option-cases (lookup dec_conn_key k p.conns)) [
        | inr (a, f) ↦ v j d (ground (arith, l, f))
        | inl f ↦ elim (dec_conn_key k j) [
          | yes q ↦ let same : c ≡ d = ground (arith, l, f, s) in sym (ap key_of same) ∙ h.1 ∙ q
          | no q ↦ v j d (ground (arith, l, f, s))
        ]
      ]
  pool_step-IsKeyed r (returned c) p h v j d l = v j d l
  pool_step-IsKeyed r failed p h v j d l = v j d l

  pub record IsSound (w : World) : Type 0 where
    pub keyed : IsKeyed w.pool
    pub on_track :
        (i : ℕ) (g : Request × Phase) → get_elem? w.goroutines i ≡ some g → IsOnTrack g.0 w.pool g.1
    pub same_ca :
        (i : ℕ) (g : Request × Phase)
        → get_elem? w.goroutines i ≡ some g
        → g.0.tls_ca_dial ≡ g.0.tls_ca
