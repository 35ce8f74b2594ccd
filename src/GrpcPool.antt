-- ===== src/GrpcPool.antt =====
-- internal/handlers/engramcore/grpcpool.go: the pool of gRPC connections. url.Parse and the first
-- 16 hexadecimal digits of a SHA-256 sum are parameters. The goroutines that call getOrDialGRPC
-- interleave between its accesses to the sync.Map: each access and each dial (grpc.NewClient does
-- not wait for a connection) is taken as one step, so that blocking is not modelled. The
-- environment variable ENGRAM_TLS_CA is read for the key and again by the dial.
pub mod Counting
pub mod Connections
pub mod Schedules
mod Tests
use Prim.Native.String.{◌++◌ as append_str}
use claude_mnemonic_plus.Prelude.{
  ℕ, suc, String, Bool, true, false, List, [], ◌∷◌, Option, none, some, map, ◌++◌, get_elem?, set,
  if◌then◌else◌, lookup, insert, dec_str, ite, has_prefix, codes,
}

-- connKey
pub data ConnKey : Type 0 where
  conn_key_of : String → String → String → String → ConnKey

unfoldable pub dec_conn_key : Discrete ConnKey
dec_conn_key (conn_key_of a b c d) (conn_key_of e f g h) = elim (dec_str a e) [
  | no ne ↦ no (λ p. ne cc)
  | yes p ↦ elim (dec_str b f) [
    | no ne ↦ no (λ q. ne cc)
    | yes q ↦ elim (dec_str c g) [
      | no ne ↦ no (λ r. ne cc)
      | yes r ↦ elim (dec_str d h) [ no ne ↦ no (λ s. ne cc) | yes s ↦ yes cc ]
    ]
  ]
]

-- What url.Parse returns.
pub record Url : Type 0 where
  pub hostname : String
  pub port : String
  pub scheme : String

-- The transport credentials of dialGRPC.
pub data TlsPolicy : Type 0 where
  custom_ca : String → TlsPolicy
  system_tls : TlsPolicy
  plaintext : TlsPolicy

-- A connection as dialGRPC makes it, with a number of its own. An empty token is not sent.
pub record Conn : Type 0 where
  pub number : ℕ
  pub addr : String
  pub policy : TlsPolicy
  pub conn_token : String

-- A call of getOrDialGRPC, with both values of ENGRAM_TLS_CA, and whether the dial succeeds.
pub record Request : Type 0 where
  pub server_url : List ℕ
  pub token : String
  pub tls_ca : String
  pub tls_ca_dial : String
  pub dials : Bool

-- The sync.Map, the number of connections dialled, and the numbers of those closed.
pub record GrpcPool : Type 0 where
  pub conns : List (ConnKey × Conn)
  pub dialled : ℕ
  pub closed : List ℕ

-- Where a goroutine stands in getOrDialGRPC.
pub data Phase : Type 0 where
  started : Phase
  dialing : ConnKey → Phase
  storing : ConnKey → Conn → Phase
  returned : Conn → Phase
  failed : Phase

pub record World : Type 0 where
  pub pool : GrpcPool
  pub goroutines : List (Request × Phase)

-- The credentials that dialGRPC chooses.
unfoldable pub tls_policy : String → List ℕ → TlsPolicy
tls_policy ca url =
    ite (dec_str ca "") (if has_prefix (codes "https") url then system_tls else plaintext)
      (custom_ca ca)

-- The port of parseGRPCAddr.
unfoldable pub grpc_port : Url → String
grpc_port u = ite (dec_str u.port "") (ite (dec_str u.scheme "https") "443" "37777") u.port

module _ (parse_url : List ℕ → Option Url) (short_hash : String → String) where
  -- hashToken
  unfoldable pub hash_token : String → String
  hash_token token = ite (dec_str token "") "" (short_hash token)

  -- parseGRPCAddr
  unfoldable pub parse_grpc_addr : List ℕ → Option String
  parse_grpc_addr url = elim (parse_url url) [
    | none ↦ none
    | some u ↦ some (append_str u.hostname (append_str ":" (grpc_port u)))
  ]

  -- The mode and the hash of the key in getOrDialGRPC.
  unfoldable pub key_mode : String → List ℕ → String × String
  key_mode ca url =
      ite (dec_str ca "")
        (if has_prefix (codes "https") url then ("system-tls", "") else ("plaintext", ""))
        ("custom-ca", hash_token ca)

  -- The key of getOrDialGRPC.
  unfoldable pub conn_key : Request → Option ConnKey
  conn_key r = elim (parse_grpc_addr r.server_url) [
    | none ↦ none
    | some a ↦
        let mode = key_mode r.tls_ca r.server_url in
        some (conn_key_of a mode.0 mode.1 (hash_token r.token))
  ]

  -- dialGRPC, where it succeeds.
  unfoldable pub dial_grpc : Request → ConnKey → ℕ → Conn
  dial_grpc r (conn_key_of a m h t) n = record {
    number = n;
    addr = a;
    policy = tls_policy r.tls_ca_dial r.server_url;
    conn_token = r.token;
  }

  -- getOrDialGRPC, from one access to the next: Load, the dial, LoadOrStore.
  unfoldable pub pool_step : Request → Phase → GrpcPool → GrpcPool × Phase
  pool_step r started p = elim (conn_key r) [
    | none ↦ (p, failed)
    | some k ↦ elim (lookup dec_conn_key k p.conns) [
      | some c ↦ (p, returned c)
      | none ↦ (p, dialing k)
    ]
  ]
  pool_step r (dialing k) p =
      if r.dials
      then (record p { dialled = suc p.dialled }, storing k (dial_grpc r k p.dialled))
      else (p, failed)
  pool_step r (storing k c) p = elim (lookup dec_conn_key k p.conns) [
    | some a ↦ (record p { closed = c.number ∷ p.closed }, returned a)
    | none ↦ (record p { conns = insert dec_conn_key k c p.conns }, returned c)
  ]
  pool_step r (returned c) p = (p, returned c)
  pool_step r failed p = (p, failed)

  -- One step of the goroutine at an index.
  unfoldable pub world_step : ℕ → World → World
  world_step i w = elim (get_elem? w.goroutines i) [
    | none ↦ w
    | some g ↦
        let next = pool_step g.0 g.1 w.pool in
        record { pool = next.0; goroutines = set w.goroutines i (g.0, next.1) }
  ]

  -- A schedule: the goroutines that take a step, in order.
  unfoldable pub run_world : List ℕ → World → World
  run_world [] w = w
  run_world (i ∷ is) w = run_world is (world_step i w)

  -- getOrDialGRPC in a goroutine that nothing interrupts.
  unfoldable pub get_or_dial_grpc : Request → GrpcPool → GrpcPool × Phase
  get_or_dial_grpc r p =
      let first = pool_step r started p in
      let second = pool_step r first.1 first.0 in pool_step r second.1 second.0

-- closeAll: the connections stay in the map.
unfoldable pub close_all : GrpcPool → GrpcPool
close_all p = record p { closed = map (λ e. e.1.number) p.conns ++ p.closed }

-- envOrDefault: the session's value, or else the process's.
unfoldable pub env_or_default : List (String × String) → (String → String) → String → String
env_or_default env getenv key = elim (lookup dec_str key env) [
  | none ↦ getenv key
  | some v ↦ ite (dec_str v "") (getenv key) v
]
