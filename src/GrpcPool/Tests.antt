-- ===== src/GrpcPool/Tests.antt =====
-- Two goroutines that dial the same server at once, and the theorems at them.
use claude_mnemonic_plus.Prelude.{
  ℕ, ◌≡◌, refl, String, true, List, [], ◌∷◌, Option, some, lookup, insert, dec_str, has_prefix,
  codes,
}
use claude_mnemonic_plus.GrpcPool.{
  conn_key_of, dec_conn_key, Url, Conn, Request, GrpcPool, plaintext, tls_policy, grpc_port,
  hash_token, parse_grpc_addr, key_mode, conn_key, dial_grpc, pool_step, world_step, run_world,
  get_or_dial_grpc, close_all, env_or_default,
}
use claude_mnemonic_plus.GrpcPool.Counting.{count_closed, one_if}
use claude_mnemonic_plus.GrpcPool.Connections.{policy_key, key_of}
use claude_mnemonic_plus.GrpcPool.Schedules.{new_world, run_world-returned, run_world-shared}

program : Unit {0}
unfolding dec_conn_key tls_policy grpc_port hash_token parse_grpc_addr key_mode conn_key dial_grpc
    pool_step world_step run_world get_or_dial_grpc close_all env_or_default count_closed one_if
    policy_key key_of new_world lookup insert dec_str has_prefix
program = tt

abbrev parsed : List ℕ → Option Url
parsed u = some (record { hostname = "localhost"; port = ""; scheme = "http" })

abbrev hashed : String → String
hashed t = t

abbrev request : Request
request = record {
  server_url = codes "http://localhost";
  token = "a";
  tls_ca = "";
  tls_ca_dial = "";
  dials = true;
}

abbrev both : List Request
both = request ∷ request ∷ []

-- Both dial before one of them stores.
abbrev schedule : List ℕ
schedule = 0 ∷ 1 ∷ 0 ∷ 1 ∷ 1 ∷ 0 ∷ []

abbrev winner : Conn
winner = record { number = 1; addr = "localhost:37777"; policy = plaintext; conn_token = "a" }

loser_closed : (run_world parsed hashed schedule (new_world both)).pool.closed ≡ 0 ∷ []
unfolding program
loser_closed = refl

run_world-returned_example :
    (conn_key parsed hashed request ≡ some (key_of parsed hashed winner))
    × (count_closed 1 (run_world parsed hashed schedule (new_world both)).pool.closed ≡ 0)
unfolding program
run_world-returned_example =
    run_world-returned parsed hashed both schedule 0 request winner (refl, (refl, tt)) refl

run_world-shared_example : winner ≡ winner
unfolding program
run_world-shared_example =
    run_world-shared parsed hashed both schedule 0 1 request request winner winner
      (refl, (refl, tt)) refl refl refl

abbrev secure : Request
secure = record request {
  server_url = codes "https://localhost";
  tls_ca = "ca.pem";
  tls_ca_dial = "ca.pem";
}

custom_ca_first :
    conn_key parsed hashed secure ≡ some (conn_key_of "localhost:37777" "custom-ca" "ca.pem" "a")
unfolding program
custom_ca_first = refl

abbrev empty_pool : GrpcPool
empty_pool = record { conns = []; dialled = 0; closed = [] }

closed_once : (close_all (get_or_dial_grpc parsed hashed request empty_pool).0).closed ≡ 0 ∷ []
unfolding program
closed_once = refl

session_first : env_or_default (("A", "1") ∷ []) (λ k. "2") "A" ≡ "1"
unfolding program
session_first = refl
