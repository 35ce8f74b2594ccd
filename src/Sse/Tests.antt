-- ===== src/Sse/Tests.antt =====
-- A broadcaster with a dead client, and the theorems at it.
use claude_mnemonic_plus.Prelude.{
  ℕ, ◌==◌, ◌≡◌, refl, true, false, List, [], ◌∷◌, arith, if◌then◌else◌,
}
use claude_mnemonic_plus.Sse.{
  Broadcaster, has_client, delete_client, add_client, close_done, remove_client,
  remove_client_by_id, WriteOutcome, written, timed_out, write_to_client, dead_clients, remove_all,
  broadcast, client_count,
}
use claude_mnemonic_plus.Sse.Clients.{IsValid, survivors, clients-broadcast}
use claude_mnemonic_plus.Sse.Dead.{SseCall, connecting, broadcasting, sse_calls}

program : Unit {0}
unfolding has_client delete_client add_client close_done remove_client remove_client_by_id
    write_to_client dead_clients remove_all broadcast client_count survivors sse_calls
program = tt

abbrev two : Broadcaster
two = record { clients = 2 ∷ 1 ∷ []; next_id = 2; done = [] }

two-IsValid : IsValid two
unfolding program
two-IsValid = record {
  distinct = (refl, (refl, tt));
  numbered = (omega arith, (omega arith, tt));
  closed_numbered = tt;
  still_open = (refl, (refl, tt));
}

-- The first client is stale.
abbrev writes : ℕ → WriteOutcome
writes c = if c == 1 then timed_out else written

one_left : client_count (broadcast true writes two) ≡ 1
unfolding program
one_left = refl

clients-broadcast_example : (broadcast true writes two).clients ≡ survivors writes (2 ∷ 1 ∷ [])
clients-broadcast_example = clients-broadcast writes two two-IsValid

abbrev calls : List SseCall
calls = connecting true ∷ broadcasting true writes ∷ connecting false ∷ []
