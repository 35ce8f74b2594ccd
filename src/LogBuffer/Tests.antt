-- ===== src/LogBuffer/Tests.antt =====
-- Runs of the ring buffer, and the theorems at them.
use claude_mnemonic_plus.Prelude.{
  ◌≡◌, refl, String, true, false, none, some, List, [], ◌∷◌, dec_str, ite, arith, Bool-cases,
}
use claude_mnemonic_plus.LogBuffer.{
  LogEntry, TextOps, number_time, RingBuffer, new_ring_buffer, timestamp_of, parse_entry, offer,
  push, write, level_priority, level_at_least, entry_matches_query, keeps, entry_at, collect,
  snapshot, subscribe, remove_first, unsubscribe,
}
use claude_mnemonic_plus.LogBuffer.Contents.{push_all, select, last, snapshot-push_all}

program : Unit {0}
unfolding new_ring_buffer timestamp_of parse_entry offer push write level_priority level_at_least
    entry_matches_query keeps entry_at collect snapshot subscribe remove_first unsubscribe push_all
    dec_str Bool-cases
program = tt

-- Lines that are a level and nothing else.
abbrev ops : TextOps
ops = record {
  trim_space = λ s. s;
  to_lower = λ s. s;
  contains = λ s t. ite (dec_str s t) true false;
  unmarshal = λ s.
      ite (dec_str s "plain") none
        (some (record { time = number_time 5; level = some s; message = none; rest = none }));
  parse_rfc3339 = λ s. none;
}

abbrev entry : String → LogEntry
entry l = record { timestamp = 5; level = l; message = ""; fields = none; raw = l }

abbrev entries : List LogEntry
entries = entry "info" ∷ entry "error" ∷ entry "debug" ∷ entry "warn" ∷ []

written :
    snapshot ops 0 "info" ""
      (write ops 9 "warn" (write ops 9 "" (write ops 9 "plain" (new_ring_buffer 2))))
    ≡ record { timestamp = 9; level = ""; message = "plain"; fields = none; raw = "plain" }
      ∷ entry "warn"
      ∷ []
unfolding program
written = refl

overwritten :
    snapshot ops 0 "info" "" (push_all entries (new_ring_buffer 3))
    ≡ entry "error" ∷ entry "warn" ∷ []
unfolding program
overwritten = refl

snapshot-push_all_example :
    snapshot ops 0 "info" "" (push_all entries (new_ring_buffer 3))
    ≡ select (keeps ops "info" "") (last 3 entries)
snapshot-push_all_example = snapshot-push_all ops 3 "info" "" entries (omega arith)

abbrev watched : RingBuffer
watched = subscribe 1 (subscribe 0 (new_ring_buffer 3))
