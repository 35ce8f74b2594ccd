-- ===== src/LogBuffer.antt =====
-- internal/logbuf/ring.go: the ring buffer of log entries. Package strings, the JSON parser, time
-- parsing and the clock are parameters; a channel is the list of the entries that wait in it.
pub mod Contents
pub mod Entries
pub mod Subscribers
mod Tests
use claude_mnemonic_plus.Prelude.{
  ℕ, zero, suc, ◌+◌, ◌-◌, ◌%◌, String, Bool, true, false, Option, none, some, List, [], ◌∷◌, ◌++◌,
  ite, length, get_elem?, set, drop, replicate, map, dec_str, ltb, leb, ◌==◌, if◌then◌else◌,
}

-- LogEntry; the fields that are not standard ones as one text.
pub record LogEntry : Type 0 where
  pub timestamp : ℕ
  pub level : String
  pub message : String
  pub fields : Option String
  pub raw : String

-- `LogEntry{}`
abbrev pub zero_entry : LogEntry
zero_entry = record { timestamp = 0; level = ""; message = ""; fields = none; raw = "" }

-- The value of "time" in a parsed line.
pub data TimeValue : Type 0 where
  no_time : TimeValue
  number_time : ℕ → TimeValue
  text_time : String → TimeValue

-- The parts of a parsed JSON line that Write reads: `parsed["level"].(string)` and so on.
pub record ParsedLine : Type 0 where
  pub time : TimeValue
  pub level : Option String
  pub message : Option String
  pub rest : Option String

-- What the buffer takes from the standard library.
pub record TextOps : Type 0 where
  pub trim_space : String → String
  pub to_lower : String → String
  pub contains : String → String → Bool
  pub unmarshal : String → Option ParsedLine
  pub parse_rfc3339 : String → Option ℕ

-- A subscriber's channel, of capacity 64.
pub record Subscriber : Type 0 where
  pub chan : ℕ
  pub waiting : List LogEntry

pub record RingBuffer : Type 0 where
  pub entries : List LogEntry
  pub subscribers : List Subscriber
  pub head : ℕ
  pub size : ℕ
  pub capacity : ℕ

abbrev pub default_capacity : ℕ
default_capacity = 10000

-- NewRingBuffer; 0 stands for every capacity that is not positive.
unfoldable pub new_ring_buffer : ℕ → RingBuffer
new_ring_buffer capacity =
    let c = if capacity == 0 then default_capacity else capacity in
    record { entries = replicate c zero_entry; subscribers = []; head = 0; size = 0; capacity = c }

-- The timestamp that Write sets.
unfoldable pub timestamp_of : TextOps → TimeValue → ℕ
timestamp_of ops no_time = 0
timestamp_of ops (number_time t) = t
timestamp_of ops (text_time t) = elim (ops.parse_rfc3339 t) [ none ↦ 0 | some ts ↦ ts ]

abbrev pub or_empty : Option String → String
or_empty none = ""
or_empty (some t) = t

-- The entry that Write makes of a trimmed line, at the time `now`.
unfoldable pub parse_entry : TextOps → ℕ → String → LogEntry
parse_entry ops now raw = elim (ops.unmarshal raw) [
  | none ↦ record zero_entry { timestamp = now; message = raw; raw = raw }
  | some line ↦ record {
    timestamp = timestamp_of ops line.time;
    level = or_empty line.level;
    message = or_empty line.message;
    fields = line.rest;
    raw = raw;
  }
]

abbrev pub channel_capacity : ℕ
channel_capacity = 64

-- `select { case ch <- entry: default: }`
unfoldable pub offer : LogEntry → Subscriber → Subscriber
offer e s =
    if ltb (length s.waiting) channel_capacity
    then record s { waiting = s.waiting ++ e ∷ [] }
    else s

-- The part of Write that runs under the lock.
unfoldable pub push : LogEntry → RingBuffer → RingBuffer
push e rb = record rb {
  entries = set rb.entries rb.head e;
  head = (rb.head + 1) % rb.capacity;
  size = if ltb rb.size rb.capacity then rb.size + 1 else rb.size;
  subscribers = map (offer e) rb.subscribers;
}

-- Write
unfoldable pub write : TextOps → ℕ → String → RingBuffer → RingBuffer
write ops now p rb =
    let raw = ops.trim_space p in ite (dec_str raw "") rb (push (parse_entry ops now raw) rb)

-- levelPriority
unfoldable pub level_priority : String → Option ℕ
level_priority l = ite (dec_str l "trace") (some 0) (
    ite (dec_str l "debug") (some 1) (
      ite (dec_str l "info") (some 2) (
        ite (dec_str l "warn") (some 3) (
          ite (dec_str l "error") (some 4)
            (ite (dec_str l "fatal") (some 5) (ite (dec_str l "panic") (some 6) none))))))

abbrev pub at_least : Option ℕ → Option ℕ → Bool
at_least none min = true
at_least (some ep) none = true
at_least (some ep) (some mp) = leb mp ep

-- LevelAtLeast
unfoldable pub level_at_least : String → String → Bool
level_at_least entry min = at_least (level_priority entry) (level_priority min)

-- EntryMatchesQuery
unfoldable pub entry_matches_query : TextOps → LogEntry → String → Bool
entry_matches_query ops e query =
    let q = ops.to_lower query in
    if ops.contains (ops.to_lower e.message) q
    then true
    else (if ops.contains (ops.to_lower e.raw) q then true else false)

-- The two `continue`s of Snapshot's loop.
unfoldable pub keeps : TextOps → String → String → LogEntry → Bool
keeps ops min query e =
    if ite (dec_str min "") true (level_at_least e.level min)
    then ite (dec_str query "") true (entry_matches_query ops e query)
    else false

-- `rb.entries[(start + i) % rb.capacity]`
abbrev pub start : RingBuffer → ℕ
start rb = (rb.head + rb.capacity - rb.size) % rb.capacity

unfoldable pub entry_at : RingBuffer → ℕ → Option LogEntry
entry_at rb i = get_elem? rb.entries ((start rb + i) % rb.capacity)

abbrev pub cons_if : (LogEntry → Bool) → Option LogEntry → List LogEntry → List LogEntry
cons_if keep none l = l
cons_if keep (some e) l = if keep e then e ∷ l else l

-- The loop of Snapshot over the positions from `i` on, with the rounds left. An index out of range,
-- which would panic, adds nothing here.
unfoldable pub collect : (LogEntry → Bool) → RingBuffer → ℕ → ℕ → List LogEntry
collect keep rb i zero = []
collect keep rb i (suc n) = cons_if keep (entry_at rb i) (collect keep rb (suc i) n)

-- Snapshot; 0 stands for every n that is not positive.
unfoldable pub snapshot : TextOps → ℕ → String → String → RingBuffer → List LogEntry
snapshot ops n min query rb =
    let all = collect (keeps ops min query) rb 0 rb.size in
    if n == 0 then all else (if ltb (length all) n then all else drop (length all - n) all)

-- Subscribe, for a channel that is not in use.
unfoldable pub subscribe : ℕ → RingBuffer → RingBuffer
subscribe ch rb = record rb {
  subscribers = rb.subscribers ++ record { chan = ch; waiting = [] } ∷ [];
}

-- The loop of the function that Subscribe returns.
unfoldable pub remove_first : ℕ → List Subscriber → List Subscriber
remove_first ch [] = []
remove_first ch (s ∷ ss) = let rest = remove_first ch ss in if s.chan == ch then ss else s ∷ rest

unfoldable pub unsubscribe : ℕ → RingBuffer → RingBuffer
unsubscribe ch rb = record rb { subscribers = remove_first ch rb.subscribers }
