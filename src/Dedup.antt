-- ===== src/Dedup.antt =====
-- internal/handlers/serverevents/dedup.go: the cache by which the event bridge recognises an event
-- that it has passed on already. The doubly linked list is the list of its elements' values, the
-- most recently seen one first, and the map is the list of its keys: the map's value at a key is
-- the list's element that holds this key.
pub mod Recent
mod Tests
use claude_mnemonic_plus.Prelude.{
  ℕ, ap, String, Bool, true, false, Option, none, some, List, [], ◌∷◌, ite, length, dec_str, leb,
  if◌then◌else◌,
}

-- dedupKey
pub data DedupKey : Type 0 where
  dedup_key : String → String → DedupKey

unfoldable pub dec_key : Discrete DedupKey
dec_key (dedup_key e p) (dedup_key f q) = elim (dec_str e f) [
  | no ne ↦ no (λ h. ne cc)
  | yes a ↦ elim (dec_str p q) [ no ne ↦ no (λ h. ne cc) | yes b ↦ yes cc ]
]

-- lru
pub record Lru : Type 0 where
  pub order : List DedupKey
  pub entries : List DedupKey
  pub capacity : ℕ

abbrev pub dedup_capacity : ℕ
dedup_capacity = 256

-- newLRU
unfoldable pub new_lru : ℕ → Lru
new_lru capacity = record { order = []; entries = []; capacity = capacity }

-- `l.entries[k]`
unfoldable pub contains : DedupKey → List DedupKey → Bool
contains k [] = false
contains k (x ∷ xs) = ite (dec_key x k) true (contains k xs)

-- `l.order.Remove`, and `delete(l.entries, …)`
unfoldable pub remove_key : DedupKey → List DedupKey → List DedupKey
remove_key k [] = []
remove_key k (x ∷ xs) = let rest = remove_key k xs in ite (dec_key x k) rest (x ∷ rest)

-- `l.order.Back()`
unfoldable pub back : List DedupKey → Option DedupKey
back [] = none
back (x ∷ []) = some x
back (x ∷ y ∷ ys) = back (y ∷ ys)

-- `l.order.Remove(back)`
unfoldable pub remove_back : List DedupKey → List DedupKey
remove_back [] = []
remove_back (x ∷ []) = []
remove_back (x ∷ y ∷ ys) = x ∷ remove_back (y ∷ ys)

-- The eviction of Mark.
unfoldable pub evict : Lru → Lru
evict l =
    if leb l.capacity (length l.order)
    then elim (back l.order) [
      | none ↦ l
      | some b ↦ record l { order = remove_back l.order; entries = remove_key b l.entries }
    ]
    else l

-- Mark: the new cache, and whether the key had been seen.
unfoldable pub mark : DedupKey → Lru → Lru × Bool
mark k l =
    if contains k l.entries
    then (record l { order = k ∷ remove_key k l.order }, true)
    else (record (evict l) { order = k ∷ (evict l).order; entries = k ∷ (evict l).entries }, false)
