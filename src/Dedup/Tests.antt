-- ===== src/Dedup/Tests.antt =====
-- Runs of the cache, and the theorems at them.
use claude_mnemonic_plus.Prelude.{
  ◌≡◌, refl, String, true, false, List, [], ◌∷◌, dec_str, Bool-cases,
}
use claude_mnemonic_plus.Dedup.{
  DedupKey, dedup_key, dec_key, new_lru, contains, remove_key, back, remove_back, evict, mark,
}
use claude_mnemonic_plus.Dedup.Recent.{recent, mark_all}

program : Unit {0}
unfolding dec_key new_lru contains remove_key back remove_back evict mark recent mark_all dec_str
    Bool-cases
program = tt

abbrev removed : String → DedupKey
removed p = dedup_key "project_removed" p

-- The latest first: b is seen twice, and a is evicted from a cache of two.
abbrev history : List DedupKey
history = removed "b" ∷ removed "c" ∷ removed "b" ∷ removed "a" ∷ []

evicted :
    ((mark (removed "a") (mark_all history (new_lru 2))).1 ≡ false)
    × ((mark (removed "c") (mark_all history (new_lru 2))).1 ≡ true)
    × ((mark_all history (new_lru 2)).entries ≡ removed "c" ∷ removed "b" ∷ [])
unfolding program
evicted = (refl, refl, refl)
