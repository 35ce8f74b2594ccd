-- ===== src/SlugCache/Tests.antt =====
-- A history of calls, and the theorem at it.
use claude_mnemonic_plus.Prelude.{
  true, List, [], ◌∷◌, none, some, lookup, insert, delete, dec_str, ◌≡◌, refl,
}
use claude_mnemonic_plus.SlugCache.{
  ProjectContext, fallback, resolve, forget, force_cache_entry, has_entry, SlugCall, resolving,
  forgetting, forcing, slug_calls,
}
use claude_mnemonic_plus.SlugCache.History.{settled, resolve-slug_calls}

program : Unit {0}
unfolding fallback resolve forget force_cache_entry has_entry slug_calls settled lookup insert
    delete dec_str
program = tt

abbrev project : ProjectContext
project = record { id = "p"; cwd = "/p" }

-- The latest call first.
abbrev history : List SlugCall
history =
    resolving project none
    ∷ resolving project (some "b")
    ∷ forgetting "p"
    ∷ resolving project (some "a")
    ∷ forcing "q" "c"
    ∷ []

both_there : has_entry "q" (slug_calls history) ≡ true
unfolding program
both_there = refl

resolve-slug_calls_example : (resolve project (some "d") (slug_calls history)).1 ≡ "b"
unfolding program
resolve-slug_calls_example = resolve-slug_calls history project (some "d")
