-- ===== src/SlugCache.antt =====
-- internal/handlers/engramcore/slugcache.go: the cache of the projects' slugs. What
-- proxy.ResolveProjectSlug returns for a call is an input, since it asks git.
pub mod History
mod Tests
use claude_mnemonic_plus.Prelude.{
  String, Bool, true, false, List, [], ◌∷◌, Option, none, some, lookup, insert, delete, dec_str,
}

-- muxcore.ProjectContext
pub record ProjectContext : Type 0 where
  pub id : String
  pub cwd : String

-- resolvedSlug
pub record ResolvedSlug : Type 0 where
  pub slug : String
  pub announce : Bool

-- slugCache
abbrev pub SlugCache : Type 0
SlugCache = List (String × ResolvedSlug)

-- The slug that Resolve takes from the answer: the project's own identifier on an error.
unfoldable pub fallback : ProjectContext → Option String → String
fallback p none = p.id
fallback p (some s) = s

-- Resolve
unfoldable pub resolve : ProjectContext → Option String → SlugCache → SlugCache × String
resolve p answer c = elim (lookup dec_str p.id c) [
  | some cached ↦ (c, cached.slug)
  | none ↦
      let s = fallback p answer in (insert dec_str p.id (record { slug = s; announce = true }) c, s)
]

-- Forget
unfoldable pub forget : String → SlugCache → SlugCache
forget id c = delete dec_str id c

-- ForceCacheEntry
unfoldable pub force_cache_entry : String → String → SlugCache → SlugCache
force_cache_entry id s c = insert dec_str id (record { slug = s; announce = true }) c

-- HasEntry
unfoldable pub has_entry : String → SlugCache → Bool
has_entry id c = elim (lookup dec_str id c) [ none ↦ false | some s ↦ true ]

pub data SlugCall : Type 0 where
  resolving : ProjectContext → Option String → SlugCall
  forgetting : String → SlugCall
  forcing : String → String → SlugCall

-- The calls of a history, the latest one first.
unfoldable pub slug_calls : List SlugCall → SlugCache
slug_calls [] = []
slug_calls (resolving p answer ∷ h) = (resolve p answer (slug_calls h)).0
slug_calls (forgetting id ∷ h) = forget id (slug_calls h)
slug_calls (forcing id s ∷ h) = force_cache_entry id s (slug_calls h)
