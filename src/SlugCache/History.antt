-- ===== src/SlugCache/History.antt =====
-- What the slug cache of internal/handlers/engramcore/slugcache.go keeps of a history of calls.
use claude_mnemonic_plus.Prelude.{
  String, true, List, [], ◌∷◌, Option, none, some, lookup, dec_str, ◌≡◌, refl, arith, lookup-insert,
  lookup-delete, Option-cases, ite, inl, inr,
}
use claude_mnemonic_plus.SlugCache.{
  ProjectContext, SlugCache, fallback, resolve, forget, force_cache_entry, SlugCall, resolving,
  forgetting, forcing, slug_calls,
}

-- The first answer for a project since it was last forgotten, or the entry forced last.
unfoldable pub settled : String → List SlugCall → Option String
settled id [] = none
settled id (resolving p answer ∷ h) =
    let before = settled id h in
    elim before [ some s ↦ some s | none ↦ ite (dec_str p.id id) (some (fallback p answer)) none ]
settled id (forgetting j ∷ h) = let before = settled id h in ite (dec_str j id) none before
settled id (forcing j s ∷ h) = let before = settled id h in ite (dec_str j id) (some s) before

-- The cache's slug of a project.
unfoldable pub slug_of : String → SlugCache → Option String
slug_of id c = elim (lookup dec_str id c) [ none ↦ none | some r ↦ some r.slug ]

slug_of-slug_calls : (h : List SlugCall) (id : String) → slug_of id (slug_calls h) ≡ settled id h
unfolding slug_of slug_calls settled lookup resolve forget force_cache_entry
slug_of-slug_calls [] id = refl
slug_of-slug_calls (resolving p answer ∷ h) id =
    let c = slug_calls h in
    let later = slug_of-slug_calls h id in
    elim (Option-cases (lookup dec_str p.id c)) [
      | inr (r, e) ↦ elim (dec_str p.id id) [
        | yes q ↦ ground (arith, e, later, q)
        | no n ↦ ground (arith, e, later, n)
      ]
      | inl e ↦
          let s =
            lookup-insert dec_str p.id id (record { slug = fallback p answer; announce = true })
              c in
          elim (dec_str p.id id) [
            | yes q ↦ ground (arith, e, later, s, q)
            | no n ↦ ground (arith, e, later, s, n)
          ]
    ]
slug_of-slug_calls (forgetting j ∷ h) id =
    ground (arith, slug_of-slug_calls h id, lookup-delete dec_str j id (slug_calls h))
slug_of-slug_calls (forcing j s ∷ h) id = ground (
  arith,
  slug_of-slug_calls h id,
  lookup-insert dec_str j id (record { slug = s; announce = true }) (slug_calls h),
)

-- After any history of calls, Resolve returns the slug that was settled for the project: that of
-- the first Resolve since it was last forgotten, whatever git answers later, or that which was
-- forced last; for a project with none it returns git's answer now, or the project's identifier
-- where git fails.
pub resolve-slug_calls :
    (h : List SlugCall) (p : ProjectContext) (answer : Option String)
    → (resolve p answer (slug_calls h)).1
      ≡ elim (settled p.id h) [ some s ↦ s | none ↦ fallback p answer ]
unfolding resolve slug_of
resolve-slug_calls h p answer =
    let e = slug_of-slug_calls h p.id in
    elim (Option-cases (lookup dec_str p.id (slug_calls h))) [
      | inl f ↦ ground (arith, e, f)
      | inr (r, f) ↦ ground (arith, e, f)
    ]
