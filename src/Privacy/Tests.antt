-- ===== src/Privacy/Tests.antt =====
-- Texts with tags, and the theorem at one.
use claude_mnemonic_plus.Prelude.{ℕ, ◌≡◌, refl, true, List, [], ◌∷◌, has_prefix, bytes_eq, codes}
use claude_mnemonic_plus.Privacy.{
  find, match_length, skip_of, strip_from, strip_private_tags, strip_memory_tags, strip_all_tags,
  is_entirely_private, clean,
}
use claude_mnemonic_plus.Privacy.Tagged.{render, public_text, strip_private_tags-render}

program : Unit {0}
unfolding find match_length skip_of strip_from strip_private_tags strip_memory_tags strip_all_tags
    is_entirely_private clean render public_text has_prefix bytes_eq
program = tt

abbrev trimmed : List ℕ → List ℕ
trimmed s = s

strip_private_tags-render_example :
    strip_private_tags (codes "a<private>key</private>b") ≡ codes "ab"
unfolding program
strip_private_tags-render_example =
    strip_private_tags-render ((codes "a", codes "key") ∷ []) (codes "b") (((refl, refl), tt), refl)

-- What the removal of the memory's tag joins is a private tag again.
joined_tags :
    clean trimmed (codes "<priv<engram-context></engram-context>ate>key</private>")
    ≡ codes "<private>key</private>"
unfolding program
joined_tags = refl

-- What the removal of an inner tag joins is one, too.
nested_tags :
    clean trimmed (codes "<pri<private></private>vate>key</private>")
    ≡ codes "<private>key</private>"
unfolding program
nested_tags = refl

all_private : is_entirely_private trimmed (codes "<private>key</private>") ≡ true
unfolding program
all_private = refl
