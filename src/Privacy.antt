-- ===== src/Privacy.antt =====
-- internal/privacy/stripper.go: the removal of tagged text. A text is a list of bytes. The patterns
-- of package regexp are an opening tag, the shortest text and a closing tag, matched from the left;
-- strings.TrimSpace is a parameter.
pub mod Search
pub mod Tagged
mod Tests
use claude_mnemonic_plus.Prelude.{
  ℕ, zero, suc, ◌+◌, ◌-◌, Bool, true, false, List, [], ◌∷◌, Option, none, some, length, drop,
  has_prefix, bytes_eq, codes, if◌then◌else◌,
}

-- Where a text first occurs in another.
unfoldable pub find : List ℕ → List ℕ → Option ℕ
find sub [] = if has_prefix sub [] then some 0 else none
find sub (x ∷ xs) =
    let rest = find sub xs in
    if has_prefix sub (x ∷ xs) then some 0 else elim rest [ none ↦ none | some i ↦ some (suc i) ]

-- The length of a match of the pattern that begins here.
unfoldable pub match_length : List ℕ → List ℕ → List ℕ → Option ℕ
match_length open_tag close_tag s =
    if has_prefix open_tag s
    then elim (find close_tag (drop (length open_tag) s)) [
      | none ↦ none
      | some i ↦ some (length open_tag + (i + length close_tag))
    ]
    else none

-- The bytes of a match that follow its first one.
unfoldable pub skip_of : Option ℕ → ℕ
skip_of none = 0
skip_of (some n) = n - 1

-- ReplaceAllString with an empty text: the number is that of the bytes of a match still to skip.
unfoldable pub strip_from : List ℕ → List ℕ → ℕ → List ℕ → List ℕ
strip_from open_tag close_tag n [] = []
strip_from open_tag close_tag (suc n) (x ∷ xs) = strip_from open_tag close_tag n xs
strip_from open_tag close_tag zero (x ∷ xs) =
    let found = match_length open_tag close_tag (x ∷ xs) in
    let rest = strip_from open_tag close_tag (skip_of found) xs in
    elim found [ none ↦ x ∷ rest | some n ↦ rest ]

abbrev pub private_open : List ℕ
private_open = codes "<private>"

abbrev pub private_close : List ℕ
private_close = codes "</private>"

-- StripPrivateTags
unfoldable pub strip_private_tags : List ℕ → List ℕ
strip_private_tags text = strip_from private_open private_close 0 text

-- StripMemoryTags
unfoldable pub strip_memory_tags : List ℕ → List ℕ
strip_memory_tags text = strip_from (codes "<engram-context>") (codes "</engram-context>") 0 text

-- StripAllTags
unfoldable pub strip_all_tags : List ℕ → List ℕ
strip_all_tags text = strip_memory_tags (strip_private_tags text)

module _ (trim_space : List ℕ → List ℕ) where
  -- IsEntirelyPrivate
  unfoldable pub is_entirely_private : List ℕ → Bool
  is_entirely_private text = bytes_eq (trim_space (strip_private_tags text)) []

  -- Clean
  unfoldable pub clean : List ℕ → List ℕ
  clean text = trim_space (strip_all_tags text)
