-- ===== src/Privacy/Tagged.antt =====
-- What the patterns of internal/privacy/stripper.go remove from tagged text.
use claude_mnemonic_plus.Prelude.{
  ℕ, suc, ◌+◌, ◌-◌, ◌≡◌, refl, sym, ap, ◌∙◌, false, List, [], ◌∷◌, ◌++◌, none, some, length,
  has_prefix, arith, length-append, has_prefix-append, append_assoc, drop-append, All, codes,
}
use claude_mnemonic_plus.Privacy.{
  find, match_length, skip_of, strip_from, private_open, private_close, strip_private_tags,
}
use claude_mnemonic_plus.Privacy.Search.{
  IsFree, tail-IsFree, IsFree-has_prefix, find-append, find-none,
}

module _ (o c : List ℕ) where
  strip_from-skip : (u v : List ℕ) → strip_from o c (length u) (u ++ v) ≡ strip_from o c 0 v
  unfolding strip_from
  strip_from-skip [] v = refl
  strip_from-skip (x ∷ u) v = strip_from-skip u v

  match_length-none : (s : List ℕ) → has_prefix o s ≡ false → match_length o c s ≡ none
  unfolding match_length
  match_length-none s h = rw h refl

  strip_from_byte :
      (x : ℕ) (xs : List ℕ)
      → match_length o c (x ∷ xs) ≡ none
      → strip_from o c 0 (x ∷ xs) ≡ x ∷ strip_from o c 0 xs
  unfolding strip_from skip_of
  strip_from_byte x xs h = ground (arith, h)

  strip_from_match :
      (x n : ℕ) (xs : List ℕ)
      → match_length o c (x ∷ xs) ≡ some (suc n)
      → strip_from o c 0 (x ∷ xs) ≡ strip_from o c n xs
  unfolding strip_from skip_of
  strip_from_match x n xs h =
      let e : suc n - 1 ≡ n = omega arith in ground (arith, h, ap (λ k. strip_from o c k xs) e)

  -- Text before an opening tag is kept.
  strip_from-plain :
      (p t : List ℕ)
      → IsFree o p
      → strip_from o c 0 (p ++ (o ++ t)) ≡ p ++ strip_from o c 0 (o ++ t)
  strip_from-plain [] t h = refl
  strip_from-plain (x ∷ p) t h =
      strip_from_byte x (p ++ (o ++ t)) (match_length-none _ (IsFree-has_prefix o p t x h))
      ∙ ap (λ l. x ∷ l) (strip_from-plain p t (tail-IsFree o p x h))

  strip_from-tail : (s : List ℕ) → find o s ≡ none → strip_from o c 0 s ≡ s
  strip_from-tail [] h = unfold strip_from in refl
  strip_from-tail (x ∷ s) h =
      let (away, rest) = find-none o s x h in
      strip_from_byte x s (match_length-none _ away) ∙ ap (λ l. x ∷ l) (strip_from-tail s rest)

  match_length_tagged :
      (s t : List ℕ)
      → IsFree c s
      → match_length o c (o ++ (s ++ (c ++ t))) ≡ some (length o + (length s + length c))
  unfolding match_length
  match_length_tagged s t h =
      let opens = has_prefix-append o (s ++ (c ++ t)) in
      let closes = find-append c s t h in
      let after = drop-append o (s ++ (c ++ t)) in rw (opens, after, closes) refl

-- A tagged text and its tags are skipped.
strip_from_tagged :
    (y : ℕ) (ys c s t : List ℕ)
    → IsFree c s
    → strip_from (y ∷ ys) c 0 ((y ∷ ys) ++ (s ++ (c ++ t))) ≡ strip_from (y ∷ ys) c 0 t
strip_from_tagged y ys c s t h =
    let o = y ∷ ys in
    let u = ys ++ (s ++ c) in
    let long : suc (length ys) + (length s + length c) ≡ suc (length u) =
      omega (arith, length-append ys (s ++ c), length-append s c) in
    let whole : ys ++ (s ++ (c ++ t)) ≡ u ++ t =
      ap (λ l. ys ++ l) (sym (append_assoc s c t)) ∙ sym (append_assoc ys (s ++ c) t) in
    strip_from_match o c y (length u) (ys ++ (s ++ (c ++ t)))
      (match_length_tagged o c s t h ∙ ap some long)
    ∙ ap (strip_from o c (length u)) whole
    ∙ strip_from-skip o c u t

-- A text with private parts: the text before each and its content, and the text after the last.
unfoldable pub render : List (List ℕ × List ℕ) → List ℕ → List ℕ
render [] rest = rest
render ((before, secret) ∷ parts) rest =
    before ++ (private_open ++ (secret ++ (private_close ++ render parts rest)))

unfoldable pub public_text : List (List ℕ × List ℕ) → List ℕ → List ℕ
public_text [] rest = rest
public_text ((before, secret) ∷ parts) rest = before ++ public_text parts rest

-- The tags that stand in the text are those around the private parts.
abbrev pub IsTagged : List (List ℕ × List ℕ) → List ℕ → Type 0
IsTagged parts rest =
    All (λ p. IsFree private_open p.0 × IsFree private_close p.1) parts
    × (find private_open rest ≡ none)

-- If the only tags in a text are those around its private parts, StripPrivateTags leaves the text
-- outside of these parts, unchanged and in its order, and nothing of their contents.
pub strip_private_tags-render :
    (parts : List (List ℕ × List ℕ)) (rest : List ℕ)
    → IsTagged parts rest
    → strip_private_tags (render parts rest) ≡ public_text parts rest
unfolding strip_private_tags render public_text
strip_private_tags-render [] rest h = strip_from-tail private_open private_close rest h.1
strip_private_tags-render ((before, secret) ∷ parts) rest (((free, closed), all), none_left) =
    strip_from-plain private_open private_close before
      (secret ++ (private_close ++ render parts rest)) free
    ∙ ap (λ l. before ++ l)
        (strip_from_tagged b'<' (codes "private>") private_close secret (render parts rest) closed
          ∙ strip_private_tags-render parts rest (all, none_left))
