-- ===== src/Privacy/Search.antt =====
-- Occurrences of a text in another, as internal/privacy/stripper.go matches its tags.
use claude_mnemonic_plus.Prelude.{
  ℕ, suc, ◌≤◌, ◌≡◌, refl, sym, ap, ◌∙◌, inl, inr, true, false, List, [], ◌∷◌, ◌++◌, none, some,
  length, has_prefix, arith, Bool-cases, Option-cases, length-append, has_prefix-append,
  append_assoc,
}
use claude_mnemonic_plus.Privacy.{find}

-- A text that is long enough decides whether it begins with another.
pub has_prefix-append_right :
    (p s t : List ℕ) → length p ≤ length s → has_prefix p (s ++ t) ≡ has_prefix p s
unfolding has_prefix
has_prefix-append_right [] s t h = refl
has_prefix-append_right (x ∷ xs) [] t h = absurd (omega arith)
has_prefix-append_right (x ∷ xs) (y ∷ ys) t h =
    ground (arith, has_prefix-append_right xs ys t (omega arith))

find_here : (p s : List ℕ) → has_prefix p s ≡ true → find p s ≡ some 0
unfolding find
find_here p [] h = rw h refl
find_here p (x ∷ xs) h = rw h refl

-- No occurrence of p begins in s, where p follows it.
abbrev pub IsFree : List ℕ → List ℕ → Type 0
IsFree p s = find p (s ++ p) ≡ some (length s)

find_later :
    (p xs : List ℕ) (x n : ℕ)
    → find p (x ∷ xs) ≡ some (suc n)
    → (has_prefix p (x ∷ xs) ≡ false) × (find p xs ≡ some n)
unfolding find
find_later p xs x n h = elim (Bool-cases (has_prefix p (x ∷ xs))) [
  | inl here ↦ absurd (ground (arith, here, h))
  | inr not_here ↦ elim (Option-cases (find p xs)) [
    | inl e ↦ absurd (ground (arith, not_here, e, h))
    | inr (m, e) ↦ (not_here, ground (arith, not_here, e, h))
  ]
]

find-suc :
    (p xs : List ℕ) (x n : ℕ)
    → has_prefix p (x ∷ xs) ≡ false
    → find p xs ≡ some n
    → find p (x ∷ xs) ≡ some (suc n)
unfolding find
find-suc p xs x n h e = rw (h, e) refl

pub tail-IsFree : (p s : List ℕ) (x : ℕ) → IsFree p (x ∷ s) → IsFree p s
tail-IsFree p s x h = (find_later p (s ++ p) x (length s) h).1

-- Whatever follows.
pub IsFree-has_prefix :
    (p s t : List ℕ) (x : ℕ) → IsFree p (x ∷ s) → has_prefix p (x ∷ (s ++ (p ++ t))) ≡ false
IsFree-has_prefix p s t x h =
    let l = length-append s p in
    ap (λ v. has_prefix p (x ∷ v)) (sym (append_assoc s p t))
    ∙ has_prefix-append_right p (x ∷ (s ++ p)) t (omega (arith, l))
    ∙ (find_later p (s ++ p) x (length s) h).0

pub find-append : (p s t : List ℕ) → IsFree p s → find p (s ++ (p ++ t)) ≡ some (length s)
find-append p [] t h = find_here p (p ++ t) (has_prefix-append p t)
find-append p (x ∷ s) t h =
    let rest = find-append p s t (tail-IsFree p s x h) in
    let not_here = IsFree-has_prefix p s t x h in
    find-suc p (s ++ (p ++ t)) x (length s) not_here rest

pub find-none :
    (p s : List ℕ) (x : ℕ)
    → find p (x ∷ s) ≡ none
    → (has_prefix p (x ∷ s) ≡ false) × (find p s ≡ none)
unfolding find
find-none p s x h = elim (Bool-cases (has_prefix p (x ∷ s))) [
  | inl here ↦ absurd (ground (arith, here, h))
  | inr not_here ↦ elim (Option-cases (find p s)) [
    | inl e ↦ (not_here, e)
    | inr (m, e) ↦ absurd (ground (arith, not_here, e, h))
  ]
]
