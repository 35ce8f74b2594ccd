-- ===== src/Markdown/Lines.antt =====
-- Lists of lines as internal/chunking/markdown/chunker.go cuts and joins them.
use claude_mnemonic_plus.Prelude.{
  ℕ, zero, suc, ◌-◌, ◌≤◌, ◌<◌, ◌≡◌, refl, sym, ◌∙◌, ap, Bool, true, false, List, [], ◌∷◌, ◌++◌,
  length, All, arith, if◌then◌else◌, take, drop, append_assoc,
}
use claude_mnemonic_plus.Markdown.{join_lines}

drop_nil : {A : Type 0} (n : ℕ) → drop n (let e : List A = [] in e) ≡ []
drop_nil zero = refl
drop_nil (suc n) = refl

pub drop-drop : {A : Type 0} (a b : ℕ) (xs : List A) → a ≤ b → drop (b - a) (drop a xs) ≡ drop b xs
drop-drop zero b xs h = ap (λ n. drop n xs) (omega arith)
drop-drop (suc a) zero xs h = absurd (omega arith)
drop-drop (suc a) (suc b) [] h = drop_nil (suc b - suc a)
drop-drop (suc a) (suc b) (x ∷ xs) h =
    ap (λ n. drop n (drop a xs)) (omega arith) ∙ drop-drop a b xs (omega arith)

pub take-append-drop : {A : Type 0} (n : ℕ) (xs : List A) → take n xs ++ drop n xs ≡ xs
take-append-drop zero xs = refl
take-append-drop (suc n) [] = refl
take-append-drop (suc n) (x ∷ xs) = ap (λ l. x ∷ l) (take-append-drop n xs)

pub length-drop : {A : Type 0} (n : ℕ) (xs : List A) → length (drop n xs) ≡ length xs - n
length-drop zero xs = omega arith
length-drop (suc n) [] = omega arith
length-drop (suc n) (x ∷ xs) = length-drop n xs ∙ omega arith

pub length-take_le : {A : Type 0} (n : ℕ) (xs : List A) → n ≤ length xs → length (take n xs) ≡ n
length-take_le zero xs h = refl
length-take_le (suc n) [] h = absurd (omega arith)
length-take_le (suc n) (x ∷ xs) h = ap suc (length-take_le n xs (omega arith))

pub join_lines-cons :
    (x : List ℕ) (xs : List (List ℕ))
    → 0 < length xs
    → join_lines (x ∷ xs) ≡ x ++ (10 ∷ join_lines xs)
unfolding join_lines
join_lines-cons x [] h = absurd (omega arith)
join_lines-cons x (y ∷ ys) h = refl

pub join_lines-append :
    (xs ys : List (List ℕ))
    → 0 < length xs
    → 0 < length ys
    → join_lines (xs ++ ys) ≡ join_lines xs ++ (10 ∷ join_lines ys)
unfolding join_lines
join_lines-append [] ys h k = absurd (omega arith)
join_lines-append (x ∷ []) ys h k = join_lines-cons x ys k
join_lines-append (x ∷ z ∷ xs) ys h k =
    let rest = join_lines-append (z ∷ xs) ys (omega arith) k in
    ap (λ l. x ++ (10 ∷ l)) rest
    ∙ sym (append_assoc x (10 ∷ join_lines (z ∷ xs)) (10 ∷ join_lines ys))

pub All-if :
    {A : Type 0} (P : A → Type 0) (b : Bool) (xs ys : List A)
    → All P xs
    → All P ys
    → All P (if b then xs else ys)
All-if P true xs ys h k = h
All-if P false xs ys h k = k
