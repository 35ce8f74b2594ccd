-- ===== src/Dedup/Recent.antt =====
-- Mark of internal/handlers/serverevents/dedup.go against the keys seen, the latest first.
use claude_mnemonic_plus.Prelude.{
  ℕ, zero, suc, ◌≤◌, ◌<◌, ◌≡◌, refl, sym, ap, subst, ◌∙◌, inl, inr, true, false, some, List, [],
  ◌∷◌, ite, length, take, arith, Bool-cases, dec_lt,
}
use claude_mnemonic_plus.Dedup.{
  DedupKey, dec_key, Lru, new_lru, contains, remove_key, back, remove_back, evict, mark,
}

-- The distinct keys of a history, both with the latest one first.
unfoldable pub recent : List DedupKey → List DedupKey
recent [] = []
recent (k ∷ ks) = k ∷ remove_key k (recent ks)

-- The cache after the calls of Mark of a history, the latest one first.
unfoldable pub mark_all : List DedupKey → Lru → Lru
mark_all [] l = l
mark_all (k ∷ ks) l = (mark k (mark_all ks l)).0

abbrev pub Distinct : List DedupKey → Type 0
Distinct [] = Unit
Distinct (x ∷ xs) = (contains x xs ≡ false) × Distinct xs

pub contains-remove_key :
    (j k : DedupKey) (xs : List DedupKey)
    → contains j (remove_key k xs) ≡ ite (dec_key k j) false (contains j xs)
unfolding contains remove_key
contains-remove_key j k [] = ground arith
contains-remove_key j k (x ∷ xs) = ground (arith, contains-remove_key j k xs)

remove_key-Distinct : (k : DedupKey) (xs : List DedupKey) → Distinct xs → Distinct (remove_key k xs)
unfolding remove_key
remove_key-Distinct k [] d = tt
remove_key-Distinct k (x ∷ xs) d = elim (dec_key x k) [
  | yes p ↦
      let e : remove_key k (x ∷ xs) ≡ remove_key k xs = ground arith in
      subst Distinct (sym e) (remove_key-Distinct k xs d.1)
  | no p ↦
      let e : remove_key k (x ∷ xs) ≡ x ∷ remove_key k xs = ground arith in
      let fresh : contains x (remove_key k xs) ≡ false =
        ground (arith, contains-remove_key x k xs, d.0) in
      subst Distinct (sym e) (fresh, remove_key-Distinct k xs d.1)
]

pub recent-Distinct : (ks : List DedupKey) → Distinct (recent ks)
unfolding recent
recent-Distinct [] = tt
recent-Distinct (k ∷ ks) = (
  ground (arith, contains-remove_key k k (recent ks)),
  remove_key-Distinct k (recent ks) (recent-Distinct ks),
)

remove_key_absent :
    (k : DedupKey) (xs : List DedupKey) → contains k xs ≡ false → remove_key k xs ≡ xs
unfolding remove_key contains
remove_key_absent k [] h = refl
remove_key_absent k (x ∷ xs) h = ground (arith, remove_key_absent k xs)

-- Removing a key that is not among the first n does not change these.
take-remove_key :
    (n : ℕ) (k : DedupKey) (xs : List DedupKey)
    → contains k (take n xs) ≡ false
    → take n (remove_key k xs) ≡ take n xs
unfolding remove_key contains
take-remove_key zero k xs h = refl
take-remove_key (suc n) k [] h = refl
take-remove_key (suc n) k (x ∷ xs) h = ground (arith, take-remove_key n k xs)

contains-take-suc :
    (n : ℕ) (k : DedupKey) (xs : List DedupKey)
    → contains k (take (suc n) xs) ≡ false
    → contains k (take n xs) ≡ false
unfolding contains
contains-take-suc zero k xs h = refl
contains-take-suc (suc n) k [] h = refl
contains-take-suc (suc n) k (x ∷ xs) h = ground (arith, contains-take-suc n k xs)

pub contains-take :
    (n : ℕ) (k : DedupKey) (xs : List DedupKey)
    → contains k xs ≡ false
    → contains k (take n xs) ≡ false
unfolding contains
contains-take zero k xs h = refl
contains-take (suc n) k [] h = refl
contains-take (suc n) k (x ∷ xs) h = ground (arith, contains-take n k xs)

take-Distinct : (n : ℕ) (xs : List DedupKey) → Distinct xs → Distinct (take n xs)
take-Distinct zero xs d = tt
take-Distinct (suc n) [] d = tt
take-Distinct (suc n) (x ∷ xs) d = (contains-take n x xs d.0, take-Distinct n xs d.1)

-- A key that is seen again moves to the front.
remove_key-take :
    (n : ℕ) (k : DedupKey) (xs : List DedupKey)
    → Distinct xs
    → contains k (take (suc n) xs) ≡ true
    → remove_key k (take (suc n) xs) ≡ take n (remove_key k xs)
unfolding remove_key contains
remove_key-take n k [] d h = cc
remove_key-take zero k (x ∷ xs) d h = ground arith
remove_key-take (suc n) k (x ∷ xs) d h = elim (dec_key x k) [
  | yes p ↦
      let g : contains k xs ≡ false = ap (λ y. contains y xs) (sym p) ∙ d.0 in
      ground (
        arith,
        remove_key_absent k xs g,
        remove_key_absent k (take (suc n) xs) (contains-take (suc n) k xs g),
      )
  | no p ↦ ground (arith, remove_key-take n k xs d.1)
]

-- The last of n + 1 elements is dropped.
remove_back-take :
    (n : ℕ) (xs : List DedupKey) → n < length xs → remove_back (take (suc n) xs) ≡ take n xs
unfolding remove_back
remove_back-take n [] h = elim h [ ]
remove_back-take zero (x ∷ xs) h = refl
remove_back-take (suc n) (x ∷ []) h = absurd (omega arith)
remove_back-take (suc n) (x ∷ y ∷ xs) h =
    ap (λ l. x ∷ l) (remove_back-take n (y ∷ xs) (omega arith))

contains-back : (b : DedupKey) (xs : List DedupKey) → back xs ≡ some b → contains b xs ≡ true
unfolding back contains
contains-back b [] h = cc
contains-back b (x ∷ []) h = ground arith
contains-back b (x ∷ y ∷ ys) h = ground (arith, contains-back b (y ∷ ys) h)

contains-remove_back :
    (j b : DedupKey) (xs : List DedupKey)
    → Distinct xs
    → back xs ≡ some b
    → contains j (remove_back xs) ≡ ite (dec_key b j) false (contains j xs)
unfolding remove_back back contains
contains-remove_back j b [] d h = cc
contains-remove_back j b (x ∷ []) d h = ground arith
contains-remove_back j b (x ∷ y ∷ ys) d h =
    ground (arith, contains-remove_back j b (y ∷ ys) d.1 h, contains-back b (y ∷ ys) h, d.0)

back-cons : (x : DedupKey) (xs : List DedupKey) → (b : DedupKey) × (back (x ∷ xs) ≡ some b)
unfolding back
back-cons x [] = (x, refl)
back-cons x (y ∷ ys) = back-cons y ys

back-some : (xs : List DedupKey) → 0 < length xs → (b : DedupKey) × (back xs ≡ some b)
back-some [] h = absurd (omega arith)
back-some (x ∷ xs) h = back-cons x xs

length-take : (n : ℕ) (xs : List DedupKey) → length (take n xs) ≤ n
length-take zero xs = omega arith
length-take (suc n) [] = omega arith
length-take (suc n) (x ∷ xs) = omega (arith, length-take n xs)

length-take_full : (n : ℕ) (xs : List DedupKey) → n ≤ length (take n xs) → n ≤ length xs
length-take_full zero xs h = omega arith
length-take_full (suc n) [] h = h
length-take_full (suc n) (x ∷ xs) h = omega (arith, length-take_full n xs (omega arith))

take_short :
    (n : ℕ) (xs : List DedupKey) → length (take (suc n) xs) < suc n → take (suc n) xs ≡ take n xs
take_short zero [] h = refl
take_short zero (x ∷ xs) h = absurd (omega arith)
take_short (suc n) [] h = refl
take_short (suc n) (x ∷ xs) h = ap (λ l. x ∷ l) (take_short n xs (omega arith))

-- What holds of the cache after a history.
pub record Follows (n : ℕ) (ks : List DedupKey) (l : Lru) : Type 0 where
  pub sized : l.capacity ≡ suc n
  pub ordered : l.order ≡ take (suc n) (recent ks)
  pub same : (j : DedupKey) → contains j l.entries ≡ contains j l.order

module _ (n : ℕ) (ks : List DedupKey) (l : Lru) (f : Follows n ks l) where
  order-Distinct : Distinct l.order
  order-Distinct =
      subst Distinct (sym f.ordered) (take-Distinct (suc n) (recent ks) (recent-Distinct ks))

  length-order : length l.order ≡ length (take (suc n) (recent ks))
  length-order = ap length f.ordered

  evict_full :
      suc n ≤ length l.order
      → (b : DedupKey) × (back l.order ≡ some b)
        × (evict l ≡ record l { order = remove_back l.order; entries = remove_key b l.entries })
  unfolding evict
  evict_full full =
      let (b, last) = back-some l.order (omega arith) in let z = f.sized in (b, last, ground arith)

  evict_room : length l.order < suc n → evict l ≡ l
  unfolding evict
  evict_room room = let z = f.sized in ground arith

  -- After the eviction there is room for one more key.
  evict-order : (evict l).order ≡ take n (recent ks)
  evict-order = elim (dec_lt (length l.order) (suc n)) [
    | yes room ↦
        ap (λ x. x.order) (evict_room room)
        ∙ f.ordered
        ∙ take_short n (recent ks) (omega (arith, length-order))
    | no full ↦
        let (b, last, e) = evict_full (omega arith) in
        let len = length-take_full (suc n) (recent ks) (omega (arith, length-order)) in
        ap (λ x. x.order) e
        ∙ ap remove_back f.ordered
        ∙ remove_back-take n (recent ks) (omega arith)
  ]

  evict-same : (j : DedupKey) → contains j (evict l).entries ≡ contains j (evict l).order
  evict-same j = elim (dec_lt (length l.order) (suc n)) [
    | yes room ↦
        ap (λ x. contains j x.entries) (evict_room room)
        ∙ f.same j
        ∙ sym (ap (λ x. contains j x.order) (evict_room room))
    | no full ↦
        let (b, last, e) = evict_full (omega arith) in
        ap (λ x. contains j x.entries) e
        ∙ contains-remove_key j b l.entries
        ∙ ap (ite (dec_key b j) false) (f.same j)
        ∙ sym (contains-remove_back j b l.order order-Distinct last)
        ∙ sym (ap (λ x. contains j x.order) e)
  ]

  capacity-evict : (evict l).capacity ≡ l.capacity
  unfolding evict
  capacity-evict = ground arith

  seen_same :
      (k j : DedupKey)
      → contains k l.entries ≡ true
      → contains j l.entries ≡ contains j (k ∷ remove_key k l.order)
  unfolding contains
  seen_same k j seen = ground (arith, f.same j, contains-remove_key j k l.order)

  new_same :
      (k j : DedupKey) → contains j (k ∷ (evict l).entries) ≡ contains j (k ∷ (evict l).order)
  unfolding contains
  new_same k j = ap (ite (dec_key k j) true) (evict-same j)

  mark-Follows : (k : DedupKey) → Follows n (k ∷ ks) (mark k l).0
  unfolding mark recent
  mark-Follows k = elim (Bool-cases (contains k l.entries)) [
    | inl seen ↦
        let here : contains k (take (suc n) (recent ks)) ≡ true =
          sym (ap (contains k) f.ordered) ∙ sym (f.same k) ∙ seen in
        rw (seen, mark)
          (record {
            sized = f.sized;
            ordered =
                ap (λ x. k ∷ x)
                  (ap (remove_key k) f.ordered
                    ∙ remove_key-take n k (recent ks) (recent-Distinct ks) here);
            same = λ j. seen_same k j seen;
          })
    | inr new ↦
        let away : contains k (take (suc n) (recent ks)) ≡ false =
          sym (ap (contains k) f.ordered) ∙ sym (f.same k) ∙ new in
        rw (new, mark)
          (record {
            sized = capacity-evict ∙ f.sized;
            ordered =
                ap (λ x. k ∷ x)
                  (evict-order
                    ∙ sym
                        (take-remove_key n k (recent ks) (contains-take-suc n k (recent ks) away)));
            same = new_same k;
          })
  ]

mark_all-Follows : (n : ℕ) (ks : List DedupKey) → Follows n ks (mark_all ks (new_lru (suc n)))
unfolding mark_all new_lru recent
mark_all-Follows n [] = record { sized = refl; ordered = refl; same = λ j. refl }
mark_all-Follows n (k ∷ ks) =
    mark-Follows n ks (mark_all ks (new_lru (suc n))) (mark_all-Follows n ks) k

-- After any calls of Mark on a new cache of capacity c > 0, the list holds exactly the c keys
-- that were seen last, without repetition and the latest first, or all keys seen if they are
-- fewer.
pub order-mark_all :
    (c : ℕ) (ks : List DedupKey) → 0 < c → (mark_all ks (new_lru c)).order ≡ take c (recent ks)
order-mark_all zero ks h = absurd (omega arith)
order-mark_all (suc n) ks h = (mark_all-Follows n ks).ordered

-- After any calls of Mark on a new cache of capacity c > 0, Mark reports a key as seen exactly if
-- it is among the c distinct keys that were seen last.
pub mark-mark_all :
    (c : ℕ) (ks : List DedupKey) (k : DedupKey)
    → 0 < c
    → (mark k (mark_all ks (new_lru c))).1 ≡ contains k (take c (recent ks))
unfolding mark
mark-mark_all zero ks k h = absurd (omega arith)
mark-mark_all (suc n) ks k h =
    let f = mark_all-Follows n ks in let e = f.same k ∙ ap (contains k) f.ordered in ground arith
