-- ===== src/LogBuffer/Contents.antt =====
-- The contents of the ring of internal/logbuf/ring.go, and Snapshot.
use claude_mnemonic_plus.Prelude.{
  ℕ, zero, suc, ◌+◌, ◌-◌, ◌≤◌, ◌<◌, ◌≡◌, refl, ap, sym, ◌∙◌, String, Bool, true, some, List, [],
  ◌∷◌, ◌++◌, length, length-append, append-nil, append_assoc, drop, arith, dec_lt, if◌then◌else◌,
}
use claude_mnemonic_plus.LogBuffer.{
  LogEntry, TextOps, RingBuffer, push, entry_at, collect, keeps, snapshot, new_ring_buffer,
}
use claude_mnemonic_plus.LogBuffer.Entries.{
  IsValid, push-IsValid, new_ring_buffer-IsValid, push_filling, push_full, entry_at_in_range,
}

-- The last n elements.
abbrev pub last {ℓ} : {A : Type ℓ} → ℕ → List A → List A
last n xs = drop (length xs - n) xs

-- The elements that pass a test, in order.
abbrev pub select {ℓ} : {A : Type ℓ} → (A → Bool) → List A → List A
select p [] = []
select p (x ∷ xs) = if p x then x ∷ select p xs else select p xs

-- All entries in the buffer, the oldest first.
abbrev pub contents : RingBuffer → List LogEntry
contents rb = collect (λ _. true) rb 0 rb.size

collect-select :
    (p : LogEntry → Bool) (rb : RingBuffer) (i n : ℕ)
    → collect p rb i n ≡ select p (collect (λ _. true) rb i n)
unfolding collect
collect-select p rb i zero = refl
collect-select p rb i (suc n) = ground (arith, collect-select p rb (suc i) n)

collect_ext :
    (rb rb' : RingBuffer) (i j n : ℕ)
    → ((k : ℕ) → k < n → entry_at rb (i + k) ≡ entry_at rb' (j + k))
    → collect (λ _. true) rb i n ≡ collect (λ _. true) rb' j n
unfolding collect
collect_ext rb rb' i j zero h = refl
collect_ext rb rb' i j (suc n) h =
    let first : entry_at rb i ≡ entry_at rb' j =
      ap (entry_at rb) (omega arith) ∙ h 0 (omega arith) ∙ ap (entry_at rb') (omega arith) in
    let ih = collect_ext rb rb' (suc i) (suc j) n (λ k lt.
      ap (entry_at rb) (omega arith) ∙ h (suc k) (omega arith) ∙ ap (entry_at rb') (omega arith)) in
    ground arith

collect-snoc :
    (rb : RingBuffer) (i n : ℕ) (e : LogEntry)
    → entry_at rb (i + n) ≡ some e
    → collect (λ _. true) rb i (suc n) ≡ collect (λ _. true) rb i n ++ e ∷ []
unfolding collect
collect-snoc rb i zero e h =
    let here : entry_at rb i ≡ some e = ap (entry_at rb) (omega arith) ∙ h in ground arith
collect-snoc rb i (suc n) e h =
    ground (arith, collect-snoc rb (suc i) n e (ap (entry_at rb) (omega arith) ∙ h))

length-collect :
    (rb : RingBuffer) → IsValid rb → (i n : ℕ) → length (collect (λ _. true) rb i n) ≡ n
unfolding collect
length-collect rb v i zero = refl
length-collect rb v i (suc n) =
    let (e, at) = entry_at_in_range rb v i in let ih = length-collect rb v (suc i) n in ground arith

module _ {ℓ} {A : Type ℓ} where
  last_all : (n : ℕ) (xs : List A) → length xs ≤ n → last n xs ≡ xs
  last_all n xs h = let z : length xs - n ≡ 0 = omega arith in ap (λ (k : ℕ). drop k xs) z

  last-cons : (n : ℕ) (x : A) (xs : List A) → n ≤ length xs → last n (x ∷ xs) ≡ last n xs
  last-cons n x xs h =
      let z : suc (length xs) - n ≡ suc (length xs - n) = omega arith in
      ap (λ (k : ℕ). drop k (x ∷ xs)) z

  last-append_last : (n : ℕ) (xs ys : List A) → last n (last n xs ++ ys) ≡ last n (xs ++ ys)
  last-append_last n [] ys = ap (λ l. last n (l ++ ys)) (last_all n [] (omega arith))
  last-append_last n (x ∷ xs) ys = elim (dec_lt (length xs) n) [
    | yes p ↦ ap (λ l. last n (l ++ ys)) (last_all n (x ∷ xs) p)
    | no p ↦
        ap (λ l. last n (l ++ ys)) (last-cons n x xs (omega arith))
        ∙ last-append_last n xs ys
        ∙ sym (last-cons n x (xs ++ ys) (omega (arith, length-append xs ys)))
  ]

capacity-push : (e : LogEntry) (rb : RingBuffer) → (push e rb).capacity ≡ rb.capacity
unfolding push
capacity-push e rb = refl

contents-push_filling :
    (e : LogEntry) (rb : RingBuffer)
    → IsValid rb
    → rb.size < rb.capacity
    → contents (push e rb) ≡ contents rb ++ e ∷ []
contents-push_filling e rb v h =
    let (same, new, size) = push_filling rb v e h in
    let grown : (push e rb).size ≡ suc rb.size = omega arith in
    ap (collect (λ _. true) (push e rb) 0) grown
    ∙ collect-snoc (push e rb) 0 rb.size e (ap (entry_at (push e rb)) (omega arith) ∙ new)
    ∙ ap (λ l. l ++ e ∷ [])
        (collect_ext (push e rb) rb 0 0 rb.size (λ k lt.
          ap (entry_at (push e rb)) (omega arith) ∙ same k lt ∙ ap (entry_at rb) (omega arith)))

contents-push_full :
    (e : LogEntry) (rb : RingBuffer) (n : ℕ)
    → IsValid rb
    → rb.size ≡ suc n
    → rb.size ≡ rb.capacity
    → contents (push e rb) ≡ collect (λ _. true) rb 1 n ++ e ∷ []
contents-push_full e rb n v h full =
    let (same, new, size) = push_full rb v e n h full in
    ap (collect (λ _. true) (push e rb) 0) (size ∙ h)
    ∙ collect-snoc (push e rb) 0 n e (ap (entry_at (push e rb)) (omega arith) ∙ new)
    ∙ ap (λ l. l ++ e ∷ [])
        (collect_ext (push e rb) rb 0 1 n (λ k lt.
          ap (entry_at (push e rb)) (omega arith) ∙ same k lt ∙ ap (entry_at rb) (omega arith)))

contents-cons :
    (rb : RingBuffer) (n : ℕ)
    → IsValid rb
    → rb.size ≡ suc n
    → (x : LogEntry) × (contents rb ≡ x ∷ collect (λ _. true) rb 1 n)
unfolding collect
contents-cons rb n v h =
    let (x, at) = entry_at_in_range rb v 0 in (x, ap (collect (λ _. true) rb 0) h ∙ ground arith)

-- One write keeps the last entries.
contents-push :
    (e : LogEntry) (rb : RingBuffer)
    → IsValid rb
    → contents (push e rb) ≡ last rb.capacity (contents rb ++ e ∷ [])
contents-push e rb v = elim (dec_lt rb.size rb.capacity) [
  | yes p ↦
      contents-push_filling e rb v p
      ∙ sym (
          last_all rb.capacity (contents rb ++ e ∷ [])
            (omega (arith, length-append (contents rb) (e ∷ []), length-collect rb v 0 rb.size)))
  | no p ↦
      let n = rb.size - 1 in
      let full : rb.size ≡ rb.capacity = omega (arith, v.size_in) in
      let h : rb.size ≡ suc n = omega (arith, v.room) in
      let (x, head) = contents-cons rb n v h in
      let rest = collect (λ _. true) rb 1 n in
      let len : length (rest ++ e ∷ []) ≡ rb.capacity =
        omega (arith, length-append rest (e ∷ []), length-collect rb v 1 n) in
      contents-push_full e rb n v h full
      ∙ sym (
          ap (λ l. last rb.capacity (l ++ e ∷ [])) head
          ∙ last-cons rb.capacity x (rest ++ e ∷ []) (omega arith)
          ∙ last_all rb.capacity (rest ++ e ∷ []) (omega arith))
]

-- Several writes.
unfoldable pub push_all : List LogEntry → RingBuffer → RingBuffer
push_all [] rb = rb
push_all (e ∷ es) rb = push_all es (push e rb)

contents-push_all_from :
    (es : List LogEntry) (rb : RingBuffer)
    → IsValid rb
    → IsValid (push_all es rb) × (contents (push_all es rb) ≡ last rb.capacity (contents rb ++ es))
unfolding push_all
contents-push_all_from [] rb v = (
  v,
  sym (
      ap (last rb.capacity) (append-nil (contents rb))
      ∙ last_all rb.capacity (contents rb)
          (omega (arith, v.size_in, length-collect rb v 0 rb.size))),
)
contents-push_all_from (e ∷ es) rb v =
    let (v', all) = contents-push_all_from es (push e rb) (push-IsValid e rb v) in
    (
      v',
      all
          ∙ ap (λ (c : ℕ). last c (contents (push e rb) ++ es)) (capacity-push e rb)
          ∙ ap (λ l. last rb.capacity (l ++ es)) (contents-push e rb v)
          ∙ last-append_last rb.capacity (contents rb ++ e ∷ []) es
          ∙ ap (last rb.capacity) (append_assoc (contents rb) (e ∷ []) es),
    )

capacity-new_ring_buffer : (c : ℕ) → 0 < c → (new_ring_buffer c).capacity ≡ c
unfolding new_ring_buffer
capacity-new_ring_buffer c h = ground arith

contents-new_ring_buffer : (c : ℕ) → contents (new_ring_buffer c) ≡ []
unfolding new_ring_buffer collect
contents-new_ring_buffer c = refl

-- After the entries es have been pushed into a new buffer of capacity c > 0, Snapshot(0) with any
-- level and query returns those of the last c of es that pass the two filters, the oldest first.
pub snapshot-push_all :
    (ops : TextOps) (c : ℕ) (min query : String) (es : List LogEntry)
    → 0 < c
    → snapshot ops 0 min query (push_all es (new_ring_buffer c))
      ≡ select (keeps ops min query) (last c es)
unfolding snapshot
snapshot-push_all ops c min query es h =
    let rb = new_ring_buffer c in
    let (v, all) = contents-push_all_from es rb (new_ring_buffer-IsValid c) in
    collect-select (keeps ops min query) (push_all es rb) 0 (push_all es rb).size
    ∙ ap (select (keeps ops min query)) (
        all
        ∙ ap (λ (k : ℕ). last k (contents rb ++ es)) (capacity-new_ring_buffer c h)
        ∙ ap (λ l. last c (l ++ es)) (contents-new_ring_buffer c))
