-- ===== src/LogBuffer/Subscribers.antt =====
-- The channels that internal/logbuf/ring.go writes to.
use claude_mnemonic_plus.Prelude.{
  ℕ, zero, suc, ◌≤◌, ◌≡◌, ◌≢◌, refl, ap, sym, ◌∙◌, List, [], ◌∷◌, ◌++◌, map, length, length-append,
  append-nil, append_assoc, take, take_all, arith, dec_lt, ◌⊎◌, inl, inr,
}
use claude_mnemonic_plus.LogBuffer.{
  LogEntry, Subscriber, RingBuffer, offer, push, channel_capacity, subscribe, unsubscribe,
  remove_first,
}
use claude_mnemonic_plus.LogBuffer.Contents.{push_all}

module _ {ℓ} {A : Type ℓ} where
  take-append_full : (n : ℕ) (xs ys : List A) → length xs ≡ n → take n (xs ++ ys) ≡ xs
  take-append_full zero [] ys h = ground arith
  take-append_full (suc n) [] ys h = ground arith
  take-append_full zero (x ∷ xs) ys h = ground arith
  take-append_full (suc n) (x ∷ xs) ys h = ap (λ l. x ∷ l) (take-append_full n xs ys (omega arith))

-- What a channel holds after the entries es, if nothing is received from it meanwhile.
abbrev pub fed : List LogEntry → Subscriber → Subscriber
fed es s = record s { waiting = take channel_capacity (s.waiting ++ es) }

abbrev pub Fits : List Subscriber → Type 0
Fits [] = Unit
Fits (s ∷ ss) = (length s.waiting ≤ channel_capacity) × Fits ss

offer-le :
    (e : LogEntry) (s : Subscriber)
    → length s.waiting ≤ channel_capacity
    → length (offer e s).waiting ≤ channel_capacity
unfolding offer
offer-le e s h = ground (arith, length-append s.waiting (e ∷ []))

fed-offer :
    (e : LogEntry) (es : List LogEntry) (s : Subscriber)
    → length s.waiting ≤ channel_capacity
    → fed es (offer e s) ≡ fed (e ∷ es) s
unfolding offer
fed-offer e es s h = elim (dec_lt (length s.waiting) channel_capacity) [
  | yes p ↦
      let grown : offer e s ≡ record s { waiting = s.waiting ++ e ∷ [] } = ground arith in
      ap (fed es) grown
      ∙ ap (λ l. record s { waiting = take channel_capacity l })
          (append_assoc s.waiting (e ∷ []) es)
  | no p ↦
      let full : length s.waiting ≡ channel_capacity = omega arith in
      let same : offer e s ≡ s = ground arith in
      ap (fed es) same
      ∙ ap (λ l. record s { waiting = l })
          (take-append_full channel_capacity s.waiting es full
            ∙ sym (take-append_full channel_capacity s.waiting (e ∷ es) full))
]

Fits-offer : (e : LogEntry) (ss : List Subscriber) → Fits ss → Fits (map (offer e) ss)
Fits-offer e [] f = tt
Fits-offer e (s ∷ ss) (h, f) = (offer-le e s h, Fits-offer e ss f)

map-fed-offer :
    (e : LogEntry) (es : List LogEntry) (ss : List Subscriber)
    → Fits ss
    → map (fed es) (map (offer e) ss) ≡ map (fed (e ∷ es)) ss
map-fed-offer e es [] f = refl
map-fed-offer e es (s ∷ ss) (h, f) = ground (arith, fed-offer e es s h, map-fed-offer e es ss f)

map-fed_nil : (ss : List Subscriber) → Fits ss → map (fed []) ss ≡ ss
map-fed_nil [] f = refl
map-fed_nil (s ∷ ss) (h, f) =
    let here : fed [] s ≡ s =
      ap (λ l. record s { waiting = take channel_capacity l }) (append-nil s.waiting)
      ∙ ap (λ l. record s { waiting = l }) (take_all channel_capacity s.waiting h) in
    ground (arith, here, map-fed_nil ss f)

-- If no subscriber's channel holds more than 64 entries, then after the entries es have been
-- pushed with no reader in between, each subscriber's channel holds the first 64 of the entries
-- that waited in it followed by es.
pub subscribers-push_all :
    (es : List LogEntry) (rb : RingBuffer)
    → Fits rb.subscribers
    → (push_all es rb).subscribers ≡ map (fed es) rb.subscribers
unfolding push_all push
subscribers-push_all [] rb f = sym (map-fed_nil rb.subscribers f)
subscribers-push_all (e ∷ es) rb f =
    subscribers-push_all es (push e rb) (Fits-offer e rb.subscribers f)
    ∙ map-fed-offer e es rb.subscribers f

-- Whether a channel is among the subscribers.
abbrev pub Subscribed : ℕ → List Subscriber → Type 0
Subscribed ch [] = ⊥
Subscribed ch (s ∷ ss) = (s.chan ≡ ch) ⊎ Subscribed ch ss

remove_first-snoc :
    (ch : ℕ) (ss : List Subscriber) (s : Subscriber)
    → ¬ Subscribed ch ss
    → s.chan ≡ ch
    → remove_first ch (ss ++ s ∷ []) ≡ ss
unfolding remove_first
remove_first-snoc ch [] s new e = ground arith
remove_first-snoc ch (x ∷ ss) s new e =
    let ih = remove_first-snoc ch ss s (λ m. new (inr m)) e in
    let differs : x.chan ≢ ch = λ p. new (inl p) in ground arith

-- Calling the function that Subscribe returns, right after subscribing a channel that no
-- subscriber has, restores the buffer.
pub unsubscribe-subscribe :
    (ch : ℕ) (rb : RingBuffer)
    → ¬ Subscribed ch rb.subscribers
    → unsubscribe ch (subscribe ch rb) ≡ rb
unfolding unsubscribe subscribe
unsubscribe-subscribe ch rb new =
    ap (λ l. record rb { subscribers = l })
      (remove_first-snoc ch rb.subscribers (record { chan = ch; waiting = [] }) new refl)
