-- ===== src/EventBus/Slots.antt =====
-- The bus of internal/worker/projectevents/bus.go against one slot for each subscription ever made,
-- which is emptied when the subscription ends.
use claude_mnemonic_plus.Prelude.{
  ℕ, zero, suc, ◌+◌, ◌<◌, ◌≡◌, refl, sym, ap, subst, ◌∙◌, Bool, true, false, Option, none, some,
  List, [], ◌∷◌, ◌++◌, map, get_elem?, set, length, length-append, arith, inl, inr, Option-cases,
}
use claude_mnemonic_plus.Module.{Outcome}
use claude_mnemonic_plus.EventBus.{
  Event, Handler, Subscription, Unsubscriber, new_bus, subscribe, remove_subscription, unsubscribe,
  deliver_safe, emit, next_seq, BusCall, subscribing, unsubscribing, BusClients, bus_call,
  bus_calls,
}

abbrev pub Slots : Type 0
Slots = List (Option Handler)

-- The specification: subscribing appends a slot, unsubscribing empties it.
unfoldable pub slot_call : BusCall → Slots → Slots
slot_call (subscribing h) xs = xs ++ some h ∷ []
slot_call (unsubscribing n) xs = set xs n none

unfoldable pub slot_calls : List BusCall → Slots → Slots
slot_calls [] xs = xs
slot_calls (c ∷ cs) xs = slot_calls cs (slot_call c xs)

-- What the handlers of the slots that are not empty do, with the slots' numbers from n.
unfoldable pub slot_emit : ℕ → Event → Slots → List (ℕ × Outcome)
slot_emit n ev [] = []
slot_emit n ev (none ∷ xs) = slot_emit (suc n) ev xs
slot_emit n ev (some h ∷ xs) = (n, h ev) ∷ slot_emit (suc n) ev xs

subs_of : ℕ → Slots → List Subscription
subs_of n [] = []
subs_of n (none ∷ xs) = subs_of (suc n) xs
subs_of n (some h ∷ xs) = record { id = n; handler = h } ∷ subs_of (suc n) xs

abbrev fired_of : Option Handler → Bool
fired_of none = true
fired_of (some h) = false

functions_of : ℕ → Slots → List Unsubscriber
functions_of n [] = []
functions_of n (x ∷ xs) = record { id = n; fired = fired_of x } ∷ functions_of (suc n) xs

subs_of_snoc :
    (n : ℕ) (xs : Slots) (h : Handler)
    → subs_of n (xs ++ some h ∷ [])
      ≡ subs_of n xs ++ record { id = length xs + n; handler = h } ∷ []
unfolding subs_of
subs_of_snoc n [] h = ground arith
subs_of_snoc n (none ∷ xs) h = ground (arith, subs_of_snoc (suc n) xs h)
subs_of_snoc n (some g ∷ xs) h = ground (arith, subs_of_snoc (suc n) xs h)

functions_of_snoc :
    (n : ℕ) (xs : Slots) (h : Handler)
    → functions_of n (xs ++ some h ∷ [])
      ≡ functions_of n xs ++ record { id = length xs + n; fired = false } ∷ []
unfolding functions_of
functions_of_snoc n [] h = ground arith
functions_of_snoc n (x ∷ xs) h = ground (arith, functions_of_snoc (suc n) xs h)

remove_subscription_later :
    (i n : ℕ) (xs : Slots) → i < n → remove_subscription i (subs_of n xs) ≡ subs_of n xs
unfolding remove_subscription subs_of
remove_subscription_later i n [] h = refl
remove_subscription_later i n (none ∷ xs) h = remove_subscription_later i (suc n) xs (omega arith)
remove_subscription_later i n (some g ∷ xs) h =
    ground (arith, remove_subscription_later i (suc n) xs (omega arith))

remove_subscription_slot :
    (k n : ℕ) (xs : Slots) → remove_subscription (k + n) (subs_of n xs) ≡ subs_of n (set xs k none)
unfolding remove_subscription subs_of
remove_subscription_slot k n [] = refl
remove_subscription_slot zero n (none ∷ xs) =
    ground (arith, remove_subscription_later n (suc n) xs (omega arith))
remove_subscription_slot zero n (some g ∷ xs) = ground arith
remove_subscription_slot (suc k) n (none ∷ xs) =
    ground (arith, remove_subscription_slot k (suc n) xs)
remove_subscription_slot (suc k) n (some g ∷ xs) =
    ground (arith, remove_subscription_slot k (suc n) xs)

functions_of-set :
    (k n : ℕ) (xs : Slots)
    → functions_of n (set xs k none)
      ≡ set (functions_of n xs) k (record { id = k + n; fired = true })
unfolding functions_of
functions_of-set k n [] = refl
functions_of-set zero n (x ∷ xs) = ground arith
functions_of-set (suc k) n (x ∷ xs) = ground (arith, functions_of-set k (suc n) xs)

get_elem?-functions_of :
    (k n : ℕ) (xs : Slots) (x : Option Handler)
    → get_elem? xs k ≡ some x
    → get_elem? (functions_of n xs) k ≡ some (record { id = k + n; fired = fired_of x })
unfolding functions_of
get_elem?-functions_of k n [] x h = absurd cc
get_elem?-functions_of zero n (y ∷ xs) x h = ground arith
get_elem?-functions_of (suc k) n (y ∷ xs) x h =
    ground (arith, get_elem?-functions_of k (suc n) xs x h)

get_elem?-functions_of-none :
    (k n : ℕ) (xs : Slots) → get_elem? xs k ≡ none → get_elem? (functions_of n xs) k ≡ none
unfolding functions_of
get_elem?-functions_of-none k n [] h = refl
get_elem?-functions_of-none zero n (y ∷ xs) h = absurd cc
get_elem?-functions_of-none (suc k) n (y ∷ xs) h = get_elem?-functions_of-none k (suc n) xs h

module _ {ℓ} {A : Type ℓ} where
  set_absent : (xs : List A) (k : ℕ) (a : A) → get_elem? xs k ≡ none → set xs k a ≡ xs
  set_absent [] k a h = refl
  set_absent (x ∷ xs) zero a h = absurd cc
  set_absent (x ∷ xs) (suc k) a h = ap (λ l. x ∷ l) (set_absent xs k a h)

  set_same : (xs : List A) (k : ℕ) (a : A) → get_elem? xs k ≡ some a → set xs k a ≡ xs
  set_same [] k a h = refl
  set_same (x ∷ xs) zero a h = ground arith
  set_same (x ∷ xs) (suc k) a h = ap (λ l. x ∷ l) (set_same xs k a h)

  length-set : (xs : List A) (k : ℕ) (a : A) → length (set xs k a) ≡ length xs
  length-set [] k a = refl
  length-set (x ∷ xs) zero a = refl
  length-set (x ∷ xs) (suc k) a = ap suc (length-set xs k a)

-- The bus and the functions that it has returned, against the slots.
record Tracks (xs : Slots) (c : BusClients) : Type 0 where
  subscribed : c.bus.subs ≡ subs_of 1 xs
  counted : c.bus.seq ≡ length xs
  returned : c.returned_functions ≡ functions_of 1 xs

subscribing-Tracks :
    (h : Handler) (xs : Slots) (c : BusClients)
    → suc (length xs) < 18446744073709551616
    → Tracks xs c
    → Tracks (slot_call (subscribing h) xs) (bus_call (subscribing h) c)
unfolding slot_call bus_call subscribe
subscribing-Tracks h xs c small t =
    let z = t.counted in
    let id : next_seq c.bus.seq ≡ length xs + 1 = ground arith in
    record {
      subscribed =
          ap (λ ss. ss ++ record { id = next_seq c.bus.seq; handler = h } ∷ []) t.subscribed
          ∙ ap (λ i. subs_of 1 xs ++ record { id = i; handler = h } ∷ []) id
          ∙ sym (subs_of_snoc 1 xs h);
      counted = omega (arith, id, length-append xs (some h ∷ []));
      returned =
          ap (λ fs. fs ++ record { id = next_seq c.bus.seq; fired = false } ∷ []) t.returned
          ∙ ap (λ i. functions_of 1 xs ++ record { id = i; fired = false } ∷ []) id
          ∙ sym (functions_of_snoc 1 xs h);
    }

unsubscribing-Tracks :
    (n : ℕ) (xs : Slots) (c : BusClients)
    → Tracks xs c
    → Tracks (slot_call (unsubscribing n) xs) (bus_call (unsubscribing n) c)
unfolding slot_call bus_call unsubscribe
unsubscribing-Tracks n xs c t = elim (Option-cases (get_elem? xs n)) [
  | inl out ↦
      let g = ap (λ fs. get_elem? fs n) t.returned ∙ get_elem?-functions_of-none n 1 xs out in
      let same : bus_call (unsubscribing n) c ≡ c = ground arith in
      subst (λ ys. Tracks ys (bus_call (unsubscribing n) c)) (sym (set_absent xs n none out))
        (subst (Tracks xs) (sym same) t)
  | inr (none, e) ↦
      let g = ap (λ fs. get_elem? fs n) t.returned ∙ get_elem?-functions_of n 1 xs none e in
      let same : bus_call (unsubscribing n) c ≡ c =
        ground (arith, set_same c.returned_functions n (record { id = n + 1; fired = true }) g) in
      subst (λ ys. Tracks ys (bus_call (unsubscribing n) c)) (sym (set_same xs n none e))
        (subst (Tracks xs) (sym same) t)
  | inr (some h, e) ↦
      let g = ap (λ fs. get_elem? fs n) t.returned ∙ get_elem?-functions_of n 1 xs (some h) e in
      let cut : bus_call (unsubscribing n) c ≡ record {
        bus = record (c.bus) { subs = remove_subscription (n + 1) c.bus.subs };
        returned_functions = set c.returned_functions n (record { id = n + 1; fired = true });
      } =
        ground arith in
      subst (Tracks (set xs n none)) (sym cut) (record {
        subscribed =
            ap (remove_subscription (n + 1)) t.subscribed ∙ remove_subscription_slot n 1 xs;
        counted = t.counted ∙ sym (length-set xs n none);
        returned =
            ap (λ fs. set fs n (record { id = n + 1; fired = true })) t.returned
            ∙ sym (functions_of-set n 1 xs);
      })
]

bus_calls-Tracks :
    (cs : List BusCall) (xs : Slots) (c : BusClients)
    → length cs + length xs < 18446744073709551616
    → Tracks xs c
    → Tracks (slot_calls cs xs) (bus_calls cs c)
unfolding slot_calls bus_calls slot_call
bus_calls-Tracks [] xs c small t = t
bus_calls-Tracks (subscribing h ∷ cs) xs c small t =
    bus_calls-Tracks cs (slot_call (subscribing h) xs) (bus_call (subscribing h) c)
      (omega (arith, length-append xs (some h ∷ []))) (subscribing-Tracks h xs c (omega arith) t)
bus_calls-Tracks (unsubscribing n ∷ cs) xs c small t =
    bus_calls-Tracks cs (slot_call (unsubscribing n) xs) (bus_call (unsubscribing n) c)
      (omega (arith, length-set xs n none)) (unsubscribing-Tracks n xs c t)

map-deliver_safe :
    (ev : Event) (n : ℕ) (xs : Slots) → map (deliver_safe ev) (subs_of n xs) ≡ slot_emit n ev xs
unfolding subs_of slot_emit deliver_safe
map-deliver_safe ev n [] = refl
map-deliver_safe ev n (none ∷ xs) = map-deliver_safe ev (suc n) xs
map-deliver_safe ev n (some h ∷ xs) = ap (λ l. (n, h ev) ∷ l) (map-deliver_safe ev (suc n) xs)

-- After fewer than 2 ^ 64 calls on a new bus, Emit calls, in the order of the subscriptions and
-- whatever any handler does, exactly the handlers whose subscription was not ended, each once,
-- with the number of its subscription, counted from 1.
pub emit-bus_calls :
    (ev : Event) (cs : List BusCall)
    → length cs < 18446744073709551616
    → emit ev (bus_calls cs (record { bus = new_bus; returned_functions = [] })).bus
      ≡ slot_emit 1 ev (slot_calls cs [])
unfolding emit subs_of functions_of
emit-bus_calls ev cs small =
    let t =
      bus_calls-Tracks cs [] (record { bus = new_bus; returned_functions = [] }) (omega arith)
        (record { subscribed = refl; counted = refl; returned = refl }) in
    ap (map (deliver_safe ev)) t.subscribed ∙ map-deliver_safe ev 1 (slot_calls cs [])
