-- ===== src/LogBuffer/Entries.antt =====
-- The slots of the ring of internal/logbuf/ring.go, one write at a time.
use claude_mnemonic_plus.Prelude.{
  ℕ, zero, suc, ◌+◌, ◌-◌, ◌%◌, ◌≤◌, ◌<◌, ◌≡◌, refl, ap, sym, ◌∙◌, some, List, [], ◌∷◌, length,
  get_elem?, length-set, get_elem?-set_self, get_elem?-set_ne, arith, replicate, ◌⊎◌, inl, inr,
  ◌==◌, dec_lt, Bool-cases,
}
use native.Mathlib.Nat.{mod-lt, mod-eq_of_lt, mod-eq-sub-mod, zero-add, mod-add-mod}
use claude_mnemonic_plus.LogBuffer.{
  LogEntry, zero_entry, RingBuffer, start, push, entry_at, new_ring_buffer,
}

pub record IsValid (rb : RingBuffer) : Type 0 where
  pub slots : length rb.entries ≡ rb.capacity
  pub room : 0 < rb.capacity
  pub head_in : rb.head < rb.capacity
  pub size_in : rb.size ≤ rb.capacity
  -- Until the ring is full it is filled from the first slot on.
  pub filling : rb.size < rb.capacity → rb.head ≡ rb.size

pub length-replicate {ℓ} : {A : Type ℓ} (n : ℕ) (a : A) → length (replicate n a) ≡ n
length-replicate zero a = refl
length-replicate (suc n) a = ap suc (length-replicate n a)

-- A position less than twice the capacity wraps at most once.
pub mod_wrap : (a c : ℕ) → a < c + c → ((a < c) × (a % c ≡ a)) ⊎ ((c ≤ a) × (a % c ≡ a - c))
mod_wrap a c h = elim (dec_lt a c) [
  | yes p ↦ inl (p, mod-eq_of_lt p)
  | no p ↦
      let le : c ≤ a = omega arith in
      let low : a - c < c = omega arith in inr (le, mod-eq-sub-mod le ∙ mod-eq_of_lt low)
]

pub new_ring_buffer-IsValid : (c : ℕ) → IsValid (new_ring_buffer c)
unfolding new_ring_buffer
new_ring_buffer-IsValid c = elim (Bool-cases (c == 0)) [
  | inl p ↦
      rw (p, new_ring_buffer)
        (record {
          slots = length-replicate 10000 zero_entry;
          room = omega arith;
          head_in = omega arith;
          size_in = omega arith;
          filling = λ h. refl;
        })
  | inr p ↦
      rw (p, new_ring_buffer)
        (record {
          slots = length-replicate c zero_entry;
          room = ground arith;
          head_in = ground arith;
          size_in = omega arith;
          filling = λ h. refl;
        })
]

-- A push keeps the ring well formed: as many slots as the capacity, which is not 0, the head
-- below the capacity, the size at most the capacity, and the head equal to the size until the
-- ring is full.
pub push-IsValid : (e : LogEntry) (rb : RingBuffer) → IsValid rb → IsValid (push e rb)
unfolding push
push-IsValid e rb v = record {
  slots = length-set rb.entries rb.head e ∙ v.slots;
  room = v.room;
  head_in = mod-lt (rb.head + 1) v.room;
  size_in = ground arith;
  filling = ground (arith, mod_wrap (rb.head + 1) rb.capacity (omega arith));
}

module _ (rb : RingBuffer) (v : IsValid rb) where
  -- The oldest entry: the first slot until the ring is full, the next one to be written after.
  pub start_filling : rb.size < rb.capacity → start rb ≡ 0
  start_filling h =
      ground
        (arith, v.filling h, mod_wrap (rb.head + rb.capacity - rb.size) rb.capacity (omega arith))

  pub start_full : rb.size ≡ rb.capacity → start rb ≡ rb.head
  start_full h =
      ground (arith, mod_wrap (rb.head + rb.capacity - rb.size) rb.capacity (omega arith))

  start-lt : start rb < rb.capacity
  start-lt = mod-lt (rb.head + rb.capacity - rb.size) v.room

  get_elem?_in :
      (xs : List LogEntry) (i : ℕ) → i < length xs → (e : LogEntry) × (get_elem? xs i ≡ some e)
  get_elem?_in [] i h = elim h [ ]
  get_elem?_in (x ∷ xs) zero h = (x, refl)
  get_elem?_in (x ∷ xs) (suc i) h = get_elem?_in xs i (omega arith)

  -- The slice accesses of Snapshot are in range.
  pub entry_at_in_range : (i : ℕ) → (e : LogEntry) × (entry_at rb i ≡ some e)
  unfolding entry_at
  entry_at_in_range i =
      get_elem?_in rb.entries ((start rb + i) % rb.capacity)
        (omega (arith, v.slots, mod-lt (start rb + i) v.room))

  at_slot : (i k : ℕ) → (start rb + i) % rb.capacity ≡ k → entry_at rb i ≡ get_elem? rb.entries k
  unfolding entry_at
  at_slot i k h = ap (get_elem? rb.entries) h

module _ (rb : RingBuffer) (v : IsValid rb) (e : LogEntry) where
  size-push_filling : rb.size < rb.capacity → (push e rb).size ≡ rb.size + 1
  unfolding push
  size-push_filling h = ground arith

  size-push_full : rb.size ≡ rb.capacity → (push e rb).size ≡ rb.size
  unfolding push
  size-push_full h = ground arith

  head-push : (push e rb).head ≡ (rb.head + 1) % rb.capacity
  unfolding push
  head-push = refl

  capacity-push : (push e rb).capacity ≡ rb.capacity
  unfolding push
  capacity-push = refl

  written : get_elem? (push e rb).entries rb.head ≡ some e
  unfolding push
  written =
      let (x, at) = get_elem?_in rb v rb.entries rb.head (omega (arith, v.slots, v.head_in)) in
      get_elem?-set_self rb.entries rb.head e at

  unwritten : (i : ℕ) → ¬ (rb.head ≡ i) → get_elem? (push e rb).entries i ≡ get_elem? rb.entries i
  unfolding push
  unwritten i ne = get_elem?-set_ne rb.entries rb.head i e ne

  start-push_filling : rb.size < rb.capacity → start (push e rb) ≡ 0
  start-push_filling h =
      let v' = push-IsValid e rb v in
      let size = size-push_filling h in
      let fill = v.filling h in
      elim (dec_lt (rb.size + 1) rb.capacity) [
        | yes p ↦ start_filling (push e rb) v' (omega (arith, capacity-push))
        | no p ↦
            start_full (push e rb) v' (omega (arith, capacity-push))
            ∙ head-push
            ∙ ground (arith, mod_wrap (rb.head + 1) rb.capacity (omega arith))
      ]

  start-push_full : rb.size ≡ rb.capacity → start (push e rb) ≡ (rb.head + 1) % rb.capacity
  start-push_full h =
      start_full (push e rb) (push-IsValid e rb v) (size-push_full h ∙ h ∙ sym capacity-push)
      ∙ head-push

  -- While the ring fills, a write leaves the entries where they are and adds one.
  pub push_filling :
      rb.size < rb.capacity
      → ((i : ℕ) → i < rb.size → entry_at (push e rb) i ≡ entry_at rb i)
        × (entry_at (push e rb) rb.size ≡ some e)
        × ((push e rb).size ≡ rb.size + 1)
  push_filling h = (same, new, size-push_filling h)
    where
      slot : (i : ℕ) → i < rb.capacity → (start (push e rb) + i) % (push e rb).capacity ≡ i
      slot i lt =
          rw (start-push_filling h, capacity-push)
            (ap (λ (x : ℕ). x % rb.capacity) (zero-add i) ∙ mod-eq_of_lt lt)

      old_slot : (i : ℕ) → i < rb.capacity → (start rb + i) % rb.capacity ≡ i
      old_slot i lt =
          ap (λ (x : ℕ). (x + i) % rb.capacity) (start_filling rb v h)
          ∙ ap (λ (x : ℕ). x % rb.capacity) (zero-add i)
          ∙ mod-eq_of_lt lt

      same : (i : ℕ) → i < rb.size → entry_at (push e rb) i ≡ entry_at rb i
      same i lt =
          at_slot (push e rb) (push-IsValid e rb v) i i (slot i (omega (arith, v.size_in)))
          ∙ unwritten i (λ p. omega (arith, v.filling h))
          ∙ sym (at_slot rb v i i (old_slot i (omega (arith, v.size_in))))

      new : entry_at (push e rb) rb.size ≡ some e
      new =
          at_slot (push e rb) (push-IsValid e rb v) rb.size rb.head
            (slot rb.size h ∙ sym (v.filling h))
          ∙ written

  -- In a full ring the entries move up by one, and the oldest is gone.
  pub push_full :
      (n : ℕ)
      → rb.size ≡ suc n
      → rb.size ≡ rb.capacity
      → ((i : ℕ) → i < n → entry_at (push e rb) i ≡ entry_at rb (suc i))
        × (entry_at (push e rb) n ≡ some e)
        × ((push e rb).size ≡ rb.size)
  push_full n h full = (same, new, size-push_full full)
    where
      slot :
          (i : ℕ)
          → i < rb.capacity
          → (start (push e rb) + i) % (push e rb).capacity ≡ (rb.head + suc i) % rb.capacity
      slot i lt =
          rw (start-push_full full, capacity-push)
            (mod-add-mod (rb.head + 1) rb.capacity i
              ∙ ap (λ (x : ℕ). x % rb.capacity) (omega arith))

      same : (i : ℕ) → i < n → entry_at (push e rb) i ≡ entry_at rb (suc i)
      same i lt =
          let k = (rb.head + suc i) % rb.capacity in
          at_slot (push e rb) (push-IsValid e rb v) i k (slot i (omega arith))
          ∙ unwritten k (λ p.
            omega
              (arith, v.head_in, mod_wrap (rb.head + suc i) rb.capacity (omega (arith, v.head_in))))
          ∙ sym (
              at_slot rb v (suc i) k
                (ap (λ (x : ℕ). (x + suc i) % rb.capacity) (start_full rb v full)))

      home : (rb.head + suc n) % rb.capacity ≡ rb.head
      home =
          omega
            (arith, v.head_in, mod_wrap (rb.head + suc n) rb.capacity (omega (arith, v.head_in)))

      new : entry_at (push e rb) n ≡ some e
      new =
          at_slot (push e rb) (push-IsValid e rb v) n rb.head (slot n (omega arith) ∙ home)
          ∙ written
