-- ===== src/Sse/Clients.antt =====
-- Which clients the broadcaster of internal/worker/sse/broadcaster.go has after Broadcast.
use claude_mnemonic_plus.Prelude.{
  ℕ, ◌==◌, ◌≤◌, ◌<◌, ◌≡◌, ◌≢◌, refl, sym, ap, subst, ◌∙◌, Bool, true, false, not, ◌&&◌, List, [],
  ◌∷◌, All, arith, inl, inr, Bool-cases, ℕ_discrete, if◌then◌else◌,
}
use claude_mnemonic_plus.Sse.{
  Broadcaster, has_client, delete_client, remove_client_by_id, WriteOutcome, written, write_failed,
  timed_out, disconnected, write_to_client, dead_clients, remove_all, broadcast,
}

-- Whether a client is alive after a write that ended in this way.
abbrev pub survives : WriteOutcome → Bool
survives written = true
survives write_failed = false
survives timed_out = false
survives disconnected = true

pub write_to_client_lem : (o : WriteOutcome) → write_to_client o ≡ not (survives o)
unfolding write_to_client
write_to_client_lem written = refl
write_to_client_lem write_failed = refl
write_to_client_lem timed_out = refl
write_to_client_lem disconnected = refl

-- The clients that a broadcast keeps.
unfoldable pub survivors : (ℕ → WriteOutcome) → List ℕ → List ℕ
survivors writes [] = []
survivors writes (c ∷ cs) =
    let rest = survivors writes cs in if survives (writes c) then c ∷ rest else rest

-- Well-formedness: no client twice, each numbered from the counter, and none with a closed Done.
abbrev pub Distinct : List ℕ → Type 0
Distinct [] = Unit
Distinct (x ∷ xs) = (has_client x xs ≡ false) × Distinct xs

pub record IsValid (b : Broadcaster) : Type 0 where
  pub distinct : Distinct b.clients
  pub numbered : All (λ c. c ≤ b.next_id) b.clients
  pub closed_numbered : All (λ c. c ≤ b.next_id) b.done
  pub still_open : All (λ c. has_client c b.done ≡ false) b.clients

pub has_client-delete_client :
    (j c : ℕ) (xs : List ℕ)
    → has_client j (delete_client c xs) ≡ (if c == j then false else has_client j xs)
unfolding has_client delete_client
has_client-delete_client j c [] = ground arith
has_client-delete_client j c (x ∷ xs) = ground (arith, has_client-delete_client j c xs)

pub has_client_above :
    (n m : ℕ) (xs : List ℕ) → All (λ c. c ≤ n) xs → n < m → has_client m xs ≡ false
unfolding has_client
has_client_above n m [] a h = refl
has_client_above n m (x ∷ xs) (le, a) h = ground (arith, has_client_above n m xs a h)

delete_client_absent : (c : ℕ) (xs : List ℕ) → has_client c xs ≡ false → delete_client c xs ≡ xs
unfolding has_client delete_client
delete_client_absent c [] h = refl
delete_client_absent c (x ∷ xs) h = ground (arith, delete_client_absent c xs)

-- What holds of the clients holds of those that are left, which differ from the one deleted.
pub All-delete_client :
    (P : ℕ → Type 0) (c : ℕ) (xs : List ℕ)
    → All P xs
    → All (λ x. P x × (x ≢ c)) (delete_client c xs)
unfolding delete_client
All-delete_client P c [] a = tt
All-delete_client P c (x ∷ xs) (p, a) = elim (ℕ_discrete x c) [
  | yes e ↦
      let d : delete_client c (x ∷ xs) ≡ delete_client c xs = ground arith in
      subst (All (λ y. P y × (y ≢ c))) (sym d) (All-delete_client P c xs a)
  | no ne ↦
      let d : delete_client c (x ∷ xs) ≡ x ∷ delete_client c xs = ground arith in
      subst (All (λ y. P y × (y ≢ c))) (sym d) ((p, ne), All-delete_client P c xs a)
]

pub All-has_client :
    (P : ℕ → Type 0) (c : ℕ) (xs : List ℕ) → All P xs → has_client c xs ≡ true → P c
unfolding has_client
All-has_client P c [] a h = absurd cc
All-has_client P c (x ∷ xs) (p, a) h = elim (ℕ_discrete x c) [
  | yes e ↦ subst P e p
  | no ne ↦ All-has_client P c xs a (ground arith)
]

pub delete_client-Distinct : (c : ℕ) (xs : List ℕ) → Distinct xs → Distinct (delete_client c xs)
unfolding delete_client
delete_client-Distinct c [] d = tt
delete_client-Distinct c (x ∷ xs) (n, d) = elim (ℕ_discrete x c) [
  | yes e ↦
      let q : delete_client c (x ∷ xs) ≡ delete_client c xs = ground arith in
      subst Distinct (sym q) (delete_client-Distinct c xs d)
  | no ne ↦
      let q : delete_client c (x ∷ xs) ≡ x ∷ delete_client c xs = ground arith in
      subst Distinct (sym q)
        (ground (arith, has_client-delete_client x c xs), delete_client-Distinct c xs d)
]

-- Calls that leave the client alone or remove it.
unfoldable delete_clients : List ℕ → List ℕ → List ℕ
delete_clients [] xs = xs
delete_clients (c ∷ cs) xs = delete_clients cs (delete_client c xs)

clients-remove_client_by_id :
    (c : ℕ) (b : Broadcaster) → (remove_client_by_id c b).clients ≡ delete_client c b.clients
unfolding remove_client_by_id
clients-remove_client_by_id c b = elim (Bool-cases (has_client c b.clients)) [
  | inl h ↦ ground arith
  | inr h ↦ ground (arith, delete_client_absent c b.clients h)
]

clients-remove_all :
    (ds : List ℕ) (b : Broadcaster) → (remove_all ds b).clients ≡ delete_clients ds b.clients
unfolding remove_all delete_clients
clients-remove_all [] b = refl
clients-remove_all (d ∷ ds) b =
    clients-remove_all ds (remove_client_by_id d b)
    ∙ ap (delete_clients ds) (clients-remove_client_by_id d b)

delete_clients-other :
    (ds : List ℕ) (c : ℕ) (xs : List ℕ)
    → has_client c ds ≡ false
    → delete_clients ds (c ∷ xs) ≡ c ∷ delete_clients ds xs
unfolding delete_clients delete_client has_client
delete_clients-other [] c xs h = refl
delete_clients-other (d ∷ ds) c xs h =
    let keep : delete_client d (c ∷ xs) ≡ c ∷ delete_client d xs = ground arith in
    ap (delete_clients ds) keep ∙ delete_clients-other ds c (delete_client d xs) (ground arith)

pub has_client-dead_clients :
    (writes : ℕ → WriteOutcome) (done : List ℕ) (j : ℕ) (cs : List ℕ)
    → has_client j (dead_clients writes done cs)
      ≡ has_client j cs && (not (has_client j done) && write_to_client (writes j))
unfolding has_client dead_clients
has_client-dead_clients writes done j [] = refl
has_client-dead_clients writes done j (c ∷ cs) = elim (ℕ_discrete c j) [
  | yes e ↦
      let d = ap (λ x. has_client x done) e in
      let w = ap (λ x. write_to_client (writes x)) e in
      ground (arith, has_client-dead_clients writes done j cs)
  | no ne ↦ ground (arith, has_client-dead_clients writes done j cs)
]

delete_clients-dead_clients :
    (writes : ℕ → WriteOutcome) (done : List ℕ) (cs : List ℕ)
    → Distinct cs
    → All (λ c. has_client c done ≡ false) cs
    → delete_clients (dead_clients writes done cs) cs ≡ survivors writes cs
unfolding survivors dead_clients delete_clients
delete_clients-dead_clients writes done [] d o = refl
delete_clients-dead_clients writes done (c ∷ cs) (n, d) (o, os) =
    let ih = delete_clients-dead_clients writes done cs d os in
    let ds = dead_clients writes done cs in
    let marks = write_to_client_lem (writes c) in
    elim (Bool-cases (write_to_client (writes c))) [
      | inl dead ↦
          let e : dead_clients writes done (c ∷ cs) ≡ c ∷ ds = ground arith in
          let gone : delete_client c (c ∷ cs) ≡ cs =
            unfold delete_client in ground (arith, delete_client_absent c cs n) in
          let s : survivors writes (c ∷ cs) ≡ survivors writes cs = ground arith in
          ap (λ l. delete_clients l (c ∷ cs)) e ∙ ap (delete_clients ds) gone ∙ ih ∙ sym s
      | inr alive ↦
          let e : dead_clients writes done (c ∷ cs) ≡ ds = ground arith in
          let away : has_client c ds ≡ false =
            ground (arith, has_client-dead_clients writes done c cs) in
          let s : survivors writes (c ∷ cs) ≡ c ∷ survivors writes cs = ground arith in
          ap (λ l. delete_clients l (c ∷ cs)) e
          ∙ delete_clients-other ds c cs away
          ∙ ap (λ l. c ∷ l) ih
          ∙ sym s
    ]

-- On a well-formed broadcaster, a broadcast keeps, in their order, exactly the clients to which
-- the write neither failed nor timed out.
pub clients-broadcast :
    (writes : ℕ → WriteOutcome) (b : Broadcaster)
    → IsValid b
    → (broadcast true writes b).clients ≡ survivors writes b.clients
unfolding broadcast
clients-broadcast writes b v =
    clients-remove_all (dead_clients writes b.done b.clients) b
    ∙ delete_clients-dead_clients writes b.done b.clients v.distinct v.still_open
