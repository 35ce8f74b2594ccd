-- ===== src/Sse/Dead.antt =====
-- The Done channels of the clients in internal/worker/sse/broadcaster.go: when closing one panics.
use claude_mnemonic_plus.Prelude.{
  ℕ, ◌+◌, ◌≤◌, ◌≡◌, refl, sym, ap, subst, ◌∙◌, Bool, true, false, none, some, List, [], ◌∷◌,
  All-imp, arith, inl, inr, Bool-cases, ℕ_discrete,
}
use claude_mnemonic_plus.Sse.{
  Broadcaster, has_client, delete_client, add_client, close_done, remove_client,
  remove_client_by_id, WriteOutcome, dead_clients, remove_all, broadcast,
}
use claude_mnemonic_plus.Sse.Clients.{
  IsValid, survives, write_to_client_lem, has_client-delete_client, delete_client-Distinct,
  All-delete_client, has_client_above, has_client-dead_clients, All-has_client,
}

done-remove_client_by_id :
    (j c : ℕ) (b : Broadcaster)
    → has_client j b.done ≡ true
    → has_client j (remove_client_by_id c b).done ≡ true
unfolding remove_client_by_id has_client
done-remove_client_by_id j c b h = ground arith

done-remove_all :
    (ds : List ℕ) (j : ℕ) (b : Broadcaster)
    → has_client j b.done ≡ true
    → has_client j (remove_all ds b).done ≡ true
unfolding remove_all
done-remove_all [] j b h = h
done-remove_all (d ∷ ds) j b h =
    done-remove_all ds j (remove_client_by_id d b) (done-remove_client_by_id j d b h)

dead-done :
    (ds : List ℕ) (j : ℕ) (b : Broadcaster)
    → has_client j ds ≡ true
    → has_client j b.clients ≡ true
    → has_client j (remove_all ds b).done ≡ true
unfolding remove_all has_client remove_client_by_id
dead-done [] j b m c = absurd cc
dead-done (d ∷ ds) j b m c = elim (ℕ_discrete d j) [
  | yes e ↦
      let here : has_client d b.clients ≡ true = ap (λ x. has_client x b.clients) e ∙ c in
      let closed : has_client j (remove_client_by_id d b).done ≡ true =
        let same = ap (λ x. has_client x b.done) e in ground arith in
      done-remove_all ds j (remove_client_by_id d b) closed
  | no ne ↦
      let kept : has_client j (remove_client_by_id d b).clients ≡ true =
        ground (arith, has_client-delete_client j d b.clients) in
      dead-done ds j (remove_client_by_id d b) (ground arith) kept
]

-- On a well-formed broadcaster, a connected client to which the write of a broadcast failed or
-- timed out is closed by the broadcast, so that RemoveClient, which the handler of the client
-- defers, closes its channel a second time and panics.
pub remove_client-broadcast :
    (writes : ℕ → WriteOutcome) (c : ℕ) (b : Broadcaster)
    → IsValid b
    → has_client c b.clients ≡ true
    → survives (writes c) ≡ false
    → remove_client c (broadcast true writes b) ≡ none
unfolding broadcast remove_client close_done
remove_client-broadcast writes c b v here dead =
    let marks = write_to_client_lem (writes c) in
    let up : has_client c b.done ≡ false =
      All-has_client (λ x. has_client x b.done ≡ false) c b.clients v.still_open here in
    let found : has_client c (dead_clients writes b.done b.clients) ≡ true =
      ground (arith, has_client-dead_clients writes b.done c b.clients) in
    ground (arith, dead-done (dead_clients writes b.done b.clients) c b found here)

closing-IsValid :
    (c : ℕ) (b : Broadcaster)
    → IsValid b
    → has_client c b.clients ≡ true
    → IsValid (record b { clients = delete_client c b.clients; done = c ∷ b.done })
unfolding has_client
closing-IsValid c b v here = record {
  distinct = delete_client-Distinct c b.clients v.distinct;
  numbered =
      All-imp (delete_client c b.clients) (λ x p. p.0)
        (All-delete_client (λ x. x ≤ b.next_id) c b.clients v.numbered);
  closed_numbered =
      (All-has_client (λ x. x ≤ b.next_id) c b.clients v.numbered here, v.closed_numbered);
  still_open =
      All-imp (delete_client c b.clients) (λ x p. let (o, ne) = p in ground arith)
        (All-delete_client (λ x. has_client x b.done ≡ false) c b.clients v.still_open);
}

remove_client_by_id-IsValid :
    (c : ℕ) (b : Broadcaster) → IsValid b → IsValid (remove_client_by_id c b)
unfolding remove_client_by_id
remove_client_by_id-IsValid c b v = elim (Bool-cases (has_client c b.clients)) [
  | inr h ↦ let e : remove_client_by_id c b ≡ b = ground arith in subst IsValid (sym e) v
  | inl h ↦
      let up : has_client c b.done ≡ false =
        All-has_client (λ x. has_client x b.done ≡ false) c b.clients v.still_open h in
      let e : remove_client_by_id c b
          ≡ record b { clients = delete_client c b.clients; done = c ∷ b.done } =
        ground arith in
      subst IsValid (sym e) (closing-IsValid c b v h)
]

remove_all-IsValid : (ds : List ℕ) (b : Broadcaster) → IsValid b → IsValid (remove_all ds b)
unfolding remove_all
remove_all-IsValid [] b v = v
remove_all-IsValid (d ∷ ds) b v =
    remove_all-IsValid ds (remove_client_by_id d b) (remove_client_by_id-IsValid d b v)

broadcast-IsValid :
    (marshalled : Bool) (writes : ℕ → WriteOutcome) (b : Broadcaster)
    → IsValid b
    → IsValid (broadcast marshalled writes b)
unfolding broadcast
broadcast-IsValid false writes b v = v
broadcast-IsValid true writes b v = remove_all-IsValid (dead_clients writes b.done b.clients) b v

add_client-IsValid :
    (flusher : Bool) (b : Broadcaster) → IsValid b → IsValid (add_client flusher b).0
unfolding add_client
add_client-IsValid false b v = v
add_client-IsValid true b v =
    let up : (x : ℕ) → x ≤ b.next_id → x ≤ b.next_id + 1 = λ x p. omega (arith, p) in
    record {
      distinct = (
        has_client_above b.next_id (b.next_id + 1) b.clients v.numbered (omega arith),
        v.distinct,
      );
      numbered = (omega arith, All-imp b.clients up v.numbered);
      closed_numbered = All-imp b.done up v.closed_numbered;
      still_open = (
        has_client_above b.next_id (b.next_id + 1) b.done v.closed_numbered (omega arith),
        v.still_open,
      );
    }

-- What the handlers and the emitters of events do with a broadcaster.
pub data SseCall : Type 0 where
  connecting : Bool → SseCall
  broadcasting : Bool → (ℕ → WriteOutcome) → SseCall

unfoldable pub sse_calls : List SseCall → Broadcaster → Broadcaster
sse_calls [] b = b
sse_calls (connecting flusher ∷ xs) b = sse_calls xs (add_client flusher b).0
sse_calls (broadcasting marshalled writes ∷ xs) b = sse_calls xs (broadcast marshalled writes b)

sse_calls-IsValid : (xs : List SseCall) (b : Broadcaster) → IsValid b → IsValid (sse_calls xs b)
unfolding sse_calls
sse_calls-IsValid [] b v = v
sse_calls-IsValid (connecting f ∷ xs) b v =
    sse_calls-IsValid xs (add_client f b).0 (add_client-IsValid f b v)
sse_calls-IsValid (broadcasting m w ∷ xs) b v =
    sse_calls-IsValid xs (broadcast m w b) (broadcast-IsValid m w b v)

-- After any calls of AddClient and Broadcast on a well-formed broadcaster, RemoveClient of a
-- client that is still connected closes its channel without a panic, and leaves a well-formed
-- broadcaster without this client.
pub remove_client-sse_calls :
    (xs : List SseCall) (c : ℕ) (b : Broadcaster)
    → IsValid b
    → has_client c (sse_calls xs b).clients ≡ true
    → (b1 : Broadcaster) × (remove_client c (sse_calls xs b) ≡ some b1)
      × IsValid b1
      × (b1.clients ≡ delete_client c (sse_calls xs b).clients)
unfolding remove_client close_done
remove_client-sse_calls xs c b v here =
    let b2 = sse_calls xs b in
    let v2 = sse_calls-IsValid xs b v in
    let up : has_client c b2.done ≡ false =
      All-has_client (λ x. has_client x b2.done ≡ false) c b2.clients v2.still_open here in
    (
      record b2 { clients = delete_client c b2.clients; done = c ∷ b2.done },
      ground arith,
      closing-IsValid c b2 v2 here,
      refl,
    )
