-- ===== src/GrpcServer/Events/Order.antt =====
-- What a client's stream of internal/grpcserver/project_events.go has sent, and what is lost.
use claude_mnemonic_plus.Prelude.{
  ℕ, zero, suc, ◌<◌, ◌≡◌, refl, sym, ap, subst, length-append, ◌∙◌, String, none, some,
  Option-cases, ◌-◌, List, [], ◌∷◌, ◌++◌, append-nil, append_assoc, map, length, dec_str, arith,
  Bool, true, false, Bool-cases, inl, inr,
}
use claude_mnemonic_plus.EventBus as Bus
use claude_mnemonic_plus.EventBus.{Event}
use claude_mnemonic_plus.Bridge.{ProjectEvent, event_type_removed}
use claude_mnemonic_plus.GrpcServer.Events.{
  bus_event_to_proto, event_capacity, EventStream, new_stream, on_event, send_event, receive,
  send_next, StreamStep, emitted, sending, context_done, stream_step, stream_steps, removed_ids,
  heard, NeverFull, ids_of,
}

removed_ids-append :
    (xs ys : List Event) → removed_ids (xs ++ ys) ≡ removed_ids xs ++ removed_ids ys
unfolding removed_ids
removed_ids-append [] ys = refl
removed_ids-append (x ∷ xs) ys = ground (arith, removed_ids-append xs ys)

module _ {ℓ} {A B : Type ℓ} where
  map-snoc : (f : A → B) (xs : List A) (x : A) → map f (xs ++ x ∷ []) ≡ map f xs ++ f x ∷ []
  map-snoc f [] x = refl
  map-snoc f (y ∷ xs) x = ap (λ l. f y ∷ l) (map-snoc f xs x)

-- What a stream has sent, failed to send and still holds.
unfoldable carried : EventStream → List String
carried s = ids_of s.sent ++ (ids_of s.unsent ++ removed_ids s.waiting)

-- An open stream has not failed to send.
abbrev pub IsSending : EventStream → Type 0
IsSending s = s.is_open ≡ true → s.unsent ≡ []

carried-send_event :
    (ok : Bool) (e : ProjectEvent) (s : EventStream)
    → s.unsent ≡ []
    → carried (send_event ok e s) ≡ ids_of s.sent ++ (e.project_id ∷ removed_ids s.waiting)
unfolding carried send_event
carried-send_event true e s h = ground (
  arith,
  h,
  map-snoc (λ x. x.project_id) s.sent e,
  append_assoc (ids_of s.sent) (e.project_id ∷ []) (removed_ids s.waiting),
)
carried-send_event false e s h = ground (arith, h)

carried-received :
    (seq : ℕ) (ok : Bool) (ev : Event) (s : EventStream)
    → s.unsent ≡ []
    → carried (elim (bus_event_to_proto seq ev) [ none ↦ s | some e ↦ send_event ok e s ])
      ≡ ids_of s.sent ++ removed_ids (ev ∷ s.waiting)
unfolding bus_event_to_proto removed_ids
carried-received seq ok ev s h = elim (dec_str (ev.event_type) Bus.event_type_removed) [
  | yes e ↦
      let pb : ProjectEvent = record {
        event_id = Bus.next_seq seq;
        event_type = event_type_removed;
        project_id = ev.project_id;
      } in
      ground (arith, e, carried-send_event ok pb s h)
  | no ne ↦ unfold carried in ground (arith, ne, h)
]

waiting-receive :
    (seq : ℕ) (ok : Bool) (w : List Event) (s : EventStream)
    → s.waiting ≡ w
    → length (receive seq ok w s).waiting ≡ length w - 1
unfolding receive send_event
waiting-receive seq ok [] s e = ground (arith, e)
waiting-receive seq ok (ev ∷ rest) s e = elim (Option-cases (bus_event_to_proto seq ev)) [
  | inl f ↦ ground (arith, f)
  | inr (pb, f) ↦ ground (arith, f)
]

receive-IsSending :
    (seq : ℕ) (ok : Bool) (w : List Event) (s : EventStream)
    → s.unsent ≡ []
    → IsSending (receive seq ok w s)
unfolding receive send_event
receive-IsSending seq ok [] s h = λ o. h
receive-IsSending seq ok (ev ∷ rest) s h = λ o. elim (Option-cases (bus_event_to_proto seq ev)) [
  | inl f ↦ ground (arith, f, h)
  | inr (pb, f) ↦ ground (arith, f, h, o)
]

carried-receive :
    (seq : ℕ) (ok : Bool) (w : List Event) (s : EventStream)
    → s.waiting ≡ w
    → s.unsent ≡ []
    → carried (receive seq ok w s) ≡ carried s
unfolding receive
carried-receive seq ok [] s e h = refl
carried-receive seq ok (ev ∷ rest) s e h =
    carried-received seq ok ev (record s { waiting = rest }) h
    ∙ (unfold carried in ground (arith, e, h))

-- Nothing happens to a stream that has ended.
carried_ended :
    (xs : List StreamStep) (s : EventStream)
    → s.is_open ≡ false
    → (carried (stream_steps xs s) ≡ carried s)
      × ((stream_steps xs s).is_open ≡ false)
      × (heard xs s ≡ [])
unfolding stream_steps stream_step heard
carried_ended [] s h = (refl, h, refl)
carried_ended (emitted ev ∷ xs) s h =
    let same : on_event ev s ≡ s = unfold on_event in ground (arith, h) in
    let (c, o, e) = carried_ended xs s h in ground (arith, same, h, c, o, e)
carried_ended (sending seq ok ∷ xs) s h =
    let same : send_next seq ok s ≡ s = unfold send_next in ground (arith, h) in
    let (c, o, e) = carried_ended xs s h in ground (arith, same, h, c, o, e)
carried_ended (context_done ∷ xs) s h =
    let (c, o, e) = carried_ended xs (record s { is_open = false }) refl in
    (c ∙ (unfold carried in refl), o, e)

NeverFull-received :
    (n seq : ℕ) (ok : Bool) (xs : List StreamStep)
    → NeverFull n (sending seq ok ∷ xs)
    → NeverFull (n - 1) xs
NeverFull-received zero seq ok xs h = subst (λ k. NeverFull k xs) (omega arith) h
NeverFull-received (suc n) seq ok xs h = subst (λ k. NeverFull k xs) (omega arith) h

carried-on_event :
    (ev : Event) (s : EventStream)
    → s.is_open ≡ true
    → length s.waiting < event_capacity
    → (carried (on_event ev s) ≡ carried s ++ removed_ids (ev ∷ []))
      × (length (on_event ev s).waiting ≡ suc (length s.waiting))
      × ((on_event ev s).unsent ≡ s.unsent)
carried-on_event ev s o room =
    let grown : on_event ev s ≡ record s { waiting = s.waiting ++ ev ∷ [] } =
      unfold on_event in ground (arith, o, room) in
    (
      ap carried grown
          ∙ (unfold carried in
              (ap (λ l. ids_of s.sent ++ (ids_of s.unsent ++ l))
                  (removed_ids-append s.waiting (ev ∷ []))
                ∙ ap (λ l. ids_of s.sent ++ l)
                    (sym (
                      append_assoc (ids_of s.unsent) (removed_ids s.waiting)
                        (removed_ids (ev ∷ []))))
                ∙ sym (
                    append_assoc (ids_of s.sent) (ids_of s.unsent ++ removed_ids s.waiting)
                      (removed_ids (ev ∷ []))))),
      ap (λ x. length x.waiting) grown ∙ length-append s.waiting (ev ∷ []) ∙ omega arith,
      ap (λ x. x.unsent) grown,
    )

-- What holds after steps of a stream.
abbrev Keeps : List StreamStep → EventStream → Type 0
Keeps xs s =
    (carried (stream_steps xs s) ≡ carried s ++ removed_ids (heard xs s))
    × IsSending (stream_steps xs s)

Keeps-ended : (xs : List StreamStep) (s : EventStream) → s.is_open ≡ false → Keeps xs s
unfolding removed_ids
Keeps-ended xs s h =
    let (c, o, e) = carried_ended xs s h in
    (
      c ∙ sym (append-nil (carried s)) ∙ ap (λ l. carried s ++ removed_ids l) (sym e),
      λ t. ground (arith, o, t),
    )

Keeps_lem :
    (xs : List StreamStep) (s : EventStream)
    → IsSending s
    → NeverFull (length s.waiting) xs
    → Keeps xs s
unfolding stream_steps stream_step heard removed_ids
Keeps_lem [] s h room = (sym (append-nil (carried s)), h)
Keeps_lem (emitted ev ∷ xs) s h room = elim (Bool-cases s.is_open) [
  | inr ended ↦ Keeps-ended (emitted ev ∷ xs) s ended
  | inl o ↦
      let (c, l, u) = carried-on_event ev s o room.0 in
      let (c1, i) =
        Keeps_lem xs (on_event ev s) (λ t. u ∙ h o) (subst (λ n. NeverFull n xs) (sym l) room.1) in
      let listed : heard (emitted ev ∷ xs) s ≡ ev ∷ heard xs (on_event ev s) = rw o refl in
      (
        c1
            ∙ ap (λ x. x ++ removed_ids (heard xs (on_event ev s))) c
            ∙ append_assoc (carried s) (removed_ids (ev ∷ []))
                (removed_ids (heard xs (on_event ev s)))
            ∙ ap (λ x. carried s ++ x)
                (sym (removed_ids-append (ev ∷ []) (heard xs (on_event ev s))))
            ∙ ap (λ x. carried s ++ removed_ids x) (sym listed),
        i,
      )
]
Keeps_lem (sending seq ok ∷ xs) s h room = elim (Bool-cases s.is_open) [
  | inr ended ↦ Keeps-ended (sending seq ok ∷ xs) s ended
  | inl o ↦
      let e : send_next seq ok s ≡ receive seq ok s.waiting s = unfold send_next in rw o refl in
      let l = ap (λ x. length x.waiting) e ∙ waiting-receive seq ok s.waiting s refl in
      let (c1, i) =
        Keeps_lem xs (send_next seq ok s)
          (subst IsSending (sym e) (receive-IsSending seq ok s.waiting s (h o)))
          (subst (λ n. NeverFull n xs) (sym l)
            (NeverFull-received (length s.waiting) seq ok xs room)) in
      let same = ap carried e ∙ carried-receive seq ok s.waiting s refl (h o) in
      (c1 ∙ ap (λ x. x ++ removed_ids (heard xs (send_next seq ok s))) same, i)
]
Keeps_lem (context_done ∷ xs) s h room =
    let (c, i) = Keeps-ended xs (record s { is_open = false }) refl in
    (c ∙ (unfold carried in refl), i)

-- While no emission meets a full channel of 64 events, the projects that a new stream has sent,
-- then that whose Send failed, and then the removed ones that wait in its channel, are in order
-- the removed projects of the events emitted before the stream ended; a stream that has not ended
-- has failed to send none.
pub sent-stream_steps :
    (xs : List StreamStep)
    → NeverFull 0 xs
    → let s = stream_steps xs new_stream in
      (ids_of s.sent ++ (ids_of s.unsent ++ removed_ids s.waiting)
        ≡ removed_ids (heard xs new_stream))
      × (s.is_open ≡ true → s.unsent ≡ [])
unfolding carried removed_ids
sent-stream_steps xs room = Keeps_lem xs new_stream (λ o. refl) room
