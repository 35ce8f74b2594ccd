-- ===== src/Lifecycle/Drain.antt =====
-- Drain of internal/module/lifecycle/drain.go, with the dispatcher as its Drainer: what happens
-- from SetDrainMode on is a sequence of moments, in which the clock goes on, the context is
-- cancelled, a tools/call arrives, or a session connects or disconnects. The select of the source
-- ends at the first moment at which one of its two channels is ready. Durations are nanoseconds.
mod Tests
use claude_mnemonic_plus.Prelude.{
  ℕ, negsuc, ◌+◌, ◌≡◌, refl, sym, ap, ◌∙◌, String, Bool, true, false, not, ◌&&◌, List, [], ◌∷◌,
  ◌++◌, append-nil, append_assoc, ltb, ltb_int, ℤ, pos, positive_part, arith, if◌then◌else◌,
}
use claude_mnemonic_plus.Dispatcher.{
  Dispatcher, Request, reply, rpc_error, daemon_draining, Reply, ModuleCall, set_drain_mode,
  handle_tools_call,
}
use claude_mnemonic_plus.Dispatcher.Tracking.{SessionEvent, connect, disconnect, session_event}

abbrev pub default_drain_deadline : ℕ
default_drain_deadline = 5000000000

-- `if deadline <= 0 { deadline = defaultDrainDeadline }`
unfoldable pub drain_deadline : ℤ → ℕ
drain_deadline deadline =
    if ltb_int (pos 0) deadline then positive_part deadline else default_drain_deadline

pub data Moment : Type 0 where
  elapsed : ℕ → Moment
  context_done : Moment
  requested : String → Request → Moment
  changed : SessionEvent → Moment

-- How far the clock went on.
unfoldable pub total_elapsed : List Moment → ℕ
total_elapsed [] = 0
total_elapsed (elapsed n ∷ ms) = n + total_elapsed ms
total_elapsed (context_done ∷ ms) = total_elapsed ms
total_elapsed (requested p req ∷ ms) = total_elapsed ms
total_elapsed (changed e ∷ ms) = total_elapsed ms

unfoldable pub is_cancelled : List Moment → Bool
is_cancelled [] = false
is_cancelled (elapsed n ∷ ms) = is_cancelled ms
is_cancelled (context_done ∷ ms) = true
is_cancelled (requested p req ∷ ms) = is_cancelled ms
is_cancelled (changed e ∷ ms) = is_cancelled ms

-- The draining error for each request, and no call of a module.
unfoldable pub rejections : List Moment → List (Reply × List ModuleCall)
rejections [] = []
rejections (elapsed n ∷ ms) = rejections ms
rejections (context_done ∷ ms) = rejections ms
rejections (requested p req ∷ ms) =
    (reply (rpc_error req.id 32603 daemon_draining), []) ∷ rejections ms
rejections (changed e ∷ ms) = rejections ms

drain_deadline_positive : (deadline : ℤ) → ltb 0 (drain_deadline deadline) ≡ true
unfolding drain_deadline
drain_deadline_positive (pos n) = ground arith
drain_deadline_positive (negsuc n) = refl

-- A Drain under way or returned; the replies and calls of the requests since it began.
pub record Drain (Bytes : Type 0) : Type 0 where
  pub dispatcher : Dispatcher Bytes
  pub deadline : ℕ
  pub waited : ℕ
  pub is_waiting : Bool
  pub replies : List (Reply × List ModuleCall)

module _ {Bytes : Type 0} where
  -- Drain up to its select.
  unfoldable pub start_drain : ℤ → Dispatcher Bytes → Drain Bytes
  start_drain deadline d = record {
    dispatcher = set_drain_mode true d;
    deadline = drain_deadline deadline;
    waited = 0;
    is_waiting = true;
    replies = [];
  }

  -- One moment: the select ends when the timer fires or the context is cancelled.
  unfoldable pub drain_step : Moment → Drain Bytes → Drain Bytes
  drain_step (elapsed n) s =
      let now = s.waited + n in
      record {
        dispatcher = s.dispatcher;
        deadline = s.deadline;
        waited = now;
        is_waiting = s.is_waiting && ltb now s.deadline;
        replies = s.replies;
      }
  drain_step context_done s = record {
    dispatcher = s.dispatcher;
    deadline = s.deadline;
    waited = s.waited;
    is_waiting = false;
    replies = s.replies;
  }
  drain_step (requested p req) s = record {
    dispatcher = s.dispatcher;
    deadline = s.deadline;
    waited = s.waited;
    is_waiting = s.is_waiting;
    replies = s.replies ++ (handle_tools_call s.dispatcher p req ∷ []);
  }
  drain_step (changed e) s = record {
    dispatcher = session_event e s.dispatcher;
    deadline = s.deadline;
    waited = s.waited;
    is_waiting = s.is_waiting;
    replies = s.replies;
  }

  unfoldable pub drain_steps : List Moment → Drain Bytes → Drain Bytes
  drain_steps [] s = s
  drain_steps (m ∷ ms) s = drain_steps ms (drain_step m s)

  rejected :
      (d : Dispatcher Bytes) (p : String) (req : Request)
      → d.draining ≡ true
      → handle_tools_call d p req ≡ (reply (rpc_error req.id 32603 daemon_draining), [])
  unfolding handle_tools_call
  rejected d p req on = ground (arith, on)

  session_event-draining :
      (e : SessionEvent) (d : Dispatcher Bytes) → (session_event e d).draining ≡ d.draining
  unfolding session_event
  session_event-draining (connect p) d = refl
  session_event-draining (disconnect p) d = refl

  is_waiting-drain_steps :
      (ms : List Moment) (s : Drain Bytes)
      → (s.is_waiting && ltb s.waited s.deadline) ≡ s.is_waiting
      → (drain_steps ms s).is_waiting
        ≡ (s.is_waiting && (not (is_cancelled ms) && ltb (s.waited + total_elapsed ms) s.deadline))
  unfolding drain_steps drain_step is_cancelled total_elapsed
  is_waiting-drain_steps [] s h = ground (arith, h)
  is_waiting-drain_steps (elapsed n ∷ ms) s h =
      let rest = is_waiting-drain_steps ms (drain_step (elapsed n) s) (ground arith) in
      ground (arith, rest)
  is_waiting-drain_steps (context_done ∷ ms) s h =
      let rest = is_waiting-drain_steps ms (drain_step context_done s) refl in ground (arith, rest)
  is_waiting-drain_steps (requested p req ∷ ms) s h =
      is_waiting-drain_steps ms (drain_step (requested p req) s) h
  is_waiting-drain_steps (changed e ∷ ms) s h =
      is_waiting-drain_steps ms (drain_step (changed e) s) h

  replies-drain_steps :
      (ms : List Moment) (s : Drain Bytes)
      → s.dispatcher.draining ≡ true
      → (drain_steps ms s).replies ≡ s.replies ++ rejections ms
  unfolding drain_steps drain_step rejections handle_tools_call
  replies-drain_steps [] s on = sym (append-nil s.replies)
  replies-drain_steps (elapsed n ∷ ms) s on = replies-drain_steps ms (drain_step (elapsed n) s) on
  replies-drain_steps (context_done ∷ ms) s on =
      replies-drain_steps ms (drain_step context_done s) on
  replies-drain_steps (requested p req ∷ ms) s on =
      let rest = replies-drain_steps ms (drain_step (requested p req) s) on in
      rest
      ∙ append_assoc s.replies (handle_tools_call s.dispatcher p req ∷ []) (rejections ms)
      ∙ ap (λ r. s.replies ++ (r ∷ rejections ms)) (rejected s.dispatcher p req on)
  replies-drain_steps (changed e ∷ ms) s on =
      replies-drain_steps ms (drain_step (changed e) s) (session_event-draining e s.dispatcher ∙ on)

  -- Whatever happens after Drain has begun, it is still waiting exactly if its context was not
  -- cancelled and less time than its deadline has gone by, 5 seconds if that is not positive. All
  -- the while and afterwards, whatever sessions connect or disconnect, every tools/call is
  -- answered with the draining error and reaches no module.
  pub drain_steps-start_drain :
      (deadline : ℤ) (d : Dispatcher Bytes) (ms : List Moment)
      → let limit = if ltb_int (pos 0) deadline then positive_part deadline else 5000000000 in
        ((drain_steps ms (start_drain deadline d)).is_waiting
          ≡ (not (is_cancelled ms) && ltb (total_elapsed ms) limit))
        × ((drain_steps ms (start_drain deadline d)).replies ≡ rejections ms)
  unfolding start_drain drain_deadline set_drain_mode
  drain_steps-start_drain deadline d ms =
      let waits =
        is_waiting-drain_steps ms (start_drain deadline d) (drain_deadline_positive deadline) in
      let from_zero : 0 + total_elapsed ms ≡ total_elapsed ms = omega arith in
      (
        waits ∙ ap (λ t. not (is_cancelled ms) && ltb t (drain_deadline deadline)) from_zero,
        replies-drain_steps ms (start_drain deadline d) refl,
      )
