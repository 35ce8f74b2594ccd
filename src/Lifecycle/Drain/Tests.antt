-- ===== src/Lifecycle/Drain/Tests.antt =====
-- Requests at a draining dispatcher, and the theorem at them.
use claude_mnemonic_plus.Prelude.{ℕ, ◌≡◌, refl, true, false, none, List, [], ◌∷◌, pos, negsuc}
use claude_mnemonic_plus.Dispatcher.{Dispatcher, Request, call_params}
use claude_mnemonic_plus.Dispatcher.Tracking.{connect}
use claude_mnemonic_plus.Lifecycle.Drain.{
  Moment, elapsed, context_done, requested, changed, drain_deadline, start_drain, drain_step,
  drain_steps, total_elapsed, is_cancelled, rejections, drain_steps-start_drain,
}

program : Unit {0}
unfolding drain_deadline start_drain drain_step drain_steps total_elapsed is_cancelled rejections
program = tt

abbrev dispatcher : Dispatcher ℕ
dispatcher = record {
  reg = record { entries = []; tool_index = []; proxy_idx = none; frozen = true };
  draining = false;
  tracked = [];
}

abbrev request : Request
request = record { id = "1"; rpc_method = "tools/call"; params = call_params "store" "{}" }

abbrev moments : List Moment
moments =
    elapsed 300
    ∷ requested "p" request
    ∷ changed (connect "p")
    ∷ elapsed 700
    ∷ requested "p" request
    ∷ []

default_wait :
    (drain_steps (elapsed 4999999999 ∷ []) (start_drain (negsuc 4) dispatcher)).is_waiting ≡ true
unfolding program
default_wait = refl

default_over :
    (drain_steps (elapsed 5000000000 ∷ []) (start_drain (negsuc 4) dispatcher)).is_waiting ≡ false
unfolding program
default_over = refl

cut_short :
    (drain_steps (elapsed 3 ∷ context_done ∷ []) (start_drain (pos 900) dispatcher)).is_waiting
    ≡ false
unfolding program
cut_short = refl

drain_steps-start_drain_example :
    ((drain_steps moments (start_drain (pos 900) dispatcher)).is_waiting ≡ false)
    × ((drain_steps moments (start_drain (pos 900) dispatcher)).replies ≡ rejections moments)
unfolding program
drain_steps-start_drain_example = drain_steps-start_drain (pos 900) dispatcher moments
