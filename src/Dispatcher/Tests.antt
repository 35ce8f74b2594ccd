-- ===== src/Dispatcher/Tests.antt =====
-- Requests to a dispatcher over two modules, and the theorems at them.
use claude_mnemonic_plus.Prelude.{
  ◌≡◌, refl, inl, String, true, false, none, some, [], ◌∷◌, lookup, insert, dec_str, Bool-cases,
}
use claude_mnemonic_plus.Module.{
  EngramModule, ToolDef, ToolProvider, ProxyToolProvider, ToolCall, returned, content, call_failed,
  module_error, list_failed, list_panicked,
}
use claude_mnemonic_plus.Registry.{
  new, discover, register, append_entry, tool_by_name, aggregate_tools, get_proxy_tool_provider,
  find_conflict, index_tools, find_tool, has_name, register_tools, register_entry, aggregate,
}
use claude_mnemonic_plus.Registry.Invariant.{IsValid, new-IsValid}
use claude_mnemonic_plus.Registry.Register.{register-IsValid}
use claude_mnemonic_plus.Dispatcher.{
  Dispatcher, CallParams, call_params, bad_params, Request, parsed, daemon_draining, raw_content,
  rpc_error, rpc_result, reply, no_reply, static_call, proxy_call, call_with_timeout, tool_response,
  handle_tools_list, route, call_params_reply, handle_tools_call, dispatch_method, handle_request,
  set_drain_mode, is_draining,
}
use claude_mnemonic_plus.Dispatcher.Routing.{handle_tools_call_static}
use claude_mnemonic_plus.Dispatcher.Tracking.{
  connected_project_ids, connected_after, is_tracked, on_project_connect, on_project_disconnect,
  session_event, track, untrack,
}

program : Unit {0}
unfolding find_conflict index_tools find_tool new has_name append_entry register_tools
    register_entry register get_proxy_tool_provider tool_by_name aggregate aggregate_tools lookup
    insert dec_str Bool-cases call_with_timeout tool_response handle_tools_list route
    call_params_reply handle_tools_call dispatch_method handle_request set_drain_mode is_draining
    on_project_connect on_project_disconnect session_event track untrack is_tracked connected_after
    connected_project_ids
program = tt

abbrev tool : String → ToolDef
tool n = record { name = n; description = ""; input_schema = "{}" }

abbrev refused_store : ToolCall
refused_store = record {
  outcome = call_failed (module_error (record { code = "invalid_params"; message = "no text" }));
  deadline_exceeded = false;
}

abbrev provider : ToolProvider
provider = record { tools = tool "store" ∷ []; handle_tool = λ p n args. refused_store }

abbrev proxy : ProxyToolProvider
proxy = record {
  proxy_tools = λ p. list_failed "backend down";
  proxy_handle_tool = λ p n args. record { outcome = content args; deadline_exceeded = false };
}

abbrev bad_proxy : ProxyToolProvider
bad_proxy = record proxy { proxy_tools = λ p. list_panicked "nil map" }

abbrev memory : EngramModule String
memory = record {
  name = "memory";
  init = λ d. returned;
  shutdown = returned;
  snapshotter = none;
  lifecycle = none;
  removal_aware = none;
  tool_provider = some provider;
  proxy_tool_provider = none;
}

abbrev bridge : ProxyToolProvider → EngramModule String
bridge p = record memory { name = "bridge"; tool_provider = none; proxy_tool_provider = some p }

abbrev dispatcher : ProxyToolProvider → Dispatcher String
dispatcher p = record {
  reg = (register (register new memory).0 (bridge p)).0;
  draining = false;
  tracked = [];
}

reg-IsValid : (p : ProxyToolProvider) → IsValid (dispatcher p).reg
reg-IsValid p =
    register-IsValid (register new memory).0 (bridge p) (register-IsValid new memory new-IsValid)

abbrev request : String → CallParams → Request
request m c = record { id = "7"; rpc_method = m; params = c }

abbrev store : Request
store = request "tools/call" (call_params "store" "{}")

responses :
    (handle_request
        (dispatcher proxy)
        "p"
        (parsed (request "tools/call" (call_params "remote" "x")))
      ≡ (reply (rpc_result "7" (raw_content "x" false)), proxy_call "bridge" "remote" ∷ []))
    × (handle_request (set_drain_mode true (dispatcher proxy)) "p" (parsed store)
        ≡ (reply (rpc_error "7" 32603 daemon_draining), []))
    × (handle_request
          (dispatcher proxy)
          "p"
          (parsed (request "notifications/cancelled" (bad_params "")))
        ≡ (no_reply, []))
unfolding program
responses = (refl, refl, refl)

handle_tools_call_static_example : handle_tools_call (dispatcher proxy) "p" store ≡ (
  reply (tool_response "7" (call_with_timeout "store" refused_store)),
  static_call "memory" "store" ∷ [],
)
unfolding program
handle_tools_call_static_example =
    handle_tools_call_static (dispatcher proxy) "p" (reg-IsValid proxy) 0 (discover memory) provider
      "7" "store" "{}" "tools/call" refl refl refl (inl refl) (λ e. cc)
