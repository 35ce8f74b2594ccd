-- ===== src/Dispatcher/Routing.antt =====
-- handleToolsCall, handleToolsList and HandleRequest of internal/module/dispatcher.
use claude_mnemonic_plus.Prelude.{
  ℕ, ◌≤◌, ◌≡◌, refl, ◌≢◌, ◌⊎◌, ◌↔◌, String, Bool, true, false, some, [], ◌∷◌, arith, length,
  get_elem?,
}
use claude_mnemonic_plus.Module.{
  ToolProvider, ToolCall, CallOutcome, content, call_failed, call_panicked, proxy_is_error,
  module_error, other_error, ProxyToolProvider, list_failed, list_panicked,
}
use claude_mnemonic_plus.Registry.{ModuleEntry, aggregate_tools}
use claude_mnemonic_plus.Registry.Invariant.{IsValid, Offers}
use claude_mnemonic_plus.Registry.Lookup.{
  tool_by_name_of_entry, tool_by_name_cases, get_proxy_tool_provider_cases,
  get_proxy_tool_provider_lem, aggregate_tools_iff,
}
use claude_mnemonic_plus.Dispatcher.{
  Dispatcher, Request, Incoming, parsed, unparsable, CallParams, bad_params, call_params,
  daemon_draining, tool_not_found, Response, rpc_error, rpc_result, Reply, reply, no_reply, crash,
  static_call, tool_list, raw_content, text_content, ToolError, call_with_timeout, tool_response,
  handle_tools_list, route, call_params_reply, handle_tools_call, dispatch_method, handle_request,
  set_drain_mode,
}

-- The id that a response carries.
abbrev pub response_id : Response → String
response_id (rpc_error id n m) = id
response_id (rpc_result id p) = id

abbrev pub Answers : String → Reply → Type 0
Answers id (reply r) = response_id r ≡ id
Answers id no_reply = Unit
Answers id crash = Unit

response_id-tool_response :
    (id : String) (o : String ⊎ ToolError) → response_id (tool_response id o) ≡ id
unfolding tool_response
response_id-tool_response id o = ground arith

module _ {Bytes : Type 0} (d : Dispatcher Bytes) (p : String) where
  route-Answers : (id name args : String) → Answers id (route d p id name args).0
  unfolding route
  route-Answers id name args = grind (arith, response_id-tool_response)

  handle_tools_list-Answers : (id : String) → Answers id (handle_tools_list d p id).0
  unfolding handle_tools_list
  handle_tools_list-Answers id = ground arith

  call_params_reply-Answers :
      (id : String) (c : CallParams) → Answers id (call_params_reply d p id c).0
  unfolding call_params_reply
  call_params_reply-Answers id (bad_params e) = refl
  call_params_reply-Answers id (call_params n a) = ground (arith, route-Answers id n a)

  handle_tools_call-Answers : (req : Request) → Answers req.id (handle_tools_call d p req).0
  unfolding handle_tools_call
  handle_tools_call-Answers req = ground (arith, call_params_reply-Answers req.id req.params)

  -- Every response that HandleRequest makes to a request that could be parsed carries the id of
  -- that request.
  pub handle_request-Answers : (req : Request) → Answers req.id (handle_request d p (parsed req)).0
  unfolding handle_request dispatch_method
  handle_request-Answers req =
      ground (arith, handle_tools_list-Answers req.id, handle_tools_call-Answers req)

  route_one_call : (id name args : String) → length (route d p id name args).1 ≤ 1
  unfolding route
  route_one_call id name args = ground arith

  call_params_one_call : (id : String) (c : CallParams) → length (call_params_reply d p id c).1 ≤ 1
  unfolding call_params_reply
  call_params_one_call id (bad_params e) = omega arith
  call_params_one_call id (call_params n a) = ground (arith, route_one_call id n a)

  handle_tools_list_one_call : (id : String) → length (handle_tools_list d p id).1 ≤ 1
  unfolding handle_tools_list
  handle_tools_list_one_call id = ground arith

  handle_tools_call_one_call : (req : Request) → length (handle_tools_call d p req).1 ≤ 1
  unfolding handle_tools_call
  handle_tools_call_one_call req = ground (arith, call_params_one_call req.id req.params)

  -- HandleRequest makes at most one call into a module.
  pub length-handle_request-le : (i : Incoming) → length (handle_request d p i).1 ≤ 1
  unfolding handle_request dispatch_method
  length-handle_request-le (unparsable e) = omega arith
  length-handle_request-le (parsed req) =
      ground (arith, handle_tools_list_one_call req.id, handle_tools_call_one_call req)

  -- In drain mode a tools/call is refused with -32603 and reaches no module, whatever its
  -- parameters.
  pub handle_tools_call_draining :
      (req : Request)
      → handle_tools_call (set_drain_mode true d) p req
        ≡ (reply (rpc_error req.id 32603 daemon_draining), [])
  unfolding handle_tools_call set_drain_mode
  handle_tools_call_draining req = refl

  module _ (v : IsValid d.reg) where
    route-ne-crash : (id name args : String) → (route d p id name args).0 ≢ crash
    unfolding route
    route-ne-crash id name args h =
        ground (arith, tool_by_name_cases d.reg v name, get_proxy_tool_provider_cases d.reg v)

    call_params_reply-ne-crash :
        (id : String) (c : CallParams) → (call_params_reply d p id c).0 ≢ crash
    unfolding call_params_reply
    call_params_reply-ne-crash id (bad_params e) h = cc
    call_params_reply-ne-crash id (call_params n a) h = ground (arith, route-ne-crash id n a)

    -- On a valid registry, tools/call never ends in a panic, whatever the request and whatever
    -- the module called does.
    pub handle_tools_call-ne-crash : (req : Request) → (handle_tools_call d p req).0 ≢ crash
    unfolding handle_tools_call
    handle_tools_call-ne-crash req h = ground (arith, call_params_reply-ne-crash req.id req.params)

    -- On a valid registry and not draining, a tools/call with a non-empty name that a registered
    -- module's ToolProvider offers makes one call, to that module, and the response is made from
    -- the outcome of this call, whether or not a proxy provider is registered.
    pub handle_tools_call_static :
        (i : ℕ) (e : ModuleEntry Bytes) (tp : ToolProvider) (id name args m : String)
        → d.draining ≡ false
        → get_elem? d.reg.entries i ≡ some e
        → e.tool_prov ≡ some tp
        → Offers name tp.tools
        → name ≢ ""
        → handle_tools_call d p (record { id = id; rpc_method = m; params = call_params name args })
          ≡ (
            reply (tool_response id (call_with_timeout name (tp.handle_tool p name args))),
            static_call e.engram_module.name name ∷ [],
          )
    unfolding handle_tools_call call_params_reply route
    handle_tools_call_static i e tp id name args m draining at has offers ne =
        let (td, f, q) = tool_by_name_of_entry d.reg v i e name at (rw has offers) in ground arith

    -- On a valid registry, a tools/call for a name that AggregateTools lists is not answered with
    -- the error "tool not found".
    pub advertised_found :
        (req : Request) (name args : String)
        → req.params ≡ call_params name args
        → Offers name (aggregate_tools d.reg)
        → (handle_tools_call d p req).0 ≢ reply (rpc_error req.id 32601 (tool_not_found name))
    unfolding handle_tools_call call_params_reply route tool_response
    advertised_found req name args e o h = ground (arith, (aggregate_tools_iff d.reg v name).0 o)

-- An error result has isError set.
abbrev pub IsErrorResult : Response → Type 0
IsErrorResult (rpc_result id (raw_content raw b)) = b ≡ true
IsErrorResult (rpc_result id (text_content e b)) = b ≡ true
IsErrorResult (rpc_result id p) = ⊥
IsErrorResult (rpc_error id n m) = ⊥

-- A call that failed with an error meant for the client: a module error, or a proxied isError.
abbrev pub IsStructured : CallOutcome → Type 0
IsStructured (content raw) = ⊥
IsStructured (call_failed (proxy_is_error raw)) = Unit
IsStructured (call_failed (module_error e)) = Unit
IsStructured (call_failed (other_error s)) = ⊥
IsStructured (call_panicked s) = ⊥

-- For every outcome of a tool call, the client gets a result with isError set exactly if the call
-- failed with a module error or a proxied isError before the dispatcher's deadline was exceeded.
pub tool_response_iff :
    (id tool : String) (c : ToolCall)
    → IsErrorResult (tool_response id (call_with_timeout tool c))
      ↔ ((c.deadline_exceeded ≡ false) × IsStructured c.outcome)
unfolding tool_response call_with_timeout
tool_response_iff id tool c = go c.outcome c.deadline_exceeded
  where
    go :
        (o : CallOutcome) (b : Bool)
        → IsErrorResult (
            tool_response id
              (call_with_timeout tool (record { outcome = o; deadline_exceeded = b })))
          ↔ ((b ≡ false) × IsStructured o)
    go (content raw) b = (λ h. cc, λ h. elim (h.1) [ ])
    go (call_failed (proxy_is_error raw)) true = (λ h. elim h [ ], λ h. cc (h.0))
    go (call_failed (proxy_is_error raw)) false = (λ h. (refl, tt), λ h. refl)
    go (call_failed (module_error e)) true = (λ h. elim h [ ], λ h. cc (h.0))
    go (call_failed (module_error e)) false = (λ h. (refl, tt), λ h. refl)
    go (call_failed (other_error s)) true = (λ h. elim h [ ], λ h. elim (h.1) [ ])
    go (call_failed (other_error s)) false = (λ h. elim h [ ], λ h. elim (h.1) [ ])
    go (call_panicked s) b = (λ h. elim h [ ], λ h. elim (h.1) [ ])

module _ {Bytes : Type 0} (d : Dispatcher Bytes) (v : IsValid d.reg) (p id : String) (i : ℕ)
    {e : ModuleEntry Bytes} {pp : ProxyToolProvider} (at : get_elem? d.reg.entries i ≡ some e)
    (has : e.proxy_tool ≡ some pp) where
  -- On a valid registry with a proxy provider, if ProxyTools returns an error, tools/list answers
  -- with exactly the static tools.
  pub handle_tools_list_degraded :
      {x : String}
      → pp.proxy_tools p ≡ list_failed x
      → (handle_tools_list d p id).0 ≡ reply (rpc_result id (tool_list (aggregate_tools d.reg)))
  unfolding handle_tools_list
  handle_tools_list_degraded h =
      let q = get_proxy_tool_provider_lem d.reg v i e pp at has in ground arith

  -- On a valid registry with a proxy provider, if ProxyTools panics, the panic goes through
  -- tools/list.
  pub handle_tools_list_panic :
      {x : String} → pp.proxy_tools p ≡ list_panicked x → (handle_tools_list d p id).0 ≡ crash
  unfolding handle_tools_list
  handle_tools_list_panic h =
      let q = get_proxy_tool_provider_lem d.reg v i e pp at has in ground arith
