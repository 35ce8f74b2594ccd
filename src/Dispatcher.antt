-- ===== src/Dispatcher.antt =====
-- internal/module/dispatcher: the JSON-RPC handler between the sessions and the registry.
-- Requests arrive as parsed values or as a parse error (encoding/json is not modelled), and
-- responses are values, not bytes. A handler also returns the module calls that it made, in order.
pub mod Routing
pub mod Tracking
mod Tests
use claude_mnemonic_plus.Prelude.{
  ℕ, String, Bool, true, false, Option, none, some, List, [], ◌∷◌, ◌++◌, map, ite, dec_str, ◌⊎◌,
  inl, inr, if◌then◌else◌,
}
use claude_mnemonic_plus.Module.{
  ToolDef, ToolProvider, ProxyToolProvider, ToolCall, CallOutcome, content, call_failed,
  call_panicked, CallError, proxy_is_error, module_error, other_error, ModuleError, ListOutcome,
  listed, list_failed, list_panicked,
}
use claude_mnemonic_plus.Registry.{
  Registry, tool_by_name, found, not_found, lookup_panic, get_proxy_tool_provider, aggregate_tools,
}

-- The part of Dispatcher that the request path reads and writes.
pub record Dispatcher (Bytes : Type 0) : Type 0 where
  pub reg : Registry Bytes
  pub draining : Bool
  pub tracked : List String

-- The parsed `params` of tools/call, or the error of json.Unmarshal.
pub data CallParams : Type 0 where
  bad_params : String → CallParams
  call_params : String → String → CallParams

-- jsonrpcRequest
pub record Request : Type 0 where
  pub id : String
  pub rpc_method : String
  pub params : CallParams

-- The request bytes as json.Unmarshal reads them.
pub data Incoming : Type 0 where
  unparsable : String → Incoming
  parsed : Request → Incoming

-- The texts of the errors, each with what it is formatted from.
pub data Message : Type 0 where
  parse_error : String → Message
  method_not_found : String → Message
  daemon_draining : Message
  invalid_params : String → Message
  tool_name_required : Message
  tool_not_found : String → Message
  deadline_message : Message
  panic_in_tool : String → String → Message
  error_message : String → Message

-- The result values that the handlers marshal. The flag is isError.
pub data Payload : Type 0 where
  initialize_result : Payload
  empty_result : Payload
  tool_list : List ToolDef → Payload
  raw_content : String → Bool → Payload
  text_content : ModuleError → Bool → Payload

-- jsonrpcResponse; `rpc_error id n m` is the error with code -n.
pub data Response : Type 0 where
  rpc_error : String → ℕ → Message → Response
  rpc_result : String → Payload → Response

-- What HandleRequest does: a response, none (a notification), or a panic that it lets through.
pub data Reply : Type 0 where
  reply : Response → Reply
  no_reply : Reply
  crash : Reply

-- A call that the dispatcher made into a module.
pub data ModuleCall : Type 0 where
  static_call : String → String → ModuleCall
  proxy_call : String → String → ModuleCall
  proxy_list : String → ModuleCall

-- The error of a tool call, as handleToolsCall tells it apart.
pub data ToolError : Type 0 where
  dispatcher_timeout : ToolError
  proxy_error : String → ToolError
  structured : ModuleError → ToolError
  internal : Message → ToolError

abbrev pub tool_error : CallError → ToolError
tool_error (proxy_is_error raw) = proxy_error raw
tool_error (module_error e) = structured e
tool_error (other_error s) = internal (error_message s)

-- callWithTimeout: a panic becomes an error, and an error of a call past the dispatcher's deadline
-- becomes the timeout sentinel. A panic skips the deadline test.
unfoldable pub call_with_timeout : String → ToolCall → String ⊎ ToolError
call_with_timeout tool c = elim (c.outcome) [
  | content raw ↦ inl raw
  | call_failed e ↦ inr (if c.deadline_exceeded then dispatcher_timeout else tool_error e)
  | call_panicked p ↦ inr (internal (panic_in_tool tool p))
]

-- The end of handleToolsCall: from the outcome to the response.
unfoldable pub tool_response : String → String ⊎ ToolError → Response
tool_response id (inl raw) = rpc_result id (raw_content raw false)
tool_response id (inr dispatcher_timeout) = rpc_error id 32603 deadline_message
tool_response id (inr (proxy_error raw)) = rpc_result id (raw_content raw true)
tool_response id (inr (structured e)) = rpc_result id (text_content e true)
tool_response id (inr (internal m)) = rpc_error id 32603 m

-- A method call through a nil interface value panics.
abbrev pub nil_call : ToolCall
nil_call = record { outcome = call_panicked "nil pointer dereference"; deadline_exceeded = false }

-- `entry.ToolProv.HandleTool(…)`
abbrev pub static_handle : Option ToolProvider → String → String → String → ToolCall
static_handle none p n args = nil_call
static_handle (some tp) p n args = tp.handle_tool p n args

-- `proxy.ProxyHandleTool(…)`
abbrev pub proxy_handle : Option ProxyToolProvider → String → String → String → ToolCall
proxy_handle none p n args = nil_call
proxy_handle (some pp) p n args = pp.proxy_handle_tool p n args

-- `proxy.ProxyTools(…)`
abbrev pub proxy_tools_of : Option ProxyToolProvider → String → ListOutcome
proxy_tools_of none p = list_panicked "nil pointer dereference"
proxy_tools_of (some pp) p = pp.proxy_tools p

-- handleToolsList, with the proxy's answer. ProxyTools is not run under panic recovery.
abbrev pub list_reply : String → List ToolDef → ListOutcome → Reply
list_reply id tools (listed more) = reply (rpc_result id (tool_list (tools ++ more)))
list_reply id tools (list_failed e) = reply (rpc_result id (tool_list tools))
list_reply id tools (list_panicked e) = crash

module _ {Bytes : Type 0} where
  -- handleToolsList
  unfoldable pub handle_tools_list : Dispatcher Bytes → String → String → Reply × List ModuleCall
  handle_tools_list d p id =
      let tools = aggregate_tools d.reg in
      elim (get_proxy_tool_provider d.reg) [
        | none ↦ (reply (rpc_result id (tool_list tools)), [])
        | some none ↦ (crash, [])
        | some (some (proxy, owner)) ↦
            (list_reply id tools (proxy_tools_of proxy p), proxy_list owner ∷ [])
      ]

  -- handleToolsCall behind its guards: the static tools first, then the proxy.
  unfoldable pub route :
      Dispatcher Bytes → String → String → String → String → Reply × List ModuleCall
  route d p id name args = elim (tool_by_name d.reg name) [
    | found entry td ↦ (
      reply (tool_response id (call_with_timeout name (static_handle entry.tool_prov p name args))),
      static_call entry.engram_module.name name ∷ [],
    )
    | lookup_panic ↦ (crash, [])
    | not_found ↦ elim (get_proxy_tool_provider d.reg) [
      | none ↦ (reply (rpc_error id 32601 (tool_not_found name)), [])
      | some none ↦ (crash, [])
      | some (some (proxy, owner)) ↦ (
        reply (tool_response id (call_with_timeout name (proxy_handle proxy p name args))),
        proxy_call owner name ∷ [],
      )
    ]
  ]

  -- The guards of handleToolsCall: drain mode, the parameters, an empty name.
  unfoldable pub call_params_reply :
      Dispatcher Bytes → String → String → CallParams → Reply × List ModuleCall
  call_params_reply d p id (bad_params e) = (reply (rpc_error id 32602 (invalid_params e)), [])
  call_params_reply d p id (call_params name args) =
      ite (dec_str name "") (reply (rpc_error id 32602 tool_name_required), [])
        (route d p id name args)

  -- handleToolsCall
  unfoldable pub handle_tools_call : Dispatcher Bytes → String → Request → Reply × List ModuleCall
  handle_tools_call d p req =
      if d.draining
      then (reply (rpc_error req.id 32603 daemon_draining), [])
      else call_params_reply d p req.id req.params

  -- The switch of HandleRequest on the method.
  unfoldable pub dispatch_method : Dispatcher Bytes → String → Request → Reply × List ModuleCall
  dispatch_method d p req =
      ite (dec_str req.rpc_method "initialize") (reply (rpc_result req.id initialize_result), [])
        (ite (dec_str req.rpc_method "ping") (reply (rpc_result req.id empty_result), [])
          (ite (dec_str req.rpc_method "notifications/cancelled") (no_reply, [])
            (ite (dec_str req.rpc_method "notifications/initialized") (no_reply, [])
              (ite (dec_str req.rpc_method "tools/list") (handle_tools_list d p req.id) (
                ite (dec_str req.rpc_method "tools/call") (handle_tools_call d p req)
                  (reply (rpc_error req.id 32601 (method_not_found req.rpc_method)), []))))))

  -- HandleRequest
  unfoldable pub handle_request : Dispatcher Bytes → String → Incoming → Reply × List ModuleCall
  handle_request d p (unparsable e) = (reply (rpc_error "null" 32700 (parse_error e)), [])
  handle_request d p (parsed req) = dispatch_method d p req

  -- SetDrainMode
  unfoldable pub set_drain_mode : Bool → Dispatcher Bytes → Dispatcher Bytes
  set_drain_mode enabled d = record d { draining = enabled }

  -- IsDraining
  unfoldable pub is_draining : Dispatcher Bytes → Bool
  is_draining d = d.draining
