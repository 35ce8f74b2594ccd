-- ===== src/Registry/Tests.antt =====
-- Runs of the registry, and the theorems at them.
use claude_mnemonic_plus.Prelude.{
  ◌≡◌, refl, inl, String, true, false, none, some, [], ◌∷◌, lookup, insert, dec_str, Bool-cases,
}
use claude_mnemonic_plus.Module.{
  EngramModule, ToolDef, ToolProvider, ProxyToolProvider, returned, content, listed,
}
use claude_mnemonic_plus.Registry.{
  Registry, already_registered, tool_conflict, new, discover, register, append_entry, freeze,
  tool_by_name, found, aggregate_tools, get_proxy_tool_provider, find_conflict, index_tools,
  find_tool, has_name, register_tools, register_entry, list_names, has, aggregate, collect,
  lifecycle_handlers, removal_aware_modules, list_snapshotters, registry_frozen,
}
use claude_mnemonic_plus.Registry.Invariant.{IsValid, new-IsValid}
use claude_mnemonic_plus.Registry.Register.{register-IsValid}
use claude_mnemonic_plus.Registry.Growth.{tool_by_name-register}

program : Unit {0}
unfolding find_conflict index_tools find_tool new has_name append_entry register_tools
    register_entry register freeze has list_names collect lifecycle_handlers removal_aware_modules
    list_snapshotters get_proxy_tool_provider tool_by_name aggregate aggregate_tools lookup insert
    dec_str Bool-cases
program = tt

abbrev tool : String → ToolDef
tool n = record { name = n; description = ""; input_schema = "{}" }

abbrev provider : ToolProvider
provider = record {
  tools = tool "recall" ∷ tool "store" ∷ [];
  handle_tool = λ p n args. record { outcome = content args; deadline_exceeded = false };
}

abbrev proxy : ProxyToolProvider
proxy = record {
  proxy_tools = λ p. listed (tool "remote" ∷ []);
  proxy_handle_tool = λ p n args. record { outcome = content args; deadline_exceeded = false };
}

abbrev memory : EngramModule String
memory = record {
  name = "memory";
  init = λ d. returned;
  shutdown = returned;
  snapshotter = none;
  lifecycle = none;
  removal_aware = none;
  tool_provider = some provider;
  proxy_tool_provider = none;
}

abbrev bridge : EngramModule String
bridge = record memory { name = "bridge"; tool_provider = none; proxy_tool_provider = some proxy }

abbrev rival : EngramModule String
rival = record memory { name = "rival" }

abbrev one : Registry String
one = (register new memory).0

abbrev two : Registry String
two = (register one bridge).0

one-IsValid : IsValid one
one-IsValid = register-IsValid new memory new-IsValid

two-IsValid : IsValid two
two-IsValid = register-IsValid one bridge one-IsValid

names :
    (list_names two ≡ "memory" ∷ "bridge" ∷ []) × (has two "bridge" ≡ true) × (has two "x" ≡ false)
unfolding program
names = (refl, refl, refl)

refused :
    ((register two memory).1 ≡ some (already_registered "memory"))
    × ((register two rival).1 ≡ some (tool_conflict "recall" "memory" "rival"))
    × ((register (freeze two) rival).1 ≡ some registry_frozen)
unfolding program
refused = (refl, refl, refl)

register-IsValid_example : IsValid (register one bridge).0
register-IsValid_example = register-IsValid one bridge one-IsValid

proxy_provider : get_proxy_tool_provider two ≡ some (some (some proxy, "bridge"))
unfolding program
proxy_provider = refl

tool_by_name-register_example :
    (td : ToolDef) × (tool_by_name (register new memory).0 "recall" ≡ found (discover memory) td)
    × (td.name ≡ "recall")
unfolding program
tool_by_name-register_example =
    tool_by_name-register new memory new-IsValid "recall" refl (inl refl)
