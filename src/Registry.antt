-- ===== src/Registry.antt =====
-- internal/module/registry: the module container that is frozen after boot. `proxyIdx` is an
-- option, `none` for the source's -1; `toolIndex` is an association list.
pub mod Invariant
pub mod Register
pub mod Lookup
pub mod Growth
mod Tests
use claude_mnemonic_plus.Prelude.{
  ℕ, String, Bool, true, false, Option, none, some, List, [], ◌∷◌, ◌++◌, map, ite, length,
  get_elem?, lookup, insert, dec_str, if◌then◌else◌,
}
use claude_mnemonic_plus.Module.{
  EngramModule, ToolDef, ToolProvider, ProxyToolProvider, ProjectLifecycle, ProjectRemovalAware,
  Snapshotter,
}

-- The errors of Register. `index_out_of_range` stands for the panic of a slice access out of
-- bounds.
pub data RegisterError : Type 0 where
  registry_frozen : RegisterError
  empty_name : RegisterError
  already_registered : String → RegisterError
  multiple_proxy : String → String → RegisterError
  tool_conflict : String → String → String → RegisterError
  index_out_of_range : RegisterError

-- moduleEntry: a module with its capability references, cached at Register time.
pub record ModuleEntry (Bytes : Type 0) : Type 0 where
  pub engram_module : EngramModule Bytes
  pub snap : Option (Snapshotter Bytes)
  pub lifecycle : Option ProjectLifecycle
  pub removal_aware : Option ProjectRemovalAware
  pub tool_prov : Option ToolProvider
  pub proxy_tool : Option ProxyToolProvider

-- What ToolByName returns: an entry with the definition, Go's `false`, or a panic.
pub data ToolLookup (Bytes : Type 0) : Type 0 where
  found : ModuleEntry Bytes → ToolDef → ToolLookup Bytes
  not_found : ToolLookup Bytes
  lookup_panic : ToolLookup Bytes

pub record Registry (Bytes : Type 0) : Type 0 where
  pub entries : List (ModuleEntry Bytes)
  pub tool_index : List (String × ℕ)
  pub proxy_idx : Option ℕ
  pub frozen : Bool

-- The first of the new tools that the index has already, with its owner's position.
unfoldable pub find_conflict : List (String × ℕ) → List ToolDef → Option (String × ℕ)
find_conflict index [] = none
find_conflict index (td ∷ tds) =
    let rest = find_conflict index tds in
    elim (lookup dec_str td.name index) [ some i ↦ some (td.name, i) | none ↦ rest ]

-- `for _, td := range tools { r.toolIndex[td.Name] = idx }`
unfoldable pub index_tools : ℕ → List ToolDef → List (String × ℕ) → List (String × ℕ)
index_tools idx [] index = index
index_tools idx (td ∷ tds) index = index_tools idx tds (insert dec_str td.name idx index)

-- `if entry.ProxyTool != nil { r.proxyIdx = idx }`
abbrev pub set_proxy : Option ProxyToolProvider → ℕ → Option ℕ → Option ℕ
set_proxy none idx old = old
set_proxy (some _) idx old = some idx

-- Whether a second proxy provider is at hand: the position of the first.
abbrev pub proxy_conflict : Option ProxyToolProvider → Option ℕ → Option ℕ
proxy_conflict none old = none
proxy_conflict (some _) old = old

-- The search of ToolByName in the provider's list.
unfoldable pub find_tool : String → List ToolDef → Option ToolDef
find_tool n [] = none
find_tool n (td ∷ tds) = ite (dec_str td.name n) (some td) (find_tool n tds)

abbrev pub provided : Option ToolProvider → List ToolDef
provided none = []
provided (some tp) = tp.tools

module _ {Bytes : Type 0} where
  -- New
  unfoldable pub new : Registry Bytes
  new = record { entries = []; tool_index = []; proxy_idx = none; frozen = false }

  -- The five type assertions of Register.
  abbrev pub discover : EngramModule Bytes → ModuleEntry Bytes
  discover m = record {
    engram_module = m;
    snap = m.snapshotter;
    lifecycle = m.lifecycle;
    removal_aware = m.removal_aware;
    tool_prov = m.tool_provider;
    proxy_tool = m.proxy_tool_provider;
  }

  -- The loop of Has, and of the duplicate name check of Register.
  unfoldable pub has_name : String → List (ModuleEntry Bytes) → Bool
  has_name n [] = false
  has_name n (e ∷ es) = ite (dec_str e.engram_module.name n) true (has_name n es)

  -- `r.entries[i].Module.Name()`
  abbrev pub name_at : List (ModuleEntry Bytes) → ℕ → Option String
  name_at es i = elim (get_elem? es i) [ none ↦ none | some e ↦ some e.engram_module.name ]

  -- The tools that a module brings, [] where it is no ToolProvider.
  abbrev pub tools_of : ModuleEntry Bytes → List ToolDef
  tools_of e = provided e.tool_prov

  -- The end of Register, on both paths: append the entry, index its tools, note the proxy.
  unfoldable pub append_entry : Registry Bytes → ModuleEntry Bytes → Registry Bytes
  append_entry r e =
      let idx = length r.entries in
      record r {
        entries = r.entries ++ e ∷ [];
        tool_index = index_tools idx (tools_of e) r.tool_index;
        proxy_idx = set_proxy e.proxy_tool idx r.proxy_idx;
      }

  -- The tool-name conflict check of Register.
  unfoldable pub register_tools :
      Registry Bytes → ModuleEntry Bytes → Registry Bytes × Option RegisterError
  register_tools r e = elim (find_conflict r.tool_index (tools_of e)) [
    | none ↦ (append_entry r e, none)
    | some c ↦ (
      r,
      some (elim (name_at r.entries c.1) [
        | none ↦ index_out_of_range
        | some owner ↦ tool_conflict c.0 owner e.engram_module.name
      ]),
    )
  ]

  -- Register from the capability discovery on.
  unfoldable pub register_entry :
      Registry Bytes → ModuleEntry Bytes → Registry Bytes × Option RegisterError
  register_entry r e = elim (proxy_conflict e.proxy_tool r.proxy_idx) [
    | none ↦ register_tools r e
    | some i ↦ (
      r,
      some (elim (name_at r.entries i) [
        | none ↦ index_out_of_range
        | some owner ↦ multiple_proxy e.engram_module.name owner
      ]),
    )
  ]

  -- Register
  unfoldable pub register :
      Registry Bytes → EngramModule Bytes → Registry Bytes × Option RegisterError
  register r m =
      if r.frozen
      then (r, some registry_frozen)
      else ite (dec_str m.name "") (r, some empty_name)
          (if has_name m.name r.entries
            then (r, some (already_registered m.name))
            else register_entry r (discover m))

  -- Freeze
  unfoldable pub freeze : Registry Bytes → Registry Bytes
  freeze r = record r { frozen = true }

  -- Has
  unfoldable pub has : Registry Bytes → String → Bool
  has r n = has_name n r.entries

  -- ListNames
  unfoldable pub list_names : Registry Bytes → List String
  list_names r = map (λ e. e.engram_module.name) r.entries

  -- The modules that have a capability, in registration order: the loops of
  -- ForEachProjectRemovalAware, ForEachLifecycleHandler and ListLifecycleHandlers.
  unfoldable pub collect :
      {C : Type 0} → (ModuleEntry Bytes → Option C) → List (ModuleEntry Bytes) → List C
  collect cap [] = []
  collect cap (e ∷ es) =
      let rest = collect cap es in elim (cap e) [ none ↦ rest | some c ↦ c ∷ rest ]

  -- ListLifecycleHandlers, and the calls of ForEachLifecycleHandler
  unfoldable pub lifecycle_handlers : Registry Bytes → List ProjectLifecycle
  lifecycle_handlers r = collect (λ e. e.lifecycle) r.entries

  -- The calls of ForEachProjectRemovalAware
  unfoldable pub removal_aware_modules : Registry Bytes → List ProjectRemovalAware
  removal_aware_modules r = collect (λ e. e.removal_aware) r.entries

  -- ListSnapshotters, and the calls of ForEachSnapshotter
  unfoldable pub list_snapshotters : Registry Bytes → List (String × Snapshotter Bytes)
  list_snapshotters r =
      collect (λ e. elim e.snap [ none ↦ none | some s ↦ some (e.engram_module.name, s) ]) r.entries

  -- GetProxyToolProvider. The outer option is Go's `ok`, the next one is `none` for the panic of an
  -- index out of range, and the provider itself may be nil.
  unfoldable pub get_proxy_tool_provider :
      Registry Bytes → Option (Option (Option ProxyToolProvider × String))
  get_proxy_tool_provider r = elim r.proxy_idx [
    | none ↦ none
    | some i ↦ some (elim (get_elem? r.entries i) [
      | none ↦ none
      | some e ↦ some (e.proxy_tool, e.engram_module.name)
    ])
  ]

  -- ToolByName. An index out of range and a nil provider panic.
  unfoldable pub tool_by_name : Registry Bytes → String → ToolLookup Bytes
  tool_by_name r n = elim (lookup dec_str n r.tool_index) [
    | none ↦ not_found
    | some i ↦ elim (get_elem? r.entries i) [
      | none ↦ lookup_panic
      | some e ↦ elim e.tool_prov [
        | none ↦ lookup_panic
        | some tp ↦ elim (find_tool n tp.tools) [ none ↦ not_found | some td ↦ found e td ]
      ]
    ]
  ]

  -- The loop of AggregateTools.
  unfoldable pub aggregate : List (ModuleEntry Bytes) → List ToolDef
  aggregate [] = []
  aggregate (e ∷ es) = tools_of e ++ aggregate es

  -- AggregateTools
  unfoldable pub aggregate_tools : Registry Bytes → List ToolDef
  aggregate_tools r = aggregate r.entries
