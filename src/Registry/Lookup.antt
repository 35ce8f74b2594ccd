-- ===== src/Registry/Lookup.antt =====
-- The lookups of internal/module/registry: ToolByName, AggregateTools, GetProxyToolProvider.
use claude_mnemonic_plus.Prelude.{
  ℕ, zero, suc, ◌≡◌, refl, sym, ap, ◌∙◌, ◌≢◌, ◌↔◌, inl, inr, ◌⊎◌, String, none, some, List, [], ◌∷◌,
  ◌++◌, get_elem?, lookup, dec_str, arith, Option-cases, subst,
}
use claude_mnemonic_plus.Module.{EngramModule, ToolDef, ProxyToolProvider}
use claude_mnemonic_plus.Registry.{
  Registry, ModuleEntry, index_out_of_range, discover, tools_of, find_conflict, register_tools,
  register_entry, register, proxy_conflict, find_tool, tool_by_name, found, not_found, provided,
  aggregate, aggregate_tools, get_proxy_tool_provider,
}
use claude_mnemonic_plus.Registry.Invariant.{Offers, IsValid, find_conflict-some}

-- The search of ToolByName finds a tool of that name, if the list offers one.
find_tool_of_Offers :
    (n : String) (tds : List ToolDef)
    → Offers n tds
    → (td : ToolDef) × (find_tool n tds ≡ some td) × (td.name ≡ n)
unfolding find_tool
find_tool_of_Offers n [] o = elim o [ ]
find_tool_of_Offers n (td ∷ tds) o = elim (dec_str td.name n) [
  | yes p ↦ (td, ground arith, p)
  | no p ↦
      let rest : Offers n tds = elim o [ inl e ↦ absurd (p e) | inr h ↦ h ] in
      let (x, f, e) = find_tool_of_Offers n tds rest in (x, ground arith, e)
]

find_tool_sound :
    (n : String) (tds : List ToolDef) (td : ToolDef)
    → find_tool n tds ≡ some td
    → Offers n tds × (td.name ≡ n)
unfolding find_tool
find_tool_sound n [] td h = ground arith
find_tool_sound n (x ∷ tds) td h = elim (dec_str x.name n) [
  | yes p ↦ (inl p, ground arith)
  | no p ↦ let (o, e) = find_tool_sound n tds td (ground arith) in (inr o, e)
]

Offers-append_left : (n : String) (xs ys : List ToolDef) → Offers n xs → Offers n (xs ++ ys)
Offers-append_left n [] ys o = elim o [ ]
Offers-append_left n (x ∷ xs) ys (inl e) = inl e
Offers-append_left n (x ∷ xs) ys (inr o) = inr (Offers-append_left n xs ys o)

Offers-append_right : (n : String) (xs ys : List ToolDef) → Offers n ys → Offers n (xs ++ ys)
Offers-append_right n [] ys o = o
Offers-append_right n (x ∷ xs) ys o = inr (Offers-append_right n xs ys o)

Offers-append_cases :
    (n : String) (xs ys : List ToolDef) → Offers n (xs ++ ys) → Offers n xs ⊎ Offers n ys
Offers-append_cases n [] ys o = inr o
Offers-append_cases n (x ∷ xs) ys (inl e) = inl (inl e)
Offers-append_cases n (x ∷ xs) ys (inr o) = elim (Offers-append_cases n xs ys o) [
  | inl a ↦ inl (inr a)
  | inr b ↦ inr b
]

module _ {Bytes : Type 0} where
  aggregate_of_entry :
      (n : String) (es : List (ModuleEntry Bytes)) (i : ℕ) (e : ModuleEntry Bytes)
      → get_elem? es i ≡ some e
      → Offers n (tools_of e)
      → Offers n (aggregate es)
  unfolding aggregate
  aggregate_of_entry n [] i e h o = ground arith
  aggregate_of_entry n (x ∷ es) zero e h o =
      let p : x ≡ e = ground arith in Offers-append_left n (tools_of x) (aggregate es) (rw p o)
  aggregate_of_entry n (x ∷ es) (suc i) e h o =
      Offers-append_right n (tools_of x) (aggregate es) (aggregate_of_entry n es i e h o)

  entry_of_aggregate :
      (n : String) (es : List (ModuleEntry Bytes))
      → Offers n (aggregate es)
      → (i : ℕ) × (e : ModuleEntry Bytes) × (get_elem? es i ≡ some e) × Offers n (tools_of e)
  unfolding aggregate
  entry_of_aggregate n [] o = elim o [ ]
  entry_of_aggregate n (x ∷ es) o = elim (Offers-append_cases n (tools_of x) (aggregate es) o) [
    | inl here ↦ (zero, x, refl, here)
    | inr there ↦ let (i, e, g, h) = entry_of_aggregate n es there in (suc i, e, g, h)
  ]

  module _ (r : Registry Bytes) (v : IsValid r) where
    -- On a valid registry, ToolByName finds each tool that an entry's provider offers, with that
    -- entry and a definition of that name.
    pub tool_by_name_of_entry :
        (i : ℕ) (e : ModuleEntry Bytes) (n : String)
        → get_elem? r.entries i ≡ some e
        → Offers n (tools_of e)
        → (td : ToolDef) × (tool_by_name r n ≡ found e td) × (td.name ≡ n)
    unfolding tool_by_name
    tool_by_name_of_entry i e n g o =
        let (td, f, p) = find_tool_of_Offers n (tools_of e) o in
        elim (Option-cases e.tool_prov) [
          | inl no_tools ↦ absurd (subst (λ x. Offers n (provided x)) no_tools o)
          | inr (tp, has_tools) ↦ (td, ground (arith, v.index_complete n i e g o), p)
        ]

    -- On a valid registry, what ToolByName finds is the entry of a registered module that offers
    -- the name, and a definition of that name.
    pub tool_by_name_sound :
        (n : String) (e : ModuleEntry Bytes) (td : ToolDef)
        → tool_by_name r n ≡ found e td
        → (i : ℕ) × (get_elem? r.entries i ≡ some e) × Offers n (tools_of e) × (td.name ≡ n)
    unfolding tool_by_name
    tool_by_name_sound n e td h = elim (Option-cases (lookup dec_str n r.tool_index)) [
      | inl miss ↦ ground arith
      | inr (i, hit) ↦
          let (x, g, o) = v.index_sound n i hit in
          let (y, f, p) = find_tool_of_Offers n (tools_of x) o in
          let q : x ≡ e = ground arith in
          let s : y ≡ td = ground arith in
          (i, g ∙ ap some q, subst (λ z. Offers n (tools_of z)) q o, ap (λ z. z.name) (sym s) ∙ p)
    ]

    -- ToolByName never panics: it finds a tool, or no module has one of that name.
    pub tool_by_name_cases :
        (n : String)
        → ((e : ModuleEntry Bytes) × (td : ToolDef) × (tool_by_name r n ≡ found e td))
          ⊎ ((tool_by_name r n ≡ not_found) × (lookup dec_str n r.tool_index ≡ none))
    unfolding tool_by_name
    tool_by_name_cases n = elim (Option-cases (lookup dec_str n r.tool_index)) [
      | inl miss ↦ inr (ground arith, miss)
      | inr (i, hit) ↦
          let (e, g, o) = v.index_sound n i hit in
          let (td, q, p) = tool_by_name_of_entry i e n g o in inl (e, td, q)
    ]

    -- On a valid registry, AggregateTools lists a tool of a name exactly if ToolByName does not
    -- report that name as missing.
    pub aggregate_tools_iff :
        (n : String) → Offers n (aggregate_tools r) ↔ (tool_by_name r n ≢ not_found)
    unfolding aggregate_tools
    aggregate_tools_iff n = (
      λ o.
          let (i, e, g, h) = entry_of_aggregate n r.entries o in
          let (td, f, p) = tool_by_name_of_entry i e n g h in λ q. ground arith,
      λ q. elim (tool_by_name_cases n) [
        | inl (e, td, hit) ↦
            let (i, g, o, p) = tool_by_name_sound n e td hit in
            aggregate_of_entry n r.entries i e g o
        | inr (miss, _) ↦ absurd (q miss)
      ],
    )

    -- On a valid registry, if an entry has a proxy provider, GetProxyToolProvider returns that
    -- provider with its module's name.
    pub get_proxy_tool_provider_lem :
        (i : ℕ) (e : ModuleEntry Bytes) (p : ProxyToolProvider)
        → get_elem? r.entries i ≡ some e
        → e.proxy_tool ≡ some p
        → get_proxy_tool_provider r ≡ some (some (some p, e.engram_module.name))
    unfolding get_proxy_tool_provider
    get_proxy_tool_provider_lem i e p g h =
        ground (arith, v.proxy_complete i e g (λ (q : e.proxy_tool ≡ none). ground arith))

    -- It reports none, or a provider that is there: no index out of range, and no nil.
    pub get_proxy_tool_provider_cases :
        (get_proxy_tool_provider r ≡ none)
        ⊎ ((p : ProxyToolProvider) × (n : String) × (get_proxy_tool_provider r
              ≡ some (some (some p, n))))
    unfolding get_proxy_tool_provider
    get_proxy_tool_provider_cases = elim (Option-cases r.proxy_idx) [
      | inl miss ↦ inl (ground arith)
      | inr (i, hit) ↦
          let (e, g, p) = v.proxy_sound i hit in
          elim (Option-cases e.proxy_tool) [
            | inl no_proxy ↦ absurd (p no_proxy)
            | inr (q, present) ↦ inr (q, e.engram_module.name, ground arith)
          ]
    ]

    -- On a valid registry, Register makes no slice access out of bounds when it names the owner
    -- of a conflicting tool or of the first proxy provider.
    pub register_in_bounds : (m : EngramModule Bytes) → (register r m).1 ≢ some index_out_of_range
    unfolding register register_entry register_tools
    register_in_bounds m h =
        elim (Option-cases (find_conflict r.tool_index (tools_of (discover m)))) [
          | inl free ↦ elim (Option-cases (proxy_conflict m.proxy_tool_provider r.proxy_idx)) [
            | inl one ↦ ground arith
            | inr (i, two) ↦ let (e, g, p) = v.proxy_sound i (ground arith) in ground arith
          ]
          | inr (c, taken) ↦
              let (o, l) = find_conflict-some r.tool_index (tools_of (discover m)) c.0 c.1 taken in
              let (e', g', o') = v.index_sound c.0 c.1 l in
              elim (Option-cases (proxy_conflict m.proxy_tool_provider r.proxy_idx)) [
                | inl one ↦ ground arith
                | inr (i, two) ↦ let (e, g, p) = v.proxy_sound i (ground arith) in ground arith
              ]
        ]
