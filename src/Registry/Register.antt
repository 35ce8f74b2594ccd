-- ===== src/Registry/Register.antt =====
-- Register of internal/module/registry/registry.go, on each of its paths.
use claude_mnemonic_plus.Prelude.{
  ℕ, ◌≡◌, sym, ap, ◌∙◌, ◌≢◌, inl, inr, String, false, none, some, [], ◌∷◌, ◌++◌, length, get_elem?,
  get_elem?-snoc, get_elem?-snoc_cases, get_elem?_of_snoc, lookup, dec_str, arith, Option-cases,
  subst,
}
use claude_mnemonic_plus.Module.{EngramModule}
use claude_mnemonic_plus.Registry.{
  Registry, ModuleEntry, RegisterError, discover, has_name, find_conflict, index_tools, tools_of,
  append_entry, register_tools, register_entry, register, set_proxy, proxy_conflict,
}
use claude_mnemonic_plus.Registry.Invariant.{
  Offers, index_tools_hit, index_tools_cases, index_tools_old, find_conflict-none, IsValid,
  has_name_none,
}

module _ {Bytes : Type 0} (r : Registry Bytes) (m : EngramModule Bytes) where
  -- What Register has checked before it appends.
  pub record IsFresh : Type 0 where
    pub name_given : m.name ≢ ""
    pub name_free : has_name m.name r.entries ≡ false
    pub proxy_free : proxy_conflict m.proxy_tool_provider r.proxy_idx ≡ none
    pub tools_free : find_conflict r.tool_index (tools_of (discover m)) ≡ none

  module _ (v : IsValid r) (f : IsFresh) where
    old_tool :
        (n : String) (i : ℕ) (e : ModuleEntry Bytes)
        → get_elem? r.entries i ≡ some e
        → Offers n (tools_of e)
        → ¬ Offers n (tools_of (discover m))
    old_tool n i e g o o' = ground (
      arith,
      find_conflict-none r.tool_index (tools_of (discover m)) n f.tools_free o',
      v.index_complete n i e g o,
    )

    append_index_complete :
        (n : String) (i : ℕ) (e : ModuleEntry Bytes)
        → get_elem? (r.entries ++ discover m ∷ []) i ≡ some e
        → Offers n (tools_of e)
        → lookup dec_str n (index_tools (length r.entries) (tools_of (discover m)) r.tool_index)
          ≡ some i
    append_index_complete n i e g o = elim (get_elem?-snoc_cases r.entries (discover m) i g) [
      | inl old ↦
          index_tools_old (length r.entries) (tools_of (discover m)) r.tool_index n
            (old_tool n i e old o)
          ∙ v.index_complete n i e old o
      | inr (p, q) ↦
          index_tools_hit (length r.entries) (tools_of (discover m)) r.tool_index n
            (subst (λ x. Offers n (tools_of x)) q o)
          ∙ ap some (sym p)
    ]

    append_index_sound :
        (n : String) (i : ℕ)
        → lookup dec_str n (index_tools (length r.entries) (tools_of (discover m)) r.tool_index)
          ≡ some i
        → (e : ModuleEntry Bytes) × (get_elem? (r.entries ++ discover m ∷ []) i ≡ some e)
          × Offers n (tools_of e)
    append_index_sound n i h =
        elim (index_tools_cases (length r.entries) (tools_of (discover m)) r.tool_index n i h) [
          | inl old ↦
              let (e, g, o) = v.index_sound n i old in
              (e, get_elem?_of_snoc r.entries (discover m) i g, o)
          | inr (p, o) ↦ (discover m, rw p (get_elem?-snoc r.entries (discover m)), o)
        ]

    append_unique :
        (i j : ℕ) (e e' : ModuleEntry Bytes)
        → get_elem? (r.entries ++ discover m ∷ []) i ≡ some e
        → get_elem? (r.entries ++ discover m ∷ []) j ≡ some e'
        → e.engram_module.name ≡ e'.engram_module.name
        → i ≡ j
    append_unique i j e e' g g' p = elim (get_elem?-snoc_cases r.entries (discover m) i g) [
      | inl old ↦ elim (get_elem?-snoc_cases r.entries (discover m) j g') [
        | inl old' ↦ v.unique i j e e' old old' p
        | inr (a, b) ↦ absurd (
            has_name_none m.name r.entries i e f.name_free old
              (p ∙ ap (λ x. x.engram_module.name) b))
      ]
      | inr (a, b) ↦ elim (get_elem?-snoc_cases r.entries (discover m) j g') [
        | inl old' ↦ absurd (
            has_name_none m.name r.entries j e' f.name_free old'
              (sym p ∙ ap (λ x. x.engram_module.name) b))
        | inr (c, d) ↦ a ∙ sym c
      ]
    ]

    append_proxy_sound :
        (i : ℕ)
        → set_proxy m.proxy_tool_provider (length r.entries) r.proxy_idx ≡ some i
        → (e : ModuleEntry Bytes) × (get_elem? (r.entries ++ discover m ∷ []) i ≡ some e)
          × (e.proxy_tool ≢ none)
    append_proxy_sound i h = elim (Option-cases m.proxy_tool_provider) [
      | inl absent ↦
          let (e, g, p) = v.proxy_sound i (ground arith) in
          (e, get_elem?_of_snoc r.entries (discover m) i g, p)
      | inr (q, here) ↦
          let p : i ≡ length r.entries = ground arith in
          (discover m, rw p (get_elem?-snoc r.entries (discover m)), λ e. ground arith)
    ]

    append_proxy_complete :
        (i : ℕ) (e : ModuleEntry Bytes)
        → get_elem? (r.entries ++ discover m ∷ []) i ≡ some e
        → e.proxy_tool ≢ none
        → set_proxy m.proxy_tool_provider (length r.entries) r.proxy_idx ≡ some i
    append_proxy_complete i e g p = elim (get_elem?-snoc_cases r.entries (discover m) i g) [
      | inl old ↦ ground (arith, v.proxy_complete i e old p, f.proxy_free)
      | inr (a, b) ↦ elim (Option-cases m.proxy_tool_provider) [
        | inl absent ↦ absurd (p (ap (λ x. x.proxy_tool) b ∙ absent))
        | inr (q, here) ↦ rw here (ap some (sym a))
      ]
    ]

    -- A module that passed the checks leaves the registry valid.
    pub append_entry-IsValid : IsValid (append_entry r (discover m))
    unfolding append_entry
    append_entry-IsValid = record {
      named = λ i e g. elim (get_elem?-snoc_cases r.entries (discover m) i g) [
        | inl old ↦ v.named i e old
        | inr (a, b) ↦ λ p. f.name_given (sym (ap (λ x. x.engram_module.name) b) ∙ p)
      ];
      unique = append_unique;
      cached = λ i e g. elim (get_elem?-snoc_cases r.entries (discover m) i g) [
        | inl old ↦ v.cached i e old
        | inr (a, b) ↦ b ∙ ap (λ x. discover x.engram_module) (sym b)
      ];
      index_sound = append_index_sound;
      index_complete = append_index_complete;
      proxy_sound = append_proxy_sound;
      proxy_complete = append_proxy_complete;
    }

-- Register returns no error exactly when the registry is not frozen and the module is fresh; then
-- it appends the module's entry.
module _ {Bytes : Type 0} (r : Registry Bytes) (m : EngramModule Bytes) where
  -- If Register returns no error, the registry was not frozen, the module's name is given and
  -- new, it brings no second proxy provider and no tool that is indexed, and the new registry is
  -- the old one with the module's entry appended.
  pub register_ok :
      (register r m).1 ≡ none
      → (r.frozen ≡ false) × IsFresh r m × ((register r m).0 ≡ append_entry r (discover m))
  unfolding register register_entry register_tools
  register_ok h = (
    ground arith,
    record {
      name_given = ground arith;
      name_free = ground arith;
      proxy_free = ground arith;
      tools_free = ground arith;
    },
    ground arith,
  )

  pub register_of_IsFresh :
      r.frozen ≡ false → IsFresh r m → register r m ≡ (append_entry r (discover m), none)
  unfolding register register_entry register_tools
  register_of_IsFresh h f = ground arith

  -- A call of Register that returns an error leaves the registry as it was.
  pub register_error_unchanged :
      {e : RegisterError} → (register r m).1 ≡ some e → (register r m).0 ≡ r
  unfolding register register_entry register_tools
  register_error_unchanged h = ground arith

  -- Register keeps the registry valid on every path, errors included: names are given and unique,
  -- the cached capabilities are the module's, the tool index holds exactly the tools of the
  -- entries, and the proxy index points at the only entry that has a proxy provider.
  pub register-IsValid : IsValid r → IsValid (register r m).0
  register-IsValid v = elim (Option-cases (register r m).1) [
    | inl ok ↦ let (_, f, e) = register_ok ok in rw e (append_entry-IsValid r m v f)
    | inr (x, bad) ↦ rw (register_error_unchanged {e = x} bad) v
  ]
