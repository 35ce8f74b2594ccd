-- ===== src/Registry/Growth.antt =====
-- ToolByName before and after a call of Register.
use claude_mnemonic_plus.Prelude.{
  ℕ, ◌≡◌, ap, ◌∙◌, inl, inr, String, none, some, [], ◌∷◌, length, get_elem?, get_elem?-lt,
  get_elem?-append_left, get_elem?-snoc, Option-cases,
}
use claude_mnemonic_plus.Module.{EngramModule, ToolDef}
use claude_mnemonic_plus.Registry.{
  Registry, ModuleEntry, discover, provided, append_entry, register, tool_by_name, found,
}
use claude_mnemonic_plus.Registry.Invariant.{Offers, IsValid}
use claude_mnemonic_plus.Registry.Register.{register_ok, register_error_unchanged, register-IsValid}
use claude_mnemonic_plus.Registry.Lookup.{tool_by_name_of_entry, tool_by_name_sound}

module _ {Bytes : Type 0} (r : Registry Bytes) (m : EngramModule Bytes) (v : IsValid r) where
  -- On a valid registry, if Register returns no error, ToolByName then finds every tool of the
  -- new module, with that module's entry and a definition of that name.
  pub tool_by_name-register :
      (n : String)
      → (register r m).1 ≡ none
      → Offers n (provided m.tool_provider)
      → (td : ToolDef) × (tool_by_name (register r m).0 n ≡ found (discover m) td) × (td.name ≡ n)
  unfolding append_entry
  tool_by_name-register n ok o =
      let (_, _, e) = register_ok r m ok in
      let at : get_elem? (register r m).0.entries (length r.entries) ≡ some (discover m) =
        ap (λ x. get_elem? x.entries (length r.entries)) e
        ∙ get_elem?-snoc r.entries (discover m) in
      tool_by_name_of_entry (register r m).0 (register-IsValid r m v) (length r.entries)
        (discover m) n at o

  entry_kept :
      (i : ℕ) (e : ModuleEntry Bytes)
      → get_elem? r.entries i ≡ some e
      → get_elem? (register r m).0.entries i ≡ some e
  unfolding append_entry
  entry_kept i e at = elim (Option-cases (register r m).1) [
    | inl ok ↦
        let (_, _, p) = register_ok r m ok in
        ap (λ x. get_elem? x.entries i) p
        ∙ get_elem?-append_left r.entries (discover m ∷ []) i (get_elem?-lt r.entries i at)
        ∙ at
    | inr (x, bad) ↦ ap (λ y. get_elem? y.entries i) (register_error_unchanged r m {e = x} bad) ∙ at
  ]

  -- On a valid registry, a tool that ToolByName finds before a call of Register is found after
  -- the call, whatever it returns, in the same module's entry and with a definition of that name.
  pub tool_by_name-register_kept :
      (n : String) (e : ModuleEntry Bytes) (td : ToolDef)
      → tool_by_name r n ≡ found e td
      → (td' : ToolDef) × (tool_by_name (register r m).0 n ≡ found e td') × (td'.name ≡ n)
  tool_by_name-register_kept n e td h =
      let (i, at, o, _) = tool_by_name_sound r v n e td h in
      tool_by_name_of_entry (register r m).0 (register-IsValid r m v) i e n (entry_kept i e at) o
