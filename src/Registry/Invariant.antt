-- ===== src/Registry/Invariant.antt =====
-- What is to hold of a registry between two calls of Register, and the tool index.
use claude_mnemonic_plus.Prelude.{
  ℕ, zero, suc, ◌≡◌, refl, ◌∙◌, ◌≢◌, inl, inr, ◌⊎◌, String, false, none, some, List, [], ◌∷◌,
  get_elem?, lookup, insert, lookup-insert, dec_str, arith, Option-cases,
}
use claude_mnemonic_plus.Module.{ToolDef}
use claude_mnemonic_plus.Registry.{
  Registry, ModuleEntry, new, discover, has_name, find_conflict, index_tools, tools_of,
}

-- A tool list offers a name.
abbrev pub Offers : String → List ToolDef → Type 0
Offers n [] = ⊥
Offers n (td ∷ tds) = (td.name ≡ n) ⊎ Offers n tds

-- A listed tool is indexed at the new position.
index_tools_kept :
    (idx : ℕ) (tds : List ToolDef) (index : List (String × ℕ)) (n : String)
    → lookup dec_str n index ≡ some idx
    → lookup dec_str n (index_tools idx tds index) ≡ some idx
unfolding index_tools
index_tools_kept idx [] index n h = h
index_tools_kept idx (td ∷ tds) index n h =
    index_tools_kept idx tds (insert dec_str td.name idx index) n
      (ground (arith, lookup-insert dec_str td.name n idx index))

pub index_tools_hit :
    (idx : ℕ) (tds : List ToolDef) (index : List (String × ℕ)) (n : String)
    → Offers n tds
    → lookup dec_str n (index_tools idx tds index) ≡ some idx
unfolding index_tools
index_tools_hit idx [] index n h = elim h [ ]
index_tools_hit idx (td ∷ tds) index n (inl e) =
    index_tools_kept idx tds (insert dec_str td.name idx index) n
      (ground (arith, lookup-insert dec_str td.name n idx index))
index_tools_hit idx (td ∷ tds) index n (inr h) =
    index_tools_hit idx tds (insert dec_str td.name idx index) n h

-- What the index knows afterwards is old, or a new tool at the new position.
pub index_tools_cases :
    (idx : ℕ) (tds : List ToolDef) (index : List (String × ℕ)) (n : String) (i : ℕ)
    → lookup dec_str n (index_tools idx tds index) ≡ some i
    → (lookup dec_str n index ≡ some i) ⊎ ((i ≡ idx) × Offers n tds)
unfolding index_tools
index_tools_cases idx [] index n i h = inl h
index_tools_cases idx (td ∷ tds) index n i h =
    elim (index_tools_cases idx tds (insert dec_str td.name idx index) n i h) [
      | inl old ↦ elim (dec_str td.name n) [
        | yes p ↦ inr (ground (arith, lookup-insert dec_str td.name n idx index), inl p)
        | no p ↦ inl (ground (arith, lookup-insert dec_str td.name n idx index))
      ]
      | inr (e, o) ↦ inr (e, inr o)
    ]

-- What the index knows already stays, if no new tool has that name.
pub index_tools_old :
    (idx : ℕ) (tds : List ToolDef) (index : List (String × ℕ)) (n : String)
    → ¬ Offers n tds
    → lookup dec_str n (index_tools idx tds index) ≡ lookup dec_str n index
unfolding index_tools
index_tools_old idx [] index n h = refl
index_tools_old idx (td ∷ tds) index n h =
    index_tools_old idx tds (insert dec_str td.name idx index) n (λ o. h (inr o))
    ∙ elim (dec_str td.name n) [
      | yes p ↦ absurd (h (inl p))
      | no p ↦ ground (arith, lookup-insert dec_str td.name n idx index)
    ]

-- Without a conflict no new tool is in the index.
pub find_conflict-none :
    (index : List (String × ℕ)) (tds : List ToolDef) (n : String)
    → find_conflict index tds ≡ none
    → Offers n tds
    → lookup dec_str n index ≡ none
unfolding find_conflict
find_conflict-none index [] n h o = elim o [ ]
find_conflict-none index (td ∷ tds) n h (inl e) = ground arith
find_conflict-none index (td ∷ tds) n h (inr o) = find_conflict-none index tds n (ground arith) o

-- A conflict is a new tool that the index has.
pub find_conflict-some :
    (index : List (String × ℕ)) (tds : List ToolDef) (n : String) (i : ℕ)
    → find_conflict index tds ≡ some (n, i)
    → Offers n tds × (lookup dec_str n index ≡ some i)
unfolding find_conflict
find_conflict-some index [] n i h = ground arith
find_conflict-some index (td ∷ tds) n i h = elim (Option-cases (lookup dec_str td.name index)) [
  | inl miss ↦ let (o, l) = find_conflict-some index tds n i (ground arith) in (inr o, l)
  | inr (j, hit) ↦ (inl (ground arith), ground arith)
]

module _ {Bytes : Type 0} where
  -- What the registry promises its clients.
  pub record IsValid (r : Registry Bytes) : Type 0 where
    pub named :
        (i : ℕ) (e : ModuleEntry Bytes) → get_elem? r.entries i ≡ some e → e.engram_module.name ≢ ""
    pub unique :
        (i j : ℕ) (e f : ModuleEntry Bytes)
        → get_elem? r.entries i ≡ some e
        → get_elem? r.entries j ≡ some f
        → e.engram_module.name ≡ f.engram_module.name
        → i ≡ j
    pub cached :
        (i : ℕ) (e : ModuleEntry Bytes)
        → get_elem? r.entries i ≡ some e
        → e ≡ discover e.engram_module
    pub index_sound :
        (n : String) (i : ℕ)
        → lookup dec_str n r.tool_index ≡ some i
        → (e : ModuleEntry Bytes) × (get_elem? r.entries i ≡ some e) × Offers n (tools_of e)
    pub index_complete :
        (n : String) (i : ℕ) (e : ModuleEntry Bytes)
        → get_elem? r.entries i ≡ some e
        → Offers n (tools_of e)
        → lookup dec_str n r.tool_index ≡ some i
    pub proxy_sound :
        (i : ℕ)
        → r.proxy_idx ≡ some i
        → (e : ModuleEntry Bytes) × (get_elem? r.entries i ≡ some e) × (e.proxy_tool ≢ none)
    pub proxy_complete :
        (i : ℕ) (e : ModuleEntry Bytes)
        → get_elem? r.entries i ≡ some e
        → e.proxy_tool ≢ none
        → r.proxy_idx ≡ some i

  pub new-IsValid : IsValid (new {Bytes = Bytes})
  unfolding new lookup
  new-IsValid = record {
    named = λ i e h. ground arith;
    unique = λ i j e f h k p. ground arith;
    cached = λ i e h. ground arith;
    index_sound = λ n i h. ground arith;
    index_complete = λ n i e h o. ground arith;
    proxy_sound = λ i h. ground arith;
    proxy_complete = λ i e h p. ground arith;
  }

  pub has_name_none :
      (n : String) (es : List (ModuleEntry Bytes)) (i : ℕ) (e : ModuleEntry Bytes)
      → has_name n es ≡ false
      → get_elem? es i ≡ some e
      → e.engram_module.name ≢ n
  unfolding has_name
  has_name_none n [] i e h g = ground arith
  has_name_none n (x ∷ es) zero e h g = λ p. ground arith
  has_name_none n (x ∷ es) (suc i) e h g = has_name_none n es i e (ground arith) g
