-- ===== src/Triggers/Matches.antt =====
-- What matchMemoryTriggers of internal/worker/trigger_matcher.go returns.
use claude_mnemonic_plus.Prelude.{
  ◌⊎◌, ℕ, suc, zero, ◌+◌, ◌≡◌, refl, sym, ◌∙◌, inl, inr, String, Bool, true, false, not, ◌&&◌, List,
  [], ◌∷◌, ◌++◌, Option, none, some, map, length, dec_str, ite, if◌then◌else◌, leb, ◌==◌, ℤ, pos,
  ltb_int, take, append-nil, append_assoc, length-append, arith, Bool-cases, Option-cases, str_ne,
  All, All-append, codes,
}
use claude_mnemonic_plus.Triggers.{
  MemoryTriggerRequest, Observation, MemoryTriggerMatch, to_match, is_relevant, match_loop,
  is_empty, RetrievalHooks, read_signal_count_from_params, read_signal_count_for_path,
  file_path_observations, extract_trigger_file_path, read_count, match_read_path_triggers,
  match_memory_triggers, match_bash_command_triggers, safe_rune, session_signal_name,
}

-- The decisions and patterns among the candidates, as matches.
unfoldable pub relevant : List (Option Observation) → List MemoryTriggerMatch
relevant [] = []
relevant (none ∷ os) = relevant os
relevant (some o ∷ os) = let rest = relevant os in if is_relevant o then to_match o ∷ rest else rest

match_loop-relevant :
    (n : ℕ) (ms : List MemoryTriggerMatch) (os : List (Option Observation))
    → length ms + suc n ≡ 3
    → match_loop ms os ≡ ms ++ take (suc n) (relevant os)
unfolding match_loop relevant
match_loop-relevant n ms [] h = sym (append-nil ms)
match_loop-relevant n ms (none ∷ os) h = match_loop-relevant n ms os h
match_loop-relevant zero ms (some o ∷ os) h =
    let l = length-append ms (to_match o ∷ []) in
    let full : leb 3 (length (ms ++ (to_match o ∷ []))) ≡ true = ground (arith, l, h) in
    elim (Bool-cases (is_relevant o)) [
      | inr f ↦ rw f (match_loop-relevant zero ms os h)
      | inl t ↦ rw (t, full) refl
    ]
match_loop-relevant (suc m) ms (some o ∷ os) h =
    let l = length-append ms (to_match o ∷ []) in
    let room : leb 3 (length (ms ++ (to_match o ∷ []))) ≡ false = ground (arith, l, h) in
    let rest = match_loop-relevant m (ms ++ (to_match o ∷ [])) os (omega (arith, l, h)) in
    elim (Bool-cases (is_relevant o)) [
      | inr f ↦ rw f (match_loop-relevant (suc m) ms os h)
      | inl t ↦ rw (t, room) (rest ∙ append_assoc ms (to_match o ∷ []) (take (suc m) (relevant os)))
    ]

-- A Read with a path and a session.
unfoldable pub is_reading : MemoryTriggerRequest → Bool
is_reading req =
    ite (dec_str req.tool "Read")
      (not (is_empty (extract_trigger_file_path req.params)) && not (is_empty req.session_id)) false

-- The first three decisions and patterns, or the error.
unfoldable pub first_relevant :
    Option (List (Option Observation)) → Option (List MemoryTriggerMatch)
first_relevant none = none
first_relevant (some os) = some (take 3 (relevant os))

-- No separator of paths, and no end of a string.
abbrev pub IsNamePart : ℕ → Type 0
IsNamePart r = ¬ (r ≡ b'/') × ¬ (r ≡ b'\\') × ¬ (r ≡ 0)

safe_rune-IsNamePart : (r : ℕ) → IsNamePart (safe_rune r)
unfolding safe_rune
safe_rune-IsNamePart r = (λ e. ground arith, λ e. ground arith, λ e. ground arith)

map-IsNamePart : (id : List ℕ) → All IsNamePart (map safe_rune id)
map-IsNamePart [] = tt
map-IsNamePart (r ∷ rs) = (safe_rune-IsNamePart r, map-IsNamePart rs)

all_name_part : List ℕ → Bool
all_name_part [] = true
all_name_part (r ∷ rs) =
    let rest = all_name_part rs in (not (r == b'/') && (not (r == b'\\') && not (r == 0))) && rest

All-codes : (s : List ℕ) → all_name_part s ≡ true → All IsNamePart s
unfolding all_name_part
All-codes [] h = tt
All-codes (r ∷ rs) h =
    ((λ e. ground arith, λ e. ground arith, λ e. ground arith), All-codes rs (ground arith))

-- Whatever the session's identifier, the name of its file has no slash, no backslash and no zero,
-- so that the file stands in the temporary directory.
pub session_signal_name-IsNamePart : (id : List ℕ) → All IsNamePart (session_signal_name id)
unfolding session_signal_name all_name_part
session_signal_name-IsNamePart id =
    All-append IsNamePart (codes "engram-signals-") (map safe_rune id ++ codes ".json")
      (All-codes (codes "engram-signals-") refl)
      (All-append IsNamePart (map safe_rune id) (codes ".json") (map-IsNamePart id)
        (All-codes (codes ".json") refl))

module _ (trim_space : String → String) (contains_secrets : String → Bool)
    (hooks : Option RetrievalHooks) (signals : String → Option (List (String × ℤ))) where
  -- How often the path was read: as the request says, if it says a positive number, and otherwise
  -- as the hook for the count or the file of the session says.
  abbrev pub HasRead : MemoryTriggerRequest → ℤ → Type 0
  HasRead req n =
      let path = extract_trigger_file_path req.params in
      let given = read_signal_count_from_params req.params path in
      ((given ≡ n) × (ltb_int (pos 0) n ≡ true))
      ⊎ ((ltb_int (pos 0) given ≡ false)
          × (read_signal_count_for_path hooks signals req.session_id path ≡ n))

  read_count-HasRead :
      (req : MemoryTriggerRequest) (n : ℤ)
      → HasRead req n
      → read_count trim_space contains_secrets hooks signals req
          (extract_trigger_file_path req.params)
        ≡ n
  unfolding read_count
  read_count-HasRead req n (inl (e, h)) = ground (arith, e, h)
  read_count-HasRead req n (inr (h, e)) = ground (arith, e, h)

  match_read_path_triggers-relevant :
      (req : MemoryTriggerRequest)
      → match_read_path_triggers trim_space contains_secrets hooks signals req ≡ (
          let path = extract_trigger_file_path req.params in
          let reads = read_count trim_space contains_secrets hooks signals req path in
          if (not (is_empty path) && not (is_empty req.session_id)) && not (ltb_int reads (pos 3))
          then first_relevant (file_path_observations hooks req.project path 20)
          else some [])
  unfolding match_read_path_triggers first_relevant
  match_read_path_triggers-relevant req =
      let path = extract_trigger_file_path req.params in
      elim (Option-cases (file_path_observations hooks req.project path 20)) [
        | inl e ↦ ground (arith, e)
        | inr (os, e) ↦ ground (arith, e, match_loop-relevant 2 [] os refl)
      ]

  -- For a Read with a path and a session, where the path has been read three times or more, as
  -- the request says if it says a positive number and otherwise as the hook for the count or the
  -- file of the session says, matchMemoryTriggers returns the first three decisions and patterns,
  -- in their order, among the observations of the path, which are none without the hook that
  -- tests set; an error of that hook is passed on. For all else it returns no match.
  pub match_memory_triggers-relevant :
      (req : MemoryTriggerRequest) (n : ℤ)
      → HasRead req n
      → match_memory_triggers trim_space contains_secrets hooks signals req ≡ (
          if is_reading req && not (ltb_int n (pos 3))
          then first_relevant
              (file_path_observations hooks req.project (extract_trigger_file_path req.params) 20)
          else some [])
  unfolding match_memory_triggers match_bash_command_triggers is_reading
  match_memory_triggers-relevant req n reads =
      let read = match_read_path_triggers-relevant req in
      let count = read_count-HasRead req n reads in
      elim (dec_str req.tool "Read") [
        | no ne ↦ ground (arith, ne)
        | yes p ↦ ground (
          arith,
          p,
          read,
          count,
          str_ne "Read" "Edit" refl,
          str_ne "Read" "Write" refl,
          str_ne "Read" "Bash" refl,
        )
      ]

  -- Without a hook no request has a match.
  pub match_memory_triggers_hookless :
      (req : MemoryTriggerRequest)
      → hooks ≡ none
      → match_memory_triggers trim_space contains_secrets hooks signals req ≡ some []
  unfolding match_memory_triggers match_read_path_triggers match_bash_command_triggers
      file_path_observations match_loop
  match_memory_triggers_hookless req h = ground (arith, h)
