-- ===== src/Triggers/Tests.antt =====
-- Requests, and the theorems at them.
use claude_mnemonic_plus.Prelude.{
  inl, ℕ, ◌≡◌, refl, String, false, ℤ, List, [], ◌∷◌, Option, none, some, lookup, dec_str, pos,
  codes, All,
}
use claude_mnemonic_plus.Triggers.{
  float_count, text, any_counts, MemoryTriggerRequest, Observation, MemoryTriggerMatch, is_empty,
  first_path, extract_trigger_command, extract_trigger_file_path, parse_read_count, or_zero_count,
  read_signal_count_from_params, has_pattern_concept, title_or_type, semantic_trigger_blurb,
  to_match, is_relevant, match_loop, safe_rune, session_signal_name, match_bash_command_triggers,
  read_count, match_read_path_triggers, match_memory_triggers, RetrievalHooks,
  read_signal_count_from_session_signals, read_signal_count_for_path, file_path_observations,
}
use claude_mnemonic_plus.Triggers.Matches.{
  relevant, is_reading, first_relevant, IsNamePart, match_memory_triggers-relevant,
  session_signal_name-IsNamePart,
}

program : Unit {0}
unfolding is_empty first_path extract_trigger_command extract_trigger_file_path parse_read_count
    or_zero_count read_signal_count_from_params has_pattern_concept title_or_type
    semantic_trigger_blurb to_match is_relevant match_loop safe_rune session_signal_name
    match_bash_command_triggers read_signal_count_from_session_signals read_signal_count_for_path
    file_path_observations read_count match_read_path_triggers match_memory_triggers relevant
    is_reading first_relevant lookup dec_str
program = tt

abbrev observation : ℕ → String → Option Observation
observation n t =
    some (record { id = n; obs_type = t; concepts = []; narrative = some ""; title = some "t" })

abbrev observations : String → String → ℕ → Option (List (Option Observation))
observations project path limit = some (
    observation 1 "decision"
    ∷ none
    ∷ observation 2 "change"
    ∷ observation 3 "decision"
    ∷ observation 4 "decision"
    ∷ observation 5 "decision"
    ∷ [])

abbrev request : MemoryTriggerRequest
request = record {
  tool = "Read";
  params =
      ("path", text "a.go") ∷ ("read_counts", any_counts (("a.go", float_count (pos 3)) ∷ [])) ∷ [];
  project = "p";
  session_id = "s";
}

abbrev match_of : ℕ → MemoryTriggerMatch
match_of n = record { kind = "context"; observation_id = n; blurb = "t" }

abbrev hooks : Option RetrievalHooks
hooks = some (record { signal_count_hook = none; observations_hook = some observations })

abbrev no_signals : String → Option (List (String × ℤ))
no_signals session = none

abbrev signals : ℤ → String → Option (List (String × ℤ))
signals n session = some (("b.go", pos 9) ∷ ("a.go", n) ∷ [])

-- The request without its counts.
abbrev uncounted : MemoryTriggerRequest
uncounted = record {
  tool = "Read";
  params = ("path", text "a.go") ∷ [];
  project = "p";
  session_id = "s";
}

match_memory_triggers-relevant_example :
    match_memory_triggers (λ s. s) (λ s. false) hooks no_signals request
    ≡ some (match_of 1 ∷ match_of 3 ∷ match_of 4 ∷ [])
unfolding program
match_memory_triggers-relevant_example =
    match_memory_triggers-relevant (λ s. s) (λ s. false) hooks no_signals request (pos 3)
      (inl (refl, refl))

read_in_the_file :
    match_memory_triggers (λ s. s) (λ s. false) hooks (signals (pos 3)) uncounted
    ≡ some (match_of 1 ∷ match_of 3 ∷ match_of 4 ∷ [])
unfolding program
read_in_the_file = refl

read_twice_in_the_file :
    match_memory_triggers (λ s. s) (λ s. false) hooks (signals (pos 2)) uncounted ≡ some []
unfolding program
read_twice_in_the_file = refl

without_hooks : match_memory_triggers (λ s. s) (λ s. false) none (signals (pos 9)) request ≡ some []
unfolding program
without_hooks = refl

no_traversal : session_signal_name (codes "../x") ≡ codes "engram-signals-___x.json"
unfolding program
no_traversal = refl

session_signal_name-IsNamePart_example : All IsNamePart (session_signal_name (codes "../x"))
session_signal_name-IsNamePart_example = session_signal_name-IsNamePart (codes "../x")
