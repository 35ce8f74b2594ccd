-- ===== src/Triggers.antt =====
-- internal/worker/trigger_matcher.go: the memories that a tool call brings back. The parameters of
-- the request are decoded JSON; what the session's file holds, the hooks that tests set,
-- strings.TrimSpace and privacy.ContainsSecrets are parameters. Session identifiers are lists of
-- code points.
pub mod Matches
mod Tests
use claude_mnemonic_plus.Prelude.{
  ℕ, suc, zero, ◌-◌, String, Bool, true, false, not, ◌||◌, ◌&&◌, List, [], ◌∷◌, ◌++◌, Option, none,
  some, map, length, lookup, dec_str, ite, if◌then◌else◌, leb, ltb, ◌==◌, ℤ, pos, ltb_int, codes,
}

-- An entry of read_counts: int or int64, float64 without its fraction, and json.Number with what
-- its Int64 returns.
pub data CountValue : Type 0 where
  int_count : ℤ → CountValue
  float_count : ℤ → CountValue
  number_count : Option ℤ → CountValue
  no_count : CountValue

-- A parameter: string, map[string]any, map[string]int, or another type.
pub data ParamValue : Type 0 where
  text : String → ParamValue
  any_counts : List (String × CountValue) → ParamValue
  int_counts : List (String × ℤ) → ParamValue
  other_value : ParamValue

-- MemoryTriggerRequest
pub record MemoryTriggerRequest : Type 0 where
  pub tool : String
  pub params : List (String × ParamValue)
  pub project : String
  pub session_id : String

-- The fields of models.Observation that are read.
pub record Observation : Type 0 where
  pub id : ℕ
  pub obs_type : String
  pub concepts : List String
  pub narrative : Option String
  pub title : Option String

-- MemoryTriggerMatch
pub record MemoryTriggerMatch : Type 0 where
  pub kind : String
  pub observation_id : ℕ
  pub blurb : String

abbrev pub repeated_read_threshold : ℤ
repeated_read_threshold = pos 3

abbrev pub repeated_read_candidate_limit : ℕ
repeated_read_candidate_limit = 20

abbrev pub repeated_read_result_limit : ℕ
repeated_read_result_limit = 3

unfoldable pub is_empty : String → Bool
is_empty s = ite (dec_str s "") true false

-- extractTriggerCommand
unfoldable pub extract_trigger_command : (String → String) → List (String × ParamValue) → String
extract_trigger_command trim_space params = elim (lookup dec_str "command" params) [
  | none ↦ ""
  | some v ↦ elim v [ text s ↦ trim_space s | _ ↦ "" ]
]

-- The loop of extractTriggerFilePath over the keys.
unfoldable pub first_path : List String → List (String × ParamValue) → String
first_path [] params = ""
first_path (k ∷ ks) params =
    let rest = first_path ks params in
    elim (lookup dec_str k params) [
      | none ↦ rest
      | some v ↦ elim v [ text s ↦ if is_empty s then rest else s | _ ↦ rest ]
    ]

-- extractTriggerFilePath
unfoldable pub extract_trigger_file_path : List (String × ParamValue) → String
extract_trigger_file_path params =
    first_path ("file_path" ∷ "path" ∷ "filePath" ∷ "file" ∷ "filename" ∷ []) params

-- parseReadCount
unfoldable pub parse_read_count : CountValue → Option ℤ
parse_read_count (int_count n) = some n
parse_read_count (float_count n) = some n
parse_read_count (number_count n) = n
parse_read_count no_count = none

unfoldable pub or_zero_count : Option ℤ → ℤ
or_zero_count none = pos 0
or_zero_count (some n) = n

-- readSignalCountFromParams
unfoldable pub read_signal_count_from_params : List (String × ParamValue) → String → ℤ
read_signal_count_from_params params path =
    if is_empty path then pos 0 else elim (lookup dec_str "read_counts" params) [
      | none ↦ pos 0
      | some v ↦ elim v [
        | any_counts m ↦ elim (lookup dec_str path m) [
          | none ↦ pos 0
          | some c ↦ or_zero_count (parse_read_count c)
        ]
        | int_counts m ↦ or_zero_count (lookup dec_str path m)
        | _ ↦ pos 0
      ]
    ]

-- hasPatternConcept
unfoldable pub has_pattern_concept : List String → Bool
has_pattern_concept [] = false
has_pattern_concept (c ∷ cs) = ite (dec_str c "pattern") true (has_pattern_concept cs)

unfoldable pub title_or_type : Observation → String
title_or_type o = elim o.title [ none ↦ o.obs_type | some t ↦ t ]

-- semanticTriggerBlurb, of an observation that is not nil.
unfoldable pub semantic_trigger_blurb : Observation → String
semantic_trigger_blurb o = elim o.narrative [
  | none ↦ title_or_type o
  | some n ↦ if is_empty n then title_or_type o else n
]

-- The match that an observation gives.
unfoldable pub to_match : Observation → MemoryTriggerMatch
to_match o = record { kind = "context"; observation_id = o.id; blurb = semantic_trigger_blurb o }

-- The test of the loop of matchReadPathTriggers.
unfoldable pub is_relevant : Observation → Bool
is_relevant o = ite (dec_str o.obs_type "decision") true (has_pattern_concept o.concepts)

-- The loop of matchReadPathTriggers; `none` is a nil observation.
unfoldable pub match_loop :
    List MemoryTriggerMatch → List (Option Observation) → List MemoryTriggerMatch
match_loop matches [] = matches
match_loop matches (none ∷ os) = match_loop matches os
match_loop matches (some o ∷ os) =
    let more = matches ++ (to_match o ∷ []) in
    let rest = match_loop (if is_relevant o then more else matches) os in
    if is_relevant o
    then (if leb repeated_read_result_limit (length more) then more else rest)
    else rest

-- The runes of sessionSignalPath.
unfoldable pub safe_rune : ℕ → ℕ
safe_rune r =
    if (leb b'a' r && leb r b'z')
      || ((leb b'A' r && leb r b'Z') || ((leb b'0' r && leb r b'9') || (r == b'_' || r == b'-')))
    then r
    else b'_'

-- The name of the file in sessionSignalPath, without the temporary directory.
unfoldable pub session_signal_name : List ℕ → List ℕ
session_signal_name id = codes "engram-signals-" ++ (map safe_rune id ++ codes ".json")

-- retrievalHooks of the service, which only tests set.
pub record RetrievalHooks : Type 0 where
  pub signal_count_hook : Option (String → String → ℤ)
  pub observations_hook : Option (String → String → ℕ → Option (List (Option Observation)))

-- readSignalCountFromSessionSignals, given read_counts of the session's file, `none` where it
-- cannot be read.
unfoldable pub read_signal_count_from_session_signals :
    (String → Option (List (String × ℤ))) → String → String → ℤ
read_signal_count_from_session_signals signals session path =
    if is_empty session || is_empty path then pos 0 else elim (signals session) [
      | none ↦ pos 0
      | some counts ↦ or_zero_count (lookup dec_str path counts)
    ]

-- readSignalCountForPath
unfoldable pub read_signal_count_for_path :
    Option RetrievalHooks → (String → Option (List (String × ℤ))) → String → String → ℤ
read_signal_count_for_path none signals session path =
    read_signal_count_from_session_signals signals session path
read_signal_count_for_path (some hooks) signals session path = elim (hooks.signal_count_hook) [
  | none ↦ read_signal_count_from_session_signals signals session path
  | some hook ↦ hook session path
]

-- filePathObservations, `none` for an error.
unfoldable pub file_path_observations :
    Option RetrievalHooks → String → String → ℕ → Option (List (Option Observation))
file_path_observations none project path limit = some []
file_path_observations (some hooks) project path limit = elim (hooks.observations_hook) [
  | none ↦ some []
  | some hook ↦ hook project path limit
]

module _ (trim_space : String → String) (contains_secrets : String → Bool)
    (hooks : Option RetrievalHooks) (signals : String → Option (List (String × ℤ))) where
  -- matchBashCommandTriggers: each of its branches returns no match.
  unfoldable pub match_bash_command_triggers : MemoryTriggerRequest → List MemoryTriggerMatch
  match_bash_command_triggers req =
      let command = extract_trigger_command trim_space req.params in
      if is_empty command then [] else if contains_secrets command then [] else []

  -- The reads that matchReadPathTriggers counts.
  unfoldable pub read_count : MemoryTriggerRequest → String → ℤ
  read_count req path =
      let given = read_signal_count_from_params req.params path in
      if ltb_int (pos 0) given
      then given
      else read_signal_count_for_path hooks signals req.session_id path

  -- matchReadPathTriggers, `none` for an error.
  unfoldable pub match_read_path_triggers : MemoryTriggerRequest → Option (List MemoryTriggerMatch)
  match_read_path_triggers req =
      let path = extract_trigger_file_path req.params in
      if is_empty path || is_empty req.session_id
      then some []
      else if ltb_int (read_count req path) repeated_read_threshold
      then some []
      else elim (file_path_observations hooks req.project path repeated_read_candidate_limit) [
        | none ↦ none
        | some os ↦ some (match_loop [] os)
      ]

  -- matchMemoryTriggers; matchEditWriteSemanticTriggers returns no match.
  unfoldable pub match_memory_triggers : MemoryTriggerRequest → Option (List MemoryTriggerMatch)
  match_memory_triggers req = ite (dec_str req.tool "Edit") (some []) (
      ite (dec_str req.tool "Write") (some []) (
        ite (dec_str req.tool "Bash") (some (match_bash_command_triggers req))
          (ite (dec_str req.tool "Read") (match_read_path_triggers req) (some []))))
