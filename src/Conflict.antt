-- ===== src/Conflict.antt =====
-- pkg/models/conflict.go: when a new observation contradicts or replaces an older one. The regular
-- expressions, strings.ToLower and strings.Contains are parameters. A null text is `none`.
pub mod Detection
mod Tests
use claude_mnemonic_plus.Prelude.{
  ℕ, ◌==◌, String, Bool, true, false, not, ◌&&◌, ◌||◌, Option, none, some, List, [], ◌∷◌, ite,
  dec_str, if◌then◌else◌,
}
use Prim.Native.String.{◌++◌ as append_str}

-- The fields of Observation that the detection reads.
pub record Observation : Type 0 where
  pub id : ℕ
  pub project : String
  pub scope : String
  pub title : Option String
  pub narrative : Option String
  pub files_modified : List String
  pub concepts : List String

-- ConflictType
pub data ConflictType : Type 0 where
  superseded : ConflictType
  contradicts : ConflictType
  outdated_pattern : ConflictType

-- The reasons, each with what its text is made of.
pub data ConflictReason : Type 0 where
  explicit_correction : String → ConflictReason
  opposing_changes : List String → ConflictReason
  same_concepts : List String → ConflictReason

-- ConflictDetectionResult of a conflict, which always prefers the newer observation; `none` stands
-- for a result without one.
pub record ConflictDetectionResult : Type 0 where
  pub conflict_type : ConflictType
  pub reason : ConflictReason
  pub older_obs_ids : List ℕ

-- `FindString` of each of CorrectionPatterns, and the functions of package strings.
pub record Texts : Type 0 where
  pub correction_patterns : List (String → String)
  pub to_lower : String → String
  pub contains : String → String → Bool

-- OpposingChangePatterns
abbrev pub opposing_change_patterns : List (String × String)
opposing_change_patterns =
    ("add", "remove")
    ∷ ("added", "removed")
    ∷ ("create", "delete")
    ∷ ("created", "deleted")
    ∷ ("enable", "disable")
    ∷ ("enabled", "disabled")
    ∷ ("include", "exclude")
    ∷ ("allow", "deny")
    ∷ ("permit", "block")
    ∷ []

unfoldable pub holds : String → List String → Bool
holds s [] = false
holds s (x ∷ xs) = ite (dec_str x s) true (holds s xs)

-- The elements of the older list that the newer one has.
unfoldable pub overlapping : List String → List String → List String
overlapping newer [] = []
overlapping newer (f ∷ fs) =
    let rest = overlapping newer fs in if holds f newer then f ∷ rest else rest

-- The loop of DetectExplicitCorrection: the first match that is not empty.
unfoldable pub first_match : List (String → String) → String → Option String
first_match [] text = none
first_match (p ∷ ps) text = ite (dec_str (p text) "") (first_match ps text) (some (p text))

abbrev pub null_text : Option String → String
null_text none = ""
null_text (some s) = s

-- A title and a narrative that may be null, as the detection of corrections reads them.
unfoldable pub correction_in : List (String → String) → Option String → Option String
correction_in patterns none = none
correction_in patterns (some s) = first_match patterns s

module _ (t : Texts) where
  -- The text of an observation, in lower case.
  unfoldable pub change_text : Observation → String
  change_text o =
      t.to_lower (append_str (null_text o.title) (append_str " " (null_text o.narrative)))

  -- The loop over OpposingChangePatterns.
  unfoldable pub opposes : List (String × String) → String → String → Bool
  opposes [] newer older = false
  opposes ((action, opposite) ∷ ps) newer older =
      if (t.contains newer action && t.contains older opposite)
        || (t.contains newer opposite && t.contains older action)
      then true
      else opposes ps newer older

  -- DetectOpposingFileChanges, with the overlapping files of its reason.
  unfoldable pub detect_opposing_file_changes : Observation → Observation → Option (List String)
  detect_opposing_file_changes newer older =
      elim (overlapping newer.files_modified older.files_modified) [
        | [] ↦ none
        | f ∷ fs ↦
            if opposes opposing_change_patterns (change_text newer) (change_text older)
            then some (f ∷ fs)
            else none
      ]

  -- DetectConceptTagMismatch, with the overlapping concepts of its reason.
  unfoldable pub detect_concept_tag_mismatch : Observation → Observation → Option (List String)
  detect_concept_tag_mismatch newer older = elim (overlapping newer.concepts older.concepts) [
    | [] ↦ none
    | c ∷ cs ↦ elim (overlapping newer.files_modified older.files_modified) [
      | [] ↦ none
      | f ∷ fs ↦ some (c ∷ cs)
    ]
  ]

  unfoldable pub file_conflict : Observation → Observation → Option ConflictDetectionResult
  file_conflict newer older = elim (detect_opposing_file_changes newer older) [
    | some fs ↦ some (record {
      conflict_type = superseded;
      reason = opposing_changes fs;
      older_obs_ids = older.id ∷ [];
    })
    | none ↦ elim (detect_concept_tag_mismatch newer older) [
      | some cs ↦ some (record {
        conflict_type = superseded;
        reason = same_concepts cs;
        older_obs_ids = older.id ∷ [];
      })
      | none ↦ none
    ]
  ]

  abbrev pub correction : Observation → String → Option ConflictDetectionResult
  correction older m = some (record {
    conflict_type = contradicts;
    reason = explicit_correction m;
    older_obs_ids = older.id ∷ [];
  })

  -- DetectConflict
  unfoldable pub detect_conflict : Observation → Observation → Option ConflictDetectionResult
  detect_conflict newer older = elim (correction_in t.correction_patterns newer.narrative) [
    | some m ↦ correction older m
    | none ↦ elim (correction_in t.correction_patterns newer.title) [
      | some m ↦ correction older m
      | none ↦ file_conflict newer older
    ]
  ]

  -- The two tests by which an observation is passed over.
  unfoldable pub comparable : Observation → Observation → Bool
  comparable newer older =
      not (older.id == newer.id)
      && not (
          not (ite (dec_str newer.project older.project) true false)
          && (not (ite (dec_str newer.scope "global") true false)
              && not (ite (dec_str older.scope "global") true false)))

  -- DetectConflictsWithExisting
  unfoldable pub detect_conflicts_with_existing :
      Observation → List Observation → List ConflictDetectionResult
  detect_conflicts_with_existing newer [] = []
  detect_conflicts_with_existing newer (older ∷ rest) =
      let results = detect_conflicts_with_existing newer rest in
      if comparable newer older
      then elim (detect_conflict newer older) [ none ↦ results | some r ↦ r ∷ results ]
      else results
