-- ===== src/Conflict/Tests.antt =====
-- Observations in conflict, and the theorem at them.
use claude_mnemonic_plus.Prelude.{
  ℕ, ◌≡◌, refl, String, false, Option, none, some, List, [], ◌∷◌, map, ite, dec_str, Bool-cases,
}
use claude_mnemonic_plus.Conflict.{
  Observation, Texts, superseded, same_concepts, holds, overlapping, first_match, correction_in,
  change_text, opposes, detect_opposing_file_changes, detect_concept_tag_mismatch, file_conflict,
  detect_conflict, comparable, detect_conflicts_with_existing,
}
use claude_mnemonic_plus.Conflict.Detection.{
  conflicting_ids, detect_conflicts_with_existing-conflicting,
}

program : Unit {0}
unfolding holds overlapping first_match correction_in change_text opposes
    detect_opposing_file_changes detect_concept_tag_mismatch file_conflict detect_conflict
    comparable detect_conflicts_with_existing conflicting_ids dec_str Bool-cases
program = tt

-- One pattern, which matches a single text; no text contains another.
abbrev texts : Texts
texts = record {
  correction_patterns = (λ s. ite (dec_str s "correction: use pgx") "correction: " "") ∷ [];
  to_lower = λ s. s;
  contains = λ s sub. false;
}

abbrev observation : ℕ → String → Option String → List String → Observation
observation id project narrative files = record {
  id = id;
  project = project;
  scope = "project";
  title = none;
  narrative = narrative;
  files_modified = files;
  concepts = "database" ∷ [];
}

abbrev existing : List Observation
existing =
    observation 1 "engram" none ("db.go" ∷ [])
    ∷ observation 2 "engram" none ("main.go" ∷ [])
    ∷ observation 3 "other" none ("db.go" ∷ [])
    ∷ []

-- The same concept and file conflict.
file_and_concept :
    detect_conflicts_with_existing texts (observation 9 "engram" none ("db.go" ∷ [])) existing
    ≡ record {
      conflict_type = superseded;
      reason = same_concepts ("database" ∷ []);
      older_obs_ids = 1 ∷ [];
    }
      ∷ []
unfolding program
file_and_concept = refl

-- A correction contradicts every observation of the project, whatever that is about.
correction_hits_all :
    map
      (λ r. r.older_obs_ids)
      (detect_conflicts_with_existing texts
        (observation 9 "engram" (some "correction: use pgx") [])
        existing)
    ≡ (1 ∷ []) ∷ (2 ∷ []) ∷ []
unfolding program
correction_hits_all = refl

detect_conflicts_with_existing-conflicting_example :
    map
      (λ r. r.older_obs_ids)
      (detect_conflicts_with_existing texts (observation 9 "engram" none ("db.go" ∷ [])) existing)
    ≡ conflicting_ids texts (observation 9 "engram" none ("db.go" ∷ [])) existing
detect_conflicts_with_existing-conflicting_example =
    detect_conflicts_with_existing-conflicting texts (observation 9 "engram" none ("db.go" ∷ []))
      existing
