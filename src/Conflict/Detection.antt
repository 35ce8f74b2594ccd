-- ===== src/Conflict/Detection.antt =====
-- Which observations pkg/models/conflict.go finds in conflict.
use claude_mnemonic_plus.Prelude.{
  ◌==◌, ite, dec_str, ℕ, ◌≡◌, refl, sym, ap, ◌∙◌, Bool, true, false, not, ◌&&◌, ◌||◌, Option, none,
  some, List, [], ◌∷◌, map, arith, if◌then◌else◌, Option-cases, inl, inr, ◌⊎◌,
}
use claude_mnemonic_plus.Conflict.{
  Observation, ConflictDetectionResult, Texts, opposing_change_patterns, overlapping, correction_in,
  change_text, opposes, detect_opposing_file_changes, detect_concept_tag_mismatch, file_conflict,
  detect_conflict, comparable, detect_conflicts_with_existing,
}

abbrev pub has_some {ℓ} : {A : Type ℓ} → Option A → Bool
has_some none = false
has_some (some a) = true

abbrev pub has_any {ℓ} : {A : Type ℓ} → List A → Bool
has_any [] = false
has_any (x ∷ xs) = true

List-cases {ℓ} : {A : Type ℓ} (xs : List A) → (xs ≡ []) ⊎ ((y : A) × (ys : List A) × (xs ≡ y ∷ ys))
List-cases [] = inl refl
List-cases (x ∷ xs) = inr (x, xs, refl)

-- Another observation, of the same project unless one of the two is global.
abbrev pub eligible : Observation → Observation → Bool
eligible newer older =
    not (older.id == newer.id)
    && (ite (dec_str newer.project older.project) true false
        || (ite (dec_str newer.scope "global") true false
            || ite (dec_str older.scope "global") true false))

module _ (t : Texts) where
  -- Whether the newer observation's own text announces a correction.
  abbrev pub corrects : Observation → Bool
  corrects newer =
      has_some (correction_in t.correction_patterns newer.narrative)
      || has_some (correction_in t.correction_patterns newer.title)

  -- The description of a conflict.
  abbrev pub conflicting : Observation → Observation → Bool
  conflicting newer older =
      corrects newer
      || (has_any (overlapping newer.files_modified older.files_modified)
          && (opposes t opposing_change_patterns (change_text t newer) (change_text t older)
              || has_any (overlapping newer.concepts older.concepts)))

  -- The observations in conflict, in their order.
  unfoldable pub conflicting_ids : Observation → List Observation → List (List ℕ)
  conflicting_ids newer [] = []
  conflicting_ids newer (older ∷ rest) =
      let ids = conflicting_ids newer rest in
      if eligible newer older && conflicting newer older then (older.id ∷ []) ∷ ids else ids

  has_some-file_conflict :
      (newer older : Observation)
      → has_some (file_conflict t newer older)
        ≡ has_any (overlapping newer.files_modified older.files_modified)
          && (opposes t opposing_change_patterns (change_text t newer) (change_text t older)
              || has_any (overlapping newer.concepts older.concepts))
  unfolding file_conflict detect_opposing_file_changes detect_concept_tag_mismatch
  has_some-file_conflict newer older =
      elim (List-cases (overlapping newer.files_modified older.files_modified)) [
        | inl e ↦ elim (List-cases (overlapping newer.concepts older.concepts)) [
          | inl c ↦ ground arith
          | inr (y, ys, c) ↦ ground arith
        ]
        | inr (x, xs, e) ↦ elim (List-cases (overlapping newer.concepts older.concepts)) [
          | inl c ↦ ground arith
          | inr (y, ys, c) ↦ ground arith
        ]
      ]

  has_some-detect_conflict :
      (newer older : Observation)
      → has_some (detect_conflict t newer older) ≡ conflicting newer older
  unfolding detect_conflict
  has_some-detect_conflict newer older =
      elim (Option-cases (correction_in t.correction_patterns newer.narrative)) [
        | inr (m, e) ↦ ground arith
        | inl e ↦ elim (Option-cases (correction_in t.correction_patterns newer.title)) [
          | inr (m, f) ↦ ground arith
          | inl f ↦ ground (arith, has_some-file_conflict newer older)
        ]
      ]

  ids-file_conflict :
      (newer older : Observation) (r : ConflictDetectionResult)
      → file_conflict t newer older ≡ some r
      → r.older_obs_ids ≡ older.id ∷ []
  unfolding file_conflict
  ids-file_conflict newer older r h =
      elim (Option-cases (detect_opposing_file_changes t newer older)) [
        | inr (fs, e) ↦ ground arith
        | inl e ↦ elim (Option-cases (detect_concept_tag_mismatch t newer older)) [
          | inr (cs, f) ↦ ground arith
          | inl f ↦ absurd (ground arith)
        ]
      ]

  ids-detect_conflict :
      (newer older : Observation) (r : ConflictDetectionResult)
      → detect_conflict t newer older ≡ some r
      → r.older_obs_ids ≡ older.id ∷ []
  unfolding detect_conflict
  ids-detect_conflict newer older r h =
      elim (Option-cases (correction_in t.correction_patterns newer.narrative)) [
        | inr (m, e) ↦ ground arith
        | inl e ↦ elim (Option-cases (correction_in t.correction_patterns newer.title)) [
          | inr (m, f) ↦ ground arith
          | inl f ↦ ids-file_conflict newer older r (ground arith)
        ]
      ]

  comparable_lem : (newer older : Observation) → comparable t newer older ≡ eligible newer older
  unfolding comparable
  comparable_lem newer older = ground arith

  -- DetectConflictsWithExisting reports, in order, exactly the other observations of the same
  -- project, or of any where one of the two is global, for which the text of the newer one
  -- announces a correction, or which share a modified file with it and either an opposing change
  -- or a concept.
  pub detect_conflicts_with_existing-conflicting :
      (newer : Observation) (existing : List Observation)
      → map (λ r. r.older_obs_ids) (detect_conflicts_with_existing t newer existing)
        ≡ conflicting_ids newer existing
  unfolding detect_conflicts_with_existing conflicting_ids
  detect_conflicts_with_existing-conflicting newer [] = refl
  detect_conflicts_with_existing-conflicting newer (older ∷ rest) =
      let ih = detect_conflicts_with_existing-conflicting newer rest in
      let same = comparable_lem newer older in
      let known = has_some-detect_conflict newer older in
      elim (Option-cases (detect_conflict t newer older)) [
        | inl e ↦
            let c : conflicting newer older ≡ false = sym known ∙ ap has_some e in ground arith
        | inr (r, e) ↦
            let c : conflicting newer older ≡ true = sym known ∙ ap has_some e in
            let i = ids-detect_conflict newer older r e in ground arith
      ]
