-- ===== src/Session/Invariant.antt =====
-- What is to hold of the session manager between two critical sections.
use claude_mnemonic_plus.Prelude.{
  ℕ, suc, ◌+◌, ◌≡◌, ◌≢◌, refl, sym, ap, ◌∙◌, inl, inr, false, Option, none, some, List, [], ◌∷◌,
  ◌++◌, ite, length, get_elem?, set, get_elem?-set_self, get_elem?-set_ne, get_elem?-snoc,
  get_elem?_of_snoc, lookup, insert, delete, lookup-insert, lookup-delete, UniqueKeys,
  insert-UniqueKeys, delete-UniqueKeys, ℕ_discrete, arith, Option-cases,
}
use claude_mnemonic_plus.Session.{
  ActiveSession, Manager, new_manager, find_session, update_session, publish_session,
}
use claude_mnemonic_plus.Session.Ops.{cancel_session, delete_session}

-- How often an id occurs.
abbrev pub count : ℕ → List ℕ → ℕ
count id [] = 0
count id (x ∷ xs) = let rest = count id xs in ite (ℕ_discrete x id) (suc rest) rest

abbrev pub present : Option ℕ → ℕ
present none = 0
present (some ref) = 1

pub record IsValid (m : Manager) : Type 0 where
  -- The map points to live sessions, each under its own id.
  pub live :
      (id ref : ℕ)
      → find_session m id ≡ some ref
      → (s : ActiveSession) × (get_elem? m.heap ref ≡ some s)
        × (s.session_db_id ≡ id)
        × (s.cancelled ≡ false)
  -- No id is in the map twice.
  pub unique : UniqueKeys ℕ_discrete m.sessions
  -- The callbacks: one creation for each deletion, and one more while the session is active.
  pub balanced : (id : ℕ) → count id m.created ≡ count id m.deleted + present (find_session m id)

pub new_manager-IsValid : IsValid new_manager
unfolding new_manager lookup
new_manager-IsValid = record { live = λ id ref h. ground arith; unique = tt; balanced = λ id. refl }

module _ (m : Manager) (v : IsValid m) where
  -- Two ids do not share a session.
  pub session_apart :
      (i j ref ref' : ℕ)
      → find_session m i ≡ some ref
      → find_session m j ≡ some ref'
      → i ≢ j
      → ref ≢ ref'
  session_apart i j ref ref' h k ne e =
      let (s, at, own, _) = v.live i ref h in
      let (t, at', own', _) = v.live j ref' k in
      let q : some s ≡ some t = sym at ∙ ap (get_elem? m.heap) e ∙ at' in
      let p : s ≡ t = cc in ne (sym own ∙ ap (λ x. x.session_db_id) p ∙ own')

  module _ (f : ActiveSession → ActiveSession) (ref : ℕ)
      (keeps_id : (s : ActiveSession) → (f s).session_db_id ≡ s.session_db_id)
      (keeps_ctx : (s : ActiveSession) → (f s).cancelled ≡ s.cancelled) where
    update_live :
        (s : ActiveSession) (id ref' : ℕ)
        → get_elem? m.heap ref ≡ some s
        → find_session m id ≡ some ref'
        → (t : ActiveSession) × (get_elem? (set m.heap ref (f s)) ref' ≡ some t)
          × (t.session_db_id ≡ id)
          × (t.cancelled ≡ false)
    update_live s id ref' at h = elim (ℕ_discrete ref ref') [
      | yes e ↦
          let (t, at', own, on) = v.live id ref' h in
          let q : some s ≡ some t = sym at ∙ ap (get_elem? m.heap) e ∙ at' in
          let p : s ≡ t = cc in
          (
            f s,
            ap (get_elem? (set m.heap ref (f s))) (sym e) ∙ get_elem?-set_self m.heap ref (f s) at,
            keeps_id s ∙ ap (λ x. x.session_db_id) p ∙ own,
            keeps_ctx s ∙ ap (λ x. x.cancelled) p ∙ on,
          )
      | no e ↦
          let (t, at', own, on) = v.live id ref' h in
          (t, get_elem?-set_ne m.heap ref ref' (f s) e ∙ at', own, on)
    ]

    -- A write to a session's prompt, queue or channel keeps the invariant.
    pub update_session-IsValid : IsValid (update_session f m ref)
    unfolding update_session
    update_session-IsValid = go (get_elem? m.heap ref) refl
      where
        go :
            (o : Option ActiveSession) → get_elem? m.heap ref ≡ o → IsValid (update_session f m ref)
        go none e = rw (e, update_session) v
        go (some s) e =
            rw (e, update_session)
              (record {
                live = λ id ref' h. update_live s id ref' e h;
                unique = v.unique;
                balanced = v.balanced;
              })

  -- The double check and the insertion keep the invariant, for a fresh session of that id.
  publish_session-IsValid_new :
      (id : ℕ) (s : ActiveSession)
      → find_session m id ≡ none
      → s.session_db_id ≡ id
      → s.cancelled ≡ false
      → IsValid (publish_session m id s).0
  unfolding publish_session
  publish_session-IsValid_new id s free own on =
      rw (free, publish_session)
        (record {
          live = new_live;
          unique = insert-UniqueKeys ℕ_discrete id (length m.heap) m.sessions v.unique;
          balanced = new_balanced;
        })
    where
      new_live :
          (j ref : ℕ)
          → lookup ℕ_discrete j (insert ℕ_discrete id (length m.heap) m.sessions) ≡ some ref
          → (t : ActiveSession) × (get_elem? (m.heap ++ s ∷ []) ref ≡ some t)
            × (t.session_db_id ≡ j)
            × (t.cancelled ≡ false)
      new_live j ref h = elim (ℕ_discrete id j) [
        | yes e ↦
            let p : length m.heap ≡ ref =
              ground (arith, lookup-insert ℕ_discrete id j (length m.heap) m.sessions) in
            (s, ap (get_elem? (m.heap ++ s ∷ [])) (sym p) ∙ get_elem?-snoc m.heap s, own ∙ e, on)
        | no e ↦
            let k : find_session m j ≡ some ref =
              ground (arith, lookup-insert ℕ_discrete id j (length m.heap) m.sessions) in
            let (t, at, own', on') = v.live j ref k in
            (t, get_elem?_of_snoc m.heap s ref at, own', on')
      ]

      new_balanced :
          (j : ℕ)
          → count j (id ∷ m.created)
            ≡ count j m.deleted
              + present (lookup ℕ_discrete j (insert ℕ_discrete id (length m.heap) m.sessions))
      new_balanced j =
          let b = v.balanced j in
          elim (ℕ_discrete id j) [
            | yes e ↦
                let free' : find_session m j ≡ none = ap (find_session m) (sym e) ∙ free in
                ground (arith, lookup-insert ℕ_discrete id j (length m.heap) m.sessions)
            | no e ↦ ground (arith, lookup-insert ℕ_discrete id j (length m.heap) m.sessions)
          ]

  pub publish_session-IsValid :
      (id : ℕ) (s : ActiveSession)
      → s.session_db_id ≡ id
      → s.cancelled ≡ false
      → IsValid (publish_session m id s).0
  unfolding publish_session
  publish_session-IsValid id s own on = elim (Option-cases (find_session m id)) [
    | inl free ↦ publish_session-IsValid_new id s free own on
    | inr (ref, taken) ↦ rw (taken, publish_session) v
  ]

  delete_session-IsValid_at :
      (id ref : ℕ) (s : ActiveSession)
      → find_session m id ≡ some ref
      → get_elem? m.heap ref ≡ some s
      → IsValid (delete_session m id)
  unfolding delete_session update_session
  delete_session-IsValid_at id ref s h at =
      rw (h, delete_session)
        (rw (at, update_session)
          (record {
            live = kept_live;
            unique = delete-UniqueKeys ℕ_discrete id m.sessions v.unique;
            balanced = kept_balanced;
          }))
    where
      kept_live :
          (j ref' : ℕ)
          → lookup ℕ_discrete j (delete ℕ_discrete id m.sessions) ≡ some ref'
          → (t : ActiveSession) × (get_elem? (set m.heap ref (cancel_session s)) ref' ≡ some t)
            × (t.session_db_id ≡ j)
            × (t.cancelled ≡ false)
      kept_live j ref' k = elim (ℕ_discrete id j) [
        | yes e ↦ ground (arith, lookup-delete ℕ_discrete id j m.sessions)
        | no e ↦
            let k' : find_session m j ≡ some ref' =
              ground (arith, lookup-delete ℕ_discrete id j m.sessions) in
            let (t, at', own, on) = v.live j ref' k' in
            (
              t,
              get_elem?-set_ne m.heap ref ref' (cancel_session s)
                    (session_apart id j ref ref' h k' e)
                  ∙ at',
              own,
              on,
            )
      ]

      kept_balanced :
          (j : ℕ)
          → count j m.created
            ≡ count j (id ∷ m.deleted)
              + present (lookup ℕ_discrete j (delete ℕ_discrete id m.sessions))
      kept_balanced j =
          let b = v.balanced j in
          elim (ℕ_discrete id j) [
            | yes e ↦
                let h' : find_session m j ≡ some ref = ap (find_session m) (sym e) ∙ h in
                ground (arith, lookup-delete ℕ_discrete id j m.sessions)
            | no e ↦ ground (arith, lookup-delete ℕ_discrete id j m.sessions)
          ]

  pub delete_session-IsValid : (id : ℕ) → IsValid (delete_session m id)
  unfolding delete_session
  delete_session-IsValid id = elim (Option-cases (find_session m id)) [
    | inl gone ↦ rw (gone, delete_session) v
    | inr (ref, h) ↦ let (s, at, _, _) = v.live id ref h in delete_session-IsValid_at id ref s h at
  ]
