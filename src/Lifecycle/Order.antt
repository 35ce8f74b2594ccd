-- ===== src/Lifecycle/Order.antt =====
-- The order of the calls of Start and ShutdownAll in internal/module/lifecycle/pipeline.go.
use claude_mnemonic_plus.Prelude.{
  ℕ, zero, suc, ◌≤◌, ◌≡◌, refl, ap, sym, ◌∙◌, String, none, some, List, [], ◌∷◌, ◌++◌, map, reverse,
  length, get_elem?-append_left, get_elem?-snoc, length-append, append_assoc, append-nil, All,
  arith,
}
use mathlib.Core.List.{reverse-append, map-append}
use mathlib.Core.Path.{◌≡⟨◌⟩◌, ◌∎}
use claude_mnemonic_plus.Module.{ModuleDeps}
use claude_mnemonic_plus.Registry.{Registry, ModuleEntry}
use claude_mnemonic_plus.Lifecycle.{
  CallFailure, recover, LifecycleCall, init_call, shutdown_call, shutdown_below, shutdown_range,
  shutdown_all, start_from, start,
}

module _ {Bytes : Type 0} where
  abbrev pub shutdown_of : ModuleEntry Bytes → LifecycleCall
  shutdown_of e = shutdown_call e.engram_module.name (recover e.engram_module.shutdown)

  abbrev pub init_of : ModuleEntry Bytes → LifecycleCall
  init_of e = init_call e.engram_module.name

  shutdown_below-append :
      (es fs : List (ModuleEntry Bytes)) (i : ℕ)
      → i ≤ length es
      → shutdown_below (es ++ fs) i ≡ shutdown_below es i
  unfolding shutdown_below
  shutdown_below-append es fs zero h = refl
  shutdown_below-append es fs (suc i) h =
      ground (arith, get_elem?-append_left es fs i, shutdown_below-append es fs i (omega arith))

  -- One more entry is shut down first.
  shutdown_range-snoc :
      (es : List (ModuleEntry Bytes)) (e : ModuleEntry Bytes)
      → shutdown_range (es ++ e ∷ []) ≡ shutdown_of e ∷ shutdown_range es
  unfolding shutdown_range shutdown_below
  shutdown_range-snoc es e =
      let n : length (es ++ e ∷ []) ≡ suc (length es) = omega (arith, length-append es (e ∷ [])) in
      rw n (
        ground
          (arith, get_elem?-snoc es e, shutdown_below-append es (e ∷ []) (length es) (omega arith)))

  shutdown_reversed :
      (es done : List (ModuleEntry Bytes))
      → shutdown_range (done ++ es) ≡ map shutdown_of (reverse es) ++ shutdown_range done
  shutdown_reversed [] done = ap shutdown_range (append-nil done)
  shutdown_reversed (e ∷ es) done =
      shutdown_range (done ++ e ∷ es)
      ≡⟨ ap shutdown_range (sym (append_assoc done (e ∷ []) es)) ⟩
        shutdown_range ((done ++ e ∷ []) ++ es)
      ≡⟨ shutdown_reversed es (done ++ e ∷ []) ⟩
        map shutdown_of (reverse es) ++ shutdown_range (done ++ e ∷ [])
      ≡⟨ ap (λ l. map shutdown_of (reverse es) ++ l) (shutdown_range-snoc done e) ⟩
        map shutdown_of (reverse es) ++ shutdown_of e ∷ shutdown_range done
      ≡⟨ sym
          (append_assoc (map shutdown_of (reverse es)) (shutdown_of e ∷ []) (shutdown_range done)) ⟩
        (map shutdown_of (reverse es) ++ shutdown_of e ∷ []) ++ shutdown_range done
      ≡⟨ ap (λ l. l ++ shutdown_range done) (sym (map-append shutdown_of (reverse es) (e ∷ []))) ⟩
        map shutdown_of (reverse es ++ e ∷ []) ++ shutdown_range done
      ≡⟨ ap (λ l. map shutdown_of l ++ shutdown_range done) (sym (reverse-append (e ∷ []) es)) ⟩
        map shutdown_of (reverse (e ∷ es)) ++ shutdown_range done ∎

  shutdown_range_lem :
      (es : List (ModuleEntry Bytes)) → shutdown_range es ≡ map shutdown_of (reverse es)
  unfolding shutdown_range shutdown_below
  shutdown_range_lem es = shutdown_reversed es [] ∙ append-nil (map shutdown_of (reverse es))

  -- ShutdownAll calls the Shutdown of every registered module once, in reverse registration
  -- order, whatever the calls return and also after a panic.
  pub shutdown_all_lem : (r : Registry Bytes) → shutdown_all r ≡ map shutdown_of (reverse r.entries)
  unfolding shutdown_all
  shutdown_all_lem r = shutdown_range_lem r.entries

  module _ (deps : String → ModuleDeps) where
    -- A module whose Init returns nil.
    abbrev pub InitOk : ModuleEntry Bytes → Type 0
    InitOk e = recover (e.engram_module.init (deps e.engram_module.name)) ≡ none

    start_prefix :
        (pre done es : List (ModuleEntry Bytes))
        → All InitOk pre
        → start_from deps done (pre ++ es) ≡ (
          map init_of pre ++ (start_from deps (done ++ pre) es).0,
          (start_from deps (done ++ pre) es).1,
        )
    unfolding start_from
    start_prefix [] done es h = rw (append-nil done)
    start_prefix (e ∷ pre) done es h =
        let ih = start_prefix pre (done ++ e ∷ []) es h.1 in
        ground (arith, h.0, ih, append_assoc done (e ∷ []) pre)

    start_stops :
        (pre post : List (ModuleEntry Bytes)) (e : ModuleEntry Bytes) {err : CallFailure}
        → recover (e.engram_module.init (deps e.engram_module.name)) ≡ some err
        → start_from deps pre (e ∷ post)
          ≡ (init_of e ∷ map shutdown_of (reverse pre), some (e.engram_module.name, err))
    unfolding start_from
    start_stops pre post e f = ground (arith, f, shutdown_range_lem pre)

    -- If every module's Init returns nil, Start calls each Init once in registration order, shuts
    -- nothing down and reports no error.
    pub start_ok :
        (r : Registry Bytes) → All InitOk r.entries → start deps r ≡ (map init_of r.entries, none)
    unfolding start start_from
    start_ok r h =
        ap (start_from deps []) (sym (append-nil r.entries))
        ∙ start_prefix r.entries [] [] h
        ∙ ap (λ l. (l, none)) (append-nil (map init_of r.entries))

    -- If the Init of a module returns an error or panics after the Init of each module before it
    -- returned nil, Start shuts down exactly the modules before it, the last one first, calls
    -- nothing of the modules behind it, and reports the module's name with its failure.
    pub start_failed :
        (r : Registry Bytes) (pre post : List (ModuleEntry Bytes)) (e : ModuleEntry Bytes)
        {err : CallFailure}
        → r.entries ≡ pre ++ e ∷ post
        → All InitOk pre
        → recover (e.engram_module.init (deps e.engram_module.name)) ≡ some err
        → start deps r ≡ (
          map init_of pre ++ init_of e ∷ map shutdown_of (reverse pre),
          some (e.engram_module.name, err),
        )
    unfolding start
    start_failed r pre post e p h f =
        ap (start_from deps []) p
        ∙ start_prefix pre [] (e ∷ post) h
        ∙ ap (λ x. (map init_of pre ++ x.0, x.1)) (start_stops pre post e f)
