-- ===== src/Lifecycle.antt =====
-- internal/module/lifecycle: startup and shutdown of the registered modules. Logging, metrics and
-- contexts are left out; a run is the list of the calls that it made into the modules, each with
-- the error that the panic recovery around it returned.
pub mod Order
pub mod Storage
pub mod Snapshot
pub mod Restore
pub mod Stored
pub mod RoundTrip
pub mod Reliable
pub mod Drain
mod Disks
mod Tests
use claude_mnemonic_plus.Prelude.{
  ℕ, zero, suc, String, Option, none, some, List, [], ◌∷◌, ◌++◌, length, get_elem?,
}
use claude_mnemonic_plus.Module.{ModuleDeps, Outcome, returned, failed, panicked}
use claude_mnemonic_plus.Registry.{Registry, ModuleEntry}

-- The error of a call under panic recovery.
pub data CallFailure : Type 0 where
  error_returned : String → CallFailure
  panic_recovered : String → CallFailure

-- recoverInit and recoverShutdown
unfoldable pub recover : Outcome → Option CallFailure
recover returned = none
recover (failed e) = some (error_returned e)
recover (panicked p) = some (panic_recovered p)

pub data LifecycleCall : Type 0 where
  init_call : String → LifecycleCall
  shutdown_call : String → Option CallFailure → LifecycleCall

module _ {Bytes : Type 0} where
  -- The loop of shutdownRange over the entries below an index, from the last one down. A call's
  -- error is logged and the loop goes on. The first case of the `elim` would be an index out of
  -- range.
  unfoldable pub shutdown_below : List (ModuleEntry Bytes) → ℕ → List LifecycleCall
  shutdown_below es zero = []
  shutdown_below es (suc i) =
      let rest = shutdown_below es i in
      elim (get_elem? es i) [
        | none ↦ []
        | some e ↦ shutdown_call e.engram_module.name (recover e.engram_module.shutdown) ∷ rest
      ]

  -- shutdownRange
  unfoldable pub shutdown_range : List (ModuleEntry Bytes) → List LifecycleCall
  shutdown_range es = shutdown_below es (length es)

  -- ShutdownAll
  unfoldable pub shutdown_all : Registry Bytes → List LifecycleCall
  shutdown_all r = shutdown_range r.entries

  -- The loop of Start. The first list is `entries[:i]`, the second `entries[i:]`.
  unfoldable pub start_from :
      (String → ModuleDeps)
      → List (ModuleEntry Bytes)
      → List (ModuleEntry Bytes)
      → List LifecycleCall × Option (String × CallFailure)
  start_from deps done [] = ([], none)
  start_from deps done (e ∷ es) =
      let name = e.engram_module.name in
      let rest = start_from deps (done ++ e ∷ []) es in
      elim (recover (e.engram_module.init (deps name))) [
        | none ↦ (init_call name ∷ rest.0, rest.1)
        | some err ↦ (init_call name ∷ shutdown_range done, some (name, err))
      ]

  -- Start
  unfoldable pub start :
      (String → ModuleDeps) → Registry Bytes → List LifecycleCall × Option (String × CallFailure)
  start deps r = start_from deps [] r.entries
