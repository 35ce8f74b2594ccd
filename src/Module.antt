-- ===== src/Module.antt =====
-- internal/module: the interfaces between the daemon's core and its modules, as plain values.
-- An optional capability, which the source finds by a type assertion, is a field that may be
-- `none`. What a module's code does when it is called is a field too: these are the parameters of
-- the model, since the modules are the core's environment.
pub mod Envelope
mod Tests
use claude_mnemonic_plus.Prelude.{String, Bool, Option, List}

-- module.ToolDef
pub record ToolDef : Type 0 where
  pub name : String
  pub description : String
  pub input_schema : String

-- module.ModuleDeps, of which the pipeline builds one for each module.
pub record ModuleDeps : Type 0 where
  pub config : String
  pub storage_dir : String

-- What a call of a module's function can do: return nil, return an error, or panic.
pub data Outcome : Type 0 where
  returned : Outcome
  failed : String → Outcome
  panicked : String → Outcome

-- module.ModuleError
pub record ModuleError : Type 0 where
  pub code : String
  pub message : String

-- The errors that the dispatcher tells apart by their dynamic type.
pub data CallError : Type 0 where
  proxy_is_error : String → CallError
  module_error : ModuleError → CallError
  other_error : String → CallError

-- What HandleTool does: raw content, an error, or a panic.
pub data CallOutcome : Type 0 where
  content : String → CallOutcome
  call_failed : CallError → CallOutcome
  call_panicked : String → CallOutcome

-- A call together with `tctx.Err() == context.DeadlineExceeded` after it.
pub record ToolCall : Type 0 where
  pub outcome : CallOutcome
  pub deadline_exceeded : Bool

-- What ProxyTools does.
pub data ListOutcome : Type 0 where
  listed : List ToolDef → ListOutcome
  list_failed : String → ListOutcome
  list_panicked : String → ListOutcome

-- module.ToolProvider; a call is given the project, the tool's name and the arguments.
pub record ToolProvider : Type 0 where
  pub tools : List ToolDef
  pub handle_tool : String → String → String → ToolCall

-- module.ProxyToolProvider
pub record ProxyToolProvider : Type 0 where
  pub proxy_tools : String → ListOutcome
  pub proxy_handle_tool : String → String → String → ToolCall

-- What Snapshot does.
pub data SnapshotOutcome (Bytes : Type 0) : Type 0 where
  snapshotted : Bytes → SnapshotOutcome Bytes
  snapshot_failed : String → SnapshotOutcome Bytes
  snapshot_panicked : String → SnapshotOutcome Bytes

-- What Restore does; `unsupported_version` is module.ErrUnsupportedVersion.
pub data RestoreOutcome : Type 0 where
  restored : RestoreOutcome
  unsupported_version : RestoreOutcome
  restore_failed : String → RestoreOutcome
  restore_panicked : String → RestoreOutcome

-- module.Snapshotter; `restore none` is Restore(nil).
pub record Snapshotter (Bytes : Type 0) : Type 0 where
  pub snapshot : SnapshotOutcome Bytes
  pub restore : Option Bytes → RestoreOutcome

-- module.ProjectLifecycle; a callback returns or panics.
pub record ProjectLifecycle : Type 0 where
  pub on_session_connect : String → Outcome
  pub on_session_disconnect : String → Outcome

-- module.ProjectRemovalAware
pub record ProjectRemovalAware : Type 0 where
  pub on_project_removed : String → Outcome

-- module.EngramModule with the capabilities that its dynamic type implements.
pub record EngramModule (Bytes : Type 0) : Type 0 where
  pub name : String
  pub init : ModuleDeps → Outcome
  pub shutdown : Outcome
  pub snapshotter : Option (Snapshotter Bytes)
  pub lifecycle : Option ProjectLifecycle
  pub removal_aware : Option ProjectRemovalAware
  pub tool_provider : Option ToolProvider
  pub proxy_tool_provider : Option ProxyToolProvider
