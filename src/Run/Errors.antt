-- ===== src/Run/Errors.antt =====
-- crates/run/src/error.rs: the errors of a run. The errors of providers, of the store and of JSON
-- are held as the messages that they print.
use helixflow.Base.{String, Result}
use helixflow.Graph.Types.{GraphError}

pub data RunError : Type 0 where
  graph : GraphError → RunError
  provider : (message : String) → RunError
  store : (message : String) → RunError
  json : (message : String) → RunError
  artifact_persistence : (message : String) → RunError
  invalid_configuration : (message : String) → RunError
  invalid_run_status : (run_id expected actual : String) → RunError
  invalid_sweep_plan : (message : String) → RunError
  resolution_failed : (node_id code message : String) → RunError
  mixed_cost_currency : (expected actual : String) → RunError
  interrupted : (message : String) → RunError
  no_executable_steps : RunError
  missing_input : (node_id port : String) → RunError
  missing_param : (node_id param : String) → RunError
  run_not_active : (run_id : String) → RunError
  run_claim_contention : (run_id : String) → RunError
  workspace_busy : (workspace_id active_run_id : String) → RunError
  unsupported_builtin : (node_type : String) → RunError
  task_join : (message : String) → RunError

abbrev pub RunResult : Type 0 → Type 0
RunResult A = Result A RunError
