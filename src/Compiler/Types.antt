-- ===== src/Compiler/Types.antt =====
-- crates/compiler/src/intent.rs and errors.rs: intents, the compiler's errors and the handoff to
-- the user.
use helixflow.Base.{String, List, Option}
use helixflow.Json.{Value}
use helixflow.Registry.Types.{RegistryError}
use helixflow.Registry.Resolver.{ResolveError, error_code}
use helixflow.Graph.Semantics
use helixflow.Graph.Semantics.{SemanticsError}

pub data TopologyIntent : Type 0 where
  linear parallel : TopologyIntent

pub record StageInputRef : Type 0 where
  pub stage_id : String
  pub output : String

pub record StageIntent : Type 0 where
  pub stage_id : String
  pub capability_id : String
  pub requested_model : Option String
  pub input_from : List StageInputRef
  pub params : Value

pub record IntentPlan : Type 0 where
  pub intent_version : String
  pub topology : TopologyIntent
  pub stages : List StageIntent
  pub output_stage_ids : List String
  pub assumptions : List String

-- What `GraphInvalid` carries: a code, and the message of one of these errors.
pub data GraphFault : Type 0 where
  no_definition : (cause : RegistryError) → GraphFault
  invalid_semantics : (cause : SemanticsError) → GraphFault

pub data CompileError : Type 0 where
  intent_invalid : (reason : String) → CompileError
  topology : (reason : String) → CompileError
  resolve : (cause : ResolveError) → CompileError
  port_type_mismatch : (stage_id from_stage output reason : String) → CompileError
  unmapped_capability : (capability_id : String) → CompileError
  graph_invalid : (fault : GraphFault) → CompileError

-- The code with which the builder makes a `GraphInvalid`.
abbrev fault_code : GraphFault → String
fault_code (no_definition cause) = "CAPABILITY_NOT_FOUND"
fault_code (invalid_semantics cause) = Semantics.code cause

-- `CompileError::code`
unfoldable pub compile_code : CompileError → String
unfolding error_code Semantics.code
compile_code (intent_invalid reason) = "INTENT_INVALID"
compile_code (topology reason) = "TOPOLOGY_CONFLICT"
compile_code (resolve cause) = error_code cause
compile_code (port_type_mismatch stage_id from_stage output reason) = "PORT_TYPE_MISMATCH"
compile_code (unmapped_capability capability_id) = "CAPABILITY_NOT_FOUND"
compile_code (graph_invalid fault) = fault_code fault

pub record ClarifyFirst : Type 0 where
  pub route : String
  pub reason_code : String
  pub missing_fields : List String
  pub safe_context : Value
  pub next_action : String

-- `ClarifyFirst::new`
unfoldable pub clarify_first : String → List String → Value → String → ClarifyFirst
clarify_first reason_code missing_fields safe_context next_action = record {
  route = "clarify_first";
  reason_code = reason_code;
  missing_fields = missing_fields;
  safe_context = safe_context;
  next_action = next_action;
}
