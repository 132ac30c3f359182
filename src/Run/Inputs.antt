-- ===== src/Run/Inputs.antt =====
-- crates/run/src/executor.rs: the inputs of a step, from the outputs of the steps that have finished.
use helixflow.Base.{
  ℕ, zero, suc, ◌/◌, ◌%◌, String, Option, none, some, List, [], ◌∷◌, ok, ok_or, ◌>>=◌, ltb,
  if◌then◌else◌, get_elem?, concat,
}
use helixflow.Base.Assoc
use helixflow.Base.Assoc.{BTreeMap}
use helixflow.Graph.Types.{Endpoint, same_endpoint}
use helixflow.Run.Errors.{RunResult, missing_input}

-- A reference of crates/gateway.
pub record ArtifactRef : Type 0 where
  pub artifact_id : String
  pub storage_uri : String

-- An output, and its artifact.
pub record StepOutput : Type 0 where
  pub port : String
  pub artifact : ArtifactRef

-- The outputs of the steps that have finished, with the last one inserted first.
abbrev pub OutputMap : Type 0
OutputMap = List (Endpoint × ArtifactRef)

abbrev pub get_output : Endpoint → OutputMap → Option ArtifactRef
get_output source [] = none
get_output source ((key, artifact) ∷ outputs) =
    if same_endpoint source key then some artifact else get_output source outputs

abbrev digit : Option String → String
digit none = ""
digit (some s) = s

abbrev digits : List String
digits = "0" ∷ "1" ∷ "2" ∷ "3" ∷ "4" ∷ "5" ∷ "6" ∷ "7" ∷ "8" ∷ "9" ∷ []

-- A number in decimal, by recursion on fuel, of which one more than the number is enough.
unfoldable pub show : ℕ → ℕ → String
show zero n = ""
show (suc fuel) n =
    let before = show fuel (n / 10) in
    concat ((if ltb n 10 then "" else before) ∷ digit (get_elem? digits (n % 10)) ∷ [])

abbrev pub input_key : String → ℕ → String
input_key port zero = port
input_key port (suc index) = concat (port ∷ "#" ∷ show (suc (suc index)) (suc index) ∷ [])

-- The loop over the sources of a port.
unfoldable pub resolve_port :
    OutputMap → String → ℕ → List Endpoint → BTreeMap ArtifactRef → RunResult (BTreeMap ArtifactRef)
unfolding same_endpoint Assoc.insert show
resolve_port outputs port index [] inputs = ok inputs
resolve_port outputs port index (source ∷ sources) inputs = do
  artifact ← ok_or (get_output source outputs) (missing_input source.0 source.1)
  resolve_port outputs port (suc index) sources
      (Assoc.insert (input_key port index) artifact inputs)

unfoldable pub resolve_ports :
    OutputMap
    → List (String × List Endpoint)
    → BTreeMap ArtifactRef
    → RunResult (BTreeMap ArtifactRef)
unfolding resolve_port
resolve_ports outputs [] inputs = ok inputs
resolve_ports outputs ((port, sources) ∷ ports) inputs = do
  inputs' ← resolve_port outputs port 0 sources inputs
  resolve_ports outputs ports inputs'

unfoldable pub resolve_inputs :
    BTreeMap (List Endpoint) → OutputMap → RunResult (BTreeMap ArtifactRef)
unfolding resolve_ports
resolve_inputs input_edges outputs = resolve_ports outputs input_edges []
