-- ===== src/Graph/Lineage.antt =====
-- crates/graph/src/semantics.rs: `matching_connection_ports`, the choice of the ports that join a
-- derived node to its source.
use helixflow.Base.{String, Bool, not, Option, none, some, List, [], ◌∷◌, same, find, retain}
use helixflow.Registry.Types.{PortDefinition, NodeDefinition, same_port_type}
use helixflow.Graph.Types.{port_type_label}

abbrev pub media_ref_port : String
media_ref_port = "in"

pub record LineagePorts : Type 0 where
  pub source_port : String
  pub target_port : String
  pub edge_type : String

unfoldable pub lineage_ports : PortDefinition → String → LineagePorts
unfolding port_type_label
lineage_ports output target_port = record {
  source_port = output.name;
  target_port = target_port;
  edge_type = port_type_label output.port_type;
}

-- The first loop: an output and an execution input of its type.
unfoldable pub first_execution :
    List PortDefinition → List PortDefinition → Option (PortDefinition × PortDefinition)
unfolding same_port_type
first_execution [] inputs = none
first_execution (output ∷ outputs) inputs =
    let rest = first_execution outputs inputs in
    elim (find (λ p. same_port_type p.port_type output.port_type) inputs) [
      | some input ↦ some (output, input)
      | none ↦ rest
    ]

abbrev pub first_port : List PortDefinition → Option PortDefinition
first_port [] = none
first_port (o ∷ os) = some o

-- The second loop, an output of the reference port's type, and what follows it: the first output.
unfoldable pub reference_output : List PortDefinition → PortDefinition → Option PortDefinition
unfolding same_port_type
reference_output outputs ref_port =
    elim (find (λ o. same_port_type ref_port.port_type o.port_type) outputs) [
      | some output ↦ some output
      | none ↦ first_port outputs
    ]

unfoldable pub join_reference : List PortDefinition → Option PortDefinition → Option LineagePorts
unfolding lineage_ports reference_output
join_reference outputs none = none
join_reference outputs (some ref_port) = elim (reference_output outputs ref_port) [
  | some output ↦ some (lineage_ports output ref_port.name)
  | none ↦ none
]

abbrev pub is_media_ref : PortDefinition → Bool
is_media_ref input = same input.name media_ref_port

unfoldable pub matching_connection_ports : NodeDefinition → NodeDefinition → Option LineagePorts
unfolding same lineage_ports first_execution join_reference
matching_connection_ports source target =
    elim (first_execution source.outputs (retain (λ i. not (is_media_ref i)) target.inputs)) [
      | some (output, input) ↦ some (lineage_ports output input.name)
      | none ↦ join_reference source.outputs (find (λ i. is_media_ref i) target.inputs)
    ]
