-- ===== src/Graph/LineageLaws.antt =====
-- The edge that `spawn_derived` of crates/graph/src/semantics.rs adds.
use helixflow.Base.{
  true, false, not, some, List, [], ◌∷◌, ◌≡◌, ◌⊎◌, inl, inr, refl, sym, ap, ◌∙◌, same, same_refl,
  find, find-mem, find-some, retain, retain-mem, Bool-cases, Option-cases,
}
use mathlib.Core.List.{Memᴰ}
use helixflow.Registry.Types.{
  PortDefinition, PortType, NodeDefinition, same_port_type, same_port_type_iff,
}
use helixflow.Graph.Types.{port_type_label}
use helixflow.Graph.Lineage.{
  LineagePorts, lineage_ports, first_execution, first_port, reference_output, join_reference,
  is_media_ref, matching_connection_ports,
}
use helixflow.Graph.Validation.{is_reference_input, edge_type_matches, types_agree}

-- Two ports that an edge of a lineage joins.
pub record Joined (source target : NodeDefinition) (ports : LineagePorts) : Type 0 where
  pub output : PortDefinition
  pub input : PortDefinition
  pub is_output : Memᴰ output source.outputs
  pub is_input : Memᴰ input target.inputs
  pub is_ports : ports ≡ lineage_ports output input.name
  pub fits : (same_port_type input.port_type output.port_type ≡ true) ⊎ (is_media_ref input ≡ true)

first_execution-mem :
    (outputs inputs : List PortDefinition) (o i : PortDefinition)
    → first_execution outputs inputs ≡ some (o, i)
    → Memᴰ o outputs × Memᴰ i inputs × (same_port_type i.port_type o.port_type ≡ true)
unfolding first_execution
first_execution-mem [] inputs o i h = cc
first_execution-mem (x ∷ xs) inputs o i h =
    elim (Option-cases (find (λ p. same_port_type p.port_type x.port_type) inputs)) [
      | inl none_there ↦
          let (m, n, t) =
            first_execution-mem xs inputs o i (rw (none_there, first_execution) at h) in
          (Memᴰ.tail m, n, t)
      | inr (y, there) ↦
          let found : some (x, y) ≡ some (o, i) = rw (there, first_execution) at h in
          let is_o : x ≡ o = cc in
          let is_i : y ≡ i = cc in
          (
            Memᴰ.head (sym is_o),
            find-mem (λ p. same_port_type p.port_type x.port_type) inputs (there ∙ ap some is_i),
            ap (λ z. same_port_type i.port_type z.port_type) (sym is_o)
                ∙ find-some (λ p. same_port_type p.port_type x.port_type) inputs
                    (there ∙ ap some is_i),
          )
    ]

reference_output-mem :
    (outputs : List PortDefinition) (r o : PortDefinition)
    → reference_output outputs r ≡ some o
    → Memᴰ o outputs
unfolding reference_output
reference_output-mem outputs r o h =
    elim (Option-cases (find (λ o. same_port_type r.port_type o.port_type) outputs)) [
      | inl none_there ↦ of_first outputs (rw (none_there, reference_output) at h)
      | inr (y, there) ↦
          find-mem (λ o. same_port_type r.port_type o.port_type) outputs
            (there ∙ rw (there, reference_output) at h)
    ]
  where
    of_first : (os : List PortDefinition) → first_port os ≡ some o → Memᴰ o os
    of_first [] e = cc
    of_first (x ∷ xs) e = let is_o : x ≡ o = cc in Memᴰ.head (sym is_o)

join_reference-Joined :
    (source target : NodeDefinition) (ports : LineagePorts)
    → join_reference source.outputs (find (λ i. is_media_ref i) target.inputs) ≡ some ports
    → Joined source target ports
unfolding join_reference
join_reference-Joined source target ports h =
    elim (Option-cases (find (λ i. is_media_ref i) target.inputs)) [
      | inl none_there ↦ cc (rw (none_there, join_reference) at h)
      | inr (r, there) ↦ elim (Option-cases (reference_output source.outputs r)) [
        | inl no_output ↦ cc (rw (there, join_reference, no_output) at h)
        | inr (o, found) ↦
            let made : some (lineage_ports o r.name) ≡ some ports =
              rw (there, join_reference, found) at h in
            let is_ports : lineage_ports o r.name ≡ ports = cc in
            record {
              output = o;
              input = r;
              is_output = reference_output-mem source.outputs r o found;
              is_input = find-mem (λ i. is_media_ref i) target.inputs there;
              is_ports = sym is_ports;
              fits = inr (find-some (λ i. is_media_ref i) target.inputs there);
            }
      ]
    ]

matching_connection_ports-Joined :
    (source target : NodeDefinition) (ports : LineagePorts)
    → matching_connection_ports source target ≡ some ports
    → Joined source target ports
unfolding matching_connection_ports
matching_connection_ports-Joined source target ports h =
    let others = retain (λ i. not (is_media_ref i)) target.inputs in
    elim (Option-cases (first_execution source.outputs others)) [
      | inl none_there ↦
          join_reference-Joined source target ports
            (rw (none_there, matching_connection_ports) at h)
      | inr ((o, i), found) ↦
          let made : some (lineage_ports o i.name) ≡ some ports =
            rw (found, matching_connection_ports) at h in
          let is_ports : lineage_ports o i.name ≡ ports = cc in
          let (m, n, t) = first_execution-mem source.outputs others o i found in
          record {
            output = o;
            input = i;
            is_output = m;
            is_input = (retain-mem (λ i. not (is_media_ref i)) target.inputs n).0;
            is_ports = sym is_ports;
            fits = inl t;
          }
    ]

-- A definition takes references at its port `in`, which is optional and takes many edges.
abbrev pub HasReferencePort : NodeDefinition → Type 0
HasReferencePort d =
    (p : PortDefinition) → Memᴰ p d.inputs → is_media_ref p ≡ true → is_reference_input p ≡ true

not_artifact : (t : PortType) → same (port_type_label t) "artifact" ≡ false
unfolding port_type_label same
not_artifact PortType.text = refl
not_artifact PortType.image = refl
not_artifact PortType.video = refl
not_artifact PortType.audio = refl
not_artifact PortType.mask = refl
not_artifact PortType.json = refl

types_agree_of :
    (o i : PortDefinition)
    → (is_reference_input i ≡ true) ⊎ (same_port_type i.port_type o.port_type ≡ true)
    → types_agree o i (port_type_label o.port_type) ≡ true
unfolding types_agree edge_type_matches
types_agree_of o i (inl r) = rw r (same_refl (port_type_label o.port_type))
types_agree_of o i (inr t) = elim (Bool-cases (is_reference_input i)) [
  | inl r ↦ rw r (same_refl (port_type_label o.port_type))
  | inr n ↦
      let t' =
        (same_port_type_iff o.port_type i.port_type).1
          (sym ((same_port_type_iff i.port_type o.port_type).0 t)) in
      rw (n, not_artifact o.port_type, t', same_refl (port_type_label o.port_type)) refl
]

-- The ports that a derived node is joined by are an output of its source and an input of the node,
-- and the validation's type test accepts the edge between them, where the node takes references at
-- an optional port with many edges.
pub matching_connection_ports-types_agree :
    (source target : NodeDefinition) (ports : LineagePorts)
    → HasReferencePort target
    → matching_connection_ports source target ≡ some ports
    → (output : PortDefinition) × (input : PortDefinition) × Memᴰ output source.outputs
      × Memᴰ input target.inputs
      × (ports.source_port ≡ output.name)
      × (ports.target_port ≡ input.name)
      × (types_agree output input ports.edge_type ≡ true)
unfolding lineage_ports
matching_connection_ports-types_agree source target ports takes h =
    let j = matching_connection_ports-Joined source target ports h in
    (
      j.output,
      j.input,
      j.is_output,
      j.is_input,
      ap (λ p. p.source_port) j.is_ports,
      ap (λ p. p.target_port) j.is_ports,
      ap (λ p. types_agree j.output j.input p.edge_type) j.is_ports
          ∙ types_agree_of j.output j.input
              (elim j.fits [ inl t ↦ inr t | inr r ↦ inl (takes j.input j.is_input r) ]),
    )
