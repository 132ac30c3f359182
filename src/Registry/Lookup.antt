-- ===== src/Registry/Lookup.antt =====
-- Lemmas about crates/registry/src/lib.rs: the registry holds each definition under its own type.
use helixflow.Base.{
  String, false, some, List, [], ◌∷◌, ok, ◌≡◌, sym, ap, ◌↔◌, ◌⊎◌, arith, inl, inr, Bool-cases, same,
  same_iff, same_refl, >>=-eq-ok, ◌∙◌,
}
use helixflow.Base.Assoc
use helixflow.Base.Assoc.{BTreeMap, lookup, lookup-insert, contains_key}
use helixflow.Registry.{NodeRegistry, collect, from_definitions, definition}
use helixflow.Registry.Types.{NodeDefinition}
use mathlib.Core.List.{Memᴰ}

-- A step of the loop that goes on found no earlier definition of the type.
collect_fresh :
    (acc : BTreeMap NodeDefinition) (d : NodeDefinition) (ds : List NodeDefinition)
    {m : BTreeMap NodeDefinition}
    → collect acc (d ∷ ds) ≡ ok m
    → (contains_key d.node_type acc ≡ false) × (collect (Assoc.insert d.node_type d acc) ds ≡ ok m)
unfolding collect
collect_fresh acc d ds h = ground arith

collect_keeps :
    (acc : BTreeMap NodeDefinition) (ds : List NodeDefinition) {m : BTreeMap NodeDefinition}
    (k : String) {d : NodeDefinition}
    → collect acc ds ≡ ok m
    → lookup k acc ≡ some d
    → lookup k m ≡ some d
unfolding collect
collect_keeps acc [] k h e = cc
collect_keeps acc (c ∷ ds) k h e =
    let (fresh, rest) = collect_fresh acc c ds h in
    collect_keeps (Assoc.insert c.node_type c acc) ds k rest
      (elim (Bool-cases (same k c.node_type)) [
        | inl s ↦ cc (rw (sym ((same_iff k c.node_type).0 s), e) at fresh)
        | inr s ↦ rw (lookup-insert k c.node_type c acc, s) e
      ])

collect_holds :
    (acc : BTreeMap NodeDefinition) (ds : List NodeDefinition) {m : BTreeMap NodeDefinition}
    (d : NodeDefinition)
    → collect acc ds ≡ ok m
    → Memᴰ d ds
    → lookup d.node_type m ≡ some d
collect_holds acc [] d h i = elim i [ ]
collect_holds acc (c ∷ ds) d h (Memᴰ.head e) =
    collect_keeps (Assoc.insert c.node_type c acc) ds d.node_type (collect_fresh acc c ds h).1
      (rw (lookup-insert d.node_type c.node_type c acc, e, same_refl c.node_type))
collect_holds acc (c ∷ ds) d h (Memᴰ.tail i) =
    collect_holds (Assoc.insert c.node_type c acc) ds d (collect_fresh acc c ds h).1 i

collect_only :
    (acc : BTreeMap NodeDefinition) (ds : List NodeDefinition) {m : BTreeMap NodeDefinition}
    (k : String) {d : NodeDefinition}
    → collect acc ds ≡ ok m
    → lookup k m ≡ some d
    → (lookup k acc ≡ some d) ⊎ Memᴰ d ds × (d.node_type ≡ k)
unfolding collect
collect_only acc [] k h e = inl (ground arith)
collect_only acc (c ∷ ds) k {d = d} h e =
    elim (collect_only (Assoc.insert c.node_type c acc) ds k (collect_fresh acc c ds h).1 e) [
      | inr (i, named) ↦ inr (Memᴰ.tail i, named)
      | inl old ↦ elim (Bool-cases (same k c.node_type)) [
        | inr s ↦ inl (rw (lookup-insert k c.node_type c acc, s) at old)
        | inl s ↦
            let found : c ≡ d = ground (arith, lookup-insert k c.node_type c acc) in
            inr (
              Memᴰ.head (sym found),
              ap (λ x. x.node_type) (sym found) ∙ sym ((same_iff k c.node_type).0 s),
            )
      ]
    ]

-- A registry that was built answers with a definition exactly when that definition was given
-- and has the type that was asked for.
pub definition-from_definitions :
    (ds : List NodeDefinition) (r : NodeRegistry) (k : String) (d : NodeDefinition)
    → from_definitions ds ≡ ok r
    → (definition r k ≡ ok d) ↔ (Memᴰ d ds × (d.node_type ≡ k))
unfolding definition from_definitions Assoc.lookup
definition-from_definitions ds r k d h =
    let (m, built, same_r) = >>=-eq-ok (collect [] ds) _ h in
    let held : r.definitions ≡ m = ground arith in
    (
      λ e.
          let found : lookup k m ≡ some d = ground arith in
          elim (collect_only [] ds k built found) [ inl old ↦ cc | inr found ↦ found ],
      λ (i, named). rw (held, sym named, collect_holds [] ds d built i),
    )
