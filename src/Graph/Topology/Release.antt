-- ===== src/Graph/Topology/Release.antt =====
-- The inner loop of `topological_order` of crates/graph/src/lib.rs.
use helixflow.Base.{
  ℕ, suc, ◌+◌, ◌-◌, String, true, false, not, ◌&&◌, none, some, List, [], ◌∷◌, ◌≡◌, refl, arith,
  if◌then◌else◌, ◌==◌, same, same_refl, same_iff, Bool-cases, inl, inr, ok,
}
use helixflow.Base.Assoc
use helixflow.Base.Assoc.{BTreeMap, lookup, lookup-insert}
use helixflow.Base.Keys
use helixflow.Base.Keys.{BTreeSet, member, sorted, member-insert, insert-sorted}
use helixflow.Graph.Types.{GraphEdge}
use helixflow.Graph.Topology.{release}
use helixflow.Graph.Topology.Counting.{pending, occurrences}

-- The state while the edges of the last node of `done` are taken off; those to `rest` are left.
pub record IsCounted (nodes : List String) (es : List GraphEdge) (done rest : List String)
    (incoming : BTreeMap ℕ) (ready : BTreeSet) : Type 0 where
  pub counts :
      (v : String)
      → lookup v incoming
        ≡ (if member v nodes then some (pending es done v + occurrences v rest) else none)
  pub opens :
      (v : String)
      → member v ready
        ≡ (member v nodes && not (member v done) && pending es done v + occurrences v rest == 0)
  pub fresh :
      (v : String) → member v rest ≡ true → (member v nodes ≡ true) × (member v done ≡ false)
  pub in_order : sorted ready ≡ true

module _ (nodes : List String) (es : List GraphEdge) (done : List String) where
  release_step :
      (next : String) (rest : List String) (incoming : BTreeMap ℕ) (ready : BTreeSet) (count : ℕ)
      → lookup next incoming ≡ some count
      → IsCounted nodes es done (next ∷ rest) incoming ready
      → IsCounted nodes es done rest
          (Assoc.insert next (count - 1) incoming)
          (if count - 1 == 0 then Keys.insert next ready else ready)
  unfolding occurrences
  release_step next rest incoming ready count e c =
      let (known, new) = c.fresh next (ground (arith, same_refl next)) in
      let many : count ≡ pending es done next + suc (occurrences next rest) =
        ground (arith, c.counts next, same_refl next) in
      record {
        counts = λ v. elim (Bool-cases (same v next)) [
          | inl s ↦
              rw (lookup-insert v next (count - 1) incoming, (same_iff v next).0 s)
                (ground (arith, same_refl next))
          | inr s ↦ ground (arith, lookup-insert v next (count - 1) incoming, c.counts v)
        ];
        opens = λ v. elim (Bool-cases (same v next)) [
          | inl s ↦
              rw ((same_iff v next).0 s)
                (ground (arith, same_refl next, member-insert next next ready, c.opens next))
          | inr s ↦ ground (arith, c.opens v, member-insert v next ready)
        ];
        fresh = λ v m. c.fresh v (ground arith);
        in_order = ground (arith, c.in_order, insert-sorted next ready);
      }

  -- The loop meets no missing endpoint, and ends with every edge taken off.
  pub release-IsCounted :
      (rest : List String) (incoming : BTreeMap ℕ) (ready : BTreeSet)
      → IsCounted nodes es done rest incoming ready
      → (incoming' : BTreeMap ℕ) × (ready' : BTreeSet) × (release rest incoming ready
          ≡ ok (incoming', ready'))
        × IsCounted nodes es done [] incoming' ready'
  unfolding release
  release-IsCounted [] incoming ready c = (incoming, ready, refl, c)
  release-IsCounted (next ∷ rest) incoming ready c =
      let known = (c.fresh next (ground (arith, same_refl next))).0 in
      let count = pending es done next + occurrences next (next ∷ rest) in
      let found : lookup next incoming ≡ some count = ground (arith, c.counts next) in
      let (incoming', ready', run, c') =
        release-IsCounted rest _ _ (release_step next rest incoming ready count found c) in
      (incoming', ready', rw found run, c')
