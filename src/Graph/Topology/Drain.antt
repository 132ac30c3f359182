-- ===== src/Graph/Topology/Drain.antt =====
-- The outer loop of `topological_order` of crates/graph/src/lib.rs.
use helixflow.Base.{
  ℕ, zero, suc, ◌+◌, ◌<◌, String, true, false, ◌&&◌, List, [], ◌∷◌, ◌++◌, ◌≡◌, ◌⊎◌, refl, arith,
  if◌then◌else◌, same, same_sym, same_refl, same_iff, Bool-cases, inl, inr, ok, length,
  length-append, All,
}
use helixflow.Base.Assoc.{BTreeMap, lookup, items}
use helixflow.Base.Keys.{BTreeSet, member, distinct, member-same, not-member_of_before}
use helixflow.Graph.Types.{GraphEdge}
use helixflow.Graph.Topology.{drain}
use helixflow.Graph.Topology.Setup.{EndsIn}
use helixflow.Graph.Topology.Release.{IsCounted, release-IsCounted}
use helixflow.Graph.Topology.Counting.{
  pending, targets, occurrences, precedes, member-append, pending-snoc, distinct-snoc,
  precedes-snoc, precedes_last,
}

-- Each edge into an ordered node comes from a node that stands before it.
abbrev pub InOrder : List GraphEdge → List String → Type 0
InOrder es done = All (λ e. member e.to.0 done ≡ true → precedes e.from.0 e.to.0 done ≡ true) es

pub precedes-member :
    (u v : String) (xs : List String) → precedes u v xs ≡ true → member u xs ≡ true
unfolding precedes
precedes-member u v [] h = cc
precedes-member u v (x ∷ xs) h = ground (arith, precedes-member u v xs)

target_ends :
    (nodes : List String) (es : List GraphEdge) (u v : String)
    → EndsIn nodes es
    → member v (targets es u) ≡ true
    → member v nodes ≡ true
unfolding targets
target_ends nodes [] u v h m = cc
target_ends nodes (e ∷ es) u v h m = ground (
  arith,
  target_ends nodes es u v h.1,
  member-append v (if same u e.from.0 then e.to.0 ∷ [] else []) (targets es u),
  member-same v e.to.0 nodes,
  h.0,
)

target_order :
    (es : List GraphEdge) (done : List String) (u v : String)
    → InOrder es done
    → member v (targets es u) ≡ true
    → member v done ≡ true
    → precedes u v done ≡ true
unfolding targets
target_order [] done u v h m d = cc
target_order (e ∷ es) done u v h m d = elim (Bool-cases (same u e.from.0 && same v e.to.0)) [
  | inl s ↦
      rw ((same_iff u e.from.0).0 (ground arith), (same_iff v e.to.0).0 (ground arith))
        (h.0 (ground (arith, member-same v e.to.0 done)))
  | inr s ↦
      target_order es done u v h.1
        (ground
          (arith, member-append v (if same u e.from.0 then e.to.0 ∷ [] else []) (targets es u)))
        d
]

target_pending :
    (es : List GraphEdge) (done : List String) (u v : String)
    → member v (targets es u) ≡ true
    → member u done ≡ false
    → 0 < pending es done v
unfolding targets pending
target_pending [] done u v m n = cc
target_pending (e ∷ es) done u v m n = ground (
  arith,
  target_pending es done u v,
  member-same u e.from.0 done,
  member-append v (if same u e.from.0 then e.to.0 ∷ [] else []) (targets es u),
)

sources_done :
    (es : List GraphEdge) (done : List String) (v : String)
    → pending es done v ≡ 0
    → All (λ e. same v e.to.0 ≡ true → member e.from.0 done ≡ true) es
unfolding pending
sources_done [] done v h = tt
sources_done (e ∷ es) done v h = (λ s. ground arith, sources_done es done v (ground arith))

InOrder-snoc :
    (es : List GraphEdge) (done : List String) (id : String)
    → member id done ≡ false
    → All (λ e. same id e.to.0 ≡ true → member e.from.0 done ≡ true) es
    → InOrder es done
    → InOrder es (done ++ id ∷ [])
InOrder-snoc [] done id n f h = tt
InOrder-snoc (e ∷ es) done id n f h = (
  λ m. elim (Bool-cases (member e.to.0 done)) [
    | inl d ↦ precedes-snoc e.from.0 e.to.0 id done (h.0 d)
    | inr d ↦
        let s : same id e.to.0 ≡ true =
          ground (arith, member-append e.to.0 done (id ∷ []), same_sym id e.to.0) in
        rw ((same_iff id e.to.0).0 s) (precedes_last e.from.0 e.to.0 done (f.0 s) d)
  ],
  InOrder-snoc es done id n f.1 h.1,
)

-- What holds at the head of the loop.
pub record IsRunning (nodes : List String) (es : List GraphEdge) (incoming : BTreeMap ℕ)
    (ready : BTreeSet) (done : List String) : Type 0 where
  pub counted : IsCounted nodes es done [] incoming ready
  pub inside : (v : String) → member v done ≡ true → member v nodes ≡ true
  pub once : distinct done ≡ true
  pub in_order : InOrder es done

module _ (nodes : List String) (es : List GraphEdge) (ends : EndsIn nodes es) where
  pop-IsCounted :
      (incoming : BTreeMap ℕ) (id : String) (ready : BTreeSet) (done : List String)
      → IsRunning nodes es incoming (id ∷ ready) done
      → IsCounted nodes es (done ++ id ∷ []) (targets es id) incoming ready
  unfolding occurrences
  pop-IsCounted incoming id ready done r =
      let c = r.counted in
      let known = c.opens id in
      let new : member id done ≡ false = ground (arith, same_refl id) in
      record {
        counts = λ v. ground (arith, c.counts v, pending-snoc es done id v new);
        opens = λ v. ground (
          arith,
          c.opens v,
          member-append v done (id ∷ []),
          pending-snoc es done id v new,
          member-same v id ready,
          not-member_of_before id ready,
        );
        fresh = λ v m. (
          target_ends nodes es id v ends m,
          ground (
            arith,
            c.opens v,
            member-append v done (id ∷ []),
            target_pending es done id v m new,
            target_order es done id v r.in_order m,
            precedes-member id v done,
          ),
        );
        in_order = ground (arith, c.in_order);
      }

  pop-IsRunning :
      (incoming incoming' : BTreeMap ℕ) (id : String) (ready ready' : BTreeSet) (done : List String)
      → IsRunning nodes es incoming (id ∷ ready) done
      → IsCounted nodes es (done ++ id ∷ []) [] incoming' ready'
      → IsRunning nodes es incoming' ready' (done ++ id ∷ [])
  unfolding occurrences
  pop-IsRunning incoming incoming' id ready ready' done r c' =
      let known = r.counted.opens id in
      let new : member id done ≡ false = ground (arith, same_refl id) in
      record {
        counted = c';
        inside = λ v m. ground (
          arith,
          member-append v done (id ∷ []),
          r.inside v,
          member-same v id nodes,
          same_refl id,
        );
        once = distinct-snoc done id r.once new;
        in_order =
            InOrder-snoc es done id new (sources_done es done id (ground (arith, same_refl id)))
              r.in_order;
      }

  -- The loop does not fail; it stops with no node ready, or when the fuel is used up.
  pub drain-IsRunning :
      (fuel : ℕ) (outgoing : BTreeMap (List String)) (incoming : BTreeMap ℕ) (ready : BTreeSet)
      (done : List String)
      → ((u : String) → items (lookup u outgoing) ≡ targets es u)
      → IsRunning nodes es incoming ready done
      → (incoming' : BTreeMap ℕ) × (ready' : BTreeSet) × (ordered : List String) × (drain fuel
            outgoing incoming ready done
          ≡ ok (ready', ordered))
        × IsRunning nodes es incoming' ready' ordered
        × ((ready' ≡ []) ⊎ (length ordered ≡ length done + fuel))
  unfolding drain
  drain-IsRunning zero outgoing incoming [] done out r = (incoming, [], done, refl, r, inl refl)
  drain-IsRunning (suc fuel) outgoing incoming [] done out r =
      (incoming, [], done, refl, r, inl refl)
  drain-IsRunning zero outgoing incoming (id ∷ ready) done out r =
      (incoming, id ∷ ready, done, refl, r, inr (omega arith))
  drain-IsRunning (suc fuel) outgoing incoming (id ∷ ready) done out r =
      let (incoming', ready', run, c') =
        release-IsCounted nodes es (done ++ id ∷ []) (targets es id) incoming ready
          (pop-IsCounted incoming id ready done r) in
      let (last, rest, ordered, runs, r', stop) =
        drain-IsRunning fuel outgoing incoming' ready' (done ++ id ∷ []) out
          (pop-IsRunning incoming incoming' id ready ready' done r c') in
      (
        last,
        rest,
        ordered,
        rw (out id, run) runs,
        r',
        elim stop [ inl e ↦ inl e | inr e ↦ inr (omega (arith, e, length-append done (id ∷ []))) ],
      )
