-- ===== src/Graph/Topology/Setup.antt =====
-- The maps that `topological_order` of crates/graph/src/lib.rs starts from.
use helixflow.Base.{
  ℕ, ◌+◌, String, Bool, true, false, Option, none, some, List, [], ◌∷◌, ◌++◌, ◌≡◌, refl, sym, ◌∙◌,
  ap, arith, if◌then◌else◌, ◌==◌, before, same, before, Bool-cases, Option-cases, map-All, inl, inr,
  ok, all, All,
}
use helixflow.Base.Assoc
use helixflow.Base.Assoc.{
  BTreeMap, lookup, lookup-insert, items, keys, lookup-push, lookup-same, is_some-lookup,
  keys-insert,
}
use helixflow.Base.Keys.{member, sorted, not-member_of_before, member-same, member-insert}
use helixflow.Graph.Types.{GraphEdge, GraphNode}
use helixflow.Graph.Topology.{Maps, count_edges, no_incoming, initially_ready}
use helixflow.Graph.Topology.Counting.{pending, targets}
use mathlib.Core.List.{append_assoc, append-nil}

pub keys-no_incoming : (m : BTreeMap GraphNode) → keys (no_incoming m) ≡ keys m
unfolding no_incoming
keys-no_incoming [] = refl
keys-no_incoming ((k, node) ∷ m) = ap (λ r. k ∷ r) (keys-no_incoming m)

pub lookup-no_incoming :
    (v : String) (m : BTreeMap GraphNode)
    → lookup v (no_incoming m) ≡ (if member v (keys m) then some 0 else none)
unfolding no_incoming Assoc.lookup
lookup-no_incoming v [] = refl
lookup-no_incoming v ((k, node) ∷ m) = ground (arith, lookup-no_incoming v m)

-- Every edge ends in a node.
abbrev pub EndsIn : List String → List GraphEdge → Type 0
EndsIn nodes = All (λ e. member e.to.0 nodes ≡ true)

-- The maps while the edges are counted: what the edges so far have added.
pub record IsTallied (nodes : List String) (es : List GraphEdge) (start : Maps) (maps : Maps)
    : Type 0 where
  pub counts :
      (v : String) (n : ℕ)
      → lookup v start.0 ≡ some n
      → lookup v maps.0 ≡ some (n + pending es [] v)
  pub out : (u : String) → items (lookup u maps.1) ≡ items (lookup u start.1) ++ targets es u
  pub same_keys : (v : String) → lookup v start.0 ≡ none → lookup v maps.0 ≡ none
  pub in_order : sorted (keys start.0) ≡ true → sorted (keys maps.0) ≡ true

module _ (nodes : List String) where
  abbrev Covers : BTreeMap ℕ → Type 0
  Covers incoming = (v : String) → member v nodes ≡ true → (n : ℕ) × (lookup v incoming ≡ some n)

  Covers-insert : (k : String) (n : ℕ) (m : BTreeMap ℕ) → Covers m → Covers (Assoc.insert k n m)
  Covers-insert k n m c v h = elim (Bool-cases (same v k)) [
    | inl s ↦ (n, rw (lookup-insert v k n m, s))
    | inr s ↦ let (i, e) = c v h in (i, rw (lookup-insert v k n m, s) e)
  ]

  -- The loop over the edges succeeds where every edge ends in a node.
  pub count_edges-IsTallied :
      (es : List GraphEdge) (incoming : BTreeMap ℕ) (outgoing : BTreeMap (List String))
      → Covers incoming
      → EndsIn nodes es
      → (maps : Maps) × (count_edges es incoming outgoing ≡ ok maps)
        × IsTallied nodes es (incoming, outgoing) maps
  unfolding count_edges pending targets
  count_edges-IsTallied [] incoming outgoing c h = (
    (incoming, outgoing),
    refl,
    record {
      counts = λ v n e. ground arith;
      out = λ u. sym (append-nil (items (lookup u outgoing)));
      same_keys = λ v e. e;
      in_order = λ s. s;
    },
  )
  count_edges-IsTallied (e ∷ es) incoming outgoing c h =
      let (count, found) = c e.to.0 h.0 in
      let incoming' = Assoc.insert e.to.0 (count + 1) incoming in
      let outgoing' = Assoc.push e.from.0 e.to.0 outgoing in
      let (maps, run, t) =
        count_edges-IsTallied es incoming' outgoing' (Covers-insert e.to.0 (count + 1) incoming c)
          h.1 in
      (
        maps,
        rw found run,
        record {
          counts = λ v n start. elim (Bool-cases (same v e.to.0)) [
            | inl s ↦
                let added : lookup v incoming' ≡ some (count + 1) =
                  rw (lookup-insert v e.to.0 (count + 1) incoming, s) in
                ground (arith, t.counts v (count + 1) added, lookup-same v e.to.0 incoming s)
            | inr s ↦
                let kept : lookup v incoming' ≡ some n =
                  rw (lookup-insert v e.to.0 (count + 1) incoming, s) start in
                ground (arith, t.counts v n kept)
          ];
          out = λ u.
              t.out u
              ∙ rw (lookup-push u e.from.0 e.to.0 outgoing)
                  (append_assoc (items (lookup u outgoing)) _ _);
          same_keys = λ v start. t.same_keys v (
              ground (
                arith,
                lookup-insert v e.to.0 (count + 1) incoming,
                lookup-same v e.to.0 incoming,
              ));
          in_order = λ s. t.in_order (Assoc.insert-keys-sorted e.to.0 (count + 1) incoming s);
        },
      )

initially_ready-all :
    (p : String → Bool) (m : BTreeMap ℕ) → all p (keys m) ≡ true → all p (initially_ready m) ≡ true
unfolding initially_ready
initially_ready-all p [] h = refl
initially_ready-all p ((k, n) ∷ m) h = ground (arith, initially_ready-all p m)

pub initially_ready-sorted :
    (m : BTreeMap ℕ) → sorted (keys m) ≡ true → sorted (initially_ready m) ≡ true
unfolding initially_ready
initially_ready-sorted [] h = refl
initially_ready-sorted ((k, n) ∷ m) h =
    ground (arith, initially_ready-all (before k) m, initially_ready-sorted m)

abbrev pub is_zero : Option ℕ → Bool
is_zero none = false
is_zero (some n) = n == 0

pub member-initially_ready :
    (v : String) (m : BTreeMap ℕ)
    → sorted (keys m) ≡ true
    → member v (initially_ready m) ≡ is_zero (lookup v m)
unfolding initially_ready Assoc.lookup
member-initially_ready v [] h = refl
member-initially_ready v ((k, n) ∷ m) h = elim (Bool-cases (same v k)) [
  | inl s ↦ rw s (
      ground (
        arith,
        member-same v k (initially_ready m),
        not-member_of_before k (initially_ready m),
        initially_ready-all (before k) m,
      ))
  | inr s ↦ ground (arith, member-initially_ready v m)
]

-- Where the loop over the edges succeeds, every edge ends in a node.
pub count_edges_ends :
    (es : List GraphEdge) (incoming : BTreeMap ℕ) (outgoing : BTreeMap (List String)) {maps : Maps}
    → count_edges es incoming outgoing ≡ ok maps
    → EndsIn (keys incoming) es
unfolding count_edges
count_edges_ends [] incoming outgoing h = tt
count_edges_ends (e ∷ es) incoming outgoing h = elim (Option-cases (lookup e.to.0 incoming)) [
  | inl none_found ↦ cc (rw (none_found, count_edges) at h)
  | inr (count, found) ↦
      let here : member e.to.0 (keys incoming) ≡ true =
        ground (arith, is_some-lookup e.to.0 incoming) in
      (
        here,
        map-All
            (λ d m. ground (
              arith,
              member-same d.to.0 e.to.0 (keys incoming),
              member-insert d.to.0 e.to.0 (keys incoming),
              rw (keys-insert e.to.0 (count + 1) incoming) at m,
            ))
            es
            (count_edges_ends es (Assoc.insert e.to.0 (count + 1) incoming)
              (Assoc.push e.from.0 e.to.0 outgoing) (rw (found, count_edges) at h)),
      )
]
