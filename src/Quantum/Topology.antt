-- ===== src/Quantum/Topology.antt =====
-- The node index of a topology (crates/quantum-validation/src/validation.rs). The `BTreeMap` is a list
-- of its entries, one for each key, in the order in which the keys were first inserted.
pub mod Numbering
use quip_validator.Prelude.{
  ℕ, suc, ◌+◌, ◌<◌, ◌==◌, ◌≡◌, refl, arith, true, false, Bool-cases, inl, inr, if◌then◌else◌, List,
  [], ◌∷◌, ◌++◌, length, length-append, Option, none, some, is_some, Result, ok, err, ◌>>=◌, ◌>>◌,
  ensure,
}
use quip_validator.Quantum.Errors.{ValidationError, duplicate_node, unknown_node_in_edge}

pub record TopologyIndex : Type 0 where
  pub positions : List (ℕ × ℕ)

unfoldable pub lookup_position : ℕ → List (ℕ × ℕ) → Option ℕ
lookup_position node [] = none
lookup_position node ((n, p) ∷ ps) = if n == node then some p else lookup_position node ps

-- `BTreeMap::insert`: the entry of a key that is there is overwritten.
unfoldable pub insert_position : ℕ → ℕ → List (ℕ × ℕ) → List (ℕ × ℕ)
insert_position node position [] = (node, position) ∷ []
insert_position node position ((n, p) ∷ ps) =
    if n == node then (n, position) ∷ ps else (n, p) ∷ insert_position node position ps

-- The loop over the nodes, from `position` on: an insertion that finds an old entry is the error.
unfoldable pub index_nodes : ℕ → List (ℕ × ℕ) → List ℕ → Result ValidationError (List (ℕ × ℕ))
unfolding lookup_position insert_position
index_nodes position acc [] = ok acc
index_nodes position acc (n ∷ ns) =
    let rest = index_nodes (suc position) (insert_position n position acc) ns in
    if is_some (lookup_position n acc) then err (duplicate_node n) else rest

unfoldable pub check_edges : List (ℕ × ℕ) → List (ℕ × ℕ) → Result ValidationError (Unit {0})
unfolding lookup_position
check_edges positions [] = ok tt
check_edges positions ((u, v) ∷ es) =
    ensure (is_some (lookup_position u positions)) (unknown_node_in_edge u)
    >> (ensure (is_some (lookup_position v positions)) (unknown_node_in_edge v)
        >> check_edges positions es)

-- `TopologyIndex::new`
unfoldable pub new_index : List ℕ → List (ℕ × ℕ) → Result ValidationError TopologyIndex
unfolding index_nodes check_edges
new_index nodes edges = index_nodes 0 [] nodes >>= λ positions.
    check_edges positions edges >> ok (record { positions = positions })

-- `TopologyIndex::len`
unfoldable pub len : TopologyIndex → ℕ
len t = length t.positions

unfoldable pub position : ℕ → TopologyIndex → Option ℕ
unfolding lookup_position
position node t = lookup_position node t.positions

-- Every position in the index is below `n`.
abbrev PositionsBelow : ℕ → List (ℕ × ℕ) → Type 0
PositionsBelow n [] = Unit
PositionsBelow n ((_, p) ∷ ps) = (p < n) × PositionsBelow n ps

-- A key that is not there is added at the end.
pub insert_position-fresh :
    (node p : ℕ) (ps : List (ℕ × ℕ))
    → is_some (lookup_position node ps) ≡ false
    → insert_position node p ps ≡ ps ++ (node, p) ∷ []
unfolding insert_position lookup_position
insert_position-fresh node p [] h = refl
insert_position-fresh node p (x ∷ ps) h =
    let rest = insert_position-fresh node p ps in ground (arith, h, rest)

-- A loop that goes on found no entry for its node, and added one at the end.
pub index_nodes-step :
    (at : ℕ) (acc : List (ℕ × ℕ)) (n : ℕ) (ns : List ℕ) {ps : List (ℕ × ℕ)}
    → index_nodes at acc (n ∷ ns) ≡ ok ps
    → (is_some (lookup_position n acc) ≡ false)
      × (index_nodes (suc at) (acc ++ (n, at) ∷ []) ns ≡ ok ps)
unfolding index_nodes
index_nodes-step at acc n ns h = elim (Bool-cases (is_some (lookup_position n acc))) [
  | inl old ↦ absurd (cc (rw old at h))
  | inr new ↦ (new, rw (← insert_position-fresh n at acc new) (rw new at h))
]

PositionsBelow-append :
    (n k : ℕ) (acc : List (ℕ × ℕ))
    → PositionsBelow n acc
    → PositionsBelow (suc n) (acc ++ (k, n) ∷ [])
PositionsBelow-append n k [] h = (omega arith, tt)
PositionsBelow-append n k (x ∷ acc) h = (omega arith, PositionsBelow-append n k acc h.1)

index_nodes-grows :
    (at total : ℕ) (acc : List (ℕ × ℕ)) (nodes : List ℕ) {ps : List (ℕ × ℕ)}
    → at + length nodes ≡ total
    → length acc ≡ at
    → PositionsBelow at acc
    → index_nodes at acc nodes ≡ ok ps
    → (length ps ≡ total) × PositionsBelow total ps
unfolding index_nodes
index_nodes-grows at total acc [] e l b h =
    let same : at ≡ total = omega arith in rw (← same) (ground arith)
index_nodes-grows at total acc (n ∷ ns) {ps} e l b h =
    let (new, rest) = index_nodes-step at acc n ns h in
    index_nodes-grows (suc at) total (acc ++ (n, at) ∷ []) ns {ps = ps} (omega (arith, e))
      (omega (arith, l, length-append acc ((n, at) ∷ []))) (PositionsBelow-append at n acc b) rest

lookup_position-lt :
    (n node : ℕ) (ps : List (ℕ × ℕ)) {p : ℕ}
    → PositionsBelow n ps
    → lookup_position node ps ≡ some p
    → p < n
unfolding lookup_position
lookup_position-lt n node [] b h = cc
lookup_position-lt n node (x ∷ ps) {p} b h =
    ground (arith, lookup_position-lt n node ps {p = p} b.1)

-- Every edge has both its ends in the index.
abbrev pub EdgesKnown : TopologyIndex → List (ℕ × ℕ) → Type 0
EdgesKnown t [] = Unit
EdgesKnown t ((u, v) ∷ es) =
    (is_some (position u t) ≡ true) × (is_some (position v t) ≡ true) × EdgesKnown t es

check_edges-known :
    (ps : List (ℕ × ℕ)) (edges : List (ℕ × ℕ))
    → check_edges ps edges ≡ ok tt
    → EdgesKnown (record { positions = ps }) edges
unfolding check_edges position
check_edges-known ps [] h = tt
check_edges-known ps (e ∷ es) h = ground (arith, check_edges-known ps es)

pub new_index-parts :
    (nodes : List ℕ) (edges : List (ℕ × ℕ)) {t : TopologyIndex}
    → new_index nodes edges ≡ ok t
    → (index_nodes 0 [] nodes ≡ ok t.positions) × (check_edges t.positions edges ≡ ok tt)
unfolding new_index
new_index-parts nodes edges h = ground arith

-- An index that was built has one entry for each node, and every edge has both its ends in it.
pub new_index-known :
    (nodes : List ℕ) (edges : List (ℕ × ℕ)) {t : TopologyIndex}
    → new_index nodes edges ≡ ok t
    → (len t ≡ length nodes) × EdgesKnown t edges
unfolding len
new_index-known nodes edges {t} h =
    let (built, known) = new_index-parts nodes edges h in
    (
      (index_nodes-grows 0 (length nodes) [] nodes (omega arith) refl tt built).0,
      check_edges-known t.positions edges known,
    )

-- A position that an index that was built gives for a node is below the number of nodes.
pub position-lt :
    (nodes : List ℕ) (edges : List (ℕ × ℕ)) {t : TopologyIndex} (node : ℕ) {p : ℕ}
    → new_index nodes edges ≡ ok t
    → position node t ≡ some p
    → p < length nodes
unfolding position
position-lt nodes edges {t} node h e =
    let (built, known) = new_index-parts nodes edges h in
    lookup_position-lt (length nodes) node t.positions
      (index_nodes-grows 0 (length nodes) [] nodes (omega arith) refl tt built).1 e
