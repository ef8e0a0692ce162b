-- ===== src/Quantum/Consistency.antt =====
-- `validate_topology_consistency` (crates/quantum-validation/src/validation.rs). Each message is a
-- constructor with the values that its text shows.
use mathlib.Core.List.{map-append}
use quip_validator.Prelude.{
  ℕ, suc, ◌==◌, ◌≡◌, refl, arith, Bool, false, ◌||◌, not, if◌then◌else◌, List, [], ◌∷◌, ◌++◌, map,
  length, contains, Option, none, some, is_some, ok, Bool-cases, inl, inr,
}
use quip_validator.Prelude.Int.{ℤ, ◌==ℤ◌}
use quip_validator.Quantum.Topology.{
  TopologyIndex, lookup_position, index_nodes, insert_position-fresh, check_edges, new_index,
}

pub data ConsistencyError : Type 0 where
  duplicate_node_id : ℕ → ConsistencyError
  wrong_h_count wrong_j_count : ℕ → ℕ → ConsistencyError
  invalid_h : ℕ → ℤ → List ℤ → ConsistencyError
  invalid_edge : ℕ → ℕ → ConsistencyError
  invalid_j : ℕ → ℕ → ℤ → List ℤ → ConsistencyError

unfoldable pub allows : ℤ → List ℤ → Bool
allows v [] = false
allows v (x ∷ xs) = x ==ℤ v || allows v xs

-- The loop that fills `known_nodes`: the set, and the messages.
unfoldable pub duplicate_errors : List ℕ → List ℕ → List ℕ × List ConsistencyError
duplicate_errors known [] = (known, [])
duplicate_errors known (n ∷ ns) =
    let again = duplicate_errors known ns in
    let (known', errors) = duplicate_errors (known ++ n ∷ []) ns in
    if contains n known then (again.0, duplicate_node_id n ∷ again.1) else (known', errors)

unfoldable pub field_errors : List ℤ → List ℕ → List ℤ → List ConsistencyError
field_errors allowed [] h = []
field_errors allowed (n ∷ ns) [] = []
field_errors allowed (n ∷ ns) (v ∷ h) =
    (if allows v allowed then [] else invalid_h n v allowed ∷ []) ++ field_errors allowed ns h

unfoldable pub coupling_error : Option (List ℤ) → ℕ × ℕ → Option ℤ → List ConsistencyError
coupling_error (some allowed) (u, v) (some value) =
    if allows value allowed then [] else invalid_j u v value allowed ∷ []
coupling_error _ _ _ = []

abbrev pub first? : List ℤ → Option ℤ
first? [] = none
first? (x ∷ xs) = some x

abbrev pub rest_of : List ℤ → List ℤ
rest_of [] = []
rest_of (x ∷ xs) = xs

-- The loop over the edges; the list of couplings is walked along, and may be too short.
unfoldable pub edge_errors :
    List ℕ → Option (List ℤ) → List (ℕ × ℕ) → List ℤ → List ConsistencyError
edge_errors known allowed [] j = []
edge_errors known allowed ((u, v) ∷ es) j =
    (if not (contains u known) || not (contains v known) then invalid_edge u v ∷ [] else [])
    ++ (coupling_error allowed (u, v) (first? j) ++ edge_errors known allowed es (rest_of j))

abbrev pub allowed_fields : Option (List ℤ) → List ℕ → List ℤ → List ConsistencyError
allowed_fields none nodes h = []
allowed_fields (some allowed) nodes h = field_errors allowed nodes h

unfoldable pub validate_topology_consistency :
    List ℕ
    → List (ℕ × ℕ)
    → List ℤ
    → List ℤ
    → Option (List ℤ)
    → Option (List ℤ)
    → List ConsistencyError
unfolding duplicate_errors
validate_topology_consistency nodes edges h j allowed_h allowed_j =
    let (known, duplicates) = duplicate_errors [] nodes in
    duplicates
    ++ ((if length h == length nodes then [] else wrong_h_count (length h) (length nodes) ∷ [])
        ++ ((if length j == length edges then [] else wrong_j_count (length j) (length edges) ∷ [])
            ++ (allowed_fields allowed_h nodes h ++ edge_errors known allowed_j edges j)))

abbrev keys : List (ℕ × ℕ) → List ℕ
keys = map (λ e. e.0)

lookup-keys : (k : ℕ) (ps : List (ℕ × ℕ)) → is_some (lookup_position k ps) ≡ contains k (keys ps)
unfolding lookup_position
lookup-keys k [] = refl
lookup-keys k (p ∷ ps) = ground (arith, lookup-keys k ps)

append-eq-nil : {A : Type 0} (xs ys : List A) → xs ++ ys ≡ [] → (xs ≡ []) × (ys ≡ [])
append-eq-nil [] ys h = (refl, h)
append-eq-nil (x ∷ xs) ys h = absurd (cc)

-- Without a duplicate the index is built, and its keys are the set of known nodes.
index_nodes-known :
    (at : ℕ) (acc : List (ℕ × ℕ)) (nodes : List ℕ)
    → (duplicate_errors (keys acc) nodes).1 ≡ []
    → (ps : List (ℕ × ℕ)) × (index_nodes at acc nodes ≡ ok ps)
      × (keys ps ≡ (duplicate_errors (keys acc) nodes).0)
unfolding duplicate_errors index_nodes
index_nodes-known at acc [] h = (acc, refl, refl)
index_nodes-known at acc (n ∷ ns) h = elim (Bool-cases (contains n (keys acc))) [
  | inl old ↦ absurd (cc (rw old at h))
  | inr new ↦
      let grown : keys (acc ++ (n, at) ∷ []) ≡ keys acc ++ n ∷ [] =
        map-append _ acc ((n, at) ∷ []) in
      rw
        (
          lookup-keys n acc,
          new,
          insert_position-fresh n at acc (rw (lookup-keys n acc) new),
          ← grown,
        )
        (index_nodes-known (suc at) (acc ++ (n, at) ∷ []) ns (rw grown (rw new at h)))
]

edges-known :
    (ps : List (ℕ × ℕ)) (edges : List (ℕ × ℕ)) (j : List ℤ)
    → edge_errors (keys ps) none edges j ≡ []
    → check_edges ps edges ≡ ok tt
unfolding edge_errors check_edges coupling_error
edges-known ps [] j h = refl
edges-known ps (e ∷ es) j h =
    let rest = edges-known ps es (rest_of j) in
    rw (lookup-keys e.0 ps, lookup-keys e.1 ps) (ground (arith, rest))

-- Parameters that pass the check of a proposal have the lengths of their topology, and the index that
-- a submission builds from them is built.
pub validate_topology_consistency_sound :
    (nodes : List ℕ) (edges : List (ℕ × ℕ)) (h j : List ℤ)
    → validate_topology_consistency nodes edges h j none none ≡ []
    → (length h ≡ length nodes)
      × (length j ≡ length edges)
      × (t : TopologyIndex) × (new_index nodes edges ≡ ok t)
unfolding validate_topology_consistency new_index
validate_topology_consistency_sound nodes edges h j e =
    let (unique, rest) = append-eq-nil (duplicate_errors [] nodes).1 _ e in
    let (fields, rest') =
      append-eq-nil
        (if length h == length nodes then [] else wrong_h_count (length h) (length nodes) ∷ []) _
        rest in
    let (couplings, edges_ok) =
      append-eq-nil
        (if length j == length edges then [] else wrong_j_count (length j) (length edges) ∷ []) _
        rest' in
    let (ps, built, known) = index_nodes-known 0 [] nodes unique in
    let checked : check_edges ps edges ≡ ok tt = edges-known ps edges j (rw known edges_ok) in
    (ground arith, ground arith, record { positions = ps }, rw (built, checked))
