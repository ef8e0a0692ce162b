-- ===== src/Quantum/Topology/Numbering.antt =====
-- What an index numbers (crates/quantum-validation/src/validation.rs, `TopologyIndex`).
use quip_validator.Prelude.{
  ℕ, suc, ◌==◌, ◌≡◌, refl, ap, ◌∙◌, sym, arith, Bool, true, false, if◌then◌else◌, List, [], ◌∷◌,
  ◌++◌, length, contains, AreDistinct, Option, none, some, is_some, ok, All,
}
use quip_validator.Quantum.Topology.{
  TopologyIndex, lookup_position, index_nodes, index_nodes-step, new_index, new_index-parts,
  new_index-known, len, position, EdgesKnown,
}

-- The place of the first occurrence of `node` in the list, whose first place is `at`.
unfoldable pub place_from : ℕ → ℕ → List ℕ → Option ℕ
place_from at node [] = none
place_from at node (n ∷ ns) = if n == node then some at else place_from (suc at) node ns

abbrev or_else : Option ℕ → Option ℕ → Option ℕ
or_else none b = b
or_else (some a) b = some a

lookup_position-append :
    (k n p : ℕ) (ps : List (ℕ × ℕ))
    → lookup_position k (ps ++ (n, p) ∷ [])
      ≡ or_else (lookup_position k ps) (if n == k then some p else none)
unfolding lookup_position
lookup_position-append k n p [] = refl
lookup_position-append k n p (x ∷ ps) =
    let rest = lookup_position-append k n p ps in ground (arith, rest)

or_else-if :
    (a : Option ℕ) (b : Bool) (at : ℕ) (c : Option ℕ)
    → or_else (or_else a (if b then some at else none)) c ≡ or_else a (if b then some at else c)
or_else-if none true at c = refl
or_else-if none false at c = refl
or_else-if (some a) b at c = refl

index_nodes-place :
    (k at : ℕ) (acc : List (ℕ × ℕ)) (nodes : List ℕ) {ps : List (ℕ × ℕ)}
    → index_nodes at acc nodes ≡ ok ps
    → lookup_position k ps ≡ or_else (lookup_position k acc) (place_from at k nodes)
unfolding place_from index_nodes
index_nodes-place k at acc [] {ps} h =
    let same : acc ≡ ps = cc in rw (← same) (or_else_none (lookup_position k acc))
  where
    or_else_none : (a : Option ℕ) → a ≡ or_else a none
    or_else_none none = refl
    or_else_none (some a) = refl
index_nodes-place k at acc (n ∷ ns) {ps} h =
    let rest =
      index_nodes-place k (suc at) (acc ++ (n, at) ∷ []) ns {ps = ps}
        (index_nodes-step at acc n ns h).1 in
    rest
    ∙ (ap (λ a. or_else a (place_from (suc at) k ns)) (lookup_position-append k n at acc)
        ∙ or_else-if (lookup_position k acc) (n == k) at (place_from (suc at) k ns))

-- The nodes are distinct, and none is among the keys from before.
index_nodes-distinct :
    (at : ℕ) (acc : List (ℕ × ℕ)) (nodes : List ℕ) {ps : List (ℕ × ℕ)}
    → index_nodes at acc nodes ≡ ok ps
    → AreDistinct nodes
      × ((k : ℕ) → is_some (lookup_position k acc) ≡ true → contains k nodes ≡ false)
index_nodes-distinct at acc [] h = (tt, λ k old. refl)
index_nodes-distinct at acc (n ∷ ns) {ps} h =
    let (new, rest) = index_nodes-step at acc n ns h in
    let (distinct, apart) = index_nodes-distinct (suc at) (acc ++ (n, at) ∷ []) ns {ps = ps} rest in
    (
      (apart n (added n n (lookup_position n acc) (lookup_position-append n n at acc)), distinct),
      λ k old.
          let later = apart k (let found = lookup_position-append k n at acc in kept k old found) in
          ground (arith, new, old, later),
    )
  where
    kept :
        (k : ℕ)
        → is_some (lookup_position k acc) ≡ true
        → lookup_position k (acc ++ (n, at) ∷ [])
          ≡ or_else (lookup_position k acc) (if n == k then some at else none)
        → is_some (lookup_position k (acc ++ (n, at) ∷ [])) ≡ true
    kept k old found = ground (arith, old, found)

    added :
        (k m : ℕ) (a : Option ℕ)
        → lookup_position n (acc ++ (n, at) ∷ []) ≡ or_else a (if n == n then some at else none)
        → is_some (lookup_position n (acc ++ (n, at) ∷ [])) ≡ true
    added k m a found = ground (arith, found)

pub place_from-contains :
    (at k : ℕ) (nodes : List ℕ) → is_some (place_from at k nodes) ≡ contains k nodes
unfolding place_from
place_from-contains at k [] = refl
place_from-contains at k (n ∷ ns) =
    let rest = place_from-contains (suc at) k ns in ground (arith, rest)

ends_listed :
    (t : TopologyIndex) (nodes : List ℕ) (edges : List (ℕ × ℕ))
    → ((k : ℕ) → position k t ≡ place_from 0 k nodes)
    → EdgesKnown t edges
    → All (λ e. (contains e.0 nodes ≡ true) × (contains e.1 nodes ≡ true)) edges
ends_listed t nodes [] place known = tt
ends_listed t nodes ((u, v) ∷ es) place (first, second, known) =
    ((listed u first, listed v second), ends_listed t nodes es place known)
  where
    listed : (k : ℕ) → is_some (position k t) ≡ true → contains k nodes ≡ true
    listed k h = sym (place_from-contains 0 k nodes) ∙ (ap is_some (sym (place k)) ∙ h)

-- An index that was built gives each node its place in the list of nodes, and nothing for any other
-- number; the nodes are distinct, the index has one entry for each, and both ends of every edge are
-- nodes.
pub new_index-numbers :
    (nodes : List ℕ) (edges : List (ℕ × ℕ)) {t : TopologyIndex}
    → new_index nodes edges ≡ ok t
    → ((k : ℕ) → position k t ≡ place_from 0 k nodes)
      × AreDistinct nodes
      × (len t ≡ length nodes)
      × All (λ e. (contains e.0 nodes ≡ true) × (contains e.1 nodes ≡ true)) edges
unfolding position lookup_position
new_index-numbers nodes edges {t} h =
    let (size, known) = new_index-known nodes edges h in
    let built = (new_index-parts nodes edges h).0 in
    let place : (k : ℕ) → position k t ≡ place_from 0 k nodes =
      λ k. index_nodes-place k 0 [] nodes built in
    (place, (index_nodes-distinct 0 [] nodes built).0, size, ends_listed t nodes edges place known)
