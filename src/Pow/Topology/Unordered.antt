-- ===== src/Pow/Topology/Unordered.antt =====
-- The identity of a topology does not depend on the order in which it is listed
-- (pallets/quantum-pow/src/topology.rs).
use mathlib.Core.List.{Perm}
use mathlib.Core.List.Perm
use mathlib.Core.Logic.{∥∥₁_elim}
use native.Mathlib.Nat.{ℕ_set}
use quip_validator.Prelude.{
  ℕ, ◌≡◌, refl, ap, ◌∙◌, arith, Bool, true, false, leb, if◌then◌else◌, List, [], ◌∷◌, map, sym,
  sort_by, IsOrder, sort_by-Permᴰ,
}
use quip_validator.Quantum.Puzzle.{AllowedValueSpec}
use quip_validator.Quantum.Puzzle.Canonical.Order.{SameSpec, canonical_bytes_same}
use quip_validator.Pow.Topology.{Hash, leb_edge, order_ends, sort_nodes, sort_edges, hash_topology}

leb-IsOrder : IsOrder leb
leb-IsOrder = record {
  total = λ a b h. ground (arith, h);
  anti = λ a b h k. ground (arith, h, k);
  trans = λ a b c h k. ground (arith, h, k);
}

leb_edge-IsOrder : IsOrder leb_edge
leb_edge-IsOrder = record {
  total = λ a b h. ground (arith, h);
  anti = λ a b h k.
      let first : a.0 ≡ b.0 = ground (arith, h, k) in
      let second : a.1 ≡ b.1 = ground (arith, h, k) in λ i. (first i, second i);
  trans = λ a b c h k. ground (arith, h, k);
}

-- The edges with the ends of some of them exchanged, as the list of choices says.
abbrev pub exchange_ends : List Bool → List (ℕ × ℕ) → List (ℕ × ℕ)
exchange_ends choices [] = []
exchange_ends [] (e ∷ es) = e ∷ es
exchange_ends (choice ∷ choices) (e ∷ es) =
    (if choice then (e.1, e.0) else e) ∷ exchange_ends choices es

order_ends_exchanged :
    (choice : Bool) (e : ℕ × ℕ) → order_ends (if choice then (e.1, e.0) else e) ≡ order_ends e
order_ends_exchanged true (u, v) = ground arith
order_ends_exchanged false e = refl

map-exchange_ends :
    (choices : List Bool) (edges : List (ℕ × ℕ))
    → map order_ends (exchange_ends choices edges) ≡ map order_ends edges
map-exchange_ends choices [] = refl
map-exchange_ends [] (e ∷ es) = refl
map-exchange_ends (choice ∷ choices) (e ∷ es) =
    λ i. order_ends_exchanged choice e i ∷ map-exchange_ends choices es i

-- Two listings of the nodes in any order, of the edges in any order and with any of their ends
-- exchanged, and of the values of each specification's set in any order, have the same hash.
pub hash_topology_unordered :
    (hash : Hash) (choices : List Bool) (nodes nodes' : List ℕ) (edges edges' : List (ℕ × ℕ))
    (h h' j j' spin spin' : AllowedValueSpec)
    → Perm nodes nodes'
    → Perm (exchange_ends choices edges) edges'
    → SameSpec h h'
    → SameSpec j j'
    → SameSpec spin spin'
    → hash_topology hash nodes edges h j spin ≡ hash_topology hash nodes' edges' h' j' spin'
unfolding hash_topology
hash_topology_unordered hash choices nodes nodes' edges edges' h h' j j' spin spin' same_nodes
      same_edges same_h same_j same_spin =
    ∥∥₁_elim same_nodes (ℕ_set _ _) (λ dn.
      ∥∥₁_elim (Perm.map order_ends same_edges) (ℕ_set _ _) (λ de.
        canonical_bytes_same h h' same_h (ℕ_set _ _) (λ eh.
          canonical_bytes_same j j' same_j (ℕ_set _ _) (λ ej.
            canonical_bytes_same spin spin' same_spin (ℕ_set _ _) (λ es.
              let ns : sort_nodes nodes ≡ sort_nodes nodes' = sort_by-Permᴰ leb leb-IsOrder dn in
              let ordered : sort_edges edges ≡ sort_edges edges' =
                ap (λ l. sort_by leb_edge l) (sym (map-exchange_ends choices edges))
                ∙ sort_by-Permᴰ leb_edge leb_edge-IsOrder de in
              λ i. hash (ns i) (ordered i) (eh i) (ej i) (es i))))))
