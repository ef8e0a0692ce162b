-- ===== src/Pow/Topology.antt =====
-- The identity of a topology (pallets/quantum-pow/src/topology.rs, types.rs).
pub mod Unordered
use quip_validator.Prelude.{ℕ, ◌==◌, ltb, leb, Bool, ◌||◌, ◌&&◌, if◌then◌else◌, List, map, sort_by}
use quip_validator.Quantum.Puzzle.{AllowedValueSpec}
use quip_validator.Quantum.Puzzle.Canonical.{canonical_bytes}

pub record TopologyMeta : Type 0 where
  pub nodes : List ℕ
  pub edges : List (ℕ × ℕ)
  pub allowed_h_values : AllowedValueSpec
  pub allowed_j_values : AllowedValueSpec
  pub allowed_spin_values : AllowedValueSpec
  pub registered_at : ℕ

abbrev pub sort_nodes : List ℕ → List ℕ
sort_nodes nodes = sort_by leb nodes

abbrev pub leb_edge : ℕ × ℕ → ℕ × ℕ → Bool
leb_edge (a, b) (c, d) = ltb a c || (a == c && leb b d)

abbrev pub order_ends : ℕ × ℕ → ℕ × ℕ
order_ends (u, v) = if leb u v then (u, v) else (v, u)

abbrev pub sort_edges : List (ℕ × ℕ) → List (ℕ × ℕ)
sort_edges edges = sort_by leb_edge (map order_ends edges)

-- Of the encoded tuple, by a hash that is given.
abbrev pub Hash : Type 0
Hash = List ℕ → List (ℕ × ℕ) → List ℕ → List ℕ → List ℕ → ℕ

unfoldable pub hash_topology :
    Hash → List ℕ → List (ℕ × ℕ) → AllowedValueSpec → AllowedValueSpec → AllowedValueSpec → ℕ
unfolding canonical_bytes
hash_topology hash nodes edges h j spin =
    hash (sort_nodes nodes) (sort_edges edges) (canonical_bytes h) (canonical_bytes j)
      (canonical_bytes spin)
