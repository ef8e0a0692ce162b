-- ===== src/Quantum/Energy.antt =====
-- The Ising energy in milli units (crates/quantum-validation/src/energy.rs). A product of an `i32`
-- coupling and spins is exact in `i64`; the sums are the checked ones of the code.
pub mod Exact
pub mod Nodes
pub mod Flip
pub mod Bounded
use quip_validator.Prelude.{
  ℕ, zero, suc, ◌==◌, ◌≡◌, arith, Bool, true, false, if◌then◌else◌, not, List, [], ◌∷◌, length,
  get_or, Option, none, some, Result, ok, err, ◌>>=◌, ◌>>◌, ensure, ok_or,
}
use quip_validator.Prelude.Int.{ℤ, pos, ◌+ℤ◌, ◌*ℤ◌}
use quip_validator.Quantum.Errors.{
  ValidationError, empty_nodes, solution_length_mismatch, field_length_mismatch,
  edge_weight_length_mismatch, unknown_node_in_edge, arithmetic_overflow, fits_i64,
}
use quip_validator.Quantum.Spins.{ensure_valid_spins}
use quip_validator.Quantum.Topology.{TopologyIndex, new_index, len, position}

-- `solution[position]`: the shape check and the index keep every position in range.
abbrev pub spin_at : List ℤ → ℕ → ℤ
spin_at solution p = get_or solution p (pos 0)

-- `checked_add(..).ok_or(ArithmeticOverflow)`
unfoldable pub checked_add : ℤ → ℤ → Result ValidationError ℤ
checked_add a b = if fits_i64 (a +ℤ b) then ok (a +ℤ b) else err arithmetic_overflow

unfoldable pub validate_shape_lengths :
    List ℤ → List ℤ → List (ℕ × ℕ) → List ℤ → ℕ → Result ValidationError (Unit {0})
validate_shape_lengths solution h edges j node_count =
    ensure (not (node_count == 0)) empty_nodes
    >> (ensure (length solution == node_count)
          (solution_length_mismatch node_count (length solution))
        >> (ensure (length h == node_count) (field_length_mismatch node_count (length h))
            >> ensure (length edges == length j)
                (edge_weight_length_mismatch (length edges) (length j))))

-- The loop over the fields, from `p` on.
unfoldable pub add_fields : List ℤ → ℕ → ℤ → List ℤ → Result ValidationError ℤ
add_fields solution p energy [] = ok energy
add_fields solution p energy (field ∷ h) =
    checked_add energy (field *ℤ spin_at solution p) >>= λ e. add_fields solution (suc p) e h

-- The loop over the edges and their couplings.
unfoldable pub add_couplings :
    TopologyIndex → List ℤ → ℤ → List (ℕ × ℕ) → List ℤ → Result ValidationError ℤ
add_couplings t solution energy [] j = ok energy
add_couplings t solution energy (e ∷ es) [] = ok energy
add_couplings t solution energy ((u, v) ∷ es) (coupling ∷ js) =
    ok_or (position u t) (unknown_node_in_edge u) >>= λ u_pos.
    ok_or (position v t) (unknown_node_in_edge v) >>= λ v_pos.
    checked_add energy (coupling *ℤ spin_at solution u_pos *ℤ spin_at solution v_pos) >>= λ e'.
    add_couplings t solution e' es js

unfoldable pub energy_of_solution_indexed :
    List ℤ → List ℤ → List (ℕ × ℕ) → List ℤ → TopologyIndex → Result ValidationError ℤ
energy_of_solution_indexed solution h edges j topology =
    validate_shape_lengths solution h edges j (len topology)
    >> (ensure_valid_spins solution
        >> (add_fields solution 0 (pos 0) h >>= λ energy.
            add_couplings topology solution energy edges j))

unfoldable pub energy_of_solution :
    List ℤ → List ℤ → List (ℕ × ℕ) → List ℤ → List ℕ → Result ValidationError ℤ
energy_of_solution solution h edges j nodes =
    validate_shape_lengths solution h edges j (length nodes)
    >> (new_index nodes edges >>= λ topology.
        energy_of_solution_indexed solution h edges j topology)
