-- ===== src/Quantum/Tests.antt =====
-- The validation crate on small inputs (crates/quantum-validation).
use quip_validator.Prelude.{
  ℕ, ◌+◌, ◌/◌, ◌^◌, ◌*◌, ◌≤◌, ◌<◌, ◌≡◌, refl, arith, true, List, [], ◌∷◌, length, none, some, ok,
  err, All, contains, AreDistinct, ◌⊎◌, u64_max,
}
use quip_validator.Prelude.Int.{ℤ, pos, negsuc, ◌+ℤ◌, ◌*ℤ◌, neg_ℤ}
use quip_validator.Quantum.Puzzle.{
  AllowedValueSpec, integer_range, bits_per_value, decode_value, encode_value, bits_for_count,
  leading_zeros,
}
use quip_validator.Quantum.Puzzle.RoundTrip.{encode_value_round_trip}
use quip_validator.Quantum.Packed.{pack_solution, unpack_solution}
use quip_validator.Quantum.Packed.RoundTrip.{unpack_solution-pack_solution}
use quip_validator.Quantum.Errors.{ValidationError, invalid_spin_value, round_div_u64, milli_scale}
use quip_validator.Quantum.Spins.{
  is_spin, matches_spin, validate_solution_set, validate_spins, ensure_valid_spins, IsSpin,
  NamesFirst, ensure_valid_spins_decides,
}
use quip_validator.Quantum.Topology.{
  TopologyIndex, lookup_position, new_index, len, position, position-lt,
}
use quip_validator.Quantum.Topology.Numbering.{place_from, new_index-numbers}
use quip_validator.Quantum.Consistency.{
  edge_errors, coupling_error, validate_topology_consistency, validate_topology_consistency_sound,
}
use quip_validator.Quantum.Energy.{
  validate_shape_lengths, add_fields, checked_add, add_couplings, energy_of_solution,
  energy_of_solution_indexed,
}
use quip_validator.Quantum.Energy.Exact.{field_sum, coupling_sum, energy_of_solution_indexed-exact}
use quip_validator.Quantum.Energy.Nodes.{edge_sum, energy_of_solution-exact}
use quip_validator.Quantum.Energy.Flip.{flip, energy_of_solution_indexed-flip}
use quip_validator.Quantum.Energy.Bounded.{energy_of_solution_total}
use quip_validator.Quantum.Diversity.{
  ensure_valid_solution_inputs, average, total_distance, distances_to, direct, inverted, pair_count,
  symmetric_hamming_validated, calculate_diversity,
}
use quip_validator.Quantum.Diversity.Distance.{
  symmetric_hamming_validated_comm, symmetric_hamming_validated-flip,
  symmetric_hamming_validated-le, symmetric_hamming_validated-zero,
}
use quip_validator.Quantum.Diversity.Average.{calculate_diversity-le, calculate_diversity_total}

abbrev nodes : List ℕ
nodes = 4 ∷ 9 ∷ []

abbrev edges : List (ℕ × ℕ)
edges = (4, 9) ∷ []

abbrev fields : List ℤ
fields = pos 250 ∷ pos 0 ∷ []

abbrev couplings : List ℤ
couplings = negsuc 999 ∷ []

abbrev up_down : List ℤ
up_down = pos 1 ∷ negsuc 0 ∷ []

abbrev up_up : List ℤ
up_up = pos 1 ∷ pos 1 ∷ []

abbrev up_zero : List ℤ
up_zero = pos 1 ∷ pos 0 ∷ []

abbrev index : TopologyIndex
index = record { positions = (4, 0) ∷ (9, 1) ∷ [] }

index_built : new_index nodes edges ≡ ok index
unfolding new_index
index_built = refl

up_down-valid : validate_spins up_down ≡ true
unfolding validate_spins is_spin
up_down-valid = refl

up_up-valid : validate_spins up_up ≡ true
unfolding validate_spins is_spin
up_up-valid = refl

ensure_valid_spins_decides_example :
    (ensure_valid_spins up_zero ≡ ok tt → (validate_spins up_zero ≡ true) × All IsSpin up_zero)
    × (validate_spins up_zero ≡ true → ensure_valid_spins up_zero ≡ ok tt)
    × ((e : ValidationError) → ensure_valid_spins up_zero ≡ err e → NamesFirst up_zero 0 e)
ensure_valid_spins_decides_example = ensure_valid_spins_decides up_zero

up_zero_fault : ensure_valid_spins up_zero ≡ err (invalid_spin_value 1 (pos 0))
unfolding ensure_valid_spins matches_spin
up_zero_fault = refl

new_index-numbers_example :
    ((k : ℕ) → position k index ≡ place_from 0 k nodes)
    × AreDistinct nodes
    × (len index ≡ 2)
    × All (λ e. (contains e.0 nodes ≡ true) × (contains e.1 nodes ≡ true)) edges
new_index-numbers_example = new_index-numbers nodes edges index_built

position_of_nine : position 9 index ≡ some 1
unfolding position lookup_position
position_of_nine = refl

position-lt_example : 1 < 2
position-lt_example = position-lt nodes edges 9 index_built position_of_nine

consistent : validate_topology_consistency nodes edges fields couplings none none ≡ []
unfolding validate_topology_consistency edge_errors coupling_error
consistent = refl

validate_topology_consistency_sound_example :
    (2 ≡ length nodes) × (1 ≡ length edges) × (t : TopologyIndex) × (new_index nodes edges ≡ ok t)
validate_topology_consistency_sound_example =
    validate_topology_consistency_sound nodes edges fields couplings consistent

energy_of_solution_total_example :
    (e : ℤ) × (energy_of_solution up_down fields edges couplings nodes ≡ ok e)
energy_of_solution_total_example =
    energy_of_solution_total up_down fields edges couplings nodes index_built (omega arith)
      (omega arith) refl refl refl up_down-valid (omega arith, (omega arith, tt)) (omega arith, tt)

up_down_energy : energy_of_solution_indexed up_down fields edges couplings index ≡ ok (pos 1250)
unfolding energy_of_solution_indexed validate_shape_lengths len ensure_valid_spins matches_spin
    add_fields checked_add ◌+ℤ◌ ◌*ℤ◌ add_couplings position
up_down_energy = refl

scored_from_nodes : energy_of_solution up_down fields edges couplings nodes ≡ ok (pos 1250)
unfolding energy_of_solution energy_of_solution_indexed validate_shape_lengths len
    ensure_valid_spins matches_spin add_fields checked_add ◌+ℤ◌ ◌*ℤ◌ add_couplings position
    new_index
scored_from_nodes = refl

energy_of_solution-exact_example :
    pos 1250 ≡ field_sum up_down 0 fields +ℤ edge_sum up_down nodes edges couplings
energy_of_solution-exact_example =
    energy_of_solution-exact up_down fields edges couplings nodes scored_from_nodes

energy_of_solution_indexed-exact_example :
    pos 1250 ≡ field_sum up_down 0 fields +ℤ coupling_sum index up_down edges couplings
energy_of_solution_indexed-exact_example =
    energy_of_solution_indexed-exact up_down fields edges couplings index up_down_energy

energy_of_solution_indexed-flip_example :
    energy_of_solution_indexed (flip up_down) (flip fields) edges couplings index
    ≡ energy_of_solution_indexed up_down fields edges couplings index
energy_of_solution_indexed-flip_example =
    energy_of_solution_indexed-flip up_down fields edges couplings index up_down-valid

symmetric_hamming_validated_comm_example :
    symmetric_hamming_validated up_up up_down ≡ symmetric_hamming_validated up_down up_up
symmetric_hamming_validated_comm_example = symmetric_hamming_validated_comm up_up up_down

symmetric_hamming_validated-flip_example :
    symmetric_hamming_validated (flip up_up) up_down ≡ symmetric_hamming_validated up_up up_down
symmetric_hamming_validated-flip_example = symmetric_hamming_validated-flip up_up up_down

symmetric_hamming_validated-le_example : 2 * symmetric_hamming_validated up_up up_down ≤ 2
symmetric_hamming_validated-le_example =
    symmetric_hamming_validated-le up_up up_down up_up-valid up_down-valid refl

opposite : symmetric_hamming_validated up_up (flip up_up) ≡ 0
unfolding symmetric_hamming_validated direct inverted neg_ℤ
opposite = refl

symmetric_hamming_validated-zero_example : (up_up ≡ flip up_up) ⊎ (up_up ≡ flip (flip up_up))
symmetric_hamming_validated-zero_example =
    symmetric_hamming_validated-zero up_up (flip up_up) refl opposite

diversity_of_two : calculate_diversity (up_up ∷ up_down ∷ []) ≡ ok 500
unfolding calculate_diversity ensure_valid_solution_inputs validate_solution_set validate_spins
    is_spin average total_distance distances_to symmetric_hamming_validated direct inverted neg_ℤ
    pair_count round_div_u64
diversity_of_two = refl

calculate_diversity-le_example : 500 ≤ 500
calculate_diversity-le_example = calculate_diversity-le (up_up ∷ up_down ∷ []) diversity_of_two

one_pair : pair_count (up_up ∷ up_down ∷ []) * 2 * milli_scale ≤ u64_max
unfolding pair_count
one_pair = omega arith

calculate_diversity_total_example : (v : ℕ) × (calculate_diversity (up_up ∷ up_down ∷ []) ≡ ok v)
calculate_diversity_total_example =
    calculate_diversity_total 2 (up_up ∷ up_down ∷ []) (omega arith)
      (refl, up_up-valid, (refl, up_down-valid, tt)) one_pair

-- Five whole numbers take three bits.
abbrev five_values : AllowedValueSpec
five_values = integer_range (negsuc 1) (pos 2)

abbrev three_spins : List ℤ
three_spins = negsuc 1999 ∷ pos 0 ∷ pos 2000 ∷ []

five_bits : bits_per_value five_values ≡ ok 3
unfolding bits_per_value bits_for_count leading_zeros
five_bits = refl

encode_value_round_trip_example : (decode_value five_values 4 ≡ ok (pos 2000)) × (4 < 2 ^ 3)
unfolding encode_value
encode_value_round_trip_example =
    encode_value_round_trip five_values (pos 2000) (refl, refl) refl five_bits refl

-- Two bytes for nine bits.
three_packed : pack_solution three_spins five_values ≡ ok (16 ∷ 1 ∷ [])
unfolding pack_solution bits_for_count leading_zeros
three_packed = refl

unpack_solution-pack_solution_example :
    (packed : List ℕ) × (pack_solution three_spins five_values ≡ ok packed)
    × (length packed ≡ (length three_spins * 3 + 7) / 8)
    × (unpack_solution packed (length three_spins) five_values ≡ ok three_spins)
unfolding encode_value
unpack_solution-pack_solution_example =
    unpack_solution-pack_solution five_values three_spins tt (refl, refl) five_bits (omega arith)
      ((refl, (0, refl)), ((refl, (2, refl)), ((refl, (4, refl)), tt)))
