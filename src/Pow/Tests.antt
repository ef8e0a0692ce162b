-- ===== src/Pow/Tests.antt =====
-- The whitelist on small topologies (pallets/quantum-pow).
use mathlib.Core.List.Perm
use quip_validator.Prelude.{
  ◌*◌, get_or, ◌+◌, ◌≡◌, refl, true, false, Bool, List, [], ◌∷◌, length, none, some,
}
use quip_validator.Prelude.Int.{pos, negsuc}
use quip_validator.Quantum.Puzzle.{AllowedValueSpec, set, bits_for_count, leading_zeros}
use quip_validator.Quantum.Consistency.{edge_errors, coupling_error}
use quip_validator.Pow.Topology.{Hash, hash_topology}
use quip_validator.Pow.Topology.Unordered.{hash_topology_unordered}
use quip_validator.Pow.Registry.{Config, State}
use quip_validator.Pow.Calls.{Call, registers, sets_default, adds, removes, run}
use quip_validator.Pow.Whitelist.{WellListed}
use quip_validator.Pow.Whitelist.Runs.{run-WellListed}

abbrev config : Config
config = record {
  min_nodes = 2;
  max_nodes = 8;
  max_allowed_values = 4;
  hash = λ nodes edges h j spin. length nodes + length edges;
}

abbrev empty : State
empty = record {
  registered_topologies = λ hash. none;
  default_topology = none;
  mineable_topologies = [];
  block_number = 1;
  events = [];
}

abbrev signs : AllowedValueSpec
signs = set (negsuc 999 ∷ pos 1000 ∷ [])

abbrev calls : List (Bool × Call)
calls =
    (true, registers (0 ∷ 1 ∷ []) [] signs signs signs)
    ∷ (true, registers (0 ∷ 1 ∷ []) ((0, 1) ∷ []) signs signs signs)
    ∷ (true, adds 3)
    ∷ (false, sets_default 3)
    ∷ (true, removes 2)
    ∷ (true, sets_default 3)
    ∷ []

run_mineable : (run config calls empty).mineable_topologies ≡ 3 ∷ 2 ∷ []
unfolding run bits_for_count leading_zeros edge_errors coupling_error
run_mineable = refl

run_default : (run config calls empty).default_topology ≡ some 3
unfolding run bits_for_count leading_zeros edge_errors coupling_error
run_default = refl

run-WellListed_example : WellListed (run config calls empty)
run-WellListed_example =
    run-WellListed config calls empty (((λ h. refl), (λ h. refl)), λ h in_h. absurd (cc))

-- Of the first node and of the second byte of the fields' values.
abbrev mixed : Hash
mixed = λ nodes edges h j spin. get_or nodes 0 9 + 10 * get_or h 1 0 + 3000 * length edges

abbrev signs_down : AllowedValueSpec
signs_down = set (pos 1000 ∷ negsuc 999 ∷ [])

hash_topology_unordered_example :
    hash_topology mixed (0 ∷ 1 ∷ []) ((0, 1) ∷ []) signs signs signs
    ≡ hash_topology mixed (1 ∷ 0 ∷ []) ((1, 0) ∷ []) signs_down signs_down signs_down
hash_topology_unordered_example =
    hash_topology_unordered mixed (true ∷ []) (0 ∷ 1 ∷ []) (1 ∷ 0 ∷ []) ((0, 1) ∷ []) ((1, 0) ∷ [])
      signs signs_down signs signs_down signs signs_down (Perm.swap 1 0 [])
      (Perm.refl ((1, 0) ∷ [])) (Perm.swap (pos 1000) (negsuc 999) [])
      (Perm.swap (pos 1000) (negsuc 999) []) (Perm.swap (pos 1000) (negsuc 999) [])
