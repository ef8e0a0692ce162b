-- ===== src/Pow/Registry.antt =====
-- The registered topologies, the default one and the whitelist: the calls of the root
-- (pallets/quantum-pow/src/lib.rs).
use quip_validator.Prelude.{
  ℕ, ◌==◌, leb, Bool, true, false, not, ◌||◌, if◌then◌else◌, List, [], ◌∷◌, ◌++◌, map, length,
  contains, without, Option, none, some, is_some, Result, ok, err, ◌>>=◌, ◌>>◌, ensure, put,
  sort_by,
}
use quip_validator.Prelude.Int.{ℤ, pos, leb_ℤ}
use quip_validator.Quantum.Errors.{ValidationError}
use quip_validator.Quantum.Puzzle.{
  AllowedValueSpec, set, integer_range, continuous_range, bits_per_value,
}
use quip_validator.Quantum.Packed.{packed_solution_byte_len}
use quip_validator.Quantum.Consistency.{ConsistencyError, validate_topology_consistency}
use quip_validator.Pow.Topology.{TopologyMeta, Hash, hash_topology}

-- The errors that these calls return; `bad_origin` is the framework's.
pub data Error : Type 0 where
  graph_too_small invalid_topology topology_already_registered topology_not_registered : Error
  empty_allowed_values encoding_too_wide packed_solution_too_large topology_not_mineable : Error
  topology_is_default mineable_topology_conflict bad_origin : Error

pub data Event : Type 0 where
  topology_registered : ℕ → ℕ → ℕ → Event
  default_topology_set : ℕ → Event
  topology_mineable_added : ℕ → Event
  topology_mineable_removed : ℕ → Event

-- The constants, and the hash.
pub record Config : Type 0 where
  pub min_nodes : ℕ
  pub max_nodes : ℕ
  pub max_allowed_values : ℕ
  pub hash : Hash

-- The part of the storage that these calls touch; `mineable` is a set of keys.
pub record State : Type 0 where
  pub registered_topologies : ℕ → Option TopologyMeta
  pub default_topology : Option ℕ
  pub mineable_topologies : List ℕ
  pub block_number : ℕ
  pub events : List Event

abbrev pub Outcome : Type 0
Outcome = Result Error State

abbrev pub deposit_event : Event → State → State
deposit_event e s = record s { events = s.events ++ e ∷ [] }

-- What `check_spec` makes of the widths' result.
abbrev pub spec_error : Result ValidationError ℕ → Result Error (Unit {0})
spec_error (ok bits) = ok tt
spec_error (err ValidationError.empty_allowed_values) = err Error.empty_allowed_values
spec_error (err (ValidationError.encoding_too_wide bits)) = err Error.encoding_too_wide
spec_error (err _) = err invalid_topology

unfoldable pub check_spec : AllowedValueSpec → Result Error (Unit {0})
unfolding bits_per_value
check_spec spec = spec_error (bits_per_value spec)

-- The sorted values must fit their bound again.
unfoldable pub canonicalize_spec : Config → AllowedValueSpec → Result Error AllowedValueSpec
canonicalize_spec c (set values) =
    ensure (leb (length (sort_by leb_ℤ values)) c.max_allowed_values) invalid_topology
    >> ok (set (sort_by leb_ℤ values))
canonicalize_spec c (integer_range min max) = ok (integer_range min max)
canonicalize_spec c (continuous_range min max) = ok (continuous_range min max)

abbrev pub or_invalid_topology {ℓ} : {A : Type ℓ} → Result ValidationError A → Result Error A
or_invalid_topology (ok a) = ok a
or_invalid_topology (err e) = err invalid_topology

abbrev pub zero_fields {ℓ} : {A : Type ℓ} → List A → List ℤ
zero_fields xs = map (λ x. pos 0) xs

abbrev pub is_consistent : List ConsistencyError → Bool
is_consistent [] = true
is_consistent _ = false

-- `insert(hash, ())`
abbrev pub insert_hash : ℕ → List ℕ → List ℕ
insert_hash hash keys = if contains hash keys then keys else hash ∷ keys

-- The first topology becomes the default one, and mineable.
unfoldable pub seed_default : ℕ → Option ℕ → State → State
seed_default hash none s = record s {
  default_topology = some hash;
  mineable_topologies = insert_hash hash s.mineable_topologies;
}
seed_default hash (some default) s = s

unfoldable pub store_topology : ℕ → TopologyMeta → State → Outcome
unfolding seed_default
store_topology hash meta s =
    ensure (not (is_some (s.registered_topologies hash))) topology_already_registered
    >> ok (
        deposit_event (topology_registered hash (length meta.nodes) (length meta.edges)) (
          seed_default hash s.default_topology
            (record s { registered_topologies = put s.registered_topologies hash (some meta) })))

unfoldable pub register_topology :
    Config
    → Bool
    → List ℕ
    → List (ℕ × ℕ)
    → AllowedValueSpec
    → AllowedValueSpec
    → AllowedValueSpec
    → State
    → Outcome
unfolding check_spec canonicalize_spec store_topology packed_solution_byte_len hash_topology
    validate_topology_consistency
register_topology c is_root nodes edges allowed_h allowed_j allowed_spin s =
    ensure is_root bad_origin
    >> (ensure (leb c.min_nodes (length nodes)) graph_too_small
        >> (check_spec allowed_h
            >> (check_spec allowed_j
                >> (check_spec allowed_spin
                    >> (canonicalize_spec c allowed_h >>= λ h.
                        canonicalize_spec c allowed_j >>= λ j.
                        canonicalize_spec c allowed_spin >>= λ spin.
                        or_invalid_topology (packed_solution_byte_len (length nodes) spin)
                        >>= λ bytes.
                            ensure (leb bytes c.max_nodes) packed_solution_too_large
                            >> (ensure
                                  (is_consistent (
                                    validate_topology_consistency nodes edges (zero_fields nodes)
                                      (zero_fields edges) none none))
                                  invalid_topology
                                >> store_topology (hash_topology c.hash nodes edges h j spin)
                                    (record {
                                      nodes = nodes;
                                      edges = edges;
                                      allowed_h_values = h;
                                      allowed_j_values = j;
                                      allowed_spin_values = spin;
                                      registered_at = s.block_number;
                                    })
                                    s))))))

unfoldable pub set_default_topology : Bool → ℕ → State → Outcome
set_default_topology is_root hash s =
    ensure is_root bad_origin
    >> (ensure (is_some (s.registered_topologies hash)) topology_not_registered
        >> (ensure (contains hash s.mineable_topologies) topology_not_mineable
            >> ok (
                deposit_event (default_topology_set hash)
                  (record s { default_topology = some hash }))))

abbrev pub is_default : ℕ → Option ℕ → Bool
is_default hash none = false
is_default hash (some default) = hash == default

-- `iter_keys().any(|h| Some(h) != default)`
unfoldable pub has_other : Option ℕ → List ℕ → Bool
has_other default [] = false
has_other default (h ∷ hs) = not (is_default h default) || has_other default hs

unfoldable pub add_mineable_topology : Bool → ℕ → State → Outcome
unfolding has_other
add_mineable_topology is_root hash s =
    ensure is_root bad_origin
    >> (ensure (is_some (s.registered_topologies hash)) topology_not_registered
        >> (if contains hash s.mineable_topologies
            then ok s
            else (ensure
                  (is_default hash s.default_topology
                    || not (has_other s.default_topology s.mineable_topologies))
                  mineable_topology_conflict
                >> ok (
                    deposit_event (topology_mineable_added hash)
                      (record s { mineable_topologies = hash ∷ s.mineable_topologies })))))

unfoldable pub remove_mineable_topology : Bool → ℕ → State → Outcome
remove_mineable_topology is_root hash s =
    ensure is_root bad_origin
    >> (ensure (not (is_default hash s.default_topology)) topology_is_default
        >> (if contains hash s.mineable_topologies
            then ok (
                deposit_event (topology_mineable_removed hash)
                  (record s { mineable_topologies = without hash s.mineable_topologies }))
            else ok s))
