-- ===== src/Pow/Calls.antt =====
-- The root's calls of the proof-of-work pallet, in any order (pallets/quantum-pow/src/lib.rs).
use quip_validator.Prelude.{ℕ, Bool, List, [], ◌∷◌, ok, err}
use quip_validator.Quantum.Puzzle.{AllowedValueSpec}
use quip_validator.Pow.Registry.{
  Config, State, Outcome, register_topology, set_default_topology, add_mineable_topology,
  remove_mineable_topology,
}

pub data Call : Type 0 where
  registers : List ℕ → List (ℕ × ℕ) → AllowedValueSpec → AllowedValueSpec → AllowedValueSpec → Call
  sets_default adds removes : ℕ → Call

module _ (c : Config) where
  unfoldable pub dispatch : Bool → Call → State → Outcome
  unfolding register_topology set_default_topology add_mineable_topology remove_mineable_topology
  dispatch is_root (registers nodes edges h j spin) s =
      register_topology c is_root nodes edges h j spin s
  dispatch is_root (sets_default hash) s = set_default_topology is_root hash s
  dispatch is_root (adds hash) s = add_mineable_topology is_root hash s
  dispatch is_root (removes hash) s = remove_mineable_topology is_root hash s

  -- A call that fails leaves the storage as it was.
  unfoldable pub run : List (Bool × Call) → State → State
  unfolding dispatch
  run [] s = s
  run ((is_root, call) ∷ calls) s =
      run calls (elim (dispatch is_root call s) [ ok s1 ↦ s1 | err e ↦ s ])
