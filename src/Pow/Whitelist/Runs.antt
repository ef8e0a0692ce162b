-- ===== src/Pow/Whitelist/Runs.antt =====
-- The calls keep the lists of topologies in order (pallets/quantum-pow/src/lib.rs).
use quip_validator.Prelude.{
  ℕ, ◌≡◌, refl, arith, Bool, true, false, not, ◌||◌, List, [], ◌∷◌, contains, without,
  contains-without, Option, none, some, is_some, ok, err, ◌>>◌, >>=-elim, >>-eq-ok, >>-ok_left,
  ensure, ensure-eq-ok, put, Bool-cases, inl, inr, ◌⊎◌, leb, length,
}
use quip_validator.Quantum.Puzzle.{AllowedValueSpec}
use quip_validator.Quantum.Packed.{packed_solution_byte_len}
use quip_validator.Quantum.Consistency.{validate_topology_consistency}
use quip_validator.Pow.Topology.{TopologyMeta, hash_topology}
use quip_validator.Pow.Registry.{
  Config, State, Error, Outcome, check_spec, canonicalize_spec, or_invalid_topology, zero_fields,
  is_consistent, seed_default, store_topology, register_topology, set_default_topology, is_default,
  has_other, add_mineable_topology, remove_mineable_topology, deposit_event, default_topology_set,
  topology_mineable_removed, topology_mineable_added, topology_registered,
}
use quip_validator.Pow.Calls.{Call, registers, sets_default, adds, removes, dispatch, run}
use quip_validator.Pow.Whitelist.{Listed, WellListed, repoint, fewer, one_more, seeded}

set_default_topology-WellListed :
    (is_root : Bool) (hash : ℕ) (s s1 : State)
    → WellListed s
    → set_default_topology is_root hash s ≡ ok s1
    → WellListed s1
unfolding set_default_topology
set_default_topology-WellListed is_root hash s s1 (listed, known) h =
    let allowed = >>-eq-ok (ensure is_root Error.bad_origin) _ h in
    let registered =
      >>-eq-ok (ensure (is_some (s.registered_topologies hash)) Error.topology_not_registered) _
        allowed in
    let mineable = ensure-eq-ok (contains hash s.mineable_topologies) _ (
      >>-ok_left (ensure (contains hash s.mineable_topologies) Error.topology_not_mineable) _
        registered) in
    let stored =
      >>-eq-ok (ensure (contains hash s.mineable_topologies) Error.topology_not_mineable) _
        registered in
    let is : deposit_event (default_topology_set hash) (record s { default_topology = some hash })
        ≡ s1 =
      cc in
    rw (← is) (repoint hash s.default_topology s listed mineable, known)

remove_mineable_topology-WellListed :
    (is_root : Bool) (hash : ℕ) (s s1 : State)
    → WellListed s
    → remove_mineable_topology is_root hash s ≡ ok s1
    → WellListed s1
unfolding remove_mineable_topology
remove_mineable_topology-WellListed is_root hash s s1 (listed, known) h =
    let allowed = >>-eq-ok (ensure is_root Error.bad_origin) _ h in
    let other = not_true (is_default hash s.default_topology) (
      ensure-eq-ok (not (is_default hash s.default_topology)) _ (
        >>-ok_left (ensure (not (is_default hash s.default_topology)) Error.topology_is_default) _
          allowed)) in
    let rest =
      >>-eq-ok (ensure (not (is_default hash s.default_topology)) Error.topology_is_default) _
        allowed in
    elim (Bool-cases (contains hash s.mineable_topologies)) [
      | inl e ↦
          let stored = rw e at rest in
          let is : deposit_event (topology_mineable_removed hash)
                (record s { mineable_topologies = without hash s.mineable_topologies })
              ≡ s1 =
            cc in
          rw (← is) (
            fewer s.default_topology hash s other listed,
            λ k in_k. known k (
                let kept = contains-without k hash s.mineable_topologies in
                ground (arith, kept, in_k)),
          )
      | inr e ↦ let stored = rw e at rest in let is : s ≡ s1 = cc in rw (← is) (listed, known)
    ]
  where
    not_true : (b : Bool) → not b ≡ true → b ≡ false
    not_true b h = ground (arith, h)

add_mineable_topology-WellListed :
    (is_root : Bool) (hash : ℕ) (s s1 : State)
    → WellListed s
    → add_mineable_topology is_root hash s ≡ ok s1
    → WellListed s1
unfolding add_mineable_topology
add_mineable_topology-WellListed is_root hash s s1 (listed, known) h =
    let allowed = >>-eq-ok (ensure is_root Error.bad_origin) _ h in
    let registered = ensure-eq-ok (is_some (s.registered_topologies hash)) _ (
      >>-ok_left (ensure (is_some (s.registered_topologies hash)) Error.topology_not_registered) _
        allowed) in
    let rest =
      >>-eq-ok (ensure (is_some (s.registered_topologies hash)) Error.topology_not_registered) _
        allowed in
    elim (Bool-cases (contains hash s.mineable_topologies)) [
      | inl e ↦ let stored = rw e at rest in let is : s ≡ s1 = cc in rw (← is) (listed, known)
      | inr e ↦ added listed known registered (rw e at rest)
    ]
  where
    added :
        Listed s.default_topology s.registered_topologies s.mineable_topologies
        → ((k : ℕ)
            → contains k s.mineable_topologies ≡ true
            → is_some (s.registered_topologies k) ≡ true)
        → is_some (s.registered_topologies hash) ≡ true
        → (ensure
              (is_default hash s.default_topology
                || not (has_other s.default_topology s.mineable_topologies))
              Error.mineable_topology_conflict
            >> ok (
                deposit_event
                  (topology_mineable_added hash)
                  (record s { mineable_topologies = hash ∷ s.mineable_topologies })))
          ≡ ok s1
        → WellListed s1
    added listed known registered rest =
        let free =
          ensure-eq-ok
            (is_default hash s.default_topology
              || not (has_other s.default_topology s.mineable_topologies))
            _
            (>>-ok_left
              (ensure
                (is_default hash s.default_topology
                  || not (has_other s.default_topology s.mineable_topologies))
                Error.mineable_topology_conflict)
              _ rest) in
        let stored =
          >>-eq-ok
            (ensure
              (is_default hash s.default_topology
                || not (has_other s.default_topology s.mineable_topologies))
              Error.mineable_topology_conflict)
            _ rest in
        let is : deposit_event (topology_mineable_added hash)
              (record s { mineable_topologies = hash ∷ s.mineable_topologies })
            ≡ s1 =
          cc in
        rw (← is) (
          one_more s.default_topology hash s registered free listed,
          λ k in_k. grind (arith, in_k, known k, registered),
        )

store_topology-WellListed :
    (hash : ℕ) (meta : TopologyMeta) (s s1 : State)
    → WellListed s
    → store_topology hash meta s ≡ ok s1
    → WellListed s1
unfolding store_topology
store_topology-WellListed hash meta s s1 (listed, known) h =
    let stored =
      >>-eq-ok
        (ensure (not (is_some (s.registered_topologies hash))) Error.topology_already_registered) _
        h in
    let s2 : State = record s {
      registered_topologies = put s.registered_topologies hash (some meta);
    } in
    let is : deposit_event (topology_registered hash (length meta.nodes) (length meta.edges))
          (seed_default hash s.default_topology s2)
        ≡ s1 =
      cc in
    rw (← is) (
      seeded hash (topology_registered hash (length meta.nodes) (length meta.edges))
        s.default_topology s2 refl (ground arith)
        (λ k none_is. unlisted s.default_topology listed none_is k) (kept s.default_topology listed)
        (λ k in_k. let before = known k in_k in ground (arith, before)))
  where
    unlisted :
        (default : Option ℕ)
        → Listed default s.registered_topologies s.mineable_topologies
        → default ≡ none
        → (k : ℕ) → contains k s.mineable_topologies ≡ false
    unlisted none listed e k = listed.1 k
    unlisted (some d) listed e k = absurd (cc)

    kept :
        (default : Option ℕ)
        → Listed default s.registered_topologies s.mineable_topologies
        → default ≡ none
          ⊎ Listed default (put s.registered_topologies hash (some meta)) s.mineable_topologies
    kept none listed = inl refl
    kept (some d) listed = inr listed

register_topology-WellListed :
    (c : Config) (is_root : Bool) (nodes : List ℕ) (edges : List (ℕ × ℕ))
    (allowed_h allowed_j allowed_spin : AllowedValueSpec) (s s1 : State)
    → WellListed s
    → register_topology c is_root nodes edges allowed_h allowed_j allowed_spin s ≡ ok s1
    → WellListed s1
unfolding register_topology
register_topology-WellListed c is_root nodes edges allowed_h allowed_j allowed_spin s s1 v h =
    let rooted = >>-eq-ok (ensure is_root Error.bad_origin) _ h in
    let large = >>-eq-ok (ensure (leb c.min_nodes (length nodes)) Error.graph_too_small) _ rooted in
    let good_h = >>-eq-ok (check_spec allowed_h) _ large in
    let good_j = >>-eq-ok (check_spec allowed_j) _ good_h in
    let good = >>-eq-ok (check_spec allowed_spin) _ good_j in
    >>=-elim (canonicalize_spec c allowed_h) _ good (λ h' e_h sorted_h.
      >>=-elim (canonicalize_spec c allowed_j) _ sorted_h (λ j' e_j sorted_j.
        >>=-elim (canonicalize_spec c allowed_spin) _ sorted_j (λ spin' e_spin sorted.
          >>=-elim (or_invalid_topology (packed_solution_byte_len (length nodes) spin')) _ sorted
            (λ bytes e_bytes packed.
              let small =
                >>-eq-ok (ensure (leb bytes c.max_nodes) Error.packed_solution_too_large) _
                  packed in
              let consistent =
                >>-eq-ok
                  (ensure
                    (is_consistent (
                      validate_topology_consistency nodes edges (zero_fields nodes)
                        (zero_fields edges) none none))
                    Error.invalid_topology)
                  _ small in
              store_topology-WellListed (hash_topology c.hash nodes edges h' j' spin') _ s s1 v
                consistent))))

module _ (c : Config) where
  dispatch-WellListed :
      (is_root : Bool) (call : Call) (s s1 : State)
      → WellListed s
      → dispatch c is_root call s ≡ ok s1
      → WellListed s1
  unfolding dispatch
  dispatch-WellListed is_root (registers nodes edges h j spin) s s1 v e =
      register_topology-WellListed c is_root nodes edges h j spin s s1 v e
  dispatch-WellListed is_root (sets_default hash) s s1 v e =
      set_default_topology-WellListed is_root hash s s1 v e
  dispatch-WellListed is_root (adds hash) s s1 v e =
      add_mineable_topology-WellListed is_root hash s s1 v e
  dispatch-WellListed is_root (removes hash) s s1 v e =
      remove_mineable_topology-WellListed is_root hash s s1 v e

  -- Any sequence of registrations, changes of the default, additions to the whitelist and removals from
  -- it, by whatever origins, keeps the lists in order: without a default topology nothing is registered or
  -- mineable; with one, it is mineable, and at most one other is; and what is mineable is registered.
  pub run-WellListed :
      (calls : List (Bool × Call)) (s : State) → WellListed s → WellListed (run c calls s)
  unfolding run
  run-WellListed [] s v = v
  run-WellListed ((is_root, call) ∷ calls) s v =
      run-WellListed calls (elim (dispatch c is_root call s) [ ok s1 ↦ s1 | err e ↦ s ])
        (after (dispatch c is_root call s) (λ s1. dispatch-WellListed is_root call s s1 v))
    where
      after :
          (r : Outcome)
          → ((s1 : State) → r ≡ ok s1 → WellListed s1)
          → WellListed (elim r [ ok s1 ↦ s1 | err e ↦ s ])
      after (ok s1) h = h s1 refl
      after (err e) h = v
