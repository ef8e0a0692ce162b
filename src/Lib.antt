-- ===== src/Lib.antt =====
-- Verification of the Quip validator: the quantum compute mempool and the Ising validation it rests on,
-- the emission controller with its faucet, the council's slash policy, and the topologies that are mined.
--
-- The program. A proposer reserves a reward and posts an Ising problem as an order. Solvers submit spin
-- vectors; the mempool scores them, keeps a diverse subset, and ranks the solvers by energy. An order
-- expires at its effective expiry, when the start of a block finalises it; its reward is then claimed for
-- the winners, or reclaimed by the proposer when no solution was accepted. The emission controller mints a
-- fixed schedule into the pots of the subnets, from which mining rewards are paid, and a finite budget for
-- the faucet, whose fuse cannot be reset. The council slashes validators within a budget that rolls.
-- The root registers the topologies of the proof of work and keeps the whitelist of those that are mined.
--
-- The files, and the code that each one models:
--   Prelude          numbers, lists, integers and results that the components share; a result is a value
--                    or an error, and `ensure` and `ok_or` stand for the macros and methods of the code.
--   Quantum          crates/quantum-validation: Errors (errors.rs, fixed.rs), Spins, Topology, Consistency
--                    (validation.rs), Energy (energy.rs), Diversity (diversity.rs), Puzzle
--                    (puzzle_spec.rs), Packed (packed.rs).
--   Mempool          pallets/quantum-compute-mempool: Types (types.rs), Rewards (rewards.rs), Lifecycle
--                    (lifecycle.rs), Delivery (delivery.rs), Selection (selection.rs); and of lib.rs
--                    State (storage, errors, events, configuration, and the trait of xqvm.rs), Solvers,
--                    Expiry, Propose, Submit, Payouts, Finalise, Settle, Views. Machine puts the calls
--                    together: a failing call leaves the storage alone, as a dispatch does.
--   Emission         pallets/emission-controller/src/lib.rs: Schedule (constants, routes, entitlement), State
--                    (storage, events, errors), Issue (accrual, funding, mints, rewards), Upgrade (genesis,
--                    consistency check, migration). Machine puts the hooks and calls together.
--   SlashPolicy      pallets/slash-policy/src/lib.rs: Policy (storage and calls); Ledger has the motions'
--                    full ledger and the states that are reached with it.
--   Faucet           pallets/faucet-ops/src/lib.rs: Ops (storage, calls, upgrade), over Emission; Fuse puts
--                    the calls together.
--   Pow              pallets/quantum-pow/src: Topology (topology.rs, types.rs), Registry (the storage and root
--                    calls of lib.rs on topologies), Calls; Whitelist has the order that its lists keep,
--                    Topology.Unordered that the hash forgets the order of a topology.
-- Mempool.Invariant has the invariant of the mempool's storage, its preservation, and what follows from
-- it. Child modules hold lemmas and are named for what they prove; the Tests modules hold small runs.
--
-- How the code maps to the model. A storage map is a function of its key, a set of keys a list; a call is
-- a function from the state to a result with the new state. Account ids, hashes, names and endpoints are
-- numbers or lists of numbers, since the code only compares and stores them. Machine integers are natural
-- numbers or integers with the saturation, the checks and the truncation of the code written out. A panic
-- of the code (`expect`, indexing, division by zero) is the error value `trap` or `trapped`.
--
-- Parameters. `Config` holds the runtime's constants, the hash of a job spec's or a topology's tuple, and the
-- order in which the storage iterates over keys; `Currency` the operations of the balances pallet on an abstract
-- bank; `QuantumVm` the trait that the virtual machine implements; `Staking` what the slash policy asks of
-- the staking pallet. Nothing is assumed of them, but for two functions of the framework where a theorem
-- says so: `mul_floor` rounds down, and the rational product is computed when it fits its word.
--
-- Loops. All recursion is structural. The drain of expired orders runs on its bucket budget, which is the
-- budget of the code; the selection runs on the number of vectors that are still to be selected.
--
-- Not modelled: dispatch weights; of the mempool `on_runtime_upgrade`, genesis and the adapter of the
-- virtual machine; of the validation crate the texts of errors, `validate_solution`, `select_diverse`,
-- `expected_gse` (floats) and the seeded generation of puzzles; of the proof of work the miners, proofs,
-- difficulty and migrations; and the other pallets, the runtimes and the node.
pub mod Prelude
pub mod Quantum
pub mod Mempool
pub mod Emission
pub mod SlashPolicy
pub mod Faucet
pub mod Pow
