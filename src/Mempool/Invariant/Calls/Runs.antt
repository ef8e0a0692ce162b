-- ===== src/Mempool/Invariant/Calls/Runs.antt =====
-- Runs of the pallet keep the invariant, and the start of a block never fails.
use quip_validator.Prelude.{
  ℕ, true, not, List, [], ◌∷◌, Option, none, some, is_some, ok, err, ensure, Ensures, Ensures->>=,
  Ensures->>, Ensures-ok,
}
use quip_validator.Mempool.Types.{MinerType, Formulation}
use quip_validator.Mempool.State.{
  Config, Currency, QuantumVm, State, Outcome, solver_already_registered, solver_not_registered,
  job_spec_already_exists,
}
use quip_validator.Mempool.Solvers.{
  register_solver, deregister_solver, insert_job_spec, register_job_spec,
}
use quip_validator.Mempool.Submit.{submit_solution, submit_solution_with_payee}
use quip_validator.Mempool.Machine.{Call, dispatch, step, run}
use quip_validator.Mempool.Machine
use quip_validator.Mempool.Invariant.{Inv}
use quip_validator.Mempool.Invariant.Calls.Blocks.{on_initialize-Inv}
use quip_validator.Mempool.Invariant.Calls.Closing.{
  claim_reward-Inv, reclaim_order-Inv, purge_result-Inv,
}
use quip_validator.Mempool.Invariant.Calls.Submission.{
  propose_job-Inv, propose_job_with_payee_requirement-Inv, submit_solution_inner-Inv,
}

module _ {B : Type 0} where
  register_solver-Inv :
      (who : ℕ) (t : MinerType) (s : State B) → Inv s → Ensures Inv (register_solver who t s)
  unfolding register_solver
  register_solver-Inv who t s v =
      Ensures->> Inv (ensure (not (is_some (s.solvers who))) solver_already_registered) _ (λ h. v)

  deregister_solver-Inv : (who : ℕ) (s : State B) → Inv s → Ensures Inv (deregister_solver who s)
  unfolding deregister_solver
  deregister_solver-Inv who s v =
      Ensures->> Inv (ensure (is_some (s.solvers who)) solver_not_registered) _ (λ h. v)

  register_job_spec-Inv :
      (c : Config) (vm : QuantumVm) (builder : ℕ) (name : List ℕ) (f : Formulation) (p t : Option ℕ)
      (s : State B)
      → Inv s
      → Ensures Inv (register_job_spec c vm builder name f p t s)
  unfolding register_job_spec insert_job_spec
  register_job_spec-Inv c vm builder name f p t s v =
      Ensures->>= Inv (insert_job_spec c vm builder name f p t s.block_number true s) _
        (λ r e. Ensures-ok (λ x. Inv x.1) _ stored e)
    where
      stored :
          Ensures (λ x. Inv x.1) (insert_job_spec c vm builder name f p t s.block_number true s)
      stored =
          Ensures->> (λ x. Inv x.1)
            (ensure (not (is_some (s.job_specs (c.spec_hash name f p t)))) job_spec_already_exists)
            _ (λ h1. Ensures->> (λ x. Inv x.1) (vm.validate_programs p t) _ (λ h2. v))

module _ (c : Config) (vm : QuantumVm) {B : Type 0} (cur : Currency B) where
  dispatch-Inv : (call : Call) (s : State B) → Inv s → Ensures Inv (dispatch c vm cur call s)
  unfolding dispatch submit_solution submit_solution_with_payee
  dispatch-Inv (Machine.registers_solver who t) s v = register_solver-Inv who t s v
  dispatch-Inv (Machine.deregisters_solver who) s v = deregister_solver-Inv who s v
  dispatch-Inv (Machine.registers_job_spec builder name f p t) s v =
      register_job_spec-Inv c vm builder name f p t s v
  dispatch-Inv (Machine.proposes who p) s v = propose_job-Inv c cur who p s v
  dispatch-Inv (Machine.proposes_with_payee who p chain) s v =
      propose_job_with_payee_requirement-Inv c cur who p chain s v
  dispatch-Inv (Machine.submits who id solutions) s v =
      submit_solution_inner-Inv c vm who id solutions none s v
  dispatch-Inv (Machine.submits_with_payee who id solutions payee) s v =
      submit_solution_inner-Inv c vm who id solutions (some payee) s v
  dispatch-Inv (Machine.claims who id) s v = claim_reward-Inv cur vm id s v
  dispatch-Inv (Machine.reclaims who id) s v = reclaim_order-Inv cur who id s v
  dispatch-Inv (Machine.purges who id) s v = purge_result-Inv c id s v
  dispatch-Inv Machine.starts_block s v = on_initialize-Inv c s v

  step-Inv : (call : Call) (s : State B) → Inv s → Inv (step c vm cur call s)
  unfolding step
  step-Inv call s v = outcome (dispatch c vm cur call s) (dispatch-Inv call s v)
    where
      outcome : (r : Outcome B) → Ensures Inv r → Inv (elim r [ ok s' ↦ s' | err e ↦ s ])
      outcome (ok s') h = h
      outcome (err e) h = v

  -- From a state of the storage invariant, every sequence of calls and block starts, in any order and
  -- failing or not, ends in a state of the invariant: every ranked set is sorted, names no solver twice
  -- and has at most 32 entries; every order's resolution is in range, and once it has a solution its
  -- ranking state is there to pay from; and the index of open orders holds exactly the orders that are
  -- opened.
  pub run-Inv : (calls : List Call) (s : State B) → Inv s → Inv (run c vm cur calls s)
  unfolding run
  run-Inv [] s v = v
  run-Inv (call ∷ calls) s v = run-Inv calls (step c vm cur call s) (step-Inv call s v)
