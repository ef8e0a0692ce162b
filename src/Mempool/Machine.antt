-- ===== src/Mempool/Machine.antt =====
-- The pallet as a state machine: the signed and root calls, and the start of a block.
use quip_validator.Prelude.{ℕ, List, [], ◌∷◌, Option, ok, err}
use quip_validator.Prelude.Int.{ℤ}
use quip_validator.Mempool.Types.{Formulation, MinerType, WinnerPayee}
use quip_validator.Mempool.State.{Config, Currency, QuantumVm, State, Outcome}
use quip_validator.Mempool.Solvers.{register_solver, deregister_solver, register_job_spec}
use quip_validator.Mempool.Propose.{Proposal, propose_job, propose_job_with_payee_requirement}
use quip_validator.Mempool.Submit.{submit_solution, submit_solution_with_payee}
use quip_validator.Mempool.Settle.{claim_reward, reclaim_order, purge_result}
use quip_validator.Mempool.Finalise.{on_initialize}

-- The calls; the first account is the one that signed.
pub data Call : Type 0 where
  registers_solver : ℕ → MinerType → Call
  deregisters_solver : ℕ → Call
  registers_job_spec : ℕ → List ℕ → Formulation → Option ℕ → Option ℕ → Call
  proposes : ℕ → Proposal → Call
  proposes_with_payee : ℕ → Proposal → ℕ → Call
  submits : ℕ → ℕ → List (List ℤ) → Call
  submits_with_payee : ℕ → ℕ → List (List ℤ) → WinnerPayee → Call
  claims : ℕ → ℕ → Call
  reclaims : ℕ → ℕ → Call
  purges : ℕ → ℕ → Call
  starts_block : Call

module _ (c : Config) (vm : QuantumVm) {B : Type 0} (cur : Currency B) where
  unfoldable pub dispatch : Call → State B → Outcome B
  dispatch (registers_solver who t) s = register_solver who t s
  dispatch (deregisters_solver who) s = deregister_solver who s
  dispatch (registers_job_spec builder name f v t) s = register_job_spec c vm builder name f v t s
  dispatch (proposes who p) s = propose_job c cur who p s
  dispatch (proposes_with_payee who p chain) s =
      propose_job_with_payee_requirement c cur who p chain s
  dispatch (submits who id solutions) s = (submit_solution c vm who id solutions s).result
  dispatch (submits_with_payee who id solutions payee) s =
      (submit_solution_with_payee c vm who id solutions payee s).result
  dispatch (claims who id) s = claim_reward cur vm id s
  dispatch (reclaims who id) s = reclaim_order cur who id s
  dispatch (purges who id) s = purge_result c id s
  dispatch starts_block s = on_initialize c s

  -- A call that fails leaves the storage as it was.
  unfoldable pub step : Call → State B → State B
  unfolding dispatch
  step call s = elim (dispatch call s) [ ok s' ↦ s' | err e ↦ s ]

  unfoldable pub run : List Call → State B → State B
  unfolding step
  run [] s = s
  run (call ∷ calls) s = run calls (step call s)
