-- ===== src/Mempool/Submit/Accept.antt =====
-- The writes of an accepted submission in `submit_solution_inner`, in their order
-- (pallets/quantum-compute-mempool/src/lib.rs).
use quip_validator.Prelude.{
  ℕ, ◌==◌, ltb, ◌&&◌, Bool, true, false, if◌then◌else◌, length, Option, none, some, is_some, ok,
  ◌>>=◌, put, sat_add, u32_max, u64_max,
}
use quip_validator.Mempool.Types.{JobOrder, SolverInfo, WinnerPayee}
use quip_validator.Mempool.Lifecycle.{effective_expiry}
use quip_validator.Mempool.State.{
  Config, State, Outcome, put₂, deposit_event, first_solution_received, block_wait_started,
  solution_payee_set, solution_accepted,
}
use quip_validator.Mempool.Expiry.{schedule_expiry, unschedule}
use quip_validator.Mempool.Payouts.{update_ranking}
use quip_validator.Mempool.Submit.Score.{Evaluation}

abbrev pub same_payee : Option WinnerPayee → Option WinnerPayee → Bool
same_payee none none = true
same_payee (some a) (some b) = (a.chain == b.chain) && (a.address == b.address)
same_payee _ _ = false

-- `solution_count` grows for a solver's first accepted submission only.
abbrev pub count_solver : Bool → ℕ → ℕ
count_solver true n = n
count_solver false n = sat_add u32_max n 1

abbrev pub first_at : ℕ → Option ℕ → ℕ
first_at now none = now
first_at now (some first) = first

-- The order as it is written back.
unfoldable pub updated_order : Bool → ℕ → JobOrder → JobOrder
updated_order known now order = record order {
  solution_count = count_solver known order.solution_count;
  first_solution_at = some (first_at now order.first_solution_at);
}

module _ {B : Type 0} where
  unfoldable pub store_solution : ℕ → ℕ → SolverInfo → Evaluation → State B → State B
  store_solution solver order_id info e s = record s {
    order_solutions = put₂ s.order_solutions order_id solver (
        some (record {
          solver = solver;
          solver_type = info.solver_type;
          solutions = e.selected;
          best_energy_milli = e.best_energy;
          diversity_milli = e.diversity;
          num_valid = length e.selected;
          submitted_at = s.block_number;
        }));
  }

  unfoldable pub set_payee : ℕ → ℕ → Option WinnerPayee → State B → State B
  set_payee solver order_id payee s =
      if same_payee (s.order_payees order_id solver) payee
      then s
      else (deposit_event (solution_payee_set order_id solver payee)
          (record s { order_payees = put₂ s.order_payees order_id solver payee }))

  -- The last writes: the solver's count, the order, and the event.
  unfoldable pub finish_submission : ℕ → ℕ → SolverInfo → JobOrder → Evaluation → State B → State B
  finish_submission solver order_id info order e s =
      deposit_event (solution_accepted order_id solver e.best_energy e.diversity) (record s {
        solvers = put s.solvers solver (
            some
              (record info { solutions_submitted = sat_add u64_max info.solutions_submitted 1 }));
        job_orders = put s.job_orders order_id (some order);
      })

module _ (c : Config) {B : Type 0} where
  -- The first accepted solution of an order starts the block wait.
  unfoldable pub start_wait : ℕ → ℕ → JobOrder → State B → State B
  unfolding schedule_expiry unschedule effective_expiry
  start_wait solver order_id order s =
      let closes_at : ℕ =
        effective_expiry c.last_block order.created_at (some s.block_number) order.timing in
      let hard_deadline : ℕ = sat_add c.last_block order.created_at order.timing.deadline_blocks in
      let moved : State B =
        if ltb closes_at hard_deadline
        then (schedule_expiry c order_id closes_at (unschedule hard_deadline order_id s))
        else s in
      deposit_event (block_wait_started order_id s.block_number closes_at)
        (deposit_event (first_solution_received order_id solver closes_at) moved)

  unfoldable pub start_wait_if_first : ℕ → ℕ → JobOrder → State B → State B
  unfolding start_wait
  start_wait_if_first solver order_id order s = elim order.first_solution_at [
    | none ↦ start_wait solver order_id order s
    | some first ↦ s
  ]

  unfoldable pub accept :
      ℕ → ℕ → Option WinnerPayee → SolverInfo → JobOrder → Evaluation → State B → Outcome B
  unfolding store_solution updated_order start_wait_if_first set_payee finish_submission
  accept solver order_id payee info order e s =
      let known : Bool = is_some (s.order_solutions order_id solver) in
      let waiting : State B =
        start_wait_if_first solver order_id order (store_solution solver order_id info e s) in
      update_ranking order_id order.resolution solver e.best_energy waiting >>= λ ranked. ok (
        finish_submission solver order_id info (updated_order known s.block_number order) e
          (set_payee solver order_id payee ranked))
