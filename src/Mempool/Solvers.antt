-- ===== src/Mempool/Solvers.antt =====
-- Solver and spec registration (pallets/quantum-compute-mempool/src/lib.rs). A signed call is a function
-- of the account that signed it.
use quip_validator.Prelude.{
  ℕ, Bool, true, not, if◌then◌else◌, List, [], ◌∷◌, Option, none, some, is_some, Result, ok, ◌>>=◌,
  ◌>>◌, ensure, put,
}
use quip_validator.Mempool.Types.{Formulation, ising, MinerType}
use quip_validator.Mempool.State.{
  Config, QuantumVm, State, Outcome, Error, solver_already_registered, solver_not_registered,
  job_spec_already_exists, deposit_event, solver_registered, solver_deregistered,
  job_spec_registered,
}

-- b"plain-ising-v1"
abbrev pub default_ising_spec_name : List ℕ
default_ising_spec_name =
    0x70 ∷ 0x6c ∷ 0x61 ∷ 0x69 ∷ 0x6e ∷ 0x2d ∷ 0x69 ∷ 0x73 ∷ 0x69 ∷ 0x6e ∷ 0x67 ∷ 0x2d ∷ 0x76 ∷ 0x31
    ∷ []

module _ {B : Type 0} where
  unfoldable pub register_solver : ℕ → MinerType → State B → Outcome B
  register_solver who solver_type s =
      ensure (not (is_some (s.solvers who))) solver_already_registered
      >> ok (
          deposit_event (solver_registered who solver_type) (record s {
            solvers = put s.solvers who (
                some (record {
                  account = who;
                  solver_type = solver_type;
                  registered_at = s.block_number;
                  solutions_submitted = 0;
                  rewards_earned = 0;
                }));
          }))

  unfoldable pub deregister_solver : ℕ → State B → Outcome B
  deregister_solver who s =
      ensure (is_some (s.solvers who)) solver_not_registered
      >> ok
          (deposit_event (solver_deregistered who) (record s { solvers = put s.solvers who none }))

module _ (c : Config) (vm : QuantumVm) {B : Type 0} where
  unfoldable pub insert_job_spec :
      ℕ
      → List ℕ
      → Formulation
      → Option ℕ
      → Option ℕ
      → ℕ
      → Bool
      → State B
      → Result Error (ℕ × State B)
  insert_job_spec builder name formulation validation_program transform_program registered_at emit
        s =
      let spec_id : ℕ = c.spec_hash name formulation validation_program transform_program in
      let stored : State B = record s {
        job_specs = put s.job_specs spec_id (
            some (record {
              builder = builder;
              name = name;
              formulation = formulation;
              validation_program = validation_program;
              transform_program = transform_program;
              registered_at = registered_at;
              total_orders = 0;
              successful_orders = 0;
            }));
      } in
      ensure (not (is_some (s.job_specs spec_id))) job_spec_already_exists
      >> (vm.validate_programs validation_program transform_program
          >> ok (
            spec_id,
            if emit then deposit_event (job_spec_registered spec_id builder) stored else stored,
          ))

  -- The root call.
  unfoldable pub register_job_spec :
      ℕ → List ℕ → Formulation → Option ℕ → Option ℕ → State B → Outcome B
  unfolding insert_job_spec
  register_job_spec builder name formulation validation_program transform_program s =
      insert_job_spec builder name formulation validation_program transform_program s.block_number
        true s
      >>= λ r. ok r.1

  unfoldable pub insert_default_ising_spec : ℕ → Bool → State B → Result Error (ℕ × State B)
  unfolding insert_job_spec
  insert_default_ising_spec builder emit s =
      insert_job_spec builder default_ising_spec_name ising none none s.block_number emit s
