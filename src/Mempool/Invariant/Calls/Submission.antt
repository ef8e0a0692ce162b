-- ===== src/Mempool/Invariant/Calls/Submission.antt =====
-- Proposals and submissions keep the invariant.
use quip_validator.Prelude.{
  ℕ, ◌==◌, ◌≡◌, ◌≤◌, ◌<◌, refl, ap, ◌∙◌, leb, ltb, ◌&&◌, &&-split, ltb→lt, leb→le, Bool, true,
  false, not, if◌then◌else◌, List, length, Option, none, some, is_some, Result, ok, err, ◌>>=◌,
  ◌>>◌, ensure, ensure-eq-ok, ok_or, ok_or-eq-ok, >>-eq-ok, Ensures, Ensures->>=, Ensures->>,
  Ensures-ok, sat_add,
}
use quip_validator.Prelude.Int.{ℤ}
use quip_validator.Mempool.Types.{
  max_reward_winners, RewardResolution, single_best, top_n_weighted, top_n_equal, JobOrder,
  SolverInfo, WinnerPayee,
}
use quip_validator.Quantum.Topology.{new_index}
use quip_validator.Quantum.Consistency.{validate_topology_consistency}
use quip_validator.Mempool.Delivery.{validate_delivery_mode}
use quip_validator.Mempool.State.{
  TransformOutcome, no_solutions_submitted, order_not_open, invalid_payee, not_eligible_solver,
  too_many_solutions, invalid_payee_chain, reward_too_low, deadline_too_long, block_wait_too_long,
  invalid_topology, invalid_delivery_mode, Config, Currency, QuantumVm, State, Error, currency,
  order_not_found, solver_not_registered, job_spec_not_found,
}
use quip_validator.Mempool.Lifecycle.{effective_expiry}
use quip_validator.Mempool.Expiry.{schedule_expiry, unschedule}
use quip_validator.Mempool.Payouts.{update_ranking}
use quip_validator.Mempool.Propose.{
  Proposal, ensure_valid_mode, ensure_valid_resolution, ensure_min_solutions, ensure_diversity,
  check_proposal, is_empty, try_push, do_propose_job, propose_job,
  propose_job_with_payee_requirement,
}
use quip_validator.Mempool.Submit.{
  is_nil, accepts_solutions, payee_valid, payee_matches, solver_is_eligible, SubmitRun, Admission,
  admit, settle_submission, submit_solution_inner,
}
use quip_validator.Mempool.Submit.Score.{Evaluation, evaluate, from_validation}
use quip_validator.Mempool.Submit.Accept.{
  same_payee, store_solution, updated_order, start_wait, start_wait_if_first, set_payee,
  finish_submission, accept,
}
use quip_validator.Mempool.Invariant.{IsReady, IsValidResolution, Inv}
use quip_validator.Mempool.Invariant.Rank.{Ranks, update_ranking-Ranks}
use quip_validator.Mempool.Invariant.Writes.{store_order-Inv, over-InvOf, IsPayable-some}

in_range :
    (n : ℕ) → (ltb 0 n && leb n max_reward_winners) ≡ true → (0 < n) × (n ≤ max_reward_winners)
in_range n h = let (p, q) = &&-split _ _ h in (ltb→lt 0 n p, leb→le n max_reward_winners q)

ensure_valid_resolution_sound :
    (r : RewardResolution) → ensure_valid_resolution r ≡ ok tt → IsValidResolution r
unfolding ensure_valid_resolution
ensure_valid_resolution_sound single_best h = tt
ensure_valid_resolution_sound (top_n_weighted n) h = in_range n (ensure-eq-ok _ _ h)
ensure_valid_resolution_sound (top_n_equal n) h = in_range n (ensure-eq-ok _ _ h)

check_proposal_sound :
    (c : Config) (known : Bool) (p : Proposal)
    → check_proposal c known p ≡ ok tt
    → IsValidResolution p.resolution
unfolding check_proposal
check_proposal_sound c known p h = ensure_valid_resolution_sound p.resolution (
    last_of (ensure (leb c.min_reward p.reward) reward_too_low)
      (ensure (leb p.deadline_blocks c.max_deadline_blocks) deadline_too_long)
      (ensure (leb p.block_wait c.max_block_wait) block_wait_too_long)
      (ensure known job_spec_not_found)
      (ensure_min_solutions c.max_solutions p.ising_params.min_solutions)
      (ensure_diversity p.ising_params.min_diversity_milli p.ising_params.min_solutions)
      (ensure
        (is_empty (
          validate_topology_consistency p.ising_params.nodes p.ising_params.edges
            p.ising_params.h_values p.ising_params.j_values none none))
        invalid_topology)
      (ensure (validate_delivery_mode p.delivery p.mode) invalid_delivery_mode)
      (ensure_valid_mode p.mode) h)
  where
    last_of :
        (a b c d e f g i j : Result Error (Unit {0})) {k : Result Error (Unit {0})}
        → (a >> (b >> (c >> (d >> (e >> (f >> (g >> (i >> (j >> k))))))))) ≡ ok tt
        → k ≡ ok tt
    last_of a b c d e f g i j h = >>-eq-ok j _ (
        >>-eq-ok i _ (
          >>-eq-ok g _ (
            >>-eq-ok f _
              (>>-eq-ok e _ (>>-eq-ok d _ (>>-eq-ok c _ (>>-eq-ok b _ (>>-eq-ok a _ h))))))))

module _ (c : Config) {B : Type 0} (cur : Currency B) where
  abbrev Stored : ℕ × State B → Type 0
  Stored r = Inv r.1

  do_propose_job-Inv :
      (proposer : ℕ) (p : Proposal) (s : State B)
      → Inv s
      → Ensures Stored (do_propose_job c cur proposer p s)
  unfolding do_propose_job
  do_propose_job-Inv proposer p s v =
      Ensures->> Stored (check_proposal c (is_some (s.job_specs p.spec_id)) p) _ (λ checked.
        Ensures->>= Stored (try_push c.max_orders_per_proposer _ s.next_order_id) _ (λ mine e1.
          Ensures->>= Stored (ok_or (cur.reserve proposer p.reward s.bank) currency) _ (λ bank e2.
            store_order-Inv s v c cur proposer p mine bank (check_proposal_sound c _ p checked))))

  pub propose_job-Inv :
      (proposer : ℕ) (p : Proposal) (s : State B)
      → Inv s
      → Ensures Inv (propose_job c cur proposer p s)
  unfolding propose_job
  propose_job-Inv proposer p s v =
      Ensures->>= Inv (do_propose_job c cur proposer p s) _
        (λ r e. Ensures-ok Stored _ (do_propose_job-Inv proposer p s v) e)

  pub propose_job_with_payee_requirement-Inv :
      (proposer : ℕ) (p : Proposal) (chain : ℕ) (s : State B)
      → Inv s
      → Ensures Inv (propose_job_with_payee_requirement c cur proposer p chain s)
  unfolding propose_job_with_payee_requirement
  propose_job_with_payee_requirement-Inv proposer p chain s v =
      Ensures->> Inv (ensure (not (chain == 0)) invalid_payee_chain) _ (λ h.
        Ensures->>= Inv (do_propose_job c cur proposer p s) _
          (λ r e. Ensures-ok Stored _ (do_propose_job-Inv proposer p s v) e))

module _ {B : Type 0} (id : ℕ) (o : JobOrder) where
  -- The storage is sound and holds the order.
  abbrev Holds : State B → Type 0
  Holds s = Inv s × (s.job_orders id ≡ some o)

  start_wait-Holds :
      (c : Config) (solver : ℕ) (s : State B) → Holds s → Holds (start_wait c solver id o s)
  unfolding start_wait schedule_expiry unschedule
  start_wait-Holds c solver s v =
      chosen
        (ltb (effective_expiry c.last_block o.created_at (some s.block_number) o.timing)
          (sat_add c.last_block o.created_at o.timing.deadline_blocks))
        _ s v v
    where
      chosen : (b : Bool) (s1 s2 : State B) → Holds s1 → Holds s2 → Holds (if b then s1 else s2)
      chosen true s1 s2 h k = h
      chosen false s1 s2 h k = k

  start_wait_if_first-Holds :
      (c : Config) (solver : ℕ) (s : State B)
      → Holds s
      → Holds (start_wait_if_first c solver id o s)
  unfolding start_wait_if_first
  start_wait_if_first-Holds c solver s v = chosen o.first_solution_at
    where
      chosen :
          (first : Option ℕ)
          → Holds (elim first [ none ↦ start_wait c solver id o s | some at ↦ s ])
      chosen none = start_wait-Holds c solver s v
      chosen (some at) = v

  abbrev Ready : State B → Type 0
  Ready s =
      Inv s
      × (s.job_orders id ≡ some o)
      × IsReady o.resolution (s.order_front_runner id) (s.order_top_solvers id)

  set_payee-Ready :
      (solver : ℕ) (payee : Option WinnerPayee) (s : State B)
      → Ready s
      → Ready (set_payee solver id payee s)
  unfolding set_payee
  set_payee-Ready solver payee s v = chosen (same_payee (s.order_payees id solver) payee) _ _ v v
    where
      chosen : (b : Bool) (s1 s2 : State B) → Ready s1 → Ready s2 → Ready (if b then s1 else s2)
      chosen true s1 s2 h k = h
      chosen false s1 s2 h k = k

  finish_submission-Inv :
      (solver : ℕ) (info : SolverInfo) (known : Bool) (now : ℕ) (e : Evaluation) (s : State B)
      → Ready s
      → Inv (finish_submission solver id info (updated_order known now o) e s)
  unfolding finish_submission updated_order
  finish_submission-Inv solver info known now e s (v, found, ready) =
      over-InvOf v id o (updated_order known now o) found refl
        ((IsPayable-some (s.job_orders id) o _ _ found (v.payable id)).0, λ h. ready)

  accept-Inv :
      (c : Config) (solver : ℕ) (payee : Option WinnerPayee) (info : SolverInfo) (e : Evaluation)
      (s : State B)
      → Holds s
      → Ensures Inv (accept c solver id payee info o e s)
  unfolding accept store_solution
  accept-Inv c solver payee info e s v =
      let waiting : State B =
        start_wait_if_first c solver id o (store_solution solver id info e s) in
      let (v1, found) = start_wait_if_first-Holds c solver (store_solution solver id info e s) v in
      Ensures->>= Inv (update_ranking id o.resolution solver e.best_energy waiting) _ (λ ranked h.
        after waiting ranked
          (Ensures-ok (Ranks id o.resolution waiting) _
            (update_ranking-Ranks waiting v1 id solver e.best_energy o.resolution
              (IsPayable-some (waiting.job_orders id) o _ _ found (v1.payable id)).0)
            h)
          found)
    where
      after :
          (w ranked : State B)
          → Ranks id o.resolution w ranked
          → w.job_orders id ≡ some o
          → Inv (
              finish_submission solver id info
                (updated_order (is_some (s.order_solutions id solver)) s.block_number o)
                e
                (set_payee solver id payee ranked))
      after w ranked (inv, ready, orders, index) found =
          finish_submission-Inv solver info _ _ e (set_payee solver id payee ranked)
            (set_payee-Ready solver payee ranked (inv, ap (λ f. f id) orders ∙ found, ready))

module _ (c : Config) (vm : QuantumVm) {B : Type 0} where
  abbrev About : ℕ → State B → Admission → Type 0
  About id s a = s.job_orders id ≡ some a.order

  admit-About :
      (solver id : ℕ) (solutions : List (List ℤ)) (payee : Option WinnerPayee) (s : State B)
      → Ensures (About id s) (admit c solver id solutions payee s)
  unfolding admit
  admit-About solver id solutions payee s =
      Ensures->>= (About id s) (ok_or (s.solvers solver) solver_not_registered) _ (λ info e1.
        Ensures->> (About id s) (ensure (not (is_nil solutions)) no_solutions_submitted) _ (λ h1.
          Ensures->>= (About id s) (ok_or (s.job_orders id) order_not_found) _ (λ o found.
            Ensures->>= (About id s) (ok_or (s.job_specs o.spec_id) job_spec_not_found) _
              (λ spec e2.
                Ensures->> (About id s) (ensure (accepts_solutions c o s) order_not_open) _ (λ h2.
                  Ensures->> (About id s) (ensure (payee_valid payee) invalid_payee) _ (λ h3.
                    Ensures->> (About id s) (payee_matches (s.order_payee_requirements id) payee) _
                      (λ h4.
                        Ensures->> (About id s)
                          (ensure (solver_is_eligible solver info.solver_type o.mode)
                            not_eligible_solver)
                          _
                          (λ h5.
                            Ensures->>= (About id s)
                              (from_validation
                                (new_index o.ising_params.nodes o.ising_params.edges))
                              _
                              (λ topology e3.
                                ok_or-eq-ok (s.job_orders id) order_not_found found)))))))))

  settle_submission-Inv :
      (solver id : ℕ) (payee : Option WinnerPayee) (a : Admission) (transformed : List (List ℤ))
      (s : State B)
      → Inv s
      → About id s a
      → Ensures Inv (settle_submission c solver id payee a transformed s)
  unfolding settle_submission
  settle_submission-Inv solver id payee a transformed s v about =
      Ensures->> Inv (ensure (not (is_nil transformed)) no_solutions_submitted) _ (λ h1.
        Ensures->> Inv (ensure (leb (length transformed) c.max_solutions) too_many_solutions) _
          (λ h2.
            Ensures->>= Inv
              (evaluate c a.order.ising_params a.topology (s.order_solutions id solver) transformed)
              _ (λ e h3. accept-Inv id a.order c solver payee a.solver_info e s (v, about))))

  pub submit_solution_inner-Inv :
      (solver id : ℕ) (solutions : List (List ℤ)) (payee : Option WinnerPayee) (s : State B)
      → Inv s
      → Ensures Inv (submit_solution_inner c vm solver id solutions payee s).result
  unfolding submit_solution_inner
  submit_solution_inner-Inv solver id solutions payee s v =
      admitted (admit c solver id solutions payee s) (admit-About solver id solutions payee s)
    where
      ran : Admission → TransformOutcome
      ran a =
          vm.transform_solutions a.order.spec_id a.spec.validation_program a.spec.transform_program
            solver solutions

      refused : Error → SubmitRun B
      refused e = record { vm_steps = 0; has_program = false; result = err e }

      settled : Admission → SubmitRun B
      settled a = record {
        vm_steps = (ran a).steps_used;
        has_program = is_some a.spec.transform_program;
        result =
            (ran a).result >>= λ transformed. settle_submission c solver id payee a transformed s;
      }

      answer : Result Error Admission → SubmitRun B
      answer r = elim r [ err e ↦ refused e | ok a ↦ settled a ]

      admitted :
          (r : Result Error Admission) → Ensures (About id s) r → Ensures Inv (answer r).result
      admitted (err e) h = tt
      admitted (ok a) h =
          Ensures->>= Inv (ran a).result _
            (λ transformed e. settle_submission-Inv solver id payee a transformed s v h)
