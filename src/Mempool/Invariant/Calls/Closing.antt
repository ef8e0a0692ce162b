-- ===== src/Mempool/Invariant/Calls/Closing.antt =====
-- Claims, reclaims and purges keep the invariant.
use quip_validator.Prelude.{
  ℕ, ◌==◌, ◌≡◌, leb, ltb, not, List, [], ◌∷◌, some, ok, ensure, ok_or, ok_or-eq-ok, Ensures,
  Ensures->>=, Ensures->>, Ensures-ok, Bool-cases, inl, inr, sat_add,
}
use quip_validator.Mempool.Types.{JobOrder}
use quip_validator.Mempool.Rewards.{Payout}
use quip_validator.Mempool.State.{
  Config, Currency, QuantumVm, State, order_not_found, job_spec_not_found, result_not_found,
  currency, already_claimed, order_not_expired, no_solutions_accepted, reward_reserve_missing,
  not_proposer, result_ttl_not_elapsed,
}
use quip_validator.Mempool.Payouts.{compute_payouts, winner_summaries_from_payouts}
use quip_validator.Mempool.Settle.{
  is_closed, is_expired_status, pay_one, pay_all, release_reserve, claim_reward, reclaim_order,
  purge_result,
}
use quip_validator.Mempool.Invariant.{IsPayable, Inv}
use quip_validator.Mempool.Invariant.Writes.{close_order-Inv, IsPayable-some}

module _ {B : Type 0} where
  -- The storage is sound and the order may be written back.
  abbrev Kept : ℕ → JobOrder → State B → Type 0
  Kept id o s = Inv s × IsPayable (some o) (s.order_front_runner id) (s.order_top_solvers id)

  Kept-found :
      (id : ℕ) (o : JobOrder) (s : State B)
      → Inv s
      → ok_or (s.job_orders id) order_not_found ≡ ok o
      → Kept id o s
  Kept-found id o s v e = (
    v,
    IsPayable-some (s.job_orders id) o _ _ (ok_or-eq-ok (s.job_orders id) order_not_found e)
        (v.payable id),
  )

  pub purge_result-Inv :
      (c : Config) (id : ℕ) (s : State B) → Inv s → Ensures Inv (purge_result c id s)
  unfolding purge_result
  purge_result-Inv c id s v =
      Ensures->>= Inv (ok_or (s.order_results id) result_not_found) _ (λ stored e.
        Ensures->> Inv
          (ensure (leb (sat_add c.last_block stored.settled_at c.result_ttl_blocks) s.block_number)
            result_ttl_not_elapsed)
          _ (λ h. v))

module _ {B : Type 0} (cur : Currency B) (id : ℕ) (o : JobOrder) where
  pay_one-Kept :
      (proposer : ℕ) (p : Payout) (s : State B)
      → Kept id o s
      → Ensures (Kept id o) (pay_one cur id proposer p s)
  unfolding pay_one
  pay_one-Kept proposer (winner, payout, energy) s v = elim (Bool-cases (payout == 0)) [
    | inl nothing ↦ rw nothing v
    | inr something ↦ rw something (
        Ensures->>= (Kept id o) (ok_or (cur.transfer proposer winner payout s.bank) currency) _
          (λ bank e. v))
  ]

  pay_all-Kept :
      (proposer : ℕ) (ps : List Payout) (s : State B)
      → Kept id o s
      → Ensures (Kept id o) (pay_all cur id proposer ps s)
  unfolding pay_all
  pay_all-Kept proposer [] s v = v
  pay_all-Kept proposer (p ∷ ps) s v =
      Ensures->>= (Kept id o) (pay_one cur id proposer p s) _ (λ s' e.
        pay_all-Kept proposer ps s' (Ensures-ok (Kept id o) _ (pay_one-Kept proposer p s v) e))

  release_reserve-Kept :
      (who reward : ℕ) (s : State B)
      → Kept id o s
      → Ensures (Kept id o) (release_reserve cur who reward s)
  unfolding release_reserve
  release_reserve-Kept who reward s v =
      Ensures->> (Kept id o)
        (ensure ((cur.unreserve who reward s.bank).0 == 0) reward_reserve_missing) _ (λ h. v)

module _ {B : Type 0} (cur : Currency B) where
  pub reclaim_order-Inv :
      (caller id : ℕ) (s : State B) → Inv s → Ensures Inv (reclaim_order cur caller id s)
  unfolding reclaim_order
  reclaim_order-Inv caller id s v =
      Ensures->>= Inv (ok_or (s.job_orders id) order_not_found) _ (λ o found.
        Ensures->> Inv (ensure (o.proposer == caller) not_proposer) _ (λ h1.
          Ensures->> Inv (ensure (not (is_closed o.status)) already_claimed) _ (λ h2.
            Ensures->> Inv (ensure (is_expired_status o.status) order_not_expired) _ (λ h3.
              Ensures->> Inv (ensure (o.solution_count == 0) no_solutions_accepted) _ (λ h4.
                Ensures->>= Inv (release_reserve cur caller o.reward s) _ (λ s1 e.
                  let (v1, p1) =
                    Ensures-ok (Kept id o) _
                      (release_reserve-Kept cur id o caller o.reward s (Kept-found id o s v found))
                      e in
                  close_order-Inv s1 v1 id o p1))))))

  pub claim_reward-Inv :
      (vm : QuantumVm) (id : ℕ) (s : State B) → Inv s → Ensures Inv (claim_reward cur vm id s)
  unfolding claim_reward
  claim_reward-Inv vm id s v =
      Ensures->>= Inv (ok_or (s.job_orders id) order_not_found) _ (λ o found.
        Ensures->>= Inv (ok_or (s.job_specs o.spec_id) job_spec_not_found) _ (λ spec e2.
          Ensures->> Inv (ensure (not (is_closed o.status)) already_claimed) _ (λ h1.
            Ensures->> Inv (ensure (is_expired_status o.status) order_not_expired) _ (λ h2.
              Ensures->> Inv (ensure (ltb 0 o.solution_count) no_solutions_accepted) _ (λ h3.
                Ensures->>= Inv (compute_payouts id o s) _ (λ payouts e3.
                  Ensures->>= Inv (winner_summaries_from_payouts payouts) _ (λ winners e4.
                    Ensures->> Inv
                      (vm.validate_result o.spec_id spec.validation_program spec.transform_program
                        winners)
                      _
                      (λ h4. Ensures->>= Inv (release_reserve cur o.proposer o.reward s) _ (λ s1 e5.
                        Ensures->>= Inv (pay_all cur id o.proposer payouts s1) _ (λ s2 e6.
                          let k1 =
                            Ensures-ok (Kept id o) _
                              (release_reserve-Kept cur id o o.proposer o.reward s
                                (Kept-found id o s v found))
                              e5 in
                          let (v2, p2) =
                            Ensures-ok (Kept id o) _
                              (pay_all-Kept cur id o o.proposer payouts s1 k1) e6 in
                          close_order-Inv s2 v2 id o p2))))))))))
