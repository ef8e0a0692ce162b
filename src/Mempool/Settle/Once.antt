-- ===== src/Mempool/Settle/Once.antt =====
-- What a successful claim or reclaim does: it moves the reward once, and closes the order.
use mathlib.Core.Path.{subst}
use quip_validator.Prelude.{
  ℕ, ◌==◌, ◌≤◌, ◌<◌, ◌≡◌, refl, ap, ◌∙◌, ltb, ltb→lt, Bool, true, false, not, if◌then◌else◌, List,
  [], ◌∷◌, Option, none, some, Result, ok, err, ◌>>=◌, ◌>>◌, ensure, ensure-eq-ok, ok_or,
  ok_or-eq-ok, Ensures, Ensures->>=, Ensures->>, Ensures-ok, Bool-cases, Option-cases, inl, inr,
  put, ==_refl, ==→eq, u128_max,
}
use quip_validator.Mempool.Types.{closed, JobOrder}
use quip_validator.Mempool.Rewards.{Payout}
use quip_validator.Mempool.Rewards.Conservation.{total_paid}
use quip_validator.Mempool.State.{
  Currency, QuantumVm, State, Outcome, Error, currency, order_not_found, job_spec_not_found,
  already_claimed, order_not_expired, no_solutions_accepted, reward_reserve_missing, not_proposer,
  deposit_event, reward_claimed,
}
use quip_validator.Mempool.Payouts.{compute_payouts, winner_summaries_from_payouts}
use quip_validator.Mempool.Settle.{
  earn, is_closed, is_expired_status, pay_one, pay_all, release_reserve, release_proposer_slot,
  close_order, claim_reward, reclaim_order,
}
use quip_validator.Mempool.Invariant.{Inv}
use quip_validator.Mempool.Invariant.Payment.{compute_payouts_total}

abbrev pub is_ok : {E : Type 0} {A : Type 0} → Result E A → Bool
is_ok (ok a) = true
is_ok (err e) = false

-- The order is stored, and closed.
abbrev pub is_settled : Option JobOrder → Bool
is_settled none = false
is_settled (some o) = is_closed o.status

-- The transfers of the payouts, one after the other; a payout of nothing makes none.
abbrev pub transfers : {B : Type 0} → Currency B → ℕ → List Payout → B → Option B
transfers cur proposer [] bank = some bank
transfers cur proposer ((winner, amount, energy) ∷ ps) bank =
    if amount == 0
    then transfers cur proposer ps bank
    else elim (cur.transfer proposer winner amount bank) [
      | none ↦ none
      | some after ↦ transfers cur proposer ps after
    ]

module _ {B : Type 0} (cur : Currency B) (id proposer : ℕ) where
  -- The orders are as in `s`, and what is left to pay leads to the bank that paying all leads to.
  abbrev Paid : State B → List Payout → State B → Type 0
  Paid s ps s' = (s'.job_orders ≡ s.job_orders) × (transfers cur proposer ps s.bank ≡ some s'.bank)

  pay_all-Paid :
      (ps : List Payout) (s : State B) → Ensures (Paid s ps) (pay_all cur id proposer ps s)
  unfolding pay_all pay_one
  pay_all-Paid [] s = (refl, refl)
  pay_all-Paid ((winner, amount, energy) ∷ ps) s =
      moved (amount == 0) (cur.transfer proposer winner amount s.bank) (pay_all-Paid ps s)
        (λ bank. pay_all-Paid ps (credited bank))
    where
      credited : B → State B
      credited bank = deposit_event (reward_claimed id winner amount) (record s {
        bank = bank;
        solvers = put s.solvers winner (earn amount (s.solvers winner));
      })

      onward : Option B → Option B
      onward r = elim r [ none ↦ none | some after ↦ transfers cur proposer ps after ]

      moved :
          (nothing : Bool) (r : Option B)
          → Ensures (Paid s ps) (pay_all cur id proposer ps s)
          → ((bank : B)
              → Ensures (Paid (credited bank) ps) (pay_all cur id proposer ps (credited bank)))
          → Ensures
              (λ s'.
                (s'.job_orders ≡ s.job_orders)
                × ((if nothing then transfers cur proposer ps s.bank else onward r) ≡ some s'.bank))
              ((if nothing then ok s else (ok_or r currency >>= λ bank. ok (credited bank)))
                >>= λ s'. pay_all cur id proposer ps s')
      moved true r same k = same
      moved false none same k = tt
      moved false (some bank) same k = k bank

module _ {B : Type 0} (cur : Currency B) where
  release_reserve-Released :
      (who reward : ℕ) (s : State B)
      → Ensures
          (λ s'. (s'.job_orders ≡ s.job_orders) × (cur.unreserve who reward s.bank ≡ (0, s'.bank)))
          (release_reserve cur who reward s)
  unfolding release_reserve
  release_reserve-Released who reward s = released (cur.unreserve who reward s.bank)
    where
      released :
          (r : ℕ × B)
          → Ensures
              (λ s'. (s'.job_orders ≡ s.job_orders) × (r ≡ (0, s'.bank)))
              (ensure (r.0 == 0) reward_reserve_missing >> ok (record s { bank = r.1 }))
      released (missing, bank) = elim (Bool-cases (missing == 0)) [
        | inl none_missing ↦
            rw none_missing (refl, ap (λ m. (m, bank)) (==→eq missing 0 none_missing))
        | inr some_missing ↦ rw some_missing tt
      ]

  -- What a claim that succeeds found and did.
  abbrev ClaimsOf : ℕ → State B → State B → JobOrder → Type 0
  ClaimsOf id s s' o =
      (is_expired_status o.status ≡ true)
      × (0 < o.solution_count)
      × (ps : List Payout) × (bank : B) × (compute_payouts id o s ≡ ok ps)
      × (cur.unreserve o.proposer o.reward s.bank ≡ (0, bank))
      × (transfers cur o.proposer ps bank ≡ some s'.bank)
      × (s'.job_orders ≡ put s.job_orders id (some (record o { status = closed })))

  abbrev Claims : ℕ → State B → State B → Type 0
  Claims id s s' = (o : JobOrder) × (s.job_orders id ≡ some o) × ClaimsOf id s s' o

  claim_reward-Claims :
      (vm : QuantumVm) (id : ℕ) (s : State B) → Ensures (Claims id s) (claim_reward cur vm id s)
  unfolding claim_reward close_order release_proposer_slot
  claim_reward-Claims vm id s =
      Ensures->>= (Claims id s) (ok_or (s.job_orders id) order_not_found) _ (λ o e1.
        Ensures->>= (Claims id s) (ok_or (s.job_specs o.spec_id) job_spec_not_found) _ (λ spec e2.
          Ensures->> (Claims id s) (ensure (not (is_closed o.status)) already_claimed) _ (λ h1.
            Ensures->> (Claims id s) (ensure (is_expired_status o.status) order_not_expired) _
              (λ h2.
                Ensures->> (Claims id s) (ensure (ltb 0 o.solution_count) no_solutions_accepted) _
                  (λ h3. Ensures->>= (Claims id s) (compute_payouts id o s) _ (λ ps e3.
                    Ensures->>= (Claims id s) (winner_summaries_from_payouts ps) _ (λ winners e4.
                      Ensures->> (Claims id s)
                        (vm.validate_result o.spec_id spec.validation_program spec.transform_program
                          winners)
                        _
                        (λ h4.
                          Ensures->>= (Claims id s) (release_reserve cur o.proposer o.reward s) _
                            (λ s1 e5.
                              Ensures->>= (Claims id s) (pay_all cur id o.proposer ps s1) _
                                (λ s2 e6.
                                  let (same1, released) =
                                    Ensures-ok
                                      (λ x.
                                        (x.job_orders ≡ s.job_orders)
                                        × (cur.unreserve o.proposer o.reward s.bank ≡ (0, x.bank)))
                                      _ (release_reserve-Released o.proposer o.reward s) e5 in
                                  let (same2, paid) =
                                    Ensures-ok (Paid cur id o.proposer s1 ps) _
                                      (pay_all-Paid cur id o.proposer ps s1) e6 in
                                  (
                                    o,
                                    ok_or-eq-ok (s.job_orders id) order_not_found e1,
                                    (
                                      ensure-eq-ok (is_expired_status o.status) order_not_expired
                                          h2,
                                      ltb→lt 0 o.solution_count (
                                          ensure-eq-ok (ltb 0 o.solution_count)
                                            no_solutions_accepted h3),
                                      ps,
                                      s1.bank,
                                      e3,
                                      released,
                                      paid,
                                      ap (λ f. put f id (some (record o { status = closed })))
                                          (same2 ∙ same1),
                                    ),
                                  )))))))))))

  closed-refused :
      (vm : QuantumVm) (caller id : ℕ) (s : State B)
      → is_settled (s.job_orders id) ≡ true
      → (is_ok (claim_reward cur vm id s) ≡ false) × (is_ok (reclaim_order cur caller id s) ≡ false)
  unfolding claim_reward reclaim_order
  closed-refused vm caller id s h = elim (Option-cases (s.job_orders id)) [
    | inl missing ↦ absurd (cc)
    | inr (o, found) ↦ elim (Option-cases (s.job_specs o.spec_id)) [
      | inl no_spec ↦ rw (found, no_spec) (refl, reclaims (o.proposer == caller) _ (rw found at h))
      | inr (spec, known) ↦ rw (found, known, rw found at h) (refl, refused (o.proposer == caller))
    ]
  ]
    where
      the_error : Outcome B
      the_error = err already_claimed

      refused : (mine : Bool) → is_ok (ensure mine not_proposer >> the_error) ≡ false
      refused true = refl
      refused false = refl

      reclaims :
          (mine : Bool) {b : Bool} (k : Outcome B)
          → b ≡ true
          → is_ok (ensure mine not_proposer >> (ensure (not b) already_claimed >> k)) ≡ false
      reclaims true k h = rw h refl
      reclaims false k h = refl

  put-settled :
      (id : ℕ) (o : JobOrder) (orders orders' : ℕ → Option JobOrder)
      → orders' ≡ put orders id (some (record o { status = closed }))
      → is_settled (orders' id) ≡ true
  put-settled id o orders orders' h = rw (h, ==_refl id) refl

  -- After a claim that succeeds, neither another claim nor a reclaim of the same order succeeds, whoever
  -- calls and whatever the VM answers.
  pub claim_reward-once :
      (vm vm' : QuantumVm) (caller id : ℕ) (s s' : State B)
      → claim_reward cur vm id s ≡ ok s'
      → (is_ok (claim_reward cur vm' id s') ≡ false)
        × (is_ok (reclaim_order cur caller id s') ≡ false)
  claim_reward-once vm vm' caller id s s' h =
      let (o, _, (_, _, _, _, _, _, _, stored)) =
        Ensures-ok (Claims id s) (claim_reward cur vm id s) (claim_reward-Claims vm id s) h in
      closed-refused vm' caller id s' (put-settled id o s.job_orders s'.job_orders stored)

  -- In a state of the invariant, a claim that succeeds on an order with a `u128` reward found it expired
  -- and with a solution; it took the whole reward off the reserve and transferred the payouts that
  -- `compute_payouts` gives, one after the other, which add up to the reward; and it closed that order and
  -- changed no other.
  pub claim_reward_pays :
      (vm : QuantumVm) (id : ℕ) (o : JobOrder) (s s' : State B)
      → Inv s
      → s.job_orders id ≡ some o
      → o.reward ≤ u128_max
      → claim_reward cur vm id s ≡ ok s'
      → (is_expired_status o.status ≡ true)
        × (0 < o.solution_count)
        × (ps : List Payout) × (bank : B) × (compute_payouts id o s ≡ ok ps)
        × (total_paid ps ≡ o.reward)
        × (cur.unreserve o.proposer o.reward s.bank ≡ (0, bank))
        × (transfers cur o.proposer ps bank ≡ some s'.bank)
        × (s'.job_orders ≡ put s.job_orders id (some (record o { status = closed })))
  claim_reward_pays vm id o s s' v found fits h =
      let (o', found', claimed) =
        Ensures-ok (Claims id s) (claim_reward cur vm id s) (claim_reward-Claims vm id s) h in
      let (late', solved', ps', bank', computed', released', paid', stored') =
        subst (ClaimsOf id s s') (some-same (s.job_orders id) found' found) claimed in
      let (ps'', computed'', total, _) = compute_payouts_total s v id o found solved' fits in
      (
        late',
        solved',
        ps',
        bank',
        computed',
        total_of _ computed'' computed' total,
        released',
        paid',
        stored',
      )
    where
      some-same : (x : Option JobOrder) {a b : JobOrder} → x ≡ some a → x ≡ some b → a ≡ b
      some-same x p q = cc

      total_of :
          (r : Result Error (List Payout)) {a b : List Payout} {n : ℕ}
          → r ≡ ok a
          → r ≡ ok b
          → total_paid a ≡ n
          → total_paid b ≡ n
      total_of r p q t = cc
