-- ===== src/Mempool/Invariant/Calls/Blocks.antt =====
-- The start of a block keeps the invariant.
use quip_validator.Prelude.{
  ℕ, zero, suc, ◌+◌, ◌-◌, ◌==◌, ◌≡◌, refl, leb, ltb, ◌&&◌, Bool, true, false, List, [], ◌∷◌, length,
  Option, none, some, Result, ok, err, ◌>>=◌, Ensures, Ensures->>=, Ensures-ok, Bool-cases, inl,
  inr, sat_add,
}
use quip_validator.Mempool.Types.{
  ResultDelivery, on_chain_only, callback, callback_with_poll, JobOrder, WinnerSummary, expired,
  max_finalised_orders_per_block,
}
use quip_validator.Mempool.Rewards.{Payout}
use quip_validator.Mempool.State.{Config, State, Error}
use quip_validator.Mempool.Payouts.{winner_summaries_from_payouts}
use quip_validator.Mempool.Expiry.{unschedule}
use quip_validator.Mempool.Finalise.{
  is_opened, persist_result_if_needed, emit_result_ready, mark_expired, announce_payouts,
  announce_result, finalise_opened, finalise_stored, finalise_order, finalise_each, Drained, batch,
  drain, finalise_expired_orders, on_initialize,
}
use quip_validator.Mempool.Invariant.{Inv}
use quip_validator.Mempool.Invariant.Writes.{mark_expired-Inv}

module _ {B : Type 0} where
  persist-Inv :
      (id : ℕ) (o : JobOrder) (winners : List WinnerSummary) (d : ResultDelivery) (s : State B)
      → o.delivery ≡ d
      → Inv s
      → Inv (persist_result_if_needed id o winners s)
  unfolding persist_result_if_needed
  persist-Inv id o winners on_chain_only s e v = rw e v
  persist-Inv id o winners (callback endpoint) s e v = rw e v
  persist-Inv id o winners (callback_with_poll endpoint) s e v = rw e v

  emit-Inv :
      (id : ℕ) (d : ResultDelivery) (winners : List WinnerSummary) (s : State B)
      → Inv s
      → Inv (emit_result_ready id d winners s)
  unfolding emit_result_ready
  emit-Inv id on_chain_only winners s v = v
  emit-Inv id (callback endpoint) winners s v = v
  emit-Inv id (callback_with_poll endpoint) winners s v = v

  announce_payouts-Inv :
      (id : ℕ) (o : JobOrder) (r : Result Error (List Payout)) (s : State B)
      → Inv s
      → Ensures Inv (announce_payouts id o r s)
  unfolding announce_payouts
  announce_payouts-Inv id o (ok payouts) s v =
      Ensures->>= Inv (winner_summaries_from_payouts payouts) _ (λ winners e.
        emit-Inv id o.delivery winners (persist_result_if_needed id o winners s)
          (persist-Inv id o winners o.delivery s refl v))
  announce_payouts-Inv id o (err e) s v = v

  finalise_opened-Inv :
      (id : ℕ) (o : JobOrder) (s : State B)
      → s.job_orders id ≡ some o
      → Inv s
      → Ensures Inv (finalise_opened id o s)
  unfolding finalise_opened announce_result
  finalise_opened-Inv id o s e v = elim (Bool-cases (o.solution_count == 0)) [
    | inl empty ↦ rw empty (mark_expired-Inv s v id o e)
    | inr solved ↦ rw solved (
        announce_payouts-Inv id (record o { status = expired }) _ (mark_expired id o s)
          (mark_expired-Inv s v id o e))
  ]

  finalise_stored-Inv :
      (id : ℕ) (stored : Option JobOrder) (s : State B)
      → s.job_orders id ≡ stored
      → Inv s
      → Ensures Inv (finalise_stored id stored s)
  unfolding finalise_stored
  finalise_stored-Inv id none s e v = v
  finalise_stored-Inv id (some o) s e v = elim (Bool-cases (is_opened o.status)) [
    | inl live ↦ rw live (finalise_opened-Inv id o s e v)
    | inr done ↦ rw done v
  ]

  pub finalise_order-Inv : (id : ℕ) (s : State B) → Inv s → Ensures Inv (finalise_order id s)
  unfolding finalise_order
  finalise_order-Inv id s v = finalise_stored-Inv id (s.job_orders id) s refl v

  pub finalise_each-Inv :
      (bucket : ℕ) (ids : List ℕ) (s : State B) → Inv s → Ensures Inv (finalise_each bucket ids s)
  unfolding finalise_each unschedule
  finalise_each-Inv bucket [] s v = v
  finalise_each-Inv bucket (id ∷ ids) s v =
      Ensures->>= Inv (finalise_order id (unschedule bucket id s)) _ (λ s' e.
        finalise_each-Inv bucket ids s'
          (Ensures-ok Inv _ (finalise_order-Inv id (unschedule bucket id s) v) e))

  abbrev Left : Drained B → Type 0
  Left d = Inv d.after

  module _ (c : Config) where
    drain-Inv :
        (bucket_budget now order_budget bucket finalised visited : ℕ) (s : State B)
        → Inv s
        → Ensures Left (drain c bucket_budget now order_budget bucket finalised visited s)
    unfolding drain
    drain-Inv zero now order_budget bucket finalised visited s v = v
    drain-Inv (suc bucket_budget) now order_budget bucket finalised visited s v =
        round (leb bucket now && ltb 0 order_budget)
          (λ s' v'. drain-Inv bucket_budget now _ _ _ _ s' v')
      where
        n : ℕ
        n = length (batch c order_budget bucket s)

        stopped : ℕ → ℕ → ℕ → State B → Result Error (Drained B)
        stopped b f w s' =
            ok (record { bucket = b; finalised = f; buckets_visited = w; after = s' })

        more : State B → Result Error (Drained B)
        more s' =
            drain c bucket_budget now (order_budget - n) (sat_add c.last_block bucket 1)
              (finalised + n) (visited + 1) s'

        next : (full : Bool) (s' : State B) → Result Error (Drained B)
        next full s' = elim full [
          | true ↦ stopped bucket (finalised + n) (visited + 1) s'
          | false ↦ more s'
        ]

        next-Left :
            (full : Bool) (s' : State B)
            → Inv s'
            → ((s' : State B) → Inv s' → Ensures Left (more s'))
            → Ensures Left (next full s')
        next-Left true s' v' k = v'
        next-Left false s' v' k = k s' v'

        round :
            (go : Bool)
            → ((s' : State B) → Inv s' → Ensures Left (more s'))
            → Ensures Left (elim go [
              | false ↦ stopped bucket finalised visited s
              | true ↦ finalise_each bucket (batch c order_budget bucket s) s >>= λ s'.
                  next (n == order_budget) s'
            ])
        round false k = v
        round true k =
            Ensures->>= Left (finalise_each bucket (batch c order_budget bucket s) s) _ (λ s' e.
              next-Left (n == order_budget) s'
                (Ensures-ok Inv _ (finalise_each-Inv bucket (batch c order_budget bucket s) s v) e)
                k)

    pub on_initialize-Inv : (s : State B) → Inv s → Ensures Inv (on_initialize c s)
    unfolding on_initialize finalise_expired_orders
    on_initialize-Inv s v = from_drain _ (
        drain-Inv max_finalised_orders_per_block (sat_add c.last_block s.block_number 1)
          max_finalised_orders_per_block s.next_expiry_bucket 0 0
          (record s { block_number = sat_add c.last_block s.block_number 1; events = [] }) v)
      where
        finish : Drained B → Result Error (ℕ × ℕ × State B)
        finish d =
            ok (d.finalised, d.buckets_visited, record d.after { next_expiry_bucket = d.bucket })

        from_drain :
            (r : Result Error (Drained B))
            → Ensures Left r
            → Ensures Inv (r >>= finish >>= λ x. ok x.2)
        from_drain (ok d) h = h
        from_drain (err e) h = tt
