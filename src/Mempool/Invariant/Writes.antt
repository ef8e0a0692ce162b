-- ===== src/Mempool/Invariant/Writes.antt =====
-- The writes of one order: the index of open orders stays exact.
use mathlib.Core.Path.{subst}
use quip_validator.Prelude.{
  ℕ, ◌==◌, ◌≡◌, refl, ap, ◌∙◌, arith, true, false, if◌then◌else◌, List, contains, contains-without,
  without, Option, some, put, Bool-cases, inl, inr, ◌⊎◌, ==→eq,
}
use quip_validator.Mempool.Types.{expired, closed, JobOrder, RankedSolver, FrontRunner}
use quip_validator.Mempool.State.{Config, Currency, State, insert_key}
use quip_validator.Mempool.Propose.{Proposal, new_order, store_order}
use quip_validator.Mempool.Expiry.{schedule_expiry}
use quip_validator.Mempool.Finalise.{is_opened, mark_expired}
use quip_validator.Mempool.Settle.{close_order, release_proposer_slot}
use quip_validator.Mempool.Invariant.{IsValidResolution, IsPayable, is_open, InvOf, Inv}

module _ {orders : ℕ → Option JobOrder} {front : ℕ → Option FrontRunner}
    {tops : ℕ → List RankedSolver} {ids : List ℕ} (v : InvOf orders front tops ids) (id : ℕ) where
  -- One order is written; the index says of it whether it is open.
  pub put-InvOf :
      (o : JobOrder) (ids' : List ℕ)
      → IsPayable (some o) (front id) (tops id)
      → ((j : ℕ) → contains j ids' ≡ (if j == id then is_opened o.status else contains j ids))
      → InvOf (put orders id (some o)) front tops ids'
  put-InvOf o ids' p h = record {
    ranked = v.ranked;
    payable = λ j. payable-put j (Bool-cases (j == id));
    indexed = λ j. indexed-put j (Bool-cases (j == id)) (h j);
  }
    where
      payable-put :
          (j : ℕ)
          → ((j == id) ≡ true) ⊎ ((j == id) ≡ false)
          → IsPayable (put orders id (some o) j) (front j) (tops j)
      payable-put j (inl same) = rw same (rw (==→eq j id same) p)
      payable-put j (inr other) = rw other (v.payable j)

      indexed-put :
          (j : ℕ)
          → ((j == id) ≡ true) ⊎ ((j == id) ≡ false)
          → contains j ids' ≡ (if j == id then is_opened o.status else contains j ids)
          → contains j ids' ≡ is_open (put orders id (some o) j)
      indexed-put j (inl same) e = rw same (rw same at e)
      indexed-put j (inr other) e = rw other ((rw other at e) ∙ v.indexed j)

  -- An order that is no longer open is written, and leaves the index.
  pub shut-InvOf :
      (o : JobOrder)
      → is_opened o.status ≡ false
      → IsPayable (some o) (front id) (tops id)
      → InvOf (put orders id (some o)) front tops (without id ids)
  shut-InvOf o shut p = put-InvOf o (without id ids) p (λ j. rw shut (contains-without j id ids))

  -- An order is written over the one that stands there, with the same status.
  pub over-InvOf :
      (old new : JobOrder)
      → orders id ≡ some old
      → new.status ≡ old.status
      → IsPayable (some new) (front id) (tops id)
      → InvOf (put orders id (some new)) front tops ids
  over-InvOf old new e same p = put-InvOf new ids p (λ j. stays j (Bool-cases (j == id)))
    where
      stays :
          (j : ℕ)
          → ((j == id) ≡ true) ⊎ ((j == id) ≡ false)
          → contains j ids ≡ (if j == id then is_opened new.status else contains j ids)
      stays j (inl eq) = rw eq (rw (same, ==→eq j id eq) (v.indexed id ∙ ap is_open e))
      stays j (inr other) = rw other refl

contains-insert_key :
    (j k : ℕ) (ks : List ℕ)
    → contains j (insert_key k ks) ≡ (if j == k then true else contains j ks)
contains-insert_key j k ks = elim (Bool-cases (contains k ks)) [
  | inl known ↦ elim (Bool-cases (j == k)) [
    | inl same ↦ rw (known, same) (rw (==→eq j k same) known)
    | inr other ↦ rw (known, other) refl
  ]
  | inr new ↦ rw new (ground arith)
]

pub IsPayable-some :
    (stored : Option JobOrder) (o : JobOrder) (front : Option FrontRunner)
    (tops : List RankedSolver)
    → stored ≡ some o
    → IsPayable stored front tops
    → IsPayable (some o) front tops
IsPayable-some stored o front tops e h = subst (λ y. IsPayable y front tops) e h

module _ {B : Type 0} (s : State B) (v : Inv s) where
  pub store_order-Inv :
      (c : Config) (cur : Currency B) (proposer : ℕ) (p : Proposal) (mine : List ℕ) (bank : B)
      → IsValidResolution p.resolution
      → Inv (store_order c cur proposer p mine bank s)
  unfolding store_order schedule_expiry new_order
  store_order-Inv c cur proposer p mine bank h =
      put-InvOf v s.next_order_id (new_order proposer s.block_number p)
        (insert_key s.next_order_id s.open_orders) (h, λ q. absurd (omega (arith, q)))
        (λ j. contains-insert_key j s.next_order_id s.open_orders)

  pub mark_expired-Inv :
      (id : ℕ) (o : JobOrder) → s.job_orders id ≡ some o → Inv (mark_expired id o s)
  unfolding mark_expired
  mark_expired-Inv id o e =
      shut-InvOf v id (record o { status = expired }) refl
        (IsPayable-some (s.job_orders id) o _ _ e (v.payable id))

  pub close_order-Inv :
      (id : ℕ) (o : JobOrder)
      → IsPayable (some o) (s.order_front_runner id) (s.order_top_solvers id)
      → Inv (close_order id o s)
  unfolding close_order release_proposer_slot
  close_order-Inv id o p = shut-InvOf v id (record o { status = closed }) refl p
