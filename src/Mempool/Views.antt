-- ===== src/Mempool/Views.antt =====
-- The view of the open orders, `open_order_ids` (pallets/quantum-compute-mempool/src/lib.rs).
pub mod Listed
use quip_validator.Prelude.{
  ℕ, leb, ltb, ◌&&◌, Bool, true, false, not, if◌then◌else◌, List, [], ◌∷◌, take, Option, none, some,
  min,
}
use quip_validator.Mempool.Types.{JobOrder}
use quip_validator.Mempool.Lifecycle.{is_expired}
use quip_validator.Mempool.State.{Config, State}
use quip_validator.Mempool.Finalise.{is_opened}

abbrev pub is_after : Option ℕ → ℕ → Bool
is_after none id = true
is_after (some cursor) id = ltb cursor id

unfoldable pub insert_id : ℕ → List ℕ → List ℕ
insert_id x [] = x ∷ []
insert_id x (y ∷ ys) = if leb x y then x ∷ y ∷ ys else y ∷ insert_id x ys

unfoldable pub sort_unstable : List ℕ → List ℕ
unfolding insert_id
sort_unstable [] = []
sort_unstable (x ∷ xs) = insert_id x (sort_unstable xs)

module _ (c : Config) {B : Type 0} where
  -- An order that is stored, open, and not past its expiry at the current block.
  abbrev pub accepts : Option JobOrder → State B → Bool
  accepts none s = false
  accepts (some order) s =
      is_opened order.status
      && not (
          is_expired c.last_block s.block_number order.created_at order.first_solution_at
            order.timing)

  unfoldable pub keep_open : Option ℕ → List ℕ → State B → List ℕ
  keep_open start_after [] s = []
  keep_open start_after (id ∷ ids) s =
      let rest = keep_open start_after ids s in
      if is_after start_after id && accepts (s.job_orders id) s then id ∷ rest else rest

  unfoldable pub open_order_ids : Option ℕ → ℕ → State B → List ℕ
  unfolding keep_open sort_unstable
  open_order_ids start_after limit s =
      take (min limit 1000) (sort_unstable (keep_open start_after (c.iteration s.open_orders) s))
