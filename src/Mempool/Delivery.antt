-- ===== src/Mempool/Delivery.antt =====
-- Which delivery modes a job mode allows (pallets/quantum-compute-mempool/src/delivery.rs).
use quip_validator.Prelude.{Bool, true, false, none, some}
use quip_validator.Mempool.Types.{
  ResultDelivery, on_chain_only, callback, callback_with_poll, JobMode, open_mode, bid,
}

unfoldable pub validate_delivery_mode : ResultDelivery → JobMode → Bool
validate_delivery_mode on_chain_only mode = true
validate_delivery_mode (callback endpoint) open_mode = true
validate_delivery_mode (callback endpoint) (bid none (some types)) = true
validate_delivery_mode (callback_with_poll endpoint) (bid (some miners) none) = true
validate_delivery_mode _ _ = false
