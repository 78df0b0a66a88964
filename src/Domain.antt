-- ===== src/Domain.antt =====
-- domain/types.ts: references to logs, blocks and pools that the components share.
pub mod Deltas
use lp_monitor.Prelude.{ℕ, String, Option}
use lp_monitor.Prelude.Text.{to_lower_case, concat}

-- `chainId` is the constant of src/domain/chain.ts.
pub data PoolRef : Type 0 where
  v3 : (address : String) → PoolRef
  v4 : (manager pool_id : String) → PoolRef

pub record LogRef : Type 0 where
  pub block_hash : String
  pub block_number : ℕ
  pub transaction_hash : String
  pub transaction_index : ℕ
  pub log_index : ℕ

pub record BlockAnchor : Type 0 where
  pub number : ℕ
  pub hash : String
  pub timestamp_sec : ℕ

pub data TimeSource : Type 0 where
  log_verified minute_boundary unresolved : TimeSource

pub record LogTime : Type 0 where
  pub minute_start_sec : Option ℕ
  pub exact_timestamp_sec : Option ℕ
  pub source : TimeSource

abbrev pub chain_id : ℕ
chain_id = 4663

-- `poolRegistrationId` of src/registry/pools.ts, with the chain's number written out.
unfoldable pub pool_registration_id : PoolRef → String
unfolding to_lower_case
pool_registration_id (v3 address) = concat "4663:v3:" (to_lower_case address)
pool_registration_id (v4 manager pool_id) =
    concat "4663:v4:" (concat (to_lower_case manager) (concat ":" (to_lower_case pool_id)))
