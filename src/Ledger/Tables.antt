-- ===== src/Ledger/Tables.antt =====
-- core/migrations/20241120123711_bitcoin.sql: btc_p2tr_events, pending_btc_p2tr_events,
-- btc_balances and statistic_btc_balances.
use btc_idx_service.Prelude.{List, Bool, ℕ}
use btc_idx_service.Types.{Address, Txid}
use btc_idx_service.Prelude.Int.{ℤ}

-- `sequence_id` is a BIGSERIAL; `action` a SMALLINT.
pub record EventRow : Type 0 where
  pub sequence_id : ℕ
  pub block_number : ℕ
  pub tx_hash : Txid
  pub address : Address
  pub amount : ℤ
  pub action : ℤ

pub record PendingRow : Type 0 where
  pub block_number : ℕ
  pub tx_hash : Txid
  pub address : Address
  pub amount : ℤ
  pub action : ℤ
  pub is_coinbase : Bool

-- Key: `address`.
pub record BalanceRow : Type 0 where
  pub address : Address
  pub balance : ℤ
  pub last_updated : ℕ

-- Key: `address` and `datetime_hour`.
pub record StatisticRow : Type 0 where
  pub address : Address
  pub balance : ℤ
  pub datetime_hour : ℕ
  pub last_updated : ℕ

-- `next_sequence` is the sequence behind the BIGSERIAL column.
pub record Ledger : Type 0 where
  pub events : List EventRow
  pub pending : List PendingRow
  pub balances : List BalanceRow
  pub statistics : List StatisticRow
  pub next_sequence : ℕ
