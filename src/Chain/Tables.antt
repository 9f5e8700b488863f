-- ===== src/Chain/Tables.antt =====
-- core/migrations/20241120123711_bitcoin.sql: btc_blocks, btc_transactions and btc_utxos.
use btc_idx_service.Prelude.{ℕ, Bool, Option, List}
use btc_idx_service.Prelude.Int.{ℤ}
use btc_idx_service.Types.{BlockHash, Txid, Address, OutPoint}

-- Key: `hash`; `number` is unique.
pub record BlockRow : Type 0 where
  pub hash : BlockHash
  pub number : ℕ
  pub previous_hash : Option BlockHash
  pub timestamp : ℕ
  pub nonce : ℕ
  pub version : ℤ
  pub difficulty : ℤ

-- Key: `txid`; `block_hash` refers to btc_blocks, deletes cascade.
pub record TransactionRow : Type 0 where
  pub txid : Txid
  pub block_hash : BlockHash
  pub transaction_index : ℤ
  pub lock_time : ℕ
  pub is_coinbase : Bool
  pub version : ℤ

-- Key: `txid` and `vout`; `txid` refers to btc_transactions, deletes cascade. The text column `id`,
-- "txid:vout", is the pair that it spells.
pub record UtxoRow : Type 0 where
  pub id : OutPoint
  pub address : Address
  pub txid : Txid
  pub vout : ℕ
  pub amount : ℤ
  pub block_number : ℕ
  pub spent_block : Option ℕ

pub record Chain : Type 0 where
  pub blocks : List BlockRow
  pub transactions : List TransactionRow
  pub utxos : List UtxoRow
