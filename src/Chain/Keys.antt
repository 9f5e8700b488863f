-- ===== src/Chain/Keys.antt =====
-- The constraints of the tables: keys and references.
use btc_idx_service.Prelude.{[], true, false, ◌∷◌, ◌≡◌, ◌==◌, ◌||◌, List, Bool, exists, All}
use btc_idx_service.Chain.Tables.{UtxoRow, BlockRow, Chain, TransactionRow}
use btc_idx_service.Types.{BlockHash, Txid}
use btc_idx_service.Chain.Queries.{at_out_point}

-- The tables hold the block, or a transaction with the id.
abbrev pub knows : Chain → BlockHash → Bool
knows c hash = exists (λ b. b.hash == hash) c.blocks

abbrev pub has_transaction : Chain → Txid → Bool
has_transaction c txid = exists (λ t. t.txid == txid) c.transactions

-- No two rows agree on a key.
abbrev pub Distinct : {R : Type 0} → (R → R → Bool) → List R → Type 0
Distinct same [] = Unit
Distinct same (r ∷ rs) = (exists (same r) rs ≡ false) × Distinct same rs

abbrev pub same_hash : BlockRow → BlockRow → Bool
same_hash b b' = b'.hash == b.hash || b'.number == b.number

abbrev pub same_txid : TransactionRow → TransactionRow → Bool
same_txid t t' = t'.txid == t.txid

abbrev pub same_output : UtxoRow → UtxoRow → Bool
same_output u u' = at_out_point u.txid u.vout u'

-- What PostgreSQL enforces: hashes, block numbers, transaction ids and out points are unique, a
-- transaction refers to a block and a utxo to a transaction of the tables.
pub record IsConsistent (c : Chain) : Type 0 where
  pub blocks : Distinct same_hash c.blocks
  pub transactions : Distinct same_txid c.transactions
  pub outputs : Distinct same_output c.utxos
  pub in_block : All (λ t. knows c t.block_hash ≡ true) c.transactions
  pub in_transaction : All (λ u. has_transaction c u.txid ≡ true) c.utxos
