-- ===== src/Api/Reads.antt =====
-- The handlers that read rows: raw/block/latest, raw/block/{hash}, raw/transaction/{id},
-- processed/p2tr/{address}/balance and processed/p2tr/{address}/utxo.
use btc_idx_service.Prelude.{none, some, ◌-◌, ◌^◌, List, Option, ℕ, map}
use btc_idx_service.Prelude.Run.{ok, err, panic, ◌>>=◌, Outcome, Run, pure, raise}
use btc_idx_service.Prelude.Int.{pos, negsuc, ℤ}
use btc_idx_service.Chain.{
  BlockRow, TransactionRow, Chain, get_latest_block_num, get_block, get_transaction,
  get_unspent_utxos_by_owner,
}
use btc_idx_service.Types.{UtxoInfo, Txid, BlockHash, Address}
use btc_idx_service.Sql.{Statement, SqlError}
use btc_idx_service.Api.Defs.{ApiError, params_invalid, sql, missing}
use btc_idx_service.Ledger.{get_btc_balance, Ledger}

-- The tables that the handlers read.
pub record Database : Type 0 where
  pub chain : Chain
  pub ledger : Ledger

abbrev pub R : Type 0 → Type 0
R A = Run Database ApiError A

abbrev pub from_sql : {A : Type 0} → Outcome SqlError A → Outcome ApiError A
from_sql (ok a) = ok a
from_sql (err e) = err (sql e)
from_sql panic = panic

abbrev pub on_chain : {A : Type 0} → Statement Chain A → R A
on_chain q d = (from_sql (q d.chain).0, record d { chain = (q d.chain).1 })

-- A handler that reads the ledger, with its errors already those of the API.
abbrev pub on_tables : {A : Type 0} → (Ledger → Outcome ApiError A × Ledger) → R A
on_tables q d = ((q d.ledger).0, record d { ledger = (q d.ledger).1 })

abbrev pub on_ledger : {A : Type 0} → Statement Ledger A → R A
on_ledger q d = (from_sql (q d.ledger).0, record d { ledger = (q d.ledger).1 })

-- `i as usize` for an `i32` or an `i64`: a negative number wraps around.
unfoldable pub as_usize : ℤ → ℕ
as_usize (pos n) = n
as_usize (negsuc n) = 2 ^ 64 - n - 1

-- `TransactionData` of a row, by way of `BtcTransaction`.
pub record TransactionData : Type 0 where
  pub txid : Txid
  pub block_hash : BlockHash
  pub transaction_index : ℕ
  pub lock_time : ℕ
  pub version : ℤ

unfoldable pub transaction_data : TransactionRow → TransactionData
transaction_data t = record {
  txid = t.txid;
  block_hash = t.block_hash;
  transaction_index = as_usize t.transaction_index;
  lock_time = t.lock_time;
  version = t.version;
}

-- The hash of the block before is that of the row, which `decode_block` requires to be there.
pub record BlockHeaderData : Type 0 where
  pub hash : BlockHash
  pub number : ℕ
  pub previous_hash : Option BlockHash
  pub timestamp : ℕ
  pub nonce : ℕ
  pub version : ℤ
  pub difficulty : ℤ

abbrev pub block_header_data : BlockRow → BlockHeaderData
block_header_data b = record {
  hash = b.hash;
  number = b.number;
  previous_hash = b.previous_hash;
  timestamp = b.timestamp;
  nonce = b.nonce;
  version = b.version;
  difficulty = b.difficulty;
}

pub record Utxo : Type 0 where
  pub transaction_id : Txid
  pub transaction_index : ℕ
  pub satoshi : ℤ
  pub block_height : ℕ

abbrev pub utxo_of : UtxoInfo → Utxo
utxo_of u = record {
  transaction_id = u.txid;
  transaction_index = u.vout;
  satoshi = u.amount;
  block_height = u.block_number;
}

unfoldable pub latest_block : R (Option ℕ)
latest_block = on_chain get_latest_block_num

unfoldable pub block : BlockHash → R BlockHeaderData
block hash = on_chain (get_block hash) >>= λ b. pure (block_header_data b)

unfoldable pub transaction : Txid → R TransactionData
transaction txid = on_chain (get_transaction txid) >>= λ t. pure (transaction_data t)

abbrev pub or_error : {A : Type 0} → Option A → ApiError → R A
or_error none e = raise e
or_error (some a) e = pure a

-- `Address::from_str` and `require_network` on the configured network.
module _ (parse : ℕ → Option Address) where
  abbrev pub address_of : ℕ → R Address
  address_of text = or_error (parse text) params_invalid

  unfoldable pub p2tr_balance : ℕ → R ℤ
  p2tr_balance text = do
    address ← address_of text
    balance ← on_ledger (get_btc_balance address)
    or_error balance missing

  unfoldable pub p2tr_utxo : ℕ → R (List Utxo)
  p2tr_utxo text = do
    address ← address_of text
    utxos ← on_chain (get_unspent_utxos_by_owner address)
    pure (map utxo_of utxos)
