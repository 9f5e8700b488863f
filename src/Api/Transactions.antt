-- ===== src/Api/Transactions.antt =====
-- What the web API shows of a transaction that the processor has written.
use btc_idx_service.Prelude.{true, false, ◌≡◌, ◌<◌, ◌^◌, refl, arith, ℕ, ◌%◌, lt→ltb, ==_iff, ap}
use btc_idx_service.Prelude.Run.{ok}
use btc_idx_service.Api.Reads.{as_usize, transaction, transaction_data}
use btc_idx_service.Chain.{upsert_transaction, get_transaction, Chain}
use btc_idx_service.Sql.{as_i32}
use btc_idx_service.Processor.{Externals}
use btc_idx_service.Types.{BlockHash, Transaction}
use btc_idx_service.Ledger.{Ledger}
use btc_idx_service.Chain.Keys.{knows, has_transaction}
use btc_idx_service.Processor.Undo.{transaction_row}

mod_small : (n : ℕ) → n < 2 ^ 31 → n % 2 ^ 32 ≡ n
mod_small n h = omega arith

-- An index below 2^31 comes back from the column of type INT.
pub as_usize-as_i32 : (n : ℕ) → n < 2 ^ 31 → as_usize (as_i32 n) ≡ n
unfolding as_usize
as_usize-as_i32 n h = rw (mod_small n h, lt→ltb n (2 ^ 31) h) refl

-- The transaction at an index below 2^31 of a stored block, if its id is new to the table, is shown
-- with the id, the block, the index, the lock time and the version that the processor wrote.
pub transaction-upsert_transaction :
    (x : Externals) (hash : BlockHash) (idx : ℕ) (tx : Transaction) (c : Chain) (l : Ledger)
    → idx < 2 ^ 31
    → knows c hash ≡ true
    → has_transaction c (x.compute_txid tx) ≡ false
    → (transaction
        (x.compute_txid tx)
        (record { chain = (upsert_transaction (transaction_row x hash idx tx) c).1; ledger = l })).0
      ≡ ok (record {
        txid = x.compute_txid tx;
        block_hash = hash;
        transaction_index = idx;
        lock_time = tx.lock_time;
        version = tx.version;
      })
unfolding upsert_transaction transaction transaction_data get_transaction
transaction-upsert_transaction x hash idx tx c l fits known new =
    rw (known, new)
      (rw ((==_iff (x.compute_txid tx) (x.compute_txid tx)).1 refl) (
        ap
          (λ i. ok (record {
            txid = x.compute_txid tx;
            block_hash = hash;
            transaction_index = i;
            lock_time = tx.lock_time;
            version = tx.version;
          }))
          (as_usize-as_i32 idx fits)))
