-- ===== src/Chain/Queries.antt =====
-- core/src/sqlx_postgres/bitcoin.rs: one function for each query on the chain tables. A statement
-- that violates a constraint fails with `database` and changes nothing; the check of the number of
-- affected rows comes after the change.
use btc_idx_service.Prelude.{
  ℕ, ◌^◌, Bool, true, false, not, ◌&&◌, ◌||◌, Option, none, some, List, [], ◌∷◌, map, ◌==◌, ltb,
  leb, if◌then◌else◌, select, find, exists,
}
use btc_idx_service.Prelude.Int.{ℤ, pos, leb_ℤ}
use btc_idx_service.Prelude.Run.{ok, err, pure, raise, panic, ◌>>=◌}
use btc_idx_service.Types.{BlockHash, Txid, Address, OutPoint, UtxoInfo, same_out_point}
use btc_idx_service.Sql.{
  Statement, row_not_found, database, ensure_affected, count, update, delete, as_i64,
}
use btc_idx_service.Chain.Tables.{BlockRow, TransactionRow, UtxoRow, Chain}

abbrev Query : Type 0 → Type 0
Query A = Statement Chain A

abbrev highest : List BlockRow → Option ℕ
highest [] = none
highest (b ∷ bs) = elim (highest bs) [
  | none ↦ some b.number
  | some n ↦ some (if ltb n b.number then b.number else n)
]

unfoldable pub get_latest_block_num : Query (Option ℕ)
get_latest_block_num c = (ok (highest c.blocks), c)

unfoldable pub has_block : BlockHash → Query Bool
has_block hash c = (ok (exists (λ b. b.hash == hash) c.blocks), c)

abbrev pub fetch_one : {A : Type 0} → Option A → Query A
fetch_one none = raise row_not_found
fetch_one (some a) = pure a

-- `TryFrom<PgRow> for BtcBlock`: reading a `NULL` as the previous hash panics.
abbrev pub decode_block : BlockRow → Query BlockRow
decode_block r c = elim r.previous_hash [ none ↦ (panic, c) | some hash ↦ (ok r, c) ]

unfoldable pub get_block : BlockHash → Query BlockRow
get_block hash c = (fetch_one (find (λ b. b.hash == hash) c.blocks) >>= decode_block) c

unfoldable pub get_transaction : Txid → Query TransactionRow
get_transaction txid c = fetch_one (find (λ t. t.txid == txid) c.transactions) c

-- `ON CONFLICT DO NOTHING`, for the key and for the unique number alike.
unfoldable pub upsert_block : BlockRow → Query (Unit {0})
upsert_block row c =
    if not (ltb row.number (2 ^ 63))
    then (err database, c)
    else if exists (λ b. b.hash == row.hash || b.number == row.number) c.blocks
    then (ok tt, c)
    else (ok tt, record c { blocks = row ∷ c.blocks })

unfoldable pub delete_blocks_since : ℕ → Query (Unit {0})
delete_blocks_since block_num c =
    let gone = λ (b : BlockRow). leb_ℤ (as_i64 block_num) (pos b.number) in
    let lost_tx = λ (t : TransactionRow). exists (λ b. gone b && b.hash == t.block_hash) c.blocks in
    let lost_utxo = λ (u : UtxoRow). exists (λ t. lost_tx t && t.txid == u.txid) c.transactions in
    (
      ok tt,
      record {
        blocks = delete gone c.blocks;
        transactions = delete lost_tx c.transactions;
        utxos = delete lost_utxo c.utxos;
      },
    )

-- The conflict on the key rewrites `block_hash` alone; one row is affected either way.
unfoldable pub upsert_transaction : TransactionRow → Query (Unit {0})
upsert_transaction row c =
    if not (exists (λ b. b.hash == row.block_hash) c.blocks)
    then (err database, c)
    else if exists (λ t. t.txid == row.txid) c.transactions
    then (
      ok tt,
      record c {
        transactions =
            update (λ t. t.txid == row.txid) (λ t. record t { block_hash = row.block_hash })
              c.transactions;
      },
    )
    else (ok tt, record c { transactions = row ∷ c.transactions })

abbrev pub at_out_point : Txid → ℕ → UtxoRow → Bool
at_out_point txid vout u = u.txid == txid && u.vout == vout

abbrev pub new_utxo : Address → Txid → ℕ → ℤ → ℕ → UtxoRow
new_utxo owner txid vout amount block_num = record {
  id = record { txid = txid; vout = vout };
  address = owner;
  txid = txid;
  vout = vout;
  amount = amount;
  block_number = block_num;
  spent_block = none;
}

unfoldable pub create_utxo : Address → Txid → ℕ → ℤ → ℕ → Query (Unit {0})
create_utxo owner txid vout amount block_num c =
    if not (ltb block_num (2 ^ 63))
    then (err database, c)
    else if exists (at_out_point txid vout) c.utxos
    then (err database, c)
    else if not (exists (λ t. t.txid == txid) c.transactions)
    then (err database, c)
    else (ok tt, record c { utxos = new_utxo owner txid vout amount block_num ∷ c.utxos })

abbrev pub is_unspent : UtxoRow → Bool
is_unspent u = elim u.spent_block [ none ↦ true | some _ ↦ false ]

abbrev pub spent_since : ℕ → UtxoRow → Bool
spent_since n u = elim u.spent_block [ none ↦ false | some m ↦ leb n m ]

abbrev pub unspend : UtxoRow → UtxoRow
unspend u = record u { spent_block = none }

abbrev pub spend : ℕ → UtxoRow → UtxoRow
spend n u = record u { spent_block = some n }

unfoldable pub unspend_utxos_spent_since_block : ℕ → Query (Unit {0})
unspend_utxos_spent_since_block block_num c =
    (ok tt, record c { utxos = update (spent_since block_num) unspend c.utxos })

-- `TryFrom<PgRow> for BtcUtxoInfo`, on the columns that the two queries below select.
abbrev pub utxo_info : UtxoRow → UtxoInfo
utxo_info u = record {
  owner = u.address;
  txid = u.txid;
  vout = u.vout;
  amount = u.amount;
  block_number = u.block_number;
  spent_block = u.spent_block;
}

unfoldable pub get_unspent_utxos_by_owner : Address → Query (List UtxoInfo)
get_unspent_utxos_by_owner owner c =
    (ok (map utxo_info (select (λ u. u.address == owner && is_unspent u) c.utxos)), c)

-- `spent_block IS NULL AND id = ANY($1)`.
abbrev pub is_relevant : List OutPoint → UtxoRow → Bool
is_relevant points u = is_unspent u && exists (same_out_point u.id) points

unfoldable pub get_relevant_utxos : List OutPoint → Query (List UtxoInfo)
get_relevant_utxos points c = (ok (map utxo_info (select (is_relevant points) c.utxos)), c)

unfoldable pub remove_utxo : Txid → ℕ → Query (Unit {0})
remove_utxo txid vout c =
    ensure_affected 1 (count (at_out_point txid vout) c.utxos)
      (record c { utxos = delete (at_out_point txid vout) c.utxos })

unfoldable pub remove_utxos_since_block : ℕ → Query ℕ
remove_utxos_since_block block_num c =
    let since = λ (u : UtxoRow). leb block_num u.block_number in
    (ok (count since c.utxos), record c { utxos = delete since c.utxos })

unfoldable pub spend_utxo : Txid → ℕ → ℕ → Query (Unit {0})
spend_utxo txid vout block_num c =
    ensure_affected 1 (count (at_out_point txid vout) c.utxos)
      (record c { utxos = update (at_out_point txid vout) (spend block_num) c.utxos })

unfoldable pub unspend_utxo : Txid → ℕ → Query (Unit {0})
unspend_utxo txid vout c =
    ensure_affected 1 (count (at_out_point txid vout) c.utxos)
      (record c { utxos = update (at_out_point txid vout) unspend c.utxos })
