-- ===== src/Processor/Defs.antt =====
-- The methods of `Processor`.
use btc_idx_service.Prelude.{
  List, ℕ, Option, ◌∷◌, none, ◌==◌, if◌then◌else◌, Bool, suc, some, last, [], true, false, zero,
  ◌+◌, ◌++◌, unwrap_or,
}
use btc_idx_service.Processor.State.{
  Externals, M, in_transaction, exec, send_unwrap, or_raise, anyhow, address_from_script,
}
use btc_idx_service.Types.{
  Address, BlockHash, OutPoint, Txid, Transaction, UtxoInfo, BlockInfo, TxIn, P2trEvent,
  same_out_point, Action, TxOut, get_out_point, receive, send, event, reorg_from, new_event,
}
use btc_idx_service.Prelude.Int.{ℤ, pos, negsuc, ◌-ℤ◌, ◌+ℤ◌}
use btc_idx_service.Sql.{delete, as_i32}
use btc_idx_service.Prelude.Run.{pure, panic, ◌>>=◌, ◌>>◌}
use btc_idx_service.Chain.{
  has_block, upsert_transaction, spend_utxo, delete_blocks_since, unspend_utxos_spent_since_block,
  create_utxo, upsert_block, get_relevant_utxos,
}

-- `HashMap<OutPoint, BtcUtxoInfo>`.
abbrev pub UtxoMap : Type 0
UtxoMap = List (OutPoint × UtxoInfo)

abbrev pub get_utxo : OutPoint → UtxoMap → Option UtxoInfo
get_utxo p [] = none
get_utxo p ((q, u) ∷ m) = if same_out_point q p then some u else get_utxo p m

abbrev pub remove_utxo_at : OutPoint → UtxoMap → UtxoMap
remove_utxo_at p m = delete (λ (e : OutPoint × UtxoInfo). same_out_point e.0 p) m

-- `into_iter().map(|info| (info.get_out_point(), info)).collect()`: a later entry replaces.
abbrev pub collect : List UtxoInfo → UtxoMap → UtxoMap
collect [] m = m
collect (u ∷ us) m = collect us ((get_out_point u, u) ∷ remove_utxo_at (get_out_point u) m)

-- `HashMap<Address, BigDecimal>`.
abbrev pub BalanceMap : Type 0
BalanceMap = List (Address × ℤ)

-- `match balance_updates.get(a) { Some(b) => b.clone(), None => BigDecimal::zero() }`.
abbrev pub balance_of : Address → BalanceMap → ℤ
balance_of a [] = pos 0
balance_of a ((b, v) ∷ m) = if b == a then v else balance_of a m

unfoldable pub set_balance : Address → ℤ → BalanceMap → BalanceMap
set_balance a v m = (a, v) ∷ delete (λ (e : Address × ℤ). e.0 == a) m

-- The inputs of a transaction: spend what the map knows of, and deduct it from its owner.
unfoldable pub spend_inputs : ℕ → List TxIn → UtxoMap → BalanceMap → M (UtxoMap × BalanceMap)
spend_inputs n [] known updates = pure (known, updates)
spend_inputs n (txin ∷ rest) known updates = elim (get_utxo txin.previous_output known) [
  | none ↦ spend_inputs n rest known updates
  | some utxo ↦ do
    exec (spend_utxo utxo.txid utxo.vout n)
    spend_inputs n rest (remove_utxo_at txin.previous_output known)
        (set_balance utxo.owner ((pos 0 -ℤ utxo.amount) +ℤ balance_of utxo.owner updates) updates)
]

-- The action of a balance change; a change of zero makes no event.
unfoldable pub action_of : ℤ → Option Action
action_of (pos zero) = none
action_of (pos (suc n)) = some receive
action_of (negsuc n) = some send

module _ (x : Externals) where
  -- The outputs of a transaction from index `idx` on: taproot ones become utxos.
  unfoldable pub create_outputs : ℕ → Txid → ℕ → List TxOut → BalanceMap → M BalanceMap
  create_outputs n txid idx [] updates = pure updates
  create_outputs n txid idx (txout ∷ rest) updates = elim (x.is_p2tr txout.script_pubkey) [
    | false ↦ create_outputs n txid (idx + 1) rest updates
    | true ↦ do
      address ← or_raise (x.from_script txout.script_pubkey) address_from_script
      exec (create_utxo address txid idx (pos txout.value) n)
      create_outputs n txid (idx + 1) rest
          (set_balance address (balance_of address updates +ℤ pos txout.value) updates)
  ]

-- One message for each balance that changes.
unfoldable pub send_events : ℕ → Txid → Bool → BalanceMap → M (Unit {0})
send_events n txid coinbase [] = pure tt
send_events n txid coinbase ((address, value) ∷ rest) = elim (action_of value) [
  | none ↦ send_events n txid coinbase rest
  | some action ↦ do
    send_unwrap (event (new_event n txid address value action coinbase))
    send_events n txid coinbase rest
]

abbrev pub out_points : List TxIn → List OutPoint
out_points [] = []
out_points (i ∷ is) = i.previous_output ∷ out_points is

module _ (x : Externals) where
  -- The first pass: the rows of the transactions, and what their inputs refer to.
  unfoldable pub index_transactions :
      BlockHash → ℕ → List Transaction → List OutPoint → M (List OutPoint)
  index_transactions hash idx [] outpoints = pure outpoints
  index_transactions hash idx (tx ∷ rest) outpoints = do
    exec (
        upsert_transaction (record {
          txid = x.compute_txid tx;
          block_hash = hash;
          transaction_index = as_i32 idx;
          lock_time = tx.lock_time;
          is_coinbase = x.is_coinbase tx;
          version = tx.version;
        }))
    index_transactions hash (idx + 1) rest (outpoints ++ out_points tx.input)

  -- The second pass over the transactions.
  unfoldable pub process_transactions : ℕ → List Transaction → UtxoMap → M (Unit {0})
  process_transactions n [] known = pure tt
  process_transactions n (tx ∷ rest) known = do
    (known', updates) ← spend_inputs n tx.input known []
    updates' ← create_outputs x n (x.compute_txid tx) 0 tx.output updates
    send_events n (x.compute_txid tx) (x.is_coinbase tx) (x.walk updates')
    process_transactions n rest known'

  unfoldable pub process_block : BlockInfo → M (Unit {0})
  process_block block = do
    timestamp ← or_raise (x.timestamp_opt block.header.time) anyhow
    exec (
        upsert_block (record {
          hash = block.header.hash;
          number = block.header.height;
          previous_hash = block.header.previous_block_hash;
          timestamp = timestamp;
          nonce = block.header.nonce;
          version = block.header.version;
          difficulty = unwrap_or block.header.difficulty (pos 0);
        }))
    outpoints ← index_transactions block.header.hash 0 block.txdata []
    utxos ← exec (get_relevant_utxos outpoints)
    process_transactions block.header.height block.txdata (collect utxos [])

  unfoldable pub process : BlockInfo → M (Unit {0})
  process block = in_transaction (process_block block)

  unfoldable pub process_blocks : List BlockInfo → M (Unit {0})
  process_blocks [] = pure tt
  process_blocks (block ∷ rest) = do process_block block; process_blocks rest

  -- `last().expect(…)` panics on an empty list.
  unfoldable pub process_fork : List BlockInfo → M (List P2trEvent)
  process_fork fork_blocks_reversed = in_transaction (elim (last fork_blocks_reversed) [
    | none ↦ λ w. (panic, w)
    | some origin ↦ do
      exec (delete_blocks_since origin.header.height)
      exec (unspend_utxos_spent_since_block origin.header.height)
      send_unwrap (reorg_from origin.header.height)
      process_blocks fork_blocks_reversed
      pure []
  ])

unfoldable pub is_processed : BlockHash → M Bool
is_processed hash = exec (has_block hash)
