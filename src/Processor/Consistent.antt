-- ===== src/Processor/Consistent.antt =====
-- The constraints of the tables hold after every run of the processor, however it ends.

use btc_idx_service.Prelude.{
  none, some, [], true, false, inl, inr, ◌∷◌, ◌≡◌, refl, List, Bool, Option, Bool-cases, ◌+◌, ℕ,
  Option-cases, last,
}
use btc_idx_service.Prelude.Run.{ok, err, panic, Outcome, pure}
use btc_idx_service.Prelude.Keeps.{Keeps, Keeps-raise, Keeps-pure, Keeps-bind, Keeps-panic}
use btc_idx_service.Processor.State.{
  World, M, ProcessorError, send_unwrap, or_raise, in_transaction, exec, settle, conclude,
  Externals, anyhow, address_from_script,
}
use btc_idx_service.Types.{
  AggregatorMsg, TxIn, Txid, Transaction, BlockInfo, BlockHash, TxOut, OutPoint, reorg_from,
}
use btc_idx_service.Sql.{Statement, SqlError}
use btc_idx_service.Chain.{
  Chain, get_relevant_utxos, upsert_block, create_utxo, upsert_transaction, spend_utxo,
  delete_blocks_since, unspend_utxos_spent_since_block,
}
use btc_idx_service.Chain.Keys.{IsConsistent}
use btc_idx_service.Prelude.Int.{pos}
use btc_idx_service.Processor.Defs.{
  spend_inputs, send_events, index_transactions, process_transactions, process_fork, create_outputs,
  process, process_block, process_blocks, BalanceMap, UtxoMap, get_utxo, action_of,
}
use btc_idx_service.Chain.Consistent.{
  upsert_block-IsConsistent, create_utxo-IsConsistent, upsert_transaction-IsConsistent,
  spend_utxo-IsConsistent, delete_blocks_since-IsConsistent,
  unspend_utxos_spent_since_block-IsConsistent,
}

abbrev pub HasKeys : World → Type 0
HasKeys w = IsConsistent w.chain

-- A query that only reads.
pub reads-IsConsistent :
    {A : Type 0} (q : Statement Chain A) → ((c : Chain) → (q c).1 ≡ c) → Keeps IsConsistent q
reads-IsConsistent q same = record { at = λ c h. rw (same c) h }

pub exec-HasKeys :
    {A : Type 0} (q : Statement Chain A) → Keeps IsConsistent q → Keeps HasKeys (exec q)
exec-HasKeys {A = A} q k = record { at = λ w h. by_faults w w.faults refl h }
  where
    settled :
        (v : World) (r : Outcome SqlError A × Chain) → IsConsistent r.1 → HasKeys (settle r v).1
    settled v (ok a, c) h = h
    settled v (err e, c) h = h
    settled v (panic, c) h = h

    by_faults : (w : World) (fs : List Bool) → w.faults ≡ fs → HasKeys w → HasKeys (exec q w).1
    by_faults w [] e h = rw (e, exec) (settled w (q w.chain) (k.at w.chain h))
    by_faults w (true ∷ fs) e h = rw (e, exec) h
    by_faults w (false ∷ fs) e h =
        rw (e, exec) (settled (record w { faults = fs }) (q w.chain) (k.at w.chain h))

send_unwrap-HasKeys : (m : AggregatorMsg) → Keeps HasKeys (send_unwrap m)
send_unwrap-HasKeys m = record {
  at = λ w h. elim (Bool-cases w.receiving) [
    | inl e ↦ rw (e, send_unwrap) h
    | inr e ↦ rw (e, send_unwrap) h
  ];
}

or_raise-HasKeys : {A : Type 0} (o : Option A) (e : ProcessorError) → Keeps HasKeys (or_raise o e)
or_raise-HasKeys none e = Keeps-raise e
or_raise-HasKeys (some a) e = Keeps-pure a

in_transaction-HasKeys :
    {A : Type 0} (body : M A) → Keeps HasKeys body → Keeps HasKeys (in_transaction body)
in_transaction-HasKeys {A = A} body k = record {
  at = λ w h. concluded w h _ (
      (Keeps-bind (exec (pure tt)) _ (exec-HasKeys (pure tt) (Keeps-pure tt)) (λ _.
          Keeps-bind body _ k (λ a.
            Keeps-bind (exec (pure tt)) _ (exec-HasKeys (pure tt) (Keeps-pure tt))
              (λ _. Keeps-pure a)))).at
        w h);
}
  where
    concluded :
        (w : World)
        → HasKeys w
        → (r : Outcome ProcessorError A × World) → HasKeys r.1
        → HasKeys (conclude w.chain r).1
    concluded w h (ok a, w') h' = h'
    concluded w h (err e, w') h' = h
    concluded w h (panic, w') h' = h

spend_inputs-HasKeys :
    (n : ℕ) (ins : List TxIn) (known : UtxoMap) (updates : BalanceMap)
    → Keeps HasKeys (spend_inputs n ins known updates)
unfolding spend_inputs
spend_inputs-HasKeys n [] known updates = Keeps-pure _
spend_inputs-HasKeys n (txin ∷ rest) known updates =
    elim (Option-cases (get_utxo txin.previous_output known)) [
      | inl e ↦ rw (e, spend_inputs) (spend_inputs-HasKeys n rest known updates)
      | inr (u, e) ↦
          rw (e, spend_inputs)
            (Keeps-bind (exec (spend_utxo u.txid u.vout n)) _
              (exec-HasKeys _ (spend_utxo-IsConsistent u.txid u.vout n))
              (λ _. spend_inputs-HasKeys n rest _ _))
    ]

send_events-HasKeys :
    (n : ℕ) (txid : Txid) (coinbase : Bool) (l : BalanceMap)
    → Keeps HasKeys (send_events n txid coinbase l)
unfolding send_events
send_events-HasKeys n txid coinbase [] = Keeps-pure _
send_events-HasKeys n txid coinbase ((address, value) ∷ rest) =
    elim (Option-cases (action_of value)) [
      | inl e ↦ rw (e, send_events) (send_events-HasKeys n txid coinbase rest)
      | inr (k, e) ↦
          rw (e, send_events)
            (Keeps-bind (send_unwrap _) _ (send_unwrap-HasKeys _)
              (λ _. send_events-HasKeys n txid coinbase rest))
    ]

module _ (x : Externals) where
  create_outputs-HasKeys :
      (n : ℕ) (txid : Txid) (idx : ℕ) (outs : List TxOut) (updates : BalanceMap)
      → Keeps HasKeys (create_outputs x n txid idx outs updates)
  unfolding create_outputs
  create_outputs-HasKeys n txid idx [] updates = Keeps-pure _
  create_outputs-HasKeys n txid idx (txout ∷ rest) updates =
      elim (Bool-cases (x.is_p2tr txout.script_pubkey)) [
        | inr e ↦ rw (e, create_outputs) (create_outputs-HasKeys n txid (idx + 1) rest updates)
        | inl e ↦
            rw (e, create_outputs)
              (Keeps-bind (or_raise (x.from_script txout.script_pubkey) address_from_script) _
                (or_raise-HasKeys (x.from_script txout.script_pubkey) address_from_script)
                (λ address.
                  Keeps-bind (exec (create_utxo address txid idx (pos txout.value) n)) _
                    (exec-HasKeys _ (create_utxo-IsConsistent address txid idx (pos txout.value) n))
                    (λ _. create_outputs-HasKeys n txid (idx + 1) rest _)))
      ]

  pub index_transactions-HasKeys :
      (hash : BlockHash) (idx : ℕ) (txs : List Transaction) (points : List OutPoint)
      → Keeps HasKeys (index_transactions x hash idx txs points)
  unfolding index_transactions
  index_transactions-HasKeys hash idx [] points = Keeps-pure _
  index_transactions-HasKeys hash idx (tx ∷ rest) points =
      Keeps-bind (exec (upsert_transaction _)) _
        (exec-HasKeys _ (upsert_transaction-IsConsistent _))
        (λ _. index_transactions-HasKeys hash (idx + 1) rest _)

  process_transactions-HasKeys :
      (n : ℕ) (txs : List Transaction) (known : UtxoMap)
      → Keeps HasKeys (process_transactions x n txs known)
  unfolding process_transactions
  process_transactions-HasKeys n [] known = Keeps-pure _
  process_transactions-HasKeys n (tx ∷ rest) known =
      Keeps-bind (spend_inputs n tx.input known []) _ (spend_inputs-HasKeys n tx.input known [])
        (λ r.
          Keeps-bind (create_outputs x n (x.compute_txid tx) 0 tx.output r.1) _
            (create_outputs-HasKeys n (x.compute_txid tx) 0 tx.output r.1)
            (λ u.
              Keeps-bind (send_events n (x.compute_txid tx) (x.is_coinbase tx) (x.walk u)) _
                (send_events-HasKeys n (x.compute_txid tx) (x.is_coinbase tx) (x.walk u))
                (λ _. process_transactions-HasKeys n rest r.0)))

  process_block-HasKeys : (block : BlockInfo) → Keeps HasKeys (process_block x block)
  unfolding process_block get_relevant_utxos
  process_block-HasKeys block =
      Keeps-bind (or_raise (x.timestamp_opt block.header.time) anyhow) _
        (or_raise-HasKeys (x.timestamp_opt block.header.time) anyhow)
        (λ time.
          Keeps-bind (exec (upsert_block _)) _ (exec-HasKeys _ (upsert_block-IsConsistent _)) (λ _.
            Keeps-bind (index_transactions x block.header.hash 0 block.txdata []) _
              (index_transactions-HasKeys block.header.hash 0 block.txdata [])
              (λ points.
                Keeps-bind (exec (get_relevant_utxos points)) _
                  (exec-HasKeys _ (reads-IsConsistent (get_relevant_utxos points) (λ c. refl)))
                  (λ us. process_transactions-HasKeys block.header.height block.txdata _))))

  pub process-HasKeys : (block : BlockInfo) → Keeps HasKeys (process x block)
  unfolding process
  process-HasKeys block =
      in_transaction-HasKeys (process_block x block) (process_block-HasKeys block)

  process_blocks-HasKeys : (blocks : List BlockInfo) → Keeps HasKeys (process_blocks x blocks)
  unfolding process_blocks
  process_blocks-HasKeys [] = Keeps-pure _
  process_blocks-HasKeys (block ∷ rest) =
      Keeps-bind (process_block x block) _ (process_block-HasKeys block)
        (λ _. process_blocks-HasKeys rest)

  pub process_fork-HasKeys : (blocks : List BlockInfo) → Keeps HasKeys (process_fork x blocks)
  unfolding process_fork
  process_fork-HasKeys blocks = elim (Option-cases (last blocks)) [
    | inl e ↦ rw e (in_transaction-HasKeys _ Keeps-panic)
    | inr (origin, e) ↦ rw e (
        in_transaction-HasKeys _ (
          Keeps-bind (exec (delete_blocks_since origin.header.height)) _
            (exec-HasKeys _ (delete_blocks_since-IsConsistent origin.header.height))
            (λ _.
              Keeps-bind (exec (unspend_utxos_spent_since_block origin.header.height)) _
                (exec-HasKeys _ (unspend_utxos_spent_since_block-IsConsistent origin.header.height))
                (λ _.
                  Keeps-bind (send_unwrap (reorg_from origin.header.height)) _
                    (send_unwrap-HasKeys (reorg_from origin.header.height))
                    (λ _.
                      Keeps-bind (process_blocks x blocks) _ (process_blocks-HasKeys blocks)
                        (λ _. Keeps-pure _))))))
  ]
