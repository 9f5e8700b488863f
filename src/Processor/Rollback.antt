-- ===== src/Processor/Rollback.antt =====
-- A block that is processed and then rolled back leaves the tables as they were.
use btc_idx_service.Prelude.{
  some, [], true, inl, inr, ◌∷◌, ◌≡◌, ◌+◌, ◌∙◌, List, Bool, ℕ, All, Option-cases, Bool-cases,
}
use btc_idx_service.Prelude.Int.{pos}
use btc_idx_service.Chain.{
  BlockRow, TransactionRow, Chain, UtxoRow, spend, spend_utxo, create_utxo, new_utxo,
}
use btc_idx_service.Processor.State.{Externals, World, exec}
use btc_idx_service.Processor.Defs.{
  spend_inputs, UtxoMap, process_transactions, create_outputs, send_events, get_utxo, BalanceMap,
  action_of, remove_utxo_at,
}
use btc_idx_service.Types.{OutPoint, Txid, TxIn, Transaction, UtxoInfo, TxOut}
use btc_idx_service.Processor.Writes.{has_row, create_utxo-writes, spend_utxo-writes}
use btc_idx_service.Chain.Undo.{Extends, restored-create, restored-spend}
use btc_idx_service.Processor.Known.{
  AllBacked-cons, AllBacked, get_utxo-IsBacked, remove_utxo_at-AllBacked,
}
use btc_idx_service.Sql.{count, update}
use btc_idx_service.Prelude.Run.{Holds, Holds-resume}
use btc_idx_service.Chain.Totals.{at_info}
use btc_idx_service.Processor.Rules.{Holds-exec}

module _ (row : BlockRow) (new : List TransactionRow) (c₀ : Chain) where
  pub record IsTracked (known : UtxoMap) (w : World) : Type 0 where
    pub extends : Extends row new c₀ w.chain
    pub backed : AllBacked known w.chain.utxos

  spent-IsTracked :
      (p : OutPoint) (u : UtxoInfo) (known : UtxoMap) (w w' : World)
      → IsTracked known w
      → get_utxo p known ≡ some u
      → count (at_info u) w.chain.utxos ≡ 1
      → w'.chain ≡ record w.chain { utxos = update (at_info u) (spend row.number) w.chain.utxos }
      → IsTracked (remove_utxo_at p known) w'
  spent-IsTracked p u known w w' t e one c =
      let (key, held) = get_utxo-IsBacked p u known w.chain.utxos e t.backed in
      record {
        extends = rw c (record {
          blocks = t.extends.blocks;
          transactions = t.extends.transactions;
          linked = t.extends.linked;
          utxos = restored-spend row.number new u w.chain.utxos one held ∙ t.extends.utxos;
        });
        backed = rw (c, ← key) (remove_utxo_at-AllBacked u row.number known w.chain.utxos t.backed);
      }

  created-IsTracked :
      (o : UtxoRow) (known : UtxoMap) (w w' : World)
      → IsTracked known w
      → has_row new o.txid ≡ true
      → w'.chain ≡ record w.chain { utxos = o ∷ w.chain.utxos }
      → IsTracked known w'
  unfolding has_row
  created-IsTracked o known w w' t made c = record {
    extends = rw c (record {
      blocks = t.extends.blocks;
      transactions = t.extends.transactions;
      linked = t.extends.linked;
      utxos = restored-create row.number new o w.chain.utxos made ∙ t.extends.utxos;
    });
    backed = rw c (AllBacked-cons o known w.chain.utxos t.backed);
  }

  spend_inputs-IsTracked :
      (ins : List TxIn) (known : UtxoMap) (updates : BalanceMap) (w : World)
      → IsTracked known w
      → Holds (λ r w'. IsTracked r.0 w') (spend_inputs row.number ins known updates w)
  unfolding spend_inputs
  spend_inputs-IsTracked [] known updates w t = t
  spend_inputs-IsTracked (txin ∷ rest) known updates w t =
      elim (Option-cases (get_utxo txin.previous_output known)) [
        | inl e ↦ rw (e, spend_inputs) (spend_inputs-IsTracked rest known updates w t)
        | inr (u, e) ↦
            rw (e, spend_inputs)
              (Holds-resume (λ _ w'. IsTracked (remove_utxo_at txin.previous_output known) w') _
                (exec (spend_utxo u.txid u.vout row.number) w) _
                (Holds-exec _ _ (spend_utxo u.txid u.vout row.number) w
                  (spend_utxo-writes u.txid u.vout row.number w.chain)
                  (λ _ w' h s. spent-IsTracked txin.previous_output u known w w' t e h.0 h.1))
                (λ _ w' t'. spend_inputs-IsTracked rest _ _ w' t'))
      ]

  send_events-IsTracked :
      (txid : Txid) (coinbase : Bool) (l : BalanceMap) (known : UtxoMap) (w : World)
      → IsTracked known w
      → Holds (λ _ w'. IsTracked known w') (send_events row.number txid coinbase l w)
  unfolding send_events
  send_events-IsTracked txid coinbase [] known w t = t
  send_events-IsTracked txid coinbase ((address, value) ∷ rest) known w t =
      elim (Option-cases (action_of value)) [
        | inl z ↦ rw (z, send_events) (send_events-IsTracked txid coinbase rest known w t)
        | inr (k, z) ↦
            rw (z, send_events)
              (elim (Bool-cases w.receiving) [
                | inr closed ↦ rw closed tt
                | inl receiving ↦ rw receiving (
                    send_events-IsTracked txid coinbase rest known _
                      (record { extends = t.extends; backed = t.backed }))
              ])
      ]

module _ (x : Externals) (row : BlockRow) (new : List TransactionRow) (c₀ : Chain) where
  create_outputs-IsTracked :
      (txid : Txid) (idx : ℕ) (outs : List TxOut) (known : UtxoMap) (updates : BalanceMap)
      (w : World)
      → has_row new txid ≡ true
      → IsTracked row new c₀ known w
      → Holds
          (λ r w'. IsTracked row new c₀ known w')
          (create_outputs x row.number txid idx outs updates w)
  unfolding create_outputs
  create_outputs-IsTracked txid idx [] known updates w made t = t
  create_outputs-IsTracked txid idx (txout ∷ rest) known updates w made t =
      elim (Bool-cases (x.is_p2tr txout.script_pubkey)) [
        | inr e ↦
            rw (e, create_outputs)
              (create_outputs-IsTracked txid (idx + 1) rest known updates w made t)
        | inl e ↦
            rw (e, create_outputs)
              (elim (Option-cases (x.from_script txout.script_pubkey)) [
                | inl f ↦ rw f tt
                | inr (owner, f) ↦ rw f (
                    Holds-resume (λ _ w'. IsTracked row new c₀ known w') _
                      (exec (create_utxo owner txid idx (pos txout.value) row.number) w) _
                      (Holds-exec _ _ (create_utxo owner txid idx (pos txout.value) row.number) w
                        (create_utxo-writes owner txid idx (pos txout.value) row.number w.chain)
                        (λ _ w' c s.
                          created-IsTracked row new c₀
                            (new_utxo owner txid idx (pos txout.value) row.number) known w w' t made
                            c))
                      (λ _ w' t'. create_outputs-IsTracked txid (idx + 1) rest known _ w' made t'))
              ])
      ]

  pub process_transactions-Extends :
      (txs : List Transaction) (known : UtxoMap) (w : World)
      → All (λ tx. has_row new (x.compute_txid tx) ≡ true) txs
      → IsTracked row new c₀ known w
      → Holds (λ _ w'. Extends row new c₀ w'.chain) (process_transactions x row.number txs known w)
  unfolding process_transactions
  process_transactions-Extends [] known w made t = t.extends
  process_transactions-Extends (tx ∷ rest) known w made t =
      let txid = x.compute_txid tx in
      Holds-resume (λ r w'. IsTracked row new c₀ r.0 w') _
        (spend_inputs row.number tx.input known [] w) _
        (spend_inputs-IsTracked row new c₀ tx.input known [] w t)
        (λ r w₁ t₁.
          Holds-resume (λ u w'. IsTracked row new c₀ r.0 w') _
            (create_outputs x row.number txid 0 tx.output r.1 w₁) _
            (create_outputs-IsTracked txid 0 tx.output r.0 r.1 w₁ made.0 t₁)
            (λ u w₂ t₂.
              Holds-resume (λ _ w'. IsTracked row new c₀ r.0 w') _
                (send_events row.number txid (x.is_coinbase tx) (x.walk u) w₂) _
                (send_events-IsTracked row new c₀ txid (x.is_coinbase tx) (x.walk u) r.0 w₂ t₂)
                (λ _ w₃ t₃. process_transactions-Extends rest r.0 w₃ made.1 t₃)))
