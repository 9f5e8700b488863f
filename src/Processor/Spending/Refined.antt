-- ===== src/Processor/Spending/Refined.antt =====
-- The block on the tables against the block on the set of unspent outputs.
use btc_idx_service.Processor.Spending.{
  spend_all, create_all, apply_transactions, IsAsked, OutPoint, Externals, Txid, TxIn, TxOut,
  Transaction, UtxoSet, output_at, put_output,
}
use btc_idx_service.Processor.Spending.Tracked.{
  IsTracked, unknown-IsTracked, spent-IsTracked, created-IsTracked,
}
use btc_idx_service.Prelude.{
  [], false, inl, inr, ◌∷◌, ◌≡◌, ◌+◌, ◌==◌, List, Bool, ℕ, All, Bool-cases, Option-cases, ◌∙◌, refl,
  subst, ap, sym,
}
use btc_idx_service.Prelude.Int.{pos}
use btc_idx_service.Types.{OutPoint, TxIn, Txid, Transaction, TxOut}
use btc_idx_service.Processor.Defs.{
  spend_inputs, send_events, create_outputs, process_transactions, BalanceMap, UtxoMap, get_utxo,
  action_of, remove_utxo_at,
}
use btc_idx_service.Processor.State.{Externals, World, exec}
use btc_idx_service.Chain.Unspent.{UtxoSet, unspent_at, with_output, IsSpelled, without}
use btc_idx_service.Prelude.Run.{Holds, Holds-resume}
use btc_idx_service.Chain.{spend_utxo, create_utxo}
use btc_idx_service.Processor.Rules.{Holds-exec}
use btc_idx_service.Processor.Writes.{create_utxo-writes, spend_utxo-writes}

module _ (points : List OutPoint) where
  spend_inputs-IsTracked :
      (n : ℕ) (ins : List TxIn) (known : UtxoMap) (updates : BalanceMap) (f : UtxoSet) (w : World)
      → All (λ (i : TxIn). IsAsked points i.previous_output) ins
      → IsTracked points known f w
      → Holds
          (λ r w'. IsTracked points r.0 (spend_all ins f) w')
          (spend_inputs n ins known updates w)
  unfolding spend_inputs
  spend_inputs-IsTracked n [] known updates f w asked t = t
  spend_inputs-IsTracked n (txin ∷ rest) known updates f w asked t =
      let p = txin.previous_output in
      elim (Option-cases (get_utxo p known)) [
        | inl e ↦
            rw (e, spend_inputs)
              (spend_inputs-IsTracked n rest known updates (without p f) w asked.1
                (unknown-IsTracked points p known f w t asked.0 e))
        | inr (u, e) ↦
            rw (e, spend_inputs)
              (Holds-resume (λ _ w'. IsTracked points (remove_utxo_at p known) (without p f) w') _
                (exec (spend_utxo u.txid u.vout n) w) _
                (Holds-exec _ _ (spend_utxo u.txid u.vout n) w
                  (spend_utxo-writes u.txid u.vout n w.chain)
                  (λ _ w' h s. spent-IsTracked points p u n known f w w' t e h.1))
                (λ _ w' t'. spend_inputs-IsTracked n rest _ _ (without p f) w' asked.1 t'))
      ]

  send_events-IsTracked :
      (n : ℕ) (txid : Txid) (coinbase : Bool) (l : BalanceMap) (known : UtxoMap) (f : UtxoSet)
      (w : World)
      → IsTracked points known f w
      → Holds (λ _ w'. IsTracked points known f w') (send_events n txid coinbase l w)
  unfolding send_events
  send_events-IsTracked n txid coinbase [] known f w t = t
  send_events-IsTracked n txid coinbase ((address, value) ∷ rest) known f w t =
      elim (Option-cases (action_of value)) [
        | inl z ↦ rw (z, send_events) (send_events-IsTracked n txid coinbase rest known f w t)
        | inr (k, z) ↦
            rw (z, send_events)
              (elim (Bool-cases w.receiving) [
                | inr closed ↦ rw closed tt
                | inl receiving ↦ rw receiving (
                    send_events-IsTracked n txid coinbase rest known f _ (record {
                      keyed = t.keyed;
                      spelled = t.spelled;
                      stands = t.stands;
                      complete = t.complete;
                    }))
              ])
      ]

  module _ (x : Externals) where
    -- `g` is what the outputs make of `f`.
    create_outputs-IsTracked :
        (n : ℕ) (txid : Txid) (idx : ℕ) (outs : List TxOut) (known : UtxoMap) (updates : BalanceMap)
        (f g : UtxoSet) (w : World)
        → All (λ (p : OutPoint). (txid == p.txid) ≡ false) points
        → create_all x txid idx outs f ≡ g
        → IsTracked points known f w
        → Holds (λ _ w'. IsTracked points known g w') (create_outputs x n txid idx outs updates w)
    unfolding create_outputs
    create_outputs-IsTracked n txid idx [] known updates f g w apart e t =
        subst (λ h. IsTracked points known h w) e t
    create_outputs-IsTracked n txid idx (txout ∷ rest) known updates f g w apart e t =
        elim (Bool-cases (x.is_p2tr txout.script_pubkey)) [
          | inr other ↦
              rw (other, create_outputs)
                (create_outputs-IsTracked n txid (idx + 1) rest known updates f g w apart
                  (then_output f (λ i.
                    put_output (other i) (x.from_script txout.script_pubkey)
                      (record { txid = txid; vout = idx }) (pos txout.value) f))
                  t)
          | inl p2tr ↦
              rw (p2tr, create_outputs)
                (elim (Option-cases (x.from_script txout.script_pubkey)) [
                  | inl unknown ↦ rw unknown tt
                  | inr (owner, there) ↦
                      let q : OutPoint = record { txid = txid; vout = idx } in
                      let f' = with_output q (owner, pos txout.value) f in
                      rw there (
                        Holds-resume (λ _ w'. IsTracked points known f' w') _
                          (exec (create_utxo owner txid idx (pos txout.value) n) w) _
                          (Holds-exec _ _ (create_utxo owner txid idx (pos txout.value) n) w
                            (create_utxo-writes owner txid idx (pos txout.value) n w.chain)
                            (λ _ w' c s.
                              created-IsTracked points q (owner, pos txout.value) n known f w w' t
                                apart c))
                          (λ _ w' t'.
                            create_outputs-IsTracked n txid (idx + 1) rest known _ f' g w' apart
                              (then_output f'
                                (λ i. put_output (p2tr i) (there i) q (pos txout.value) f))
                              t'))
                ])
        ]
      where
        then_output :
            (f' : UtxoSet)
            → output_at x txid idx txout f ≡ f'
            → create_all x txid (idx + 1) rest f' ≡ g
        then_output f' o = ap (create_all x txid (idx + 1) rest) (sym o) ∙ e

    pub process_transactions-IsTracked :
        (n : ℕ) (txs : List Transaction) (known : UtxoMap) (f : UtxoSet) (w : World)
        → All
            (λ (tx : Transaction). All (λ (i : TxIn). IsAsked points i.previous_output) tx.input)
            txs
        → All (λ tx. All (λ (p : OutPoint). (x.compute_txid tx == p.txid) ≡ false) points) txs
        → IsTracked points known f w
        → Holds
            (λ _ w'.
              (unspent_at w'.chain.utxos ≡ apply_transactions x txs f)
              × All IsSpelled w'.chain.utxos)
            (process_transactions x n txs known w)
    unfolding process_transactions
    process_transactions-IsTracked n [] known f w asked apart t = (t.stands, t.spelled)
    process_transactions-IsTracked n (tx ∷ rest) known f w asked apart t =
        let txid = x.compute_txid tx in
        let f₁ = spend_all tx.input f in
        let f₂ = create_all x txid 0 tx.output f₁ in
        Holds-resume (λ r w'. IsTracked points r.0 f₁ w') _ (spend_inputs n tx.input known [] w) _
          (spend_inputs-IsTracked n tx.input known [] f w asked.0 t)
          (λ r w₁ t₁.
            Holds-resume (λ u w'. IsTracked points r.0 f₂ w') _
              (create_outputs x n txid 0 tx.output r.1 w₁) _
              (create_outputs-IsTracked n txid 0 tx.output r.0 r.1 f₁ f₂ w₁ apart.0 refl t₁)
              (λ u w₂ t₂.
                Holds-resume (λ _ w'. IsTracked points r.0 f₂ w') _
                  (send_events n txid (x.is_coinbase tx) (x.walk u) w₂) _
                  (send_events-IsTracked n txid (x.is_coinbase tx) (x.walk u) r.0 f₂ w₂ t₂)
                  (λ _ w₃ t₃. process_transactions-IsTracked n rest r.0 f₂ w₃ asked.1 apart.1 t₃)))
