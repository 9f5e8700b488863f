-- ===== src/Processor/Steps.antt =====
-- The account is kept along the inputs, the outputs and the messages of a transaction.
use btc_idx_service.Prelude.{
  inl, inr, ◌∷◌, ◌≡◌, refl, ℕ, Bool-cases, List, [], Option-cases, ◌+◌, Bool, none, zero, suc, ◌++◌,
}
use btc_idx_service.Chain.{create_utxo, spend_utxo}
use btc_idx_service.Types.{Address, Txid, TxIn, TxOut, new_event, P2trEvent, event, Transaction}
use btc_idx_service.Prelude.Int.{ℤ, pos, int_laws, negsuc}
use btc_idx_service.Processor.Defs.{
  UtxoMap, BalanceMap, spend_inputs, get_utxo, send_events, action_of, create_outputs,
  process_transactions,
}
use btc_idx_service.Prelude.Run.{Holds, Holds-resume}
use btc_idx_service.Processor.State.{World, exec, Externals, IsWalk}
use btc_idx_service.Processor.Known.{AllBacked}
use btc_idx_service.Processor.Balances.{
  event_sum, sum_at, event_amount, event_sum-append, sum_at-perm,
}
use btc_idx_service.Processor.Rules.{Holds-exec}
use btc_idx_service.Processor.Accounts.{
  IsOpen, Accounts, spend_utxo_lem, create_utxo_lem, created-IsOpen, spent-IsOpen,
}

module _ (a : Address) (base : ℤ) where
  spend_inputs-IsOpen :
      (n : ℕ) (ins : List TxIn) (known : UtxoMap) (updates : BalanceMap) (w : World)
      → IsOpen a base known updates w
      → Holds (λ r w'. IsOpen a base r.0 r.1 w') (spend_inputs n ins known updates w)
  unfolding spend_inputs
  spend_inputs-IsOpen n [] known updates w o = o
  spend_inputs-IsOpen n (txin ∷ rest) known updates w o =
      elim (Option-cases (get_utxo txin.previous_output known)) [
        | inl e ↦ rw (e, spend_inputs) (spend_inputs-IsOpen n rest known updates w o)
        | inr (u, e) ↦
            rw (e, spend_inputs)
              (Holds-resume (λ _ w'. IsOpen a base _ _ w') _ (exec (spend_utxo u.txid u.vout n) w) _
                (Holds-exec _ _ (spend_utxo u.txid u.vout n) w
                  (spend_utxo_lem u.txid u.vout n w.chain)
                  (λ _ w' h s.
                    spent-IsOpen a base txin.previous_output u n known updates w w' o e h.0 h.1 s))
                (λ _ w' o'. spend_inputs-IsOpen n rest _ _ w' o'))
      ]

  skipped-Accounts :
      (address : Address) (value : ℤ) (rest : BalanceMap) (w : World)
      → action_of value ≡ none
      → Accounts a base ((address, value) ∷ rest) w
      → Accounts a base rest w
  unfolding action_of sum_at
  skipped-Accounts address (pos zero) rest w z e = grind int_laws
  skipped-Accounts address (pos (suc n)) rest w z e = cc
  skipped-Accounts address (negsuc n) rest w z e = cc

  -- One message sent.
  sent-Accounts :
      (m : P2trEvent) (rest : BalanceMap) (w : World)
      → Accounts a base ((m.address, m.amount) ∷ rest) w
      → Accounts a base rest (record w { sent = w.sent ++ event m ∷ [] })
  unfolding sum_at event_sum event_amount
  sent-Accounts m rest w e = rw (event_sum-append a w.sent (event m ∷ [])) (grind int_laws)

  send_events-IsOpen :
      (n : ℕ) (txid : Txid) (coinbase : Bool) (l : BalanceMap) (known : UtxoMap) (w : World)
      → AllBacked known w.chain.utxos
      → Accounts a base l w
      → Holds (λ _ w'. IsOpen a base known [] w') (send_events n txid coinbase l w)
  unfolding send_events sum_at
  send_events-IsOpen n txid coinbase [] known w h e = record {
    backed = h;
    is_map = λ _. refl;
    accounts = e;
  }
  send_events-IsOpen n txid coinbase ((address, value) ∷ rest) known w h e =
      elim (Option-cases (action_of value)) [
        | inl z ↦
            rw (z, send_events)
              (send_events-IsOpen n txid coinbase rest known w h
                (skipped-Accounts address value rest w z e))
        | inr (k, z) ↦
            rw (z, send_events)
              (elim (Bool-cases w.receiving) [
                | inr closed ↦ rw closed tt
                | inl receiving ↦ rw receiving (
                    send_events-IsOpen n txid coinbase rest known _ h
                      (sent-Accounts (new_event n txid address value k coinbase) rest w e))
              ])
      ]

module _ (x : Externals) (a : Address) (base : ℤ) where
  create_outputs-IsOpen :
      (n : ℕ) (txid : Txid) (idx : ℕ) (outs : List TxOut) (known : UtxoMap) (updates : BalanceMap)
      (w : World)
      → IsOpen a base known updates w
      → Holds (λ r w'. IsOpen a base known r w') (create_outputs x n txid idx outs updates w)
  unfolding create_outputs
  create_outputs-IsOpen n txid idx [] known updates w o = o
  create_outputs-IsOpen n txid idx (txout ∷ rest) known updates w o =
      elim (Bool-cases (x.is_p2tr txout.script_pubkey)) [
        | inr e ↦
            rw (e, create_outputs) (create_outputs-IsOpen n txid (idx + 1) rest known updates w o)
        | inl e ↦
            rw (e, create_outputs)
              (elim (Option-cases (x.from_script txout.script_pubkey)) [
                | inl f ↦ rw f tt
                | inr (owner, f) ↦ rw f (
                    Holds-resume (λ _ w'. IsOpen a base known _ w') _
                      (exec (create_utxo owner txid idx (pos txout.value) n) w) _
                      (Holds-exec _ _ (create_utxo owner txid idx (pos txout.value) n) w
                        (create_utxo_lem owner txid idx (pos txout.value) n w.chain)
                        (λ _ w' c s.
                          created-IsOpen a base owner txid idx n (pos txout.value) known updates w
                            w' o c s))
                      (λ _ w' o'. create_outputs-IsOpen n txid (idx + 1) rest known _ w' o'))
              ])
      ]

module _ (x : Externals) (walked : IsWalk x) (a : Address) (base : ℤ) where
  pub process_transactions-IsOpen :
      (n : ℕ) (txs : List Transaction) (known : UtxoMap) (w : World)
      → IsOpen a base known [] w
      → Holds (λ _ w'. Accounts a base [] w') (process_transactions x n txs known w)
  unfolding process_transactions
  process_transactions-IsOpen n [] known w o = o.accounts
  process_transactions-IsOpen n (tx ∷ rest) known w o =
      Holds-resume (λ r w'. IsOpen a base r.0 r.1 w') _ (spend_inputs n tx.input known [] w) _
        (spend_inputs-IsOpen a base n tx.input known [] w o)
        (λ r w₁ o₁.
          Holds-resume (λ u w'. IsOpen a base r.0 u w') _
            (create_outputs x n (x.compute_txid tx) 0 tx.output r.1 w₁) _
            (create_outputs-IsOpen x a base n (x.compute_txid tx) 0 tx.output r.0 r.1 w₁ o₁)
            (λ u w₂ o₂.
              Holds-resume (λ _ w'. IsOpen a base r.0 [] w') _
                (send_events n (x.compute_txid tx) (x.is_coinbase tx) (x.walk u) w₂) _
                (send_events-IsOpen a base n (x.compute_txid tx) (x.is_coinbase tx) (x.walk u) r.0
                  w₂ o₂.backed (rw (sum_at-perm a (walked u)) o₂.accounts))
                (λ _ w₃ o₃. process_transactions-IsOpen n rest r.0 w₃ o₃)))
