-- ===== src/Processor/Completes.antt =====
-- The second pass over the transactions of a block runs to its end.
use btc_idx_service.Prelude.{
  some, [], true, false, inl, inr, ◌∷◌, ◌≡◌, ◌+◌, ◌≤◌, ◌<◌, ◌==◌, ◌∙◌, ◌^◌, refl, arith, List, Bool,
  ℕ, exists, All, Bool-cases, Option-cases, All-zip, All-mono, map,
}
use btc_idx_service.Prelude.Int.{pos, ℤ}
use btc_idx_service.Types.{
  Txid, Address, OutPoint, UtxoInfo, TxIn, Script, TxOut, get_out_point, Transaction,
}
use btc_idx_service.Processor.Defs.{
  send_events, spend_inputs, UtxoMap, BalanceMap, create_outputs, get_utxo, action_of,
  remove_utxo_at, process_transactions,
}
use btc_idx_service.Processor.State.{Externals, World, exec}
use btc_idx_service.Chain.{Chain, at_out_point, new_utxo, spend, create_utxo, spend_utxo}
use btc_idx_service.Chain.Keys.{has_transaction, IsConsistent, Distinct}
use btc_idx_service.Prelude.Run.{Returns, Returns-resume}
use btc_idx_service.Processor.Success.{
  IsQuiet, exec-Returns, create_utxo-Returns, spend_utxo-Returns,
}
use btc_idx_service.Sql.{update}
use btc_idx_service.Processor.Known.{
  AllBacked-cons, AllBacked, get_utxo-IsBacked, remove_utxo_at-AllBacked,
}
use btc_idx_service.Chain.Totals.{at_info}
use btc_idx_service.Chain.Consistent.{updated-IsConsistent}
use btc_idx_service.Chain.Rows.{exists-update, All-exists}

-- No utxo is an output of the transaction.
abbrev pub Free : Chain → Txid → Type 0
Free c txid = (vout : ℕ) → exists (at_out_point txid vout) c.utxos ≡ false

-- The transaction has its row, and no output yet.
abbrev pub Awaits : Chain → Txid → Type 0
Awaits c txid = (has_transaction c txid ≡ true) × Free c txid

-- Before a step on the transactions with the ids `ids`.
pub record IsReady (ids : List Txid) (known : UtxoMap) (w : World) : Type 0 where
  pub quiet : IsQuiet w
  pub keys : IsConsistent w.chain
  pub backed : AllBacked known w.chain.utxos
  pub awaited : All (Awaits w.chain) ids

spent-IsReady :
    (p : OutPoint) (u : UtxoInfo) (n : ℕ) (ids : List Txid) (known : UtxoMap) (w : World)
    (c : Chain)
    → IsReady ids known w
    → (get_out_point u ≡ p)
    → c ≡ record w.chain { utxos = update (at_info u) (spend n) w.chain.utxos }
    → IsQuiet (record w { chain = c })
    → IsReady ids (remove_utxo_at p known) (record w { chain = c })
spent-IsReady p u n ids known w c r key e quiet = record {
  quiet = quiet;
  keys = rw e (updated-IsConsistent (at_info u) (spend n) w.chain (λ _. refl) (λ _. refl) r.keys);
  backed = rw (e, ← key) (remove_utxo_at-AllBacked u n known w.chain.utxos r.backed);
  awaited = rw e (
      All-mono (Awaits w.chain)
        (Awaits (record w.chain { utxos = update (at_info u) (spend n) w.chain.utxos })) ids
        (λ id (row, free). (
          row,
          λ vout.
              exists-update (at_info u) (at_out_point id vout) (spend n) w.chain.utxos (λ _. refl)
              ∙ free vout,
        ))
        r.awaited);
}

created-IsReady :
    (owner : Address) (txid : Txid) (vout : ℕ) (amount : ℤ) (n : ℕ) (ids : List Txid)
    (known : UtxoMap) (w : World) (c : Chain)
    → IsReady ids known w
    → has_transaction w.chain txid ≡ true
    → exists (at_out_point txid vout) w.chain.utxos ≡ false
    → All (λ id. (txid == id) ≡ false) ids
    → c ≡ record w.chain { utxos = new_utxo owner txid vout amount n ∷ w.chain.utxos }
    → IsQuiet (record w { chain = c })
    → IsReady ids known (record w { chain = c })
created-IsReady owner txid vout amount n ids known w c r row free apart e quiet = record {
  quiet = quiet;
  keys = rw e (record {
    blocks = r.keys.blocks;
    transactions = r.keys.transactions;
    outputs = (free, r.keys.outputs);
    in_block = r.keys.in_block;
    in_transaction = (row, r.keys.in_transaction);
  });
  backed = rw e (AllBacked-cons (new_utxo owner txid vout amount n) known w.chain.utxos r.backed);
  awaited = rw e (
      All-zip (λ id. (txid == id) ≡ false) (Awaits w.chain)
        (Awaits (record w.chain { utxos = new_utxo owner txid vout amount n ∷ w.chain.utxos })) ids
        (λ id d (row', free'). (row', λ v. rw d (free' v))) apart r.awaited);
}

spend_inputs-Returns :
    (n : ℕ) (ins : List TxIn) (ids : List Txid) (known : UtxoMap) (updates : BalanceMap) (w : World)
    → IsReady ids known w
    → Returns (λ r w'. IsReady ids r.0 w') (spend_inputs n ins known updates w)
unfolding spend_inputs
spend_inputs-Returns n [] ids known updates w r = r
spend_inputs-Returns n (txin ∷ rest) ids known updates w r =
    elim (Option-cases (get_utxo txin.previous_output known)) [
      | inl e ↦ rw (e, spend_inputs) (spend_inputs-Returns n rest ids known updates w r)
      | inr (u, e) ↦
          let (key, held) =
            get_utxo-IsBacked txin.previous_output u known w.chain.utxos e r.backed in
          rw (e, spend_inputs)
            (Returns-resume (λ _ w'. IsReady ids (remove_utxo_at txin.previous_output known) w') _
              (exec (spend_utxo u.txid u.vout n) w) _
              (exec-Returns _ _ (spend_utxo u.txid u.vout n) w r.quiet
                (spend_utxo-Returns u n w.chain r.keys held)
                (λ _ c e' q. spent-IsReady txin.previous_output u n ids known w c r key e' q))
              (λ _ w' r'. spend_inputs-Returns n rest ids _ _ w' r'))
    ]

send_events-Returns :
    (n : ℕ) (txid : Txid) (coinbase : Bool) (l : BalanceMap) (ids : List Txid) (known : UtxoMap)
    (w : World)
    → IsReady ids known w
    → Returns (λ _ w'. IsReady ids known w') (send_events n txid coinbase l w)
unfolding send_events
send_events-Returns n txid coinbase [] ids known w r = r
send_events-Returns n txid coinbase ((address, value) ∷ rest) ids known w r =
    elim (Option-cases (action_of value)) [
      | inl z ↦ rw (z, send_events) (send_events-Returns n txid coinbase rest ids known w r)
      | inr (k, z) ↦
          rw (z, send_events, r.quiet.open_end)
            (send_events-Returns n txid coinbase rest ids known _ (record {
              quiet = record { sound = r.quiet.sound; open_end = refl };
              keys = r.keys;
              backed = r.backed;
              awaited = r.awaited;
            }))
    ]

-- Each taproot script has an address.
abbrev pub HasAddresses : Externals → Type 0
HasAddresses x = (s : Script) → x.is_p2tr s ≡ true → (a : Address) × (x.from_script s ≡ some a)

module _ (x : Externals) (addresses : HasAddresses x) (n : ℕ) (fits : n < 2 ^ 63) where
  create_outputs-Returns :
      (txid : Txid) (idx : ℕ) (outs : List TxOut) (ids : List Txid) (known : UtxoMap)
      (updates : BalanceMap) (w : World)
      → IsReady ids known w
      → has_transaction w.chain txid ≡ true
      → ((vout : ℕ) → idx ≤ vout → exists (at_out_point txid vout) w.chain.utxos ≡ false)
      → All (λ id. (txid == id) ≡ false) ids
      → Returns (λ _ w'. IsReady ids known w') (create_outputs x n txid idx outs updates w)
  unfolding create_outputs
  create_outputs-Returns txid idx [] ids known updates w r row free apart = r
  create_outputs-Returns txid idx (txout ∷ rest) ids known updates w r row free apart =
      elim (Bool-cases (x.is_p2tr txout.script_pubkey)) [
        | inr e ↦
            rw (e, create_outputs)
              (create_outputs-Returns txid (idx + 1) rest ids known updates w r row
                (λ v le. free v (omega arith)) apart)
        | inl e ↦
            let (owner, f) = addresses txout.script_pubkey e in
            rw (e, create_outputs, f)
              (Returns-resume
                (λ _ w'.
                  IsReady ids known w'
                  × (has_transaction w'.chain txid ≡ true)
                  × ((vout : ℕ)
                      → idx + 1 ≤ vout
                      → exists (at_out_point txid vout) w'.chain.utxos ≡ false))
                _ (exec (create_utxo owner txid idx (pos txout.value) n) w) _
                (exec-Returns _ _ (create_utxo owner txid idx (pos txout.value) n) w r.quiet
                  (create_utxo-Returns owner txid idx (pos txout.value) n w.chain fits
                    (free idx (omega arith)) row)
                  (λ _ c e' q. (
                    created-IsReady owner txid idx (pos txout.value) n ids known w c r row
                        (free idx (omega arith)) apart e' q,
                    rw e' row,
                    λ v le. rw e' (let unmade = free v (omega arith) in ground arith),
                  )))
                (λ _ w' (r', row', free').
                  create_outputs-Returns txid (idx + 1) rest ids known _ w' r' row' free' apart))
      ]

  pub process_transactions-Returns :
      (txs : List Transaction) (known : UtxoMap) (w : World)
      → Distinct (λ id id'. id == id') (map x.compute_txid txs)
      → IsReady (map x.compute_txid txs) known w
      → Returns (λ _ w'. IsQuiet w') (process_transactions x n txs known w)
  unfolding process_transactions
  process_transactions-Returns [] known w distinct r = r.quiet
  process_transactions-Returns (tx ∷ rest) known w distinct r =
      let txid = x.compute_txid tx in
      let ids = map x.compute_txid rest in
      Returns-resume (λ s w'. IsReady (txid ∷ ids) s.0 w') _ (spend_inputs n tx.input known [] w) _
        (spend_inputs-Returns n tx.input (txid ∷ ids) known [] w r)
        (λ s w₁ r₁.
          Returns-resume (λ _ w'. IsReady ids s.0 w') _ (create_outputs x n txid 0 tx.output s.1 w₁)
            _
            (create_outputs-Returns txid 0 tx.output ids s.0 s.1 w₁
              (record {
                quiet = r₁.quiet;
                keys = r₁.keys;
                backed = r₁.backed;
                awaited = r₁.awaited.1;
              })
              r₁.awaited.0.0 (λ v _. r₁.awaited.0.1 v)
              (All-exists (λ id. txid == id) ids distinct.0))
            (λ u w₂ r₂.
              Returns-resume (λ _ w'. IsReady ids s.0 w') _
                (send_events n txid (x.is_coinbase tx) (x.walk u) w₂) _
                (send_events-Returns n txid (x.is_coinbase tx) (x.walk u) ids s.0 w₂ r₂)
                (λ _ w₃ r₃. process_transactions-Returns rest s.0 w₃ distinct.1 r₃)))
