-- ===== src/Processor/Conservation.antt =====
-- The messages of a block account for every change of the unspent totals.
use btc_idx_service.Prelude.{
  inl, inr, ◌∷◌, ◌≡◌, refl, ℕ, arith, List, [], Option-cases, ◌+◌, ◌++◌, ◌∙◌, All, ap,
}
use btc_idx_service.Chain.{
  Chain, upsert_block, upsert_transaction, TransactionRow, BlockRow, get_relevant_utxos,
}
use btc_idx_service.Types.{Address, OutPoint, BlockHash, Transaction, AggregatorMsg, BlockInfo}
use btc_idx_service.Prelude.Int.{ℤ, ◌+ℤ◌, pos, ◌-ℤ◌, int_laws}
use btc_idx_service.Processor.Defs.{
  index_transactions, process_transactions, out_points, process_block, process, collect,
}
use btc_idx_service.Prelude.Run.{Holds, Holds-resume, Holds-mono, ◌>>=◌}
use btc_idx_service.Processor.State.{World, exec, Externals, IsWalk}
use btc_idx_service.Processor.Known.{AllBacked, collect-AllBacked}
use btc_idx_service.Chain.Totals.{unspent_total, HasUnspent, All-relevant}
use btc_idx_service.Processor.Balances.{event_sum, sum_at}
use btc_idx_service.Processor.Rules.{Holds-exec, Commits, Commits-in_transaction}
use btc_idx_service.Processor.Accounts.{Accounts}
use btc_idx_service.Processor.Steps.{process_transactions-IsOpen}

-- The first pass leaves the utxos alone.
abbrev SameUtxos : {A : Type 0} → World → A → World → Type 0
SameUtxos w _ w' = (w'.chain.utxos ≡ w.chain.utxos) × (w'.sent ≡ w.sent)

pub upsert_block_lem :
    (row : BlockRow) (c : Chain) → Holds (λ _ c'. c'.utxos ≡ c.utxos) (upsert_block row c)
unfolding upsert_block
upsert_block_lem row c = ground arith

pub upsert_transaction_lem :
    (row : TransactionRow) (c : Chain)
    → Holds (λ _ c'. c'.utxos ≡ c.utxos) (upsert_transaction row c)
unfolding upsert_transaction
upsert_transaction_lem row c = ground arith

index_transactions-SameUtxos :
    (x : Externals) (hash : BlockHash) (idx : ℕ) (txs : List Transaction) (points : List OutPoint)
    (w : World)
    → Holds (SameUtxos w) (index_transactions x hash idx txs points w)
unfolding index_transactions
index_transactions-SameUtxos x hash idx [] points w = (refl, refl)
index_transactions-SameUtxos x hash idx (tx ∷ rest) points w =
    Holds-resume (SameUtxos w) _ (exec (upsert_transaction _) w) _
      (Holds-exec _ _ (upsert_transaction _) w (upsert_transaction_lem _ w.chain)
        (λ _ w' c s. (c, s)))
      (λ _ w₁ h₁.
        Holds-mono (SameUtxos w₁) _ _
          (index_transactions-SameUtxos x hash (idx + 1) rest (points ++ out_points tx.input) w₁)
          (λ _ w₂ h₂. (h₂.0 ∙ h₁.0, h₂.1 ∙ h₁.1)))

-- From `w` on, the unspent total of `a` and what the messages carry to it move by the same amount.
abbrev pub Conserves : Address → World → Chain → List AggregatorMsg → Type 0
Conserves a w c sent =
    unspent_total a c.utxos +ℤ event_sum a w.sent
    ≡ unspent_total a w.chain.utxos +ℤ event_sum a sent

rebase : (t t' e e' : ℤ) → t' ≡ t -ℤ e +ℤ e' +ℤ pos 0 → t' +ℤ e ≡ t +ℤ e'
rebase t t' e e' h = rw h (omega int_laws)

pub get_relevant_utxos_lem :
    (points : List OutPoint) (c : Chain)
    → Holds (λ us c'. (c' ≡ c) × All (λ u. HasUnspent u c.utxos) us) (get_relevant_utxos points c)
unfolding get_relevant_utxos
get_relevant_utxos_lem points c = (refl, All-relevant points c.utxos)

module _ (x : Externals) (walked : IsWalk x) (a : Address) where
  -- The second pass, from the query for the relevant utxos on.
  second_pass-Conserves :
      (n : ℕ) (txs : List Transaction) (points : List OutPoint) (w : World)
      → Holds
          (λ _ w'. Conserves a w w'.chain w'.sent)
          ((exec (get_relevant_utxos points) >>= λ us. process_transactions x n txs (collect us []))
            w)
  unfolding sum_at
  second_pass-Conserves n txs points w =
      let base = unspent_total a w.chain.utxos -ℤ event_sum a w.sent in
      Holds-resume
        (λ us w₁.
          AllBacked (collect us []) w₁.chain.utxos
          × (w₁.chain.utxos ≡ w.chain.utxos)
          × (w₁.sent ≡ w.sent))
        _ (exec (get_relevant_utxos points) w) _
        (Holds-exec _ _ (get_relevant_utxos points) w (get_relevant_utxos_lem points w.chain)
          (λ us w₁ h s. (
            rw h.0 (collect-AllBacked us [] w.chain.utxos h.1 tt),
            ap (λ (c : Chain). c.utxos) h.0,
            s,
          )))
        (λ us w₁ (backed, same, sent).
          Holds-mono (λ _ w'. Accounts a base [] w') _ _
            (process_transactions-IsOpen x walked a base n txs (collect us []) w₁ (record {
              backed = backed;
              is_map = λ _. refl;
              accounts = rw (same, sent) (omega int_laws);
            }))
            (λ _ w' e. rebase (unspent_total a w.chain.utxos) _ (event_sum a w.sent) _ e))

  pub process_block-Conserves :
      (block : BlockInfo) (w : World)
      → Holds (λ _ w'. Conserves a w w'.chain w'.sent) (process_block x block w)
  unfolding process_block
  process_block-Conserves block w = elim (Option-cases (x.timestamp_opt block.header.time)) [
    | inl e ↦ rw e tt
    | inr (t, e) ↦ rw e (
        Holds-resume (SameUtxos w) _ (exec (upsert_block _) w) _
          (Holds-exec _ _ (upsert_block _) w (upsert_block_lem _ w.chain) (λ _ w' c s. (c, s)))
          (λ _ w₁ h₁.
            Holds-resume (SameUtxos w₁) _
              (index_transactions x block.header.hash 0 block.txdata [] w₁) _
              (index_transactions-SameUtxos x block.header.hash 0 block.txdata [] w₁)
              (λ points w₂ h₂.
                Holds-mono (λ _ w'. Conserves a w₂ w'.chain w'.sent) _ _
                  (second_pass-Conserves block.header.height block.txdata points w₂)
                  (λ _ w' e. rw (← h₁.0, ← h₁.1, ← h₂.0, ← h₂.1) e))))
  ]

  -- Processing a block either commits, and then for each address the unspent total and the sum of
  -- the amounts in the messages sent move by the same amount, or it fails or panics, whatever the
  -- faults of the connection, and the chain tables are as before.
  pub process-Conserves :
      (block : BlockInfo) (w : World)
      → Commits w (λ _ w'. Conserves a w w'.chain w'.sent) (process x block w)
  unfolding process
  process-Conserves block w =
      Commits-in_transaction (λ _. Conserves a w) (process_block x block) w
        (λ v c s.
          Holds-mono (λ _ w'. Conserves a v w'.chain w'.sent) _ _ (process_block-Conserves block v)
            (λ _ w' e. rw (← c, ← s) e))
