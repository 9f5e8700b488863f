-- ===== src/Processor/Liveness.antt =====
-- Without faults, a block that is new to sound tables is processed.
use btc_idx_service.Prelude.{
  some, [], true, false, ◌∷◌, ◌≡◌, ◌+◌, ◌<◌, ◌++◌, ◌==◌, ◌^◌, List, ℕ, All, map, inl, inr, ◌∙◌,
  refl, arith, ap, ==_iff, exists, Bool-cases, All-mono,
}
use btc_idx_service.Processor.State.{Externals, IsWalk, World, exec}
use btc_idx_service.Processor.Defs.{index_transactions, process_block, out_points, collect, process}
use btc_idx_service.Types.{BlockHash, Transaction, OutPoint, BlockInfo, Txid, Address}
use btc_idx_service.Chain.{
  BlockRow, TransactionRow, Chain, upsert_transaction, upsert_block, get_relevant_utxos, UtxoRow,
  at_out_point,
}
use btc_idx_service.Processor.Completes.{
  HasAddresses, Awaits, IsReady, process_transactions-Returns,
}
use btc_idx_service.Processor.Success.{
  IsQuiet, exec-Returns, upsert_transaction-Returns, upsert_block-Returns,
  get_relevant_utxos-Returns, in_transaction-Returns,
}
use btc_idx_service.Chain.Keys.{knows, IsConsistent, Distinct, has_transaction}
use btc_idx_service.Chain.Undo.{IsBefore}
use btc_idx_service.Processor.Writes.{IsIndexed, has_row, has_row_mono}
use btc_idx_service.Prelude.Run.{Returns, Returns-resume, Returns-state, Returns-both, Returns-mono}
use btc_idx_service.Processor.Undo.{
  AreNew, block_row, transaction_row, upsert_block-IsIndexed, Indexes, index_transactions-Indexes,
}
use btc_idx_service.Chain.Consistent.{upsert_block-IsConsistent}
use btc_idx_service.Processor.Known.{collect-AllBacked}
use btc_idx_service.Processor.Conservation.{Conserves, process-Conserves}
use btc_idx_service.Processor.Consistent.{index_transactions-HasKeys}
use btc_idx_service.Chain.Rows.{exists-none}
use btc_idx_service.Processor.Rules.{Commits-Holds}

index_transactions-Returns :
    (x : Externals) (hash : BlockHash) (idx : ℕ) (txs : List Transaction) (points : List OutPoint)
    (w : World)
    → IsQuiet w
    → knows w.chain hash ≡ true
    → Returns (λ _ w'. IsQuiet w') (index_transactions x hash idx txs points w)
unfolding index_transactions
index_transactions-Returns x hash idx [] points w quiet known = quiet
index_transactions-Returns x hash idx (tx ∷ rest) points w quiet known =
    Returns-resume (λ _ w'. IsQuiet w' × (knows w'.chain hash ≡ true)) _
      (exec (upsert_transaction (transaction_row x hash idx tx)) w) _
      (exec-Returns _ _ (upsert_transaction (transaction_row x hash idx tx)) w quiet
        (upsert_transaction-Returns (transaction_row x hash idx tx) w.chain known)
        (λ _ c same q. (q, rw same known)))
      (λ _ w₁ (q, k).
        index_transactions-Returns x hash (idx + 1) rest (points ++ out_points tx.input) w₁ q k)

no_output :
    (c : Chain) (txid : Txid) (vout : ℕ) (u : UtxoRow)
    → has_row c.transactions txid ≡ false
    → has_transaction c u.txid ≡ true
    → at_out_point txid vout u ≡ false
unfolding has_row
no_output c txid vout u out held = elim (Bool-cases (u.txid == txid)) [
  | inr e ↦ rw e refl
  | inl e ↦ absurd (ground (arith, (==_iff u.txid txid).0 e))
]

-- The rows of the first pass are there, and the transactions of the block have no outputs yet.
all_awaited :
    (x : Externals) (txs : List Transaction) (hash : BlockHash) (bs : List BlockRow)
    (new : List TransactionRow) (c₀ c : Chain)
    → IsConsistent c₀
    → IsIndexed hash bs new c₀ c
    → AreNew x txs c₀
    → All (λ tx. has_row new (x.compute_txid tx) ≡ true) txs
    → All (Awaits c) (map x.compute_txid txs)
unfolding has_row
all_awaited x [] hash bs new c₀ c keys i fresh made = tt
all_awaited x (tx ∷ rest) hash bs new c₀ c keys i fresh made = (
  (
    ap (λ l. has_row l (x.compute_txid tx)) i.transactions
        ∙ has_row_mono new c₀.transactions (x.compute_txid tx) made.0,
    λ vout.
        ap (exists (at_out_point (x.compute_txid tx) vout)) i.utxos
        ∙ exists-none (at_out_point (x.compute_txid tx) vout) c₀.utxos (
            All-mono (λ u. has_transaction c₀ u.txid ≡ true)
              (λ u. at_out_point (x.compute_txid tx) vout u ≡ false) c₀.utxos
              (λ u k. no_output c₀ (x.compute_txid tx) vout u fresh.0 k) keys.in_transaction),
  ),
  all_awaited x rest hash bs new c₀ c keys i fresh.1 made.1,
)

module _ (x : Externals) (walked : IsWalk x) (addresses : HasAddresses x) where
  process_block-Returns :
      (block : BlockInfo) (w : World) (time : ℕ)
      → x.timestamp_opt block.header.time ≡ some time
      → IsQuiet w
      → IsConsistent w.chain
      → block.header.height < 2 ^ 63
      → IsBefore block.header.height w.chain
      → knows w.chain block.header.hash ≡ false
      → AreNew x block.txdata w.chain
      → Distinct (λ id id'. id == id') (map x.compute_txid block.txdata)
      → Returns (λ _ w'. IsQuiet w') (process_block x block w)
  unfolding process_block
  process_block-Returns block w time e quiet keys fits before fresh txs distinct =
      let row = block_row block time in
      rw e (
        Returns-resume
          (λ _ w'.
            IsQuiet w'
            × IsIndexed row.hash (row ∷ w.chain.blocks) [] w.chain w'.chain
            × IsConsistent w'.chain)
          _ (exec (upsert_block row) w) _
          (exec-Returns _ _ (upsert_block row) w quiet
            (Returns-state _ IsConsistent (upsert_block row w.chain)
              (Returns-both _ _ (upsert_block row w.chain) (upsert_block-Returns row w.chain fits)
                (upsert_block-IsIndexed x row w.chain before fresh))
              ((upsert_block-IsConsistent row).at w.chain keys))
            (λ _ c (h, k) q. (q, h.1, k)))
          (λ _ w₁ (q₁, i₁, k₁).
            Returns-resume
              (λ _ w'.
                IsQuiet w'
                × Indexes x (row ∷ w.chain.blocks) w.chain row.hash block.txdata [] w'.chain
                × IsConsistent w'.chain)
              _ (index_transactions x row.hash 0 block.txdata [] w₁) _
              (Returns-mono
                (λ ps w'.
                  (IsQuiet w'
                    × Indexes x (row ∷ w.chain.blocks) w.chain row.hash block.txdata [] w'.chain)
                  × IsConsistent w'.chain)
                _ _
                (Returns-state _ (λ w'. IsConsistent w'.chain)
                  (index_transactions x row.hash 0 block.txdata [] w₁)
                  (Returns-both _ _ (index_transactions x row.hash 0 block.txdata [] w₁)
                    (index_transactions-Returns x row.hash 0 block.txdata [] w₁ q₁
                      (rw i₁.blocks (rw ((==_iff row.hash row.hash).1 refl) refl)))
                    (index_transactions-Indexes x (row ∷ w.chain.blocks) w.chain row.hash 0
                      block.txdata [] [] w₁ i₁ txs))
                  ((index_transactions-HasKeys x row.hash 0 block.txdata []).at w₁ k₁))
                (λ _ w' ((q, i), k). (q, i, k)))
              (λ points w₂ (q₂, (new, i₂, _, made), k₂).
                Returns-resume
                  (λ us w'. IsReady (map x.compute_txid block.txdata) (collect us []) w') _
                  (exec (get_relevant_utxos points) w₂) _
                  (exec-Returns _ _ (get_relevant_utxos points) w₂ q₂
                    (get_relevant_utxos-Returns points w₂.chain)
                    (λ us c (same, held) q. record {
                      quiet = q;
                      keys = rw same k₂;
                      backed = rw same (collect-AllBacked us [] w₂.chain.utxos held tt);
                      awaited = rw same (
                          all_awaited x block.txdata row.hash (row ∷ w.chain.blocks) new w.chain
                            w₂.chain keys i₂ txs made);
                    }))
                  (λ us w₃ r₃.
                    process_transactions-Returns x addresses row.number fits block.txdata
                      (collect us []) w₃ distinct r₃))))

  -- Without faults, with the aggregator listening, and on consistent tables that come before its
  -- height, a block with a hash and distinct transactions new to the tables, whose time chrono reads
  -- and whose taproot outputs have addresses, is processed and committed. For each address the
  -- unspent total and the sum of the amounts sent then move alike.
  pub process-Returns :
      (a : Address) (block : BlockInfo) (w : World) (time : ℕ)
      → x.timestamp_opt block.header.time ≡ some time
      → IsQuiet w
      → IsConsistent w.chain
      → block.header.height < 2 ^ 63
      → IsBefore block.header.height w.chain
      → knows w.chain block.header.hash ≡ false
      → AreNew x block.txdata w.chain
      → Distinct (λ id id'. id == id') (map x.compute_txid block.txdata)
      → Returns (λ _ w'. IsQuiet w' × Conserves a w w'.chain w'.sent) (process x block w)
  unfolding process
  process-Returns a block w time e quiet keys fits before fresh txs distinct =
      Returns-both (λ _ w'. IsQuiet w') (λ _ w'. Conserves a w w'.chain w'.sent) (process x block w)
        (in_transaction-Returns (process_block x block) w quiet
          (process_block-Returns block w time e quiet keys fits before fresh txs distinct))
        (Commits-Holds w (λ _ w'. Conserves a w w'.chain w'.sent) (process x block w)
          (process-Conserves x walked a block w))
